-- ===== src/InmemSnapshot/Saved.antt =====
-- inmem_snapshot.go: what was written is read back.
use mathlib.Core.List.{append_assoc, append-nil}
use perf_raft.Prelude.{
  ℕ, ◌+◌, ◌≡◌, String, true, some, List, [], ◌∷◌, ◌++◌, str_eq_iff, length, refl, sym, ap, ap₂,
  subst, ◌∙◌, arith,
}
use perf_raft.Configuration.{Configuration}
use perf_raft.LogStore.{Bytes}
use perf_raft.Replication.{SnapshotMeta}
use perf_raft.InmemSnapshot.{
  InmemSnapshotStore, create, list, open_id, write, write_all, close, cancel,
}

-- The chunks one after the other, and their length.
abbrev pub joined : List Bytes → Bytes
joined [] = []
joined (p ∷ ps) = p ++ joined ps

abbrev pub total : List Bytes → ℕ
total [] = 0
total (p ∷ ps) = length p + total ps

-- The store with this size and these contents.
abbrev filled : InmemSnapshotStore → ℕ → Bytes → InmemSnapshotStore
filled m size contents = record m {
  latest = record m.latest { meta = record m.latest.meta { size = size }; contents = contents };
}

write_all_lem :
    (ps : List Bytes) (m : InmemSnapshotStore)
    → write_all ps m ≡ filled m (m.latest.meta.size + total ps) (m.latest.contents ++ joined ps)
unfolding write_all write
write_all_lem [] m = sym (ap₂ (filled m) (omega arith) (append-nil m.latest.contents))
write_all_lem (p ∷ ps) m =
    write_all_lem ps (write p m)
    ∙ ap₂ (filled m) (omega arith) (append_assoc m.latest.contents p (joined ps))

-- What Create with version 1 leaves.
abbrev fresh : ℕ → ℕ → Configuration → ℕ → String → Bytes → InmemSnapshotStore
fresh index term c i name peers = record {
  latest = record {
    meta = record {
      version = 1;
      id = name;
      index = index;
      term = term;
      peers = peers;
      configuration = c;
      configuration_index = i;
      size = 0;
    };
    contents = [];
  };
  has_snapshot = true;
}

-- A snapshot of version 1 that was created, written in any chunks and closed is the one that is listed,
-- with their length as its size, and is opened by its name with their bytes. The same holds when it was
-- cancelled. The snapshot that was there before is not listed.
pub open_id-write_all :
    (index term : ℕ) (c : Configuration) (i : ℕ) (name : String) (peers : Bytes) (ps : List Bytes)
    (m : InmemSnapshotStore) {k : InmemSnapshotStore}
    → create 1 index term c i name peers m ≡ some k
    → let meta : SnapshotMeta = record {
      version = 1;
      id = name;
      index = index;
      term = term;
      peers = peers;
      configuration = c;
      configuration_index = i;
      size = total ps;
    } in
      (list (close (write_all ps k)) ≡ meta ∷ [])
      × (open_id (close (write_all ps k)) name ≡ some (meta, joined ps))
      × (list (cancel (write_all ps k)) ≡ meta ∷ [])
unfolding create list open_id close cancel
open_id-write_all index term c i name peers ps m {k} h =
    let new : fresh index term c i name peers ≡ k = ground (arith, h) in
    let zero : total ps ≡ 0 + total ps = omega arith in
    let whole : filled (fresh index term c i name peers) (total ps) (joined ps) ≡ write_all ps k =
      ap (λ n. filled (fresh index term c i name peers) n (joined ps)) zero
      ∙ sym (write_all_lem ps (fresh index term c i name peers))
      ∙ ap (write_all ps) new in
    let named = (str_eq_iff name name).1 refl in
    let meta = (filled (fresh index term c i name peers) (total ps) (joined ps)).latest.meta in
    subst
      (λ s. (list s ≡ meta ∷ []) × (open_id s name ≡ some (meta, joined ps)) × (list s ≡ meta ∷ []))
      whole (refl, rw named refl, refl)

-- ===== src/FileSnapshot/Whole.antt =====
-- file_snapshot.go: when a snapshot is seen.
use mathlib.Core.Bool.{false≢true}
use mathlib.Core.List.{append_assoc, append-nil}
use perf_raft.Prelude.{
  ℕ, ◌≡◌, ◌⊎◌, inl, inr, String, Bool, true, false, Option, none, some, List, [], ◌∷◌, ◌++◌, ltb,
  ◌==◌, str_eq, str_eq_iff, length, if◌then◌else◌, refl, ap, subst, ◌∙◌, sym, arith, Bool-cases,
}
use perf_raft.LogStore.{Bytes}
use perf_raft.Vote.{bytes_equal}
use perf_raft.Replication.{SnapshotMeta}
use perf_raft.InmemSnapshot.Saved.{joined}
use perf_raft.FileSnapshot.{
  FileSnapshotMeta, Folder, Directory, FileSnapshotSink, CreateWorks, CloseWorks, eligible,
  change_temporary, remove_temporary, has_temporary, make_folder, put_meta, put_state, move_in,
  create, write, write_all, settle, close, reap_after, reap_snapshots, final_meta, find_folder,
  open_id, open_folder, open_state,
}

bytes_equal_refl : (b : Bytes) → bytes_equal b b ≡ true
unfolding bytes_equal
bytes_equal_refl [] = refl
bytes_equal_refl (x ∷ b) = ground (arith, bytes_equal_refl b)

-- What happens inside a temporary folder is not seen.
eligible-change_temporary :
    (name : String) (g : Folder → Folder) (d : Directory)
    → ((f : Folder) → (g f).temporary ≡ f.temporary)
    → eligible (change_temporary name g d) ≡ eligible d
unfolding eligible change_temporary
eligible-change_temporary name g [] same = refl
eligible-change_temporary name g (f ∷ d) same =
    ground (arith, eligible-change_temporary name g d same, same f)

eligible-remove_temporary :
    (name : String) (d : Directory) → eligible (remove_temporary name d) ≡ eligible d
unfolding eligible remove_temporary
eligible-remove_temporary name [] = refl
eligible-remove_temporary name (f ∷ d) = ground (arith, eligible-remove_temporary name d)

change_temporary_absent :
    (name : String) (g : Folder → Folder) (d : Directory)
    → has_temporary name d ≡ false
    → change_temporary name g d ≡ d
unfolding has_temporary change_temporary
change_temporary_absent name g [] h = refl
change_temporary_absent name g (f ∷ d) h = ground (arith, change_temporary_absent name g d, h)

-- Whatever of the creation works, nothing new is seen.
eligible-create :
    (meta : SnapshotMeta) (works : CreateWorks) (d : Directory)
    → eligible (create meta works d).1 ≡ eligible d
unfolding create make_folder eligible
eligible-create meta works d =
    let made = make_folder meta.id d in
    ground (
      arith,
      eligible-change_temporary meta.id (λ f. record f { meta_file = none }) made (λ f. refl),
      eligible-change_temporary meta.id
          (λ f. record f { meta_file = some (record { meta = meta; crc = [] }) }) made (λ f. refl),
      eligible-change_temporary meta.id (λ f. record f { state_file = some [] })
          (put_meta meta.id (some (record { meta = meta; crc = [] })) made) (λ f. refl),
    )

-- The folder while it is written.
abbrev folder_of : String → Option FileSnapshotMeta → Bytes → Folder
folder_of name m b = record {
  name = name;
  temporary = true;
  is_dir = true;
  meta_file = m;
  state_file = some b;
}

-- In a directory that did not have it the folder is alone.
change_temporary_head :
    (name : String) (g : Folder → Folder) (f : Folder) (d : Directory)
    → f.temporary ≡ true
    → f.name ≡ name
    → has_temporary name d ≡ false
    → change_temporary name g (f ∷ d) ≡ g f ∷ d
unfolding change_temporary
change_temporary_head name g f d hidden named absent =
    let is_it : str_eq f.name name ≡ true = (str_eq_iff f.name name).1 named in
    ground (arith, hidden, is_it, change_temporary_absent name g d absent)

-- What Create gives, if it succeeds.
abbrev Fresh : SnapshotMeta → Directory → Option FileSnapshotSink × Directory → Type 0
Fresh meta d (none, k) = Unit
Fresh meta d (some s, k) =
    (meta.version ≡ 1)
    × (s ≡ record { meta = meta; contents = []; closed = false })
    × (k ≡ folder_of meta.id (some (record { meta = meta; crc = [] })) [] ∷ d)

create-Fresh :
    (meta : SnapshotMeta) (works : CreateWorks) (d : Directory)
    → has_temporary meta.id d ≡ false
    → Fresh meta d (create meta works d)
unfolding create make_folder
create-Fresh meta works d absent =
    let empty : Folder = record {
      name = meta.id;
      temporary = true;
      is_dir = true;
      meta_file = none;
      state_file = none;
    } in
    let first : FileSnapshotMeta = record { meta = meta; crc = [] } in
    let with_meta =
      change_temporary_head meta.id (λ f. record f { meta_file = some first }) empty d refl refl
        absent in
    let with_state =
      change_temporary_head meta.id (λ f. record f { state_file = some [] })
        (record empty { meta_file = some first }) d refl refl absent in
    elim (Bool-cases (meta.version == 1)) [
      | inr e ↦ rw e tt
      | inl e ↦
          rw (e, absent)
            (elim (Bool-cases works.made) [
              | inr f ↦ rw f tt
              | inl f ↦ rw f (elim (Bool-cases works.meta_written) [
                | inr g ↦ rw g tt
                | inl g ↦ rw g (elim (Bool-cases works.state_created) [
                  | inr h ↦ rw h tt
                  | inl h ↦
                      rw h
                        (ground (arith, e), refl, ap (put_state meta.id []) with_meta ∙ with_state)
                ])
              ])
            ])
    ]

write_all_lem :
    (bs : List Bytes) (s : FileSnapshotSink)
    → write_all bs s ≡ record s { contents = s.contents ++ joined bs }
unfolding write_all write
write_all_lem [] s = ap (λ c. record s { contents = c }) (sym (append-nil s.contents))
write_all_lem (b ∷ bs) s =
    write_all_lem bs (write b s)
    ∙ ap (λ c. record s { contents = c }) (append_assoc s.contents b (joined bs))

module _ (before : String → String → Bool) (retain : ℕ) (crc : Bytes → Bytes) where
  -- The snapshot is seen beside the others, and is opened with the bytes that were written.
  abbrev pub SeenWhole : SnapshotMeta → Bytes → Directory → Directory → Type 0
  SeenWhole meta b d k =
      let whole = record meta { size = length b } in
      (eligible k ≡ record { meta = whole; crc = crc b } ∷ eligible d)
      × (open_id before retain crc meta.id k ≡ some (whole, b))

  reap_after_lem :
      (removed : ℕ) (r : Bool × Directory)
      → (reap_after before retain crc removed r).1
        ≡ (if r.0 then (reap_snapshots before retain crc removed r.1).1 else r.1)
  unfolding reap_after
  reap_after_lem removed (true, d) = refl
  reap_after_lem removed (false, d) = refl

  -- Close is what comes before the reaping, and then the reaping.
  close_settles :
      (s : FileSnapshotSink) (ends : CloseWorks) (d : Directory)
      → s.closed ≡ false
      → let r = settle before retain crc s ends d in
        (close before retain crc s ends d).2
        ≡ (if r.0 then (reap_snapshots before retain crc ends.removed r.1).1 else r.1)
  unfolding close
  close_settles s ends d unclosed =
      rw unclosed (reap_after_lem ends.removed (settle before retain crc s ends d))

  abbrev Settled : SnapshotMeta → Bytes → Directory → Bool × Directory → Type 0
  Settled meta b d (ok, k) =
      (ok ≡ true → SeenWhole meta b d k) × ((eligible k ≡ eligible d) ⊎ SeenWhole meta b d k)

  settle-Settled :
      (meta : SnapshotMeta) (b : Bytes) (works : CloseWorks) (d : Directory)
      → meta.version ≡ 1
      → has_temporary meta.id d ≡ false
      → Settled meta b d (
          settle before retain crc
            (record { meta = meta; contents = b; closed = false })
            works
            (folder_of meta.id (some (record { meta = meta; crc = [] })) [] ∷ d))
  unfolding settle final_meta eligible find_folder open_id open_folder open_state remove_temporary
  settle-Settled meta b works d version absent =
      let first : Option FileSnapshotMeta = some (record { meta = meta; crc = [] }) in
      let last : Option FileSnapshotMeta =
        some (record { meta = record meta { size = length b }; crc = crc b }) in
      let flushed =
        change_temporary_head meta.id (λ f. record f { state_file = some b })
          (folder_of meta.id first []) d refl refl absent in
      let broken =
        change_temporary_head meta.id (λ f. record f { meta_file = none })
          (folder_of meta.id first b) d refl refl absent in
      let whole =
        change_temporary_head meta.id (λ f. record f { meta_file = last })
          (folder_of meta.id first b) d refl refl absent in
      let moved =
        change_temporary_head meta.id (λ f. record f { temporary = false })
          (folder_of meta.id last b) d refl refl absent in
      let all_meta = ap (put_meta meta.id last) flushed ∙ whole in
      elim (Bool-cases works.flushed) [
        | inr e ↦ rw e (
          λ h. absurd (false≢true h),
          inl (eligible-remove_temporary meta.id (folder_of meta.id first [] ∷ d)),
        )
        | inl e ↦ rw e (elim (Bool-cases works.meta_written) [
          | inr f ↦ rw f (
              unseen (folder_of meta.id none b) _ refl
                (ap (put_meta meta.id none) flushed ∙ broken))
          | inl f ↦ rw f (elim (Bool-cases works.moved) [
            | inr g ↦ rw g (unseen (folder_of meta.id last b) _ refl all_meta)
            | inl g ↦
                rw g (let s = seen _ (ap (move_in meta.id) all_meta ∙ moved) in ((λ h. s), inr s))
          ])
        ])
      ]
    where
      unseen :
          (f : Folder) (k : Directory)
          → f.temporary ≡ true
          → k ≡ f ∷ d
          → Settled meta b d (false, k)
      unseen f k hidden e =
          (λ h. absurd (false≢true h), inl (ap eligible e ∙ ground (arith, hidden)))

      seen :
          (k : Directory)
          → k
            ≡ record {
              name = meta.id;
              temporary = false;
              is_dir = true;
              meta_file = some (record { meta = record meta { size = length b }; crc = crc b });
              state_file = some b;
            }
              ∷ d
          → SeenWhole meta b d k
      seen k e =
          let known : ltb 1 meta.version ≡ false = ground (arith, version) in
          let named : str_eq meta.id meta.id ≡ true = (str_eq_iff meta.id meta.id).1 refl in
          (
            ap eligible e ∙ rw known refl,
            ap (open_id before retain crc meta.id) e ∙ rw (named, bytes_equal_refl (crc b)) refl,
          )

  -- Create of a snapshot under a new name, Write in any chunks, and Close, which reaps old snapshots only
  -- after all else went without an error: wherever Create fails, the snapshots that are seen are the same
  -- as before. When Create has succeeded and Close gets to the reaping, the new snapshot is seen by then
  -- beside the others and opened with the bytes that were written and their number as its size; wherever
  -- Close fails before, the snapshots that are seen are the same, or the new one is seen beside them, and
  -- whole.
  pub settle-AllOrNothing :
      (meta : SnapshotMeta) (works : CreateWorks) (chunks : List Bytes) (ends : CloseWorks)
      (d : Directory)
      → has_temporary meta.id d ≡ false
      → let made = create meta works d in
        (eligible made.1 ≡ eligible d)
        × ((s : FileSnapshotSink)
            → made.0 ≡ some s
            → let r = settle before retain crc (write_all chunks s) ends made.1 in
              (r.0 ≡ true → SeenWhole meta (joined chunks) d r.1)
              × ((eligible r.1 ≡ eligible d) ⊎ SeenWhole meta (joined chunks) d r.1)
              × ((close before retain crc (write_all chunks s) ends made.1).2
                  ≡ (if r.0 then (reap_snapshots before retain crc ends.removed r.1).1 else r.1)))
  settle-AllOrNothing meta works chunks ends d absent =
      (eligible-create meta works d, λ s e. written s e)
    where
      k : Directory
      k = (create meta works d).1

      written :
          (s : FileSnapshotSink)
          → (create meta works d).0 ≡ some s
          → let r = settle before retain crc (write_all chunks s) ends k in
            (r.0 ≡ true → SeenWhole meta (joined chunks) d r.1)
            × ((eligible r.1 ≡ eligible d) ⊎ SeenWhole meta (joined chunks) d r.1)
            × ((close before retain crc (write_all chunks s) ends k).2
                ≡ (if r.0 then (reap_snapshots before retain crc ends.removed r.1).1 else r.1))
      written s e =
          let f : Fresh meta d (some s, k) =
            subst (λ o. Fresh meta d (o, k)) e (create-Fresh meta works d absent) in
          let filled =
            write_all_lem chunks s
            ∙ ap (λ (j : FileSnapshotSink). record j { contents = j.contents ++ joined chunks })
                f.1 in
          let settled = settle-Settled meta (joined chunks) ends d f.0 absent in
          let same =
            subst (λ j. Settled meta (joined chunks) d (settle before retain crc j ends k))
              (sym filled)
              (subst
                (λ j. Settled meta (joined chunks) d (
                  settle before retain crc
                    (record { meta = meta; contents = joined chunks; closed = false }) ends j))
                (sym f.2) settled) in
          (
            same.0,
            same.1,
            close_settles (write_all chunks s) ends k
                (ap (λ (j : FileSnapshotSink). j.closed) filled),
          )

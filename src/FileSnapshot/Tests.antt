-- ===== src/FileSnapshot/Tests.antt =====
-- A store on disk with one snapshot, beside which another one is made, and one that retains a single one.
use perf_raft.Prelude.{
  ℕ, ◌<◌, ◌≤◌, ◌≡◌, ◌⊎◌, inl, inr, String, true, false, Option, some, if◌then◌else◌, [], ◌∷◌, map,
  refl, Elem, Distinct, str_eq_iff,
}
use mathlib.Core.Bool.{false≢true}
use perf_raft.LogStore.{Bytes}
use perf_raft.Replication.{SnapshotMeta}
use perf_raft.FileSnapshot.{
  FileSnapshotMeta, Folder, Directory, FileSnapshotSink, CreateWorks, CloseWorks, create,
  has_temporary, settle, close, write_all, eligible, reap_snapshots,
}
use perf_raft.FileSnapshot.Whole.{SeenWhole, settle-AllOrNothing}
use perf_raft.FileSnapshot.Newest.{id_of, count_newer}
use perf_raft.FileSnapshot.Names.{str_lt, str_lt-IsOrder}
use perf_raft.FileSnapshot.Reaped.{reap_snapshots-count_newer}
use perf_raft.Samples.{three}

abbrev meta_of : String → ℕ → ℕ → SnapshotMeta
meta_of id index size = record {
  version = 1;
  id = id;
  index = index;
  term = 1;
  peers = [];
  configuration = three;
  configuration_index = 1;
  size = size;
}

abbrev folder : String → ℕ → Folder
folder id index = record {
  name = id;
  temporary = false;
  is_dir = true;
  meta_file = some (record { meta = meta_of id index 1; crc = 9 ∷ [] });
  state_file = some (9 ∷ []);
}

abbrev on_disk : Directory
on_disk = folder "1-4" 4 ∷ []

-- The content is its own checksum.
abbrev checksum : Bytes → Bytes
checksum b = b

abbrev created : CreateWorks
created = record { made = true; meta_written = true; state_created = true }

abbrev closed : CloseWorks
closed = record { flushed = true; meta_written = true; moved = true; synced = true; removed = 3 }

absent : has_temporary "1-7" on_disk ≡ false
unfolding has_temporary
absent = refl

abbrev made : Option FileSnapshotSink × Directory
made = create (meta_of "1-7" 7 0) created on_disk

settle-AllOrNothing_example :
    (eligible made.1 ≡ eligible on_disk)
    × ((s : FileSnapshotSink)
        → made.0 ≡ some s
        → let r = settle str_lt 1 checksum (write_all ((5 ∷ []) ∷ (6 ∷ []) ∷ []) s) closed made.1 in
          (r.0 ≡ true → SeenWhole str_lt 1 checksum (meta_of "1-7" 7 0) (5 ∷ 6 ∷ []) on_disk r.1)
          × ((eligible r.1 ≡ eligible on_disk)
              ⊎ SeenWhole str_lt 1 checksum (meta_of "1-7" 7 0) (5 ∷ 6 ∷ []) on_disk r.1)
          × ((close str_lt 1 checksum (write_all ((5 ∷ []) ∷ (6 ∷ []) ∷ []) s) closed made.1).2
              ≡ (if r.0 then (reap_snapshots str_lt 1 checksum 3 r.1).1 else r.1)))
settle-AllOrNothing_example =
    settle-AllOrNothing str_lt 1 checksum (meta_of "1-7" 7 0) created ((5 ∷ []) ∷ (6 ∷ []) ∷ [])
      closed on_disk absent

abbrev two_on_disk : Directory
two_on_disk = folder "1-7" 7 ∷ folder "1-4" 4 ∷ []

abbrev newest : FileSnapshotMeta
newest = record { meta = meta_of "1-7" 7 1; crc = 9 ∷ [] }

distinct : Distinct (map id_of (eligible two_on_disk))
unfolding eligible
distinct = (
  (λ e. elim e [ inl x ↦ absurd (false≢true ((str_eq_iff "1-4" "1-7").1 x)) | inr x ↦ absurd x ]),
  ((λ x. x), tt),
)

reap_snapshots-count_newer_example :
    let r = reap_snapshots str_lt 1 checksum 1 two_on_disk in
    (count_newer str_lt newest (eligible two_on_disk) < 1 → Elem newest (eligible r.1))
    × (r.0 ≡ true
        → 1 ≤ count_newer str_lt newest (eligible two_on_disk)
        → ¬ Elem newest (eligible r.1))
unfolding eligible
reap_snapshots-count_newer_example =
    reap_snapshots-count_newer str_lt 1 checksum 1 two_on_disk str_lt-IsOrder
      ((λ m e. cc), ((λ m e. cc), tt)) distinct newest (inl refl)

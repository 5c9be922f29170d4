-- ===== src/InmemSnapshot/Tests.antt =====
-- A snapshot of three bytes, written in two chunks.
use perf_raft.Prelude.{String, true, false, some, ◌≡◌, [], ◌∷◌, refl}
use perf_raft.Replication.{SnapshotMeta}
use perf_raft.InmemSnapshot.{InmemSnapshotStore, create, list, open_id, write_all, close, cancel}
use perf_raft.InmemSnapshot.Saved.{open_id-write_all}
use perf_raft.Samples.{three}

abbrev meta_of : String → SnapshotMeta
meta_of id = record {
  version = 1;
  id = id;
  index = 4;
  term = 2;
  peers = [];
  configuration = three;
  configuration_index = 1;
  size = 0;
}

abbrev empty : InmemSnapshotStore
empty = record {
  latest = record {
    meta = record (meta_of "") { version = 0; index = 0; term = 0 };
    contents = [];
  };
  has_snapshot = false;
}

abbrev begun : InmemSnapshotStore
begun = record { latest = record { meta = meta_of "2-4"; contents = [] }; has_snapshot = true }

created : create 1 4 2 three 1 "2-4" [] empty ≡ some begun
unfolding create
created = refl

open_id-write_all_example :
    let meta : SnapshotMeta = record (meta_of "2-4") { size = 3 } in
    let written = write_all ((7 ∷ []) ∷ (8 ∷ 9 ∷ []) ∷ []) begun in
    (list (close written) ≡ meta ∷ [])
    × (open_id (close written) "2-4" ≡ some (meta, 7 ∷ 8 ∷ 9 ∷ []))
    × (list (cancel written) ≡ meta ∷ [])
open_id-write_all_example =
    open_id-write_all 4 2 three 1 "2-4" [] ((7 ∷ []) ∷ (8 ∷ 9 ∷ []) ∷ []) empty {k = begun} created

-- ===== src/InmemSnapshot.antt =====
-- inmem_snapshot.go: the snapshot store in memory. The sink that Create gives is the store's latest
-- snapshot itself, so that what is written to it is written to the store; sinks that a later Create has
-- replaced are left out. The name, which depends on the clock, and the encoded peers are given.
pub mod Saved
mod Tests
use perf_raft.Prelude.{
  ℕ, ◌+◌, String, Bool, true, false, not, Option, none, some, List, [], ◌∷◌, ◌++◌, ◌==◌,
  if◌then◌else◌, str_eq, length,
}
use perf_raft.Configuration.{Configuration}
use perf_raft.LogStore.{Bytes}
use perf_raft.Replication.{SnapshotMeta}

pub record InmemSnapshotSink : Type 0 where
  pub meta : SnapshotMeta
  pub contents : Bytes

pub record InmemSnapshotStore : Type 0 where
  pub latest : InmemSnapshotSink
  pub has_snapshot : Bool

pub create :
    ℕ → ℕ → ℕ → Configuration → ℕ → String → Bytes → InmemSnapshotStore → Option InmemSnapshotStore
create version index term configuration configuration_index name peers m =
    if not (version == 1)
    then none
    else some (record {
      latest = record {
        meta = record {
          version = version;
          id = name;
          index = index;
          term = term;
          peers = peers;
          configuration = configuration;
          configuration_index = configuration_index;
          size = 0;
        };
        contents = [];
      };
      has_snapshot = true;
    })

pub list : InmemSnapshotStore → List SnapshotMeta
list m = if not m.has_snapshot then [] else m.latest.meta ∷ []

pub open_id : InmemSnapshotStore → String → Option (SnapshotMeta × Bytes)
open_id m id =
    if not (str_eq m.latest.meta.id id) then none else some (m.latest.meta, m.latest.contents)

pub write : Bytes → InmemSnapshotStore → InmemSnapshotStore
write p m = record m {
  latest = record m.latest {
    meta = record m.latest.meta { size = m.latest.meta.size + length p };
    contents = m.latest.contents ++ p;
  };
}

pub write_all : List Bytes → InmemSnapshotStore → InmemSnapshotStore
unfolding write
write_all [] m = m
write_all (p ∷ ps) m = write_all ps (write p m)

-- Close and Cancel of the sink.
pub close : InmemSnapshotStore → InmemSnapshotStore
close m = m

pub cancel : InmemSnapshotStore → InmemSnapshotStore
cancel m = m

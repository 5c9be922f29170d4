-- ===== src/Recover/Tests.antt =====
-- A server with two entries in its log is recovered with a configuration of two servers.
use perf_raft.Prelude.{ℕ, ◌+◌, ◌≡◌, true, none, some, Option, [], ◌∷◌, refl, ap, arith}
use perf_raft.Configuration.{check_configuration, check_servers, contains}
use perf_raft.LogStore.{Bytes}
use perf_raft.InmemStore.{
  InmemStore, as_log_store, as_stable_store, first_index, last_index, get_log, find_log, get_uint64,
  delete_range, cut_range, raise_low, lower_high, reset_empty, lookup,
}
use perf_raft.Node.{Node}
use perf_raft.Process.{next}
use perf_raft.Start.{SnapshotMeta, new_raft}
use perf_raft.Start.Snapshotted.{StartedFrom}
use perf_raft.Bootstrap.{has_existing_state, state_of}
use perf_raft.Fsm.{StateMachine}
use perf_raft.Recover.{
  Sealed, Sealing, restore_newest, replay_entry, replay_logs, compacted, compact, seal, replayed,
  from_snapshot, with_snapshots, on_existing, recover_cluster,
}
use perf_raft.InmemStore.Logs.{inmem_log_laws}
use perf_raft.Recover.Rebuilt.{IsRebuilt, recover_cluster-IsRebuilt}
use perf_raft.Recover.Restart.{EmptiesWhole, ListedAs, new_raft-recover_cluster}
use perf_raft.Samples.{sample_env, sample_store, sample_stable, two}

-- It counts the entries that it was given.
abbrev counter : StateMachine
counter = record {
  S = ℕ;
  R = ℕ;
  apply_log = λ s l. (s, s + 1);
  apply_logs = none;
  store_configuration = none;
  take = λ s. some (s ∷ []);
  restore_from = λ s b. some 0;
}

abbrev no_contents : SnapshotMeta → Option Bytes
no_contents snap = none

abbrev all_well : Sealing
all_well = record { created = true; persisted = true; closed = true }

abbrev snapshot : Sealed
snapshot = record {
  version = 1;
  index = 2;
  term = 1;
  configuration = two;
  configuration_index = 1;
  payload = 2 ∷ [];
}

abbrev listed : SnapshotMeta
listed = record {
  version = 1;
  index = 2;
  term = 1;
  peers = [];
  configuration = two;
  configuration_index = 1;
  restores = true;
}

sound : check_configuration two ≡ none
unfolding check_configuration check_servers contains
sound = refl

recovers :
    recover_cluster as_stable_store as_log_store sample_env counter no_contents true
      (some [])
      all_well
      two
      0
      sample_stable
      sample_store
    ≡ record { error = none; sealed = some snapshot; logs = cut_range sample_store 1 2 }
unfolding recover_cluster on_existing with_snapshots from_snapshot replayed seal compact compacted
    restore_newest replay_entry replay_logs has_existing_state state_of get_uint64 lookup last_index
    first_index get_log find_log delete_range
recovers = rw sound refl

recover_cluster-IsRebuilt_example :
    IsRebuilt as_stable_store as_log_store sample_env counter no_contents two 0 [] sample_store (
      recover_cluster as_stable_store as_log_store sample_env counter no_contents true
        (some [])
        all_well
        two
        0
        sample_stable
        sample_store)
recover_cluster-IsRebuilt_example =
    recover_cluster-IsRebuilt as_stable_store as_log_store sample_env counter no_contents
      inmem_log_laws true [] all_well two 0 sample_stable sample_store (ap (λ r. r.error) recovers)

empties_whole : EmptiesWhole as_log_store
unfolding delete_range cut_range raise_low lower_high reset_empty last_index first_index
empties_whole l first last at till positive ordered small ok = ground (arith, at, till)

listed_as : ListedAs snapshot listed
listed_as = record {
  version = refl;
  index = refl;
  term = refl;
  configuration = refl;
  configuration_index = refl;
  restores = refl;
}

first_at : as_log_store.first_index sample_store ≡ some 1
unfolding first_index
first_at = refl

last_at : as_log_store.last_index sample_store ≡ some 2
unfolding last_index
last_at = refl

new_raft-recover_cluster_example :
    (n : Node InmemStore InmemStore) × (new_raft as_stable_store as_log_store sample_env
        (some (listed ∷ []))
        sample_stable
        (recover_cluster as_stable_store as_log_store sample_env counter no_contents true
          (some [])
          all_well
          two
          0
          sample_stable
          sample_store).logs
      ≡ next n)
    × StartedFrom listed 1 n
    × (n.configurations.latest ≡ two)
    × (n.configurations.latest_index ≡ 1)
    × (n.configurations.committed ≡ two)
    × (n.configurations.committed_index ≡ 1)
unfolding get_uint64 lookup
new_raft-recover_cluster_example =
    new_raft-recover_cluster as_stable_store as_log_store empties_whole sample_env counter
      no_contents true [] all_well two 0 sample_stable sample_store listed []
      (ap (λ r. r.error) recovers) (ap (λ r. r.sealed) recovers) listed_as first_at last_at
      (omega arith) (omega arith) (omega arith) refl refl

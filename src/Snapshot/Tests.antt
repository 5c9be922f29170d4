-- ===== src/Snapshot/Tests.antt =====
-- A snapshot of the first of two entries, and one from a leader, on stores in memory.
use perf_raft.Prelude.{
  arith, ◌⊎◌, ℕ, ◌+◌, ◌≤◌, ◌<◌, ◌≡◌, ◌≢◌, ◌⊎◌, true, false, none, some, [], refl,
}
use perf_raft.LogStore.{found, not_found}
use perf_raft.InmemStore.{
  InmemStore, as_log_store, as_stable_store, first_index, get_log, find_log, delete_range,
}
use perf_raft.InmemStore.Logs.{inmem_log_laws}
use perf_raft.Node.{get_last_index, set_last_log, set_last_snapshot}
use perf_raft.Replication.{InstallSnapshotRequest, SnapshotMeta, setup_append_entries, min}
use perf_raft.Snapshot.{
  Installing, take_snapshot, compact_logs, compact_logs_with_trailing, compacted, trim,
  install_snapshot,
}
use perf_raft.Snapshot.Compact.{take_snapshot-Taken}
use perf_raft.Snapshot.Install.{AllOrNothing, install_snapshot-AllOrNothing}
use perf_raft.Snapshot.UserRestore.{
  done, with_sink, adopt_user_snapshot, restore_user_snapshot, IsBurned, restore_user_snapshot_lem,
}
use perf_raft.Leader.{Leader}
use perf_raft.Append.{AppendEntriesRequest}
use perf_raft.Samples.{header_of, sample_env, sample_node, sample_store, three}

taken :
    (take_snapshot as_stable_store as_log_store 1 (some (1, 1)) true true true sample_node).0 ≡ none
unfolding take_snapshot compact_logs compact_logs_with_trailing compacted trim first_index min
    delete_range
taken = refl

take_snapshot-Taken_example :
    let m =
      (take_snapshot as_stable_store as_log_store 1 (some (1, 1)) true true true sample_node).1 in
    (0 ≤ 1)
    × (m.last_snapshot_index ≡ 1)
    × (m.last_snapshot_term ≡ 1)
    × ((i : ℕ)
        → (1 < i) ⊎ (2 < i + 1)
        → as_log_store.get_log m.logs i ≡ as_log_store.get_log sample_store i)
take_snapshot-Taken_example =
    take_snapshot-Taken as_log_store inmem_log_laws as_stable_store 1 1 1 true true true sample_node
      taken

abbrev from_leader : InstallSnapshotRequest
from_leader = record {
  header = header_of "b" 2;
  snapshot_version = 1;
  term = 2;
  leader = [];
  last_log_index = 9;
  last_log_term = 2;
  peers = [];
  configuration = [];
  configuration_index = 4;
  size = 5;
}

abbrev whole : Installing
whole = record { created = true; copied = some 5; closed = true; restored = true }

install_snapshot-AllOrNothing_example :
    AllOrNothing as_stable_store as_log_store inmem_log_laws sample_env 1 false 9 from_leader
      sample_node
      (install_snapshot as_stable_store as_log_store sample_env 1 false 9 from_leader whole
        sample_node)
install_snapshot-AllOrNothing_example =
    install_snapshot-AllOrNothing as_stable_store as_log_store inmem_log_laws sample_env 1 false 9
      from_leader whole sample_node

abbrev leading : Leader InmemStore InmemStore
leading = record {
  node = sample_node;
  commitment = record { commit_ch = false; match_indexes = []; commit_index = 0; start_index = 1 };
  inflight = [];
  replicas = [];
}

abbrev backup : SnapshotMeta
backup = record {
  version = 1;
  id = "backup";
  index = 8;
  term = 1;
  peers = [];
  configuration = three;
  configuration_index = 1;
  size = 5;
}

abbrev after_restore : Leader InmemStore InmemStore
after_restore = record leading {
  node = record sample_node {
    last_log_index = 9;
    last_applied = 9;
    last_snapshot_index = 9;
    last_snapshot_term = 1;
  };
}

restored_backup :
    restore_user_snapshot as_stable_store as_log_store false backup whole leading
    ≡ done none after_restore
unfolding restore_user_snapshot with_sink adopt_user_snapshot set_last_log set_last_snapshot
    get_last_index
restored_backup = refl

nothing_there : as_log_store.get_log sample_store 9 ≡ not_found
unfolding get_log find_log
nothing_there = refl

restore_user_snapshot_lem_example :
    IsBurned as_stable_store as_log_store false leading after_restore 9
    × (2 < 9)
    × (8 < 9)
    × ((9 ≡ 2 + 1) ⊎ (9 ≡ 8 + 1))
    × (as_log_store.get_log sample_store 9 ≡ not_found
        → (term next last : ℕ) → next ≤ 9
        → 9 < next + 64
        → 9 ≤ last
        → (req : AppendEntriesRequest)
        → setup_append_entries as_stable_store as_log_store sample_env 64 after_restore.node term
            next last
          ≢ found req)
unfolding get_last_index
restore_user_snapshot_lem_example =
    restore_user_snapshot_lem as_stable_store as_log_store false sample_env 64 backup whole leading
      {m = after_restore} restored_backup refl (omega arith) (omega arith)

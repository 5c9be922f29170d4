-- ===== src/Append/Tests.antt =====
-- appendEntries of raft.go on a log of two entries, the second of which the leader has too.
use perf_raft.Prelude.{[], ◌∷◌, arith}
use perf_raft.InmemStore.{as_log_store, as_stable_store}
use perf_raft.InmemStore.Logs.{inmem_log_laws}
use perf_raft.Append.{AppendEntriesRequest, append_entries}
use perf_raft.Append.Entries.{RisingFrom}
use perf_raft.Append.Success.{Succeeded, append_entries-Succeeded}
use perf_raft.Samples.{command_at, header_of, sample_env, sample_node, sample_store}

abbrev from_leader : AppendEntriesRequest
from_leader = record {
  header = header_of "b" 2;
  term = 2;
  leader = [];
  prev_log_entry = 1;
  prev_log_term = 1;
  entries = command_at 2 ∷ command_at 3 ∷ [];
  leader_commit_index = 2;
}

rising : RisingFrom 2 from_leader.entries
rising = (omega arith, (omega arith, tt))

append_entries-Succeeded_example :
    Succeeded as_log_store sample_store 2 from_leader.entries
      (append_entries as_stable_store as_log_store sample_env 64 9 sample_node from_leader)
append_entries-Succeeded_example =
    append_entries-Succeeded as_stable_store as_log_store inmem_log_laws sample_env 64 9 sample_node
      from_leader 2 rising

-- ===== src/Leader/Tests.antt =====
-- A leader of three servers with two entries in its log takes a command and a change of the servers.
use perf_raft.Prelude.{some, List, ◌<◌, true, false, none, ◌≡◌, [], ◌∷◌, refl, arith}
use perf_raft.Configuration.{
  ConfigurationChangeRequest, remove_server, next_configuration, change_servers, remove_first,
  checked, check_configuration, check_servers, contains,
}
use perf_raft.Commitment.{
  new_commitment, get_commit_index, match, advance, recalculate, lookup, put, values, sort, insert,
  get_or_zero, quorum_match_index, set_configuration, voter_indexes, or_zero,
}
use perf_raft.LogStore.{LogStore}
use perf_raft.InmemStore.{InmemStore, as_log_store, as_stable_store}
use perf_raft.InmemStore.Logs.{inmem_log_laws}
use perf_raft.Node.{leader, set_latest_configuration}
use perf_raft.Leader.{
  Leader, dispatch_logs, append_changed, append_configuration_entry, adopt_configuration,
  start_stop_replication,
}
use perf_raft.Leader.Reign.{begin_reign, Begun, begin_reign-Begun}
use perf_raft.Leader.Dispatch.{Dispatched, dispatch_logs-Dispatched}
use perf_raft.Leading.Serving.{Serving, change}
use perf_raft.Leading.Serving.Pending.{
  Event, NeverCommits-StaysBelow, is_called, hears_of, commits, after_event, NoneTaken,
  append_configuration_entry-NoneTaken,
}
use perf_raft.Samples.{command_at, sample_env, sample_node, three}

abbrev leading : Leader InmemStore InmemStore
leading = record {
  node = record sample_node { state = leader };
  commitment = new_commitment false three 3;
  inflight = [];
  replicas = [];
}

dispatched :
    (dispatch_logs as_stable_store as_log_store sample_env leading 9 (command_at 7 ∷ [])).0 ≡ true
unfolding dispatch_logs
dispatched = refl

dispatch_logs-Dispatched_example :
    Dispatched as_stable_store as_log_store inmem_log_laws sample_env leading
      (dispatch_logs as_stable_store as_log_store sample_env leading 9 (command_at 7 ∷ [])).1
      (command_at 7 ∷ [])
dispatch_logs-Dispatched_example =
    dispatch_logs-Dispatched as_stable_store as_log_store inmem_log_laws sample_env leading 9
      (command_at 7 ∷ []) dispatched

abbrev removal : ConfigurationChangeRequest
removal = record { command = remove_server; server_id = "b"; server_address = ""; prev_index = 0 }

accepted :
    (append_configuration_entry as_stable_store as_log_store sample_env leading 9 removal).1 ≡ none
unfolding append_configuration_entry append_changed next_configuration change_servers remove_first
    checked check_configuration check_servers contains
accepted = refl

-- While the change is outstanding, another one is asked for, a voter answers, and the commit branch is
-- taken.
abbrev serving_one : Serving InmemStore InmemStore
serving_one = record { leader = leading; transferring = false; stepping_down = false }

abbrev later : List Event
later = is_called (change removal) ∷ hears_of "c" 3 ∷ is_called (change removal) ∷ []

abbrev changed_leader : Leader InmemStore InmemStore
changed_leader =
    (append_configuration_entry as_stable_store as_log_store sample_env leading 9 removal).0

below : get_commit_index changed_leader.commitment < changed_leader.node.configurations.latest_index
unfolding append_configuration_entry append_changed adopt_configuration start_stop_replication
    dispatch_logs next_configuration change_servers remove_first checked check_configuration
    check_servers contains get_commit_index match advance recalculate lookup put values sort insert
    get_or_zero quorum_match_index set_configuration voter_indexes or_zero new_commitment
    set_latest_configuration
below = omega arith

append_configuration_entry-NoneTaken_example :
    let k = changed_leader.node.configurations in
    (k.committed_index < k.latest_index)
    × NoneTaken as_stable_store as_log_store sample_env 64 false true 9 k
        (commits ∷ later)
        (some (record serving_one { leader = changed_leader }))
append_configuration_entry-NoneTaken_example =
    append_configuration_entry-NoneTaken as_stable_store as_log_store sample_env 64 false true 9
      serving_one removal (commits ∷ later) (omega arith) accepted
      (
        below,
        NeverCommits-StaysBelow as_stable_store as_log_store sample_env 64 false true 9
            changed_leader.node.configurations.latest_index later
            (after_event as_stable_store as_log_store sample_env 64 false true 9
              (record serving_one { leader = changed_leader }) commits)
            tt,
      )

-- A log store that cannot write.
abbrev full_store : LogStore
full_store = record as_log_store { store_logs = λ s logs. (false, s) }

begins : (begin_reign as_stable_store as_log_store sample_env leading.node 9).0 ≡ true
unfolding begin_reign dispatch_logs
begins = refl

begin_reign-Begun_example :
    Begun as_stable_store as_log_store sample_env leading.node 9
      (begin_reign as_stable_store as_log_store sample_env leading.node 9).1
begin_reign-Begun_example =
    begin_reign-Begun as_stable_store as_log_store sample_env leading.node 9 begins

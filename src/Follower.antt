-- ===== src/Follower.antt =====
-- runFollower of raft.go when its timer fires, and the two ways an RPC takes: processRPC on the main
-- thread, and processHeartbeat beside it. The answers to clients are in Leading.Serving.
pub mod Standing
pub mod Terms
mod Tests
use perf_raft.Prelude.{ℕ, ◌-◌, Bool, true, false, not, ◌&&◌, List, [], ltb, ◌==◌, if◌then◌else◌}
use perf_raft.Configuration.{has_vote}
use perf_raft.LogStore.{LogStore, StableStore}
use perf_raft.Node.{
  Node, Env, RpcHeader, Outcome, returned, panicked, candidate, set_state, set_leader, timeout_now,
}
use perf_raft.Options.{Config, check_rpc_header}
use perf_raft.Vote.{
  RequestVoteRequest, RequestVoteResponse, RequestPreVoteRequest, RequestPreVoteResponse,
  request_vote, request_pre_vote,
}
use perf_raft.Append.{AppendEntriesRequest, AppendReply, append_entries}
use perf_raft.Replication.{InstallSnapshotRequest}
use perf_raft.Snapshot.{Installing, InstallReply, install_snapshot}

-- The heartbeat timer: after too long without contact the leader is forgotten, and a voter stands for
-- election. Time does not run backwards.
unfoldable pub heartbeat_timeout :
    {St Lg : Type 0} → Env → (timeout : ℕ) (now : ℕ) → Node St Lg → Node St Lg
unfolding set_leader set_state
heartbeat_timeout env timeout now n =
    if ltb (now - n.last_contact) timeout
    then n
    else (let m = set_leader n "" "" in
        if m.configurations.latest_index == 0
        then m
        else if (m.configurations.latest_index == m.configurations.committed_index)
            && not (has_vote m.configurations.latest env.local_id)
        then m
        else if has_vote m.configurations.latest env.local_id
        then set_state m candidate
        else m)

-- What an RPC asks for; with a snapshot, what others answer while it is installed.
pub data Command : Type 0 where
  append_entries_asked : AppendEntriesRequest → Command
  request_vote_asked : RequestVoteRequest → Command
  request_pre_vote_asked : RequestPreVoteRequest → Command
  install_snapshot_asked : InstallSnapshotRequest → Installing → Command
  timeout_now_asked : RpcHeader → Command
  unexpected : RpcHeader → Command

pub data Reply : Type 0 where
  appended : AppendReply → Reply
  voted : RequestVoteResponse → Reply
  pre_voted : RequestPreVoteResponse → Reply
  installed : InstallReply → Reply
  will_stand : Reply
  bad_header : Reply
  bad_command : Reply

unfoldable pub header_of : Command → RpcHeader
header_of (append_entries_asked a) = a.header
header_of (request_vote_asked req) = req.header
header_of (request_pre_vote_asked req) = req.header
header_of (install_snapshot_asked req does) = req.header
header_of (timeout_now_asked header) = header
header_of (unexpected header) = header

module _ (st : StableStore) (lg : LogStore) (env : Env) (config : Config) (monotonic : Bool) where
  unfoldable pub reply : {R : Type 0} → (R → Reply) → Outcome st.S lg.S R → Outcome st.S lg.S Reply
  reply f (returned n r) = returned n (f r)
  reply f (panicked s l) = panicked s l

  unfoldable pub process_command : ℕ → Node st.S lg.S → Command → Outcome st.S lg.S Reply
  unfolding reply
  process_command now n (append_entries_asked a) =
      reply appended (append_entries st lg env config.max_append_entries now n a)
  process_command now n (request_vote_asked req) = reply voted (request_vote st env n req now)
  process_command now n (request_pre_vote_asked req) =
      returned n (pre_voted (request_pre_vote st env n req))
  process_command now n (install_snapshot_asked req does) =
      reply installed (install_snapshot st lg env config.trailing_logs monotonic now req does n)
  process_command now n (timeout_now_asked header) = returned (timeout_now n) will_stand
  process_command now n (unexpected header) = returned n bad_command

  unfoldable pub process_rpc : ℕ → Node st.S lg.S → Command → Outcome st.S lg.S Reply
  unfolding header_of process_command
  process_rpc now n command =
      if check_rpc_header config (header_of command)
      then process_command now n command
      else returned n bad_header

  -- The fast path of a server that does not shut down; it does not look at the header.
  pub process_heartbeat : ℕ → Node st.S lg.S → Command → Outcome st.S lg.S Reply
  unfolding reply
  process_heartbeat now n (append_entries_asked a) =
      reply appended (append_entries st lg env config.max_append_entries now n a)
  process_heartbeat now n _ = returned n bad_command

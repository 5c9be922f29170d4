-- ===== src/Server.antt =====
-- A server under any sequence of the calls of raft.go that are modelled, with the responses that runCandidate
-- gets, and with crashes and restarts between them.
pub mod Keeping
pub mod Snapshots
pub mod Bootstraps
pub mod Safety
mod Tests
use perf_raft.Prelude.{
  ℕ, ◌+◌, ◌^◌, ◌<◌, Bool, true, false, Option, none, some, List, [], ◌∷◌, ◌++◌, inc64, ltb,
  if◌then◌else◌,
}
use perf_raft.Configuration.{Configuration}
use perf_raft.LogStore.{Log, Bytes, LogStore, StableStore}
use perf_raft.Node.{
  Node, Env, Outcome, returned, panicked, get_rpc_header, timeout_now, follower, set_state,
  set_current_term,
}
use perf_raft.Process.{Step, next, stop, die}
use perf_raft.Vote.{
  RequestVoteRequest, RequestVoteResponse, RequestPreVoteRequest, candidate_of, request_vote,
  request_pre_vote, Ballot, elect_self,
}
use perf_raft.Vote.Casting.{Grant, granted_vote}
use perf_raft.Vote.Ballots.{own}
use perf_raft.Append.{AppendEntriesRequest, AppendReply, append_entries}
use perf_raft.Start.{SnapshotMeta, new_raft}
use perf_raft.Replication.{InstallSnapshotRequest}
use perf_raft.Snapshot.{Installing, InstallReply, install_snapshot}
use perf_raft.Bootstrap.{Bootstrapped, bootstrap_cluster}
use perf_raft.Bootstrap.Live.{LiveResult, on_bootstrap}

-- A server that runs, or the stores that are left of it.
pub data Server (St Lg : Type 0) : Type 0 where
  up : Node St Lg → Server St Lg
  down : St → Lg → Server St Lg

pub data Event : Type 0 where
  vote_asked : RequestVoteRequest → ℕ → Event
  pre_vote_asked : RequestPreVoteRequest → Event
  entries_sent : AppendEntriesRequest → ℕ → Event
  told_to_stand : Event
  stands : Event
  response_heard : ℕ → Event
  crashes : Event
  starts : Option (List SnapshotMeta) → Event
  snapshot_sent : InstallSnapshotRequest → Installing → (trailing_logs : ℕ) → Bool → ℕ → Event
  bootstraps : Bool → Option (List SnapshotMeta) → Configuration → Event

module _ (st : StableStore) (lg : LogStore) (env : Env) (max_append_entries : ℕ) where
  -- The server after an outcome, and the votes that the outcome gives away.
  unfoldable pub settle :
      {R : Type 0} → (R → List Grant) → Outcome st.S lg.S R → Server st.S lg.S × List Grant
  settle votes (returned n r) = (up n, votes r)
  settle votes (panicked s l) = (down s l, [])

  launch : Step st.S lg.S → Server st.S lg.S
  launch (next n) = up n
  launch (stop n e) = down n.stable n.logs
  launch (die n) = down n.stable n.logs

  abbrev pub vote_given : RequestVoteRequest → RequestVoteResponse → List Grant
  vote_given req resp = granted_vote req.term (candidate_of req) resp.granted

  -- A candidate gets a response; one of a later term makes it a follower in that term.
  termed : Bool × Node st.S lg.S → Outcome st.S lg.S ℕ
  termed (true, n) = returned n n.current_term
  termed (false, n) = panicked n.stable n.logs

  hear_term : Node st.S lg.S → ℕ → Outcome st.S lg.S ℕ
  unfolding termed
  hear_term n term =
      if ltb n.current_term term
      then termed (set_current_term st (set_state n follower) term)
      else returned n n.current_term

  unfoldable pub handle_up : Node st.S lg.S → Event → Server st.S lg.S × List Grant
  unfolding settle hear_term
  handle_up n (vote_asked req now) = settle (vote_given req) (request_vote st env n req now)
  handle_up n (pre_vote_asked req) = (up n, [])
  handle_up n (entries_sent a now) =
      settle (λ (r : AppendReply). []) (append_entries st lg env max_append_entries now n a)
  handle_up n told_to_stand = (up (timeout_now n), [])
  handle_up n stands = settle own (elect_self st env n)
  handle_up n (response_heard term) = settle (λ (t : ℕ). []) (hear_term n term)
  handle_up n crashes = (down n.stable n.logs, [])
  handle_up n (starts snaps) = (up n, [])
  handle_up n (snapshot_sent req does trailing_logs monotonic now) =
      settle (λ (r : InstallReply). [])
        (install_snapshot st lg env trailing_logs monotonic now req does n)
  handle_up n (bootstraps options_ok snaps configuration) =
      settle (λ (r : LiveResult). []) (on_bootstrap st lg env options_ok snaps configuration n)

  -- BootstrapCluster on the stores of a server that does not run.
  bootstrapped : Bootstrapped × st.S × lg.S → Server st.S lg.S
  bootstrapped (e, s, l) = down s l

  handle_down : st.S → lg.S → Event → Server st.S lg.S × List Grant
  unfolding launch bootstrapped
  handle_down s l (starts snaps) = (launch (new_raft st lg env snaps s l), [])
  handle_down s l (bootstraps options_ok snaps configuration) =
      (bootstrapped (bootstrap_cluster st lg env options_ok snaps configuration s l), [])
  handle_down s l _ = (down s l, [])

  unfoldable pub handle : Server st.S lg.S → Event → Server st.S lg.S × List Grant
  unfolding handle_up handle_down
  handle (up n) e = handle_up n e
  handle (down s l) e = handle_down s l e

  abbrev pub BelowLastTerm : Server st.S lg.S → Type 0
  BelowLastTerm (up n) = n.current_term + 1 < 2 ^ 64
  BelowLastTerm (down s l) = Unit

  -- A server that stands for election has a term to move to: there are 2 ^ 64 terms.
  abbrev pub HasRoom : Server st.S lg.S → Event → Type 0
  HasRoom v stands = BelowLastTerm v
  HasRoom v _ = Unit

  pub HasRoomAlong : Server st.S lg.S → List Event → Type 0
  HasRoomAlong v [] = Unit
  HasRoomAlong v (e ∷ es) = HasRoom v e × HasRoomAlong (handle v e).0 es

  -- All votes that a run gives away.
  pub run : Server st.S lg.S → List Grant → List Event → Server st.S lg.S × List Grant
  run v grants [] = (v, grants)
  run v grants (e ∷ es) = run (handle v e).0 ((handle v e).1 ++ grants) es

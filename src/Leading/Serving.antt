-- ===== src/Leading/Serving.antt =====
-- The calls of clients as the three main loops of raft.go answer them, initiateLeadershipTransfer, and
-- leadershipTransfer, which runs beside the loop of the leader.
pub mod Guarded
pub mod Pending
use perf_raft.Prelude.{
  ℕ, zero, suc, ◌+◌, String, Bool, true, false, not, Option, none, some, List, [], ◌∷◌, leb,
  if◌then◌else◌, str_eq,
}
use perf_raft.Configuration.{Configuration, ConfigurationError, ConfigurationChangeRequest}
use perf_raft.LogStore.{Log, LogStore, StableStore}
use perf_raft.Node.{Node, Env, Configurations}
use perf_raft.Replication.{SnapshotMeta}
use perf_raft.Snapshot.{Installing}
use perf_raft.Snapshot.UserRestore.{
  UserRestoreError, UserRestored, done, died, restore_user_snapshot,
}
use perf_raft.Leader.{
  Leader, Follower, find_replica, dispatch_logs, append_configuration_entry,
  configuration_change_if_stable,
}
use perf_raft.Leading.{VerifyFuture, verify_leader, pick_server}

-- What a client sends to the main loop; behind a new entry others may wait in the channel. A call of
-- BootstrapCluster is in Bootstrap.Live.
pub data Call : Type 0 where
  apply : Log → List Log → Call
  verify : Call
  user_restore : SnapshotMeta → Installing → Call
  transfer : Option (String × String) → Call
  configurations : Call
  change : ConfigurationChangeRequest → Call

-- The answer. `dispatched` are entries to be answered when they are applied, or at once with an error if
-- they cannot be written, and those left in the channel; `refused` are entries that are turned away.
pub data Answer : Type 0 where
  not_leader : Answer
  in_transfer : Answer
  dispatched : List Log → List Log → Answer
  refused : List Log → List Log → Answer
  verifying : VerifyFuture → Answer
  restored : Option UserRestoreError → Answer
  no_peer : Answer
  no_replication : Answer
  handing_over : String → String → Follower → Answer
  configurations_are : Configurations → Answer
  changed : Option ConfigurationError → Answer
  not_taken : Answer

-- The loops of a follower and of a candidate.
pub answer_idle : {St Lg : Type 0} → Node St Lg → Call → Answer
answer_idle n configurations = configurations_are n.configurations
answer_idle n _ = not_leader

-- The loop of a leader: the flag leadershipTransferInProgress and the variable stepDown.
pub record Serving (St Lg : Type 0) : Type 0 where
  pub leader : Leader St Lg
  pub transferring : Bool
  pub stepping_down : Bool

-- Group commit: at most so many of those that wait, and the rest.
pub gather : ℕ → List Log → List Log × List Log
gather zero waiting = ([], waiting)
gather (suc k) [] = ([], [])
gather (suc k) (l ∷ waiting) = let rest = gather k waiting in (l ∷ rest.0, rest.1)

module _ (st : StableStore) (lg : LogStore) (env : Env) (max_append_entries : ℕ) (monotonic : Bool)
    (now : ℕ) where
  abbrev serving : Bool → Bool → Leader st.S lg.S → Serving st.S lg.S
  serving transferring stepping_down l = record {
    leader = l;
    transferring = transferring;
    stepping_down = stepping_down;
  }

  serve_apply : Serving st.S lg.S → List Log × List Log → Serving st.S lg.S × Answer
  serve_apply s (ready, left) = if s.stepping_down then (s, refused ready left) else (
    record s { leader = (dispatch_logs st lg env s.leader now ready).1 },
    dispatched ready left,
  )

  -- A state machine that cannot restore is a panic.
  serve_restored : Serving st.S lg.S → UserRestored st.S lg.S → Option (Serving st.S lg.S × Answer)
  serve_restored s (done e l) = some (record s { leader = l }, restored e)
  serve_restored s died = none

  hand_over : Serving st.S lg.S → String → String → Option Follower → Serving st.S lg.S × Answer
  hand_over s id address none = (s, no_replication)
  hand_over s id address (some f) = (record s { transferring = true }, handing_over id address f)

  serve_transfer : Serving st.S lg.S → Option (String × String) → Serving st.S lg.S × Answer
  unfolding hand_over
  serve_transfer s (some (id, address)) = hand_over s id address (find_replica id s.leader.replicas)
  serve_transfer s none = elim (pick_server env s.leader) [
    | none ↦ (s, no_peer)
    | some server ↦ hand_over s server.id server.address (find_replica server.id s.leader.replicas)
  ]

  serve_change :
      Serving st.S lg.S → Leader st.S lg.S × Option ConfigurationError → Serving st.S lg.S × Answer
  serve_change s (l, e) = (record s { leader = l }, changed e)

  -- A change of the configuration is taken only while its channel is open; `none` is a panic.
  unfoldable pub serve : Serving st.S lg.S → Call → Option (Serving st.S lg.S × Answer)
  unfolding serve_apply serve_restored serve_transfer serve_change
  serve s verify = some (s, verifying (verify_leader s.leader.node.configurations.latest))
  serve s (transfer target) =
      if s.transferring then some (s, in_transfer) else some (serve_transfer s target)
  serve s (user_restore meta does) =
      if s.transferring
      then some (s, in_transfer)
      else serve_restored s (restore_user_snapshot st lg monotonic meta does s.leader)
  serve s configurations =
      if s.transferring
      then some (s, in_transfer)
      else some (s, configurations_are s.leader.node.configurations)
  serve s (change request) =
      if not (configuration_change_if_stable st lg env s.leader)
      then some (s, not_taken)
      else if s.transferring
      then some (s, in_transfer)
      else some (serve_change s (append_configuration_entry st lg env s.leader now request))
  serve s (apply l waiting) =
      if s.transferring
      then some (s, in_transfer)
      else some (
          serve_apply s
            (l ∷ (gather max_append_entries waiting).0, (gather max_append_entries waiting).1))

-- initiateLeadershipTransfer: does the call reach the main loop? Not a transfer to ourselves.
pub initiate_leadership_transfer : Env → Option (String × String) → Bool
initiate_leadership_transfer env none = true
initiate_leadership_transfer env (some (id, address)) = not (str_eq id env.local_id)

-- What leadershipTransfer finds in one round: the next index of the peer, the last one of the leader,
-- and what becomes of the replication that it asks for.
pub data Round : Type 0 where
  replicated : ℕ → ℕ → Round
  replication_failed : ℕ → ℕ → Round
  stopped : ℕ → ℕ → Round

pub data Transfer : Type 0 where
  timeout_now_sent : Transfer
  transfer_failed : Transfer
  transfer_stopped : Transfer
  still_waiting : Transfer

-- The loop: TimeoutNow goes out as soon as the peer has all entries.
transfer_loop : List Round → Transfer
transfer_loop [] = still_waiting
transfer_loop (replicated next last ∷ rounds) =
    let rest = transfer_loop rounds in if leb next last then rest else timeout_now_sent
transfer_loop (replication_failed next last ∷ rounds) =
    if leb next last then transfer_failed else timeout_now_sent
transfer_loop (stopped next last ∷ rounds) =
    if leb next last then transfer_stopped else timeout_now_sent

-- Unless it was stopped before it began.
pub leadership_transfer : Bool → List Round → Transfer
unfolding transfer_loop
leadership_transfer true rounds = transfer_stopped
leadership_transfer false rounds = transfer_loop rounds

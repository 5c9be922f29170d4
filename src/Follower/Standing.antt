-- ===== src/Follower/Standing.antt =====
-- runFollower of raft.go: who stands for election when the heartbeat timer fires.
use perf_raft.Prelude.{ℕ, ◌-◌, ◌≤◌, ◌≡◌, ◌≢◌, true, arith}
use perf_raft.Configuration.{has_vote}
use perf_raft.Node.{Node, Env, follower, candidate, set_state, set_leader}
use perf_raft.Follower.{heartbeat_timeout}

-- Too long without contact, with a configuration, and a vote in it.
abbrev pub MayStand : {St Lg : Type 0} → Env → ℕ → ℕ → Node St Lg → Type 0
MayStand env timeout now n =
    (timeout ≤ now - n.last_contact)
    × (n.configurations.latest_index ≢ 0)
    × (has_vote n.configurations.latest env.local_id ≡ true)

-- When its heartbeat timer fires, a follower stands for election exactly if it has not heard of a leader
-- for the length of the timeout, knows a configuration, and has a vote in the latest one. Otherwise it
-- stays a follower; its term, its log and its configurations are the same in any case.
pub heartbeat_timeout_lem :
    {St Lg : Type 0} (env : Env) (timeout now : ℕ) (n : Node St Lg)
    → n.state ≡ follower
    → let m = heartbeat_timeout env timeout now n in
      (MayStand env timeout now n → m.state ≡ candidate)
      × (¬ MayStand env timeout now n → m.state ≡ follower)
      × (m.current_term ≡ n.current_term)
      × (m.logs ≡ n.logs)
      × (m.configurations ≡ n.configurations)
unfolding heartbeat_timeout set_leader set_state
heartbeat_timeout_lem env timeout now n idle = ground arith

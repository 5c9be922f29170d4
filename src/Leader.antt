-- ===== src/Leader.antt =====
-- The leader of raft.go: its state, dispatchLogs, appendConfigurationEntry and startStopReplication. What
-- a replication goroutine does stands in Replication; futures are known by their log entries.
pub mod Change
pub mod Peers
pub mod Reign
pub mod Dispatch
mod Tests
use perf_raft.Prelude.{
  ℕ, suc, ◌+◌, ◌-◌, ◌<◌, ◌≡◌, String, Bool, true, false, not, ◌&&◌, ◌||◌, Option, none, some, List,
  [], ◌∷◌, ◌++◌, ltb, leb, ◌==◌, if◌then◌else◌, str_eq, length,
}
use perf_raft.Configuration.{
  Configuration, Server, ConfigurationChangeRequest, ConfigurationError, Result, ok, err,
  next_configuration, has_vote, is_voter, quorum_size,
}
use perf_raft.Commitment.{Commitment, new_commitment, set_configuration, match, get_commit_index}
use perf_raft.LogStore.{
  Log, LogType, log_noop, log_configuration, log_remove_peer_deprecated, LogStore, StableStore,
}
use perf_raft.Node.{
  Node, Env, follower, leader, get_last_index, set_last_log, set_state, set_latest_configuration,
  set_committed_configuration,
}
use perf_raft.Process.{Sent, process_logs}

-- followerReplication of replication.go, without its channels.
pub record Follower : Type 0 where
  pub peer : Server
  pub current_term : ℕ
  pub next_index : ℕ
  pub last_contact : ℕ
  pub failures : ℕ
  pub allow_pipeline : Bool

abbrev pub Replicas : Type 0
Replicas = List (String × Follower)

-- m[k]
unfoldable pub find_replica : String → Replicas → Option Follower
find_replica k [] = none
find_replica k ((j, f) ∷ m) = if str_eq j k then some f else find_replica k m

-- m[k] = f
unfoldable pub put_replica : String → Follower → Replicas → Replicas
put_replica k f [] = (k, f) ∷ []
put_replica k f ((j, g) ∷ m) =
    let rest = put_replica k f m in if str_eq j k then (j, f) ∷ m else (j, g) ∷ rest

-- A server that leads: leaderState beside the rest.
pub record Leader (St Lg : Type 0) : Type 0 where
  pub node : Node St Lg
  pub commitment : Commitment
  pub inflight : List Log
  pub replicas : Replicas

-- The new entries with their indexes, after the last one.
unfoldable pub number_logs : ℕ → ℕ → ℕ → List Log → List Log
number_logs last_index term now [] = []
number_logs last_index term now (l ∷ ls) =
    record l { index = last_index + 1; term = term; appended_at = now }
    ∷ number_logs (last_index + 1) term now ls

module _ (st : StableStore) (lg : LogStore) (env : Env) where
  -- setupLeaderState.
  unfoldable pub setup_leader_state : Node st.S lg.S → Leader st.S lg.S
  unfolding get_last_index
  setup_leader_state n = record {
    node = n;
    commitment = new_commitment false n.configurations.latest (get_last_index n + 1);
    inflight = [];
    replicas = [];
  }

  -- Whether the entries were written; if not, the leader steps down.
  unfoldable pub dispatch_logs : Leader st.S lg.S → ℕ → List Log → Bool × Leader st.S lg.S
  unfolding get_last_index number_logs
  dispatch_logs l now logs =
      let last = get_last_index l.node in
      let term = l.node.current_term in
      let entries = number_logs last term now logs in
      let r = lg.store_logs l.node.logs entries in
      if r.0
      then (
        true,
        record l {
          node = set_last_log (record l.node { logs = r.1 }) (last + length logs) term;
          commitment = match l.commitment env.local_id (last + length logs);
          inflight = l.inflight ++ entries;
        },
      )
      else (
        false,
        record l {
          node = set_state (record l.node { logs = r.1 }) follower;
          inflight = l.inflight ++ entries;
        },
      )

  -- A peer that is there keeps its state, with its new address; a new one starts after the last entry.
  start_replica : ℕ → ℕ → ℕ → Server → Option Follower → Follower
  start_replica last term now server none = record {
    peer = server;
    current_term = term;
    next_index = last + 1;
    last_contact = now;
    failures = 0;
    allow_pipeline = false;
  }
  start_replica last term now server (some f) =
      if str_eq f.peer.address server.address then f else record f { peer = server }

  start_replicas : ℕ → ℕ → ℕ → List Server → Replicas → Replicas
  unfolding start_replica
  start_replicas last term now [] m = m
  start_replicas last term now (server ∷ rest) m = start_replicas last term now rest (
      if str_eq server.id env.local_id
      then m
      else put_replica server.id (start_replica last term now server (find_replica server.id m)) m)

  -- The map `inConfig`.
  pub in_config : List Server → String → Bool
  in_config [] id = false
  in_config (server ∷ rest) id =
      (not (str_eq server.id env.local_id) && str_eq server.id id) || in_config rest id

  stop_replicas : List Server → Replicas → Replicas
  unfolding in_config
  stop_replicas servers [] = []
  stop_replicas servers ((id, f) ∷ m) =
      let rest = stop_replicas servers m in if in_config servers id then (id, f) ∷ rest else rest

  pub start_stop_replication : Leader st.S lg.S → ℕ → Leader st.S lg.S
  unfolding start_replicas stop_replicas get_last_index
  start_stop_replication l now =
      let servers = l.node.configurations.latest.servers in
      record l {
        replicas =
            stop_replicas servers
              (start_replicas (get_last_index l.node) l.node.current_term now servers l.replicas);
      }

  -- Is configurationChangeCh open?
  unfoldable pub configuration_change_if_stable : Leader st.S lg.S → Bool
  configuration_change_if_stable l =
      (l.node.configurations.latest_index == l.node.configurations.committed_index)
      && leb l.commitment.start_index l.node.commit_index

  -- The entry of a configuration, before it is numbered.
  pub configuration_log : Configuration → Log
  configuration_log configuration = record {
    index = 0;
    term = 0;
    log_type = if ltb env.protocol_version 2 then log_remove_peer_deprecated else log_configuration;
    payload =
        if ltb env.protocol_version 2
        then env.encode_peers configuration
        else env.encode_configuration configuration;
    extensions = [];
    appended_at = 0;
  }

  -- What follows the dispatch, whether the entry was written or not.
  adopt_configuration : Configuration → ℕ → ℕ → Leader st.S lg.S → Leader st.S lg.S
  adopt_configuration configuration index now l =
      start_stop_replication
        (record l {
          node = set_latest_configuration l.node configuration index;
          commitment = set_configuration l.commitment configuration;
        })
        now

  append_changed :
      Leader st.S lg.S → ℕ → Result Configuration → Leader st.S lg.S × Option ConfigurationError
  unfolding adopt_configuration configuration_log
  append_changed l now (err e) = (l, some e)
  append_changed l now (ok configuration) = (
    adopt_configuration configuration (get_last_index l.node + 1) now
        (dispatch_logs l now (configuration_log configuration ∷ [])).1,
    none,
  )

  pub append_configuration_entry :
      Leader st.S lg.S
      → ℕ
      → ConfigurationChangeRequest
      → Leader st.S lg.S × Option ConfigurationError
  unfolding append_changed
  append_configuration_entry l now change =
      append_changed l now
        (next_configuration l.node.configurations.latest l.node.configurations.latest_index change)

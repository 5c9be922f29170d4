-- ===== src/Bootstrap.antt =====
-- BootstrapCluster and HasExistingState of api.go: how the stores of a server are filled for the first
-- time. Whether the server's options passed ValidateConfig is given.
pub mod Once
pub mod Launch
pub mod Live
mod Tests
use perf_raft.Prelude.{
  ℕ, Bool, true, false, not, Option, none, some, List, [], ◌∷◌, ltb, if◌then◌else◌,
}
use perf_raft.Configuration.{Configuration, ConfigurationError, check_configuration}
use perf_raft.LogStore.{
  Log, log_configuration, log_remove_peer_deprecated, Read, found, not_found, failed, LogStore,
  StableStore,
}
use perf_raft.Node.{Env, key_current_term}
use perf_raft.Start.{SnapshotMeta}
use perf_raft.Vote.{is_empty}

-- What BootstrapCluster ends with, and which store it had to write last.
pub data Bootstrapped : Type 0 where
  done : Bootstrapped
  bad_options : Bootstrapped
  bad_configuration : ConfigurationError → Bootstrapped
  state_unknown : Bootstrapped
  cant_bootstrap : Bootstrapped
  term_not_saved : Bootstrapped
  log_not_saved : Bootstrapped

module _ (st : StableStore) (lg : LogStore) (env : Env) where
  -- Any snapshots? `none` is an error of the snapshot store.
  any_snapshots : Option (List SnapshotMeta) → Option Bool
  any_snapshots none = none
  any_snapshots (some snaps) = some (not (is_empty snaps))

  -- Any log, or else any snapshots?
  unfoldable pub any_log : Option ℕ → Option (List SnapshotMeta) → Option Bool
  unfolding any_snapshots
  any_log none snaps = none
  any_log (some last_index) snaps = if ltb 0 last_index then some true else any_snapshots snaps

  unfoldable pub state_of : Read ℕ → Option ℕ → Option (List SnapshotMeta) → Option Bool
  unfolding any_log
  state_of (found term) last snaps = if ltb 0 term then some true else any_log last snaps
  state_of not_found last snaps = any_log last snaps
  state_of failed last snaps = none

  -- `none` is an error.
  unfoldable pub has_existing_state : Option (List SnapshotMeta) → st.S → lg.S → Option Bool
  unfolding state_of
  has_existing_state snaps s l = state_of (st.get_uint64 s key_current_term) (lg.last_index l) snaps

  -- The entry that carries the first configuration.
  unfoldable pub first_entry : Configuration → Log
  first_entry configuration = record {
    index = 1;
    term = 1;
    log_type = if ltb env.protocol_version 3 then log_remove_peer_deprecated else log_configuration;
    payload =
        if ltb env.protocol_version 3
        then env.encode_peers configuration
        else env.encode_configuration configuration;
    extensions = [];
    appended_at = 0;
  }

  -- The two writes: the term, then the entry.
  unfoldable pub write_first : Configuration → st.S → lg.S → Bootstrapped × st.S × lg.S
  unfolding first_entry
  write_first configuration s l =
      let r = st.set_uint64 s key_current_term 1 in
      let q = lg.store_logs l (first_entry configuration ∷ []) in
      if not r.0
      then (term_not_saved, r.1, l)
      else if q.0
      then (done, r.1, q.1)
      else (log_not_saved, r.1, q.1)

  unfoldable pub on_state : Configuration → st.S → lg.S → Option Bool → Bootstrapped × st.S × lg.S
  on_state configuration s l none = (state_unknown, s, l)
  on_state configuration s l (some true) = (cant_bootstrap, s, l)
  on_state configuration s l (some false) = write_first configuration s l

  unfoldable pub on_checked :
      Option (List SnapshotMeta)
      → Configuration
      → st.S
      → lg.S
      → Option ConfigurationError
      → Bootstrapped × st.S × lg.S
  on_checked snaps configuration s l (some e) = (bad_configuration e, s, l)
  on_checked snaps configuration s l none =
      on_state configuration s l (has_existing_state snaps s l)

  -- The result and the two stores.
  unfoldable pub bootstrap_cluster :
      Bool → Option (List SnapshotMeta) → Configuration → st.S → lg.S → Bootstrapped × st.S × lg.S
  unfolding on_checked
  bootstrap_cluster options_ok snaps configuration s l =
      if options_ok
      then on_checked snaps configuration s l (check_configuration configuration)
      else (bad_options, s, l)

-- ===== src/Leader/Change.antt =====
-- appendConfigurationEntry of raft.go: what a change of the configuration leaves behind.
use perf_raft.Prelude.{ℕ, ◌≤◌, ◌<◌, ◌≡◌, none, List, [], ◌∷◌, arith}
use perf_raft.Configuration.{
  Configuration, ConfigurationChangeRequest, Result, ok, err, next_configuration,
}
use perf_raft.LogStore.{Log, LogStore, StableStore}
use perf_raft.Node.{Env, get_last_index, set_state, set_last_log, set_latest_configuration}
use perf_raft.Leader.{
  Leader, dispatch_logs, start_stop_replication, adopt_configuration, append_changed,
  configuration_log, append_configuration_entry,
}

module _ (st : StableStore) (lg : LogStore) (env : Env) where
  pub configurations-dispatch_logs :
      (l : Leader st.S lg.S) (now : ℕ) (logs : List Log)
      → (dispatch_logs st lg env l now logs).1.node.configurations ≡ l.node.configurations
  unfolding dispatch_logs set_last_log set_state
  configurations-dispatch_logs l now logs = ground arith

  append_changed-pending :
      (l : Leader st.S lg.S) (now : ℕ) (r : Result Configuration)
      → l.node.configurations.committed_index ≤ get_last_index l.node
      → (append_changed st lg env l now r).1 ≡ none
      → let k = (append_changed st lg env l now r).0.node.configurations in
        k.committed_index < k.latest_index
  unfolding append_changed adopt_configuration start_stop_replication set_latest_configuration
  append_changed-pending l now (err e) le h = ground (arith, h)
  append_changed-pending l now (ok c) le h =
      ground (arith, configurations-dispatch_logs l now (configuration_log st lg env c ∷ []), le)

  -- A change of the configuration that was accepted is outstanding, if the committed configuration stands
  -- in the log.
  pub append_configuration_entry-pending :
      (l : Leader st.S lg.S) (now : ℕ) (change : ConfigurationChangeRequest)
      → l.node.configurations.committed_index ≤ get_last_index l.node
      → (append_configuration_entry st lg env l now change).1 ≡ none
      → let k = (append_configuration_entry st lg env l now change).0.node.configurations in
        k.committed_index < k.latest_index
  unfolding append_configuration_entry
  append_configuration_entry-pending l now change le h =
      append_changed-pending l now
        (next_configuration l.node.configurations.latest l.node.configurations.latest_index change)
        le h

-- ===== src/Bootstrap/Live.antt =====
-- liveBootstrap of raft.go: a follower that runs, and has nothing in its stores, is given the first
-- configuration.
pub mod Joined
use perf_raft.Prelude.{ℕ, Bool, true, false, not, Option, List, [], ◌∷◌, if◌then◌else◌}
use perf_raft.Configuration.{Configuration, has_vote}
use perf_raft.LogStore.{Log, Read, found, not_found, failed, LogStore, StableStore}
use perf_raft.Node.{
  Node, Env, Outcome, returned, panicked, is_follower, set_last_log, set_current_term,
}
use perf_raft.Process.{Step, next, stop, die, process_configuration_log_entry}
use perf_raft.Start.{SnapshotMeta}
use perf_raft.Bootstrap.{
  Bootstrapped, done, bad_options, bad_configuration, state_unknown, cant_bootstrap, term_not_saved,
  log_not_saved, bootstrap_cluster,
}

-- What the caller of BootstrapCluster is told.
pub data LiveResult : Type 0 where
  live : LiveResult
  not_voter : LiveResult
  not_bootstrapped : Bootstrapped → LiveResult
  bad_entry : LiveResult
  not_follower : LiveResult

module _ (st : StableStore) (lg : LogStore) (env : Env) where
  unfoldable pub live_from : Step st.S lg.S → Outcome st.S lg.S LiveResult
  live_from (next n) = returned n live
  live_from (stop n e) = returned n bad_entry
  live_from (die n) = panicked n.stable n.logs

  -- The entry takes effect once the term was written again.
  unfoldable pub in_first_term : Log → Bool × Node st.S lg.S → Outcome st.S lg.S LiveResult
  unfolding live_from
  in_first_term entry (false, n) = panicked n.stable n.logs
  in_first_term entry (true, n) =
      live_from (process_configuration_log_entry env (set_last_log n entry.index entry.term) entry)

  unfoldable pub with_entry : Node st.S lg.S → Read Log → Outcome st.S lg.S LiveResult
  unfolding in_first_term
  with_entry n (found entry) = in_first_term entry (set_current_term st n 1)
  with_entry n not_found = panicked n.stable n.logs
  with_entry n failed = panicked n.stable n.logs

  unfoldable pub once_bootstrapped :
      Node st.S lg.S → Bootstrapped × st.S × lg.S → Outcome st.S lg.S LiveResult
  unfolding with_entry
  once_bootstrapped n (done, s, l) = with_entry (record n { stable = s; logs = l }) (lg.get_log l 1)
  once_bootstrapped n (e, s, l) = returned (record n { stable = s; logs = l }) (not_bootstrapped e)

  unfoldable pub live_bootstrap :
      Bool
      → Option (List SnapshotMeta)
      → Configuration
      → Node st.S lg.S
      → Outcome st.S lg.S LiveResult
  unfolding once_bootstrapped
  live_bootstrap options_ok snaps configuration n =
      if not (has_vote configuration env.local_id)
      then returned n not_voter
      else once_bootstrapped n
          (bootstrap_cluster st lg env options_ok snaps configuration n.stable n.logs)

  -- The branch of bootstrapCh in the three main loops: only a follower does it.
  unfoldable pub on_bootstrap :
      Bool
      → Option (List SnapshotMeta)
      → Configuration
      → Node st.S lg.S
      → Outcome st.S lg.S LiveResult
  on_bootstrap options_ok snaps configuration n =
      if is_follower n.state
      then live_bootstrap options_ok snaps configuration n
      else returned n not_follower

-- ===== src/Start/First.antt =====
-- NewRaft of api.go on a log of one entry, the first configuration.
use perf_raft.Prelude.{ℕ, ◌≡◌, true, some, [], refl, ap}
use perf_raft.Configuration.{Configuration}
use perf_raft.LogStore.{Log, log_configuration, found, LogStore, StableStore}
use perf_raft.Node.{
  Node, Env, follower, key_current_term, set_current_term, set_state, set_last_log,
  get_last_snapshot, set_latest_configuration, set_committed_configuration,
}
use perf_raft.Process.{Step, next, ◌>>=◌}
use perf_raft.Process.Untouched.{process_configuration_log_entry-decoded}
use perf_raft.Start.{
  new_raft, start_from, start_in_term, restore_snapshot, restore_snapshots, scan_log, scan_step,
  blank,
}

-- A server that has started with one configuration in its log.
pub record Launched {St Lg : Type 0} (configuration : Configuration) (term : ℕ) (n : Node St Lg)
    : Type 0 where
  pub is_follower : n.state ≡ follower
  pub in_term : n.current_term ≡ term
  pub last_index : n.last_log_index ≡ 1
  pub latest_is : n.configurations.latest ≡ configuration
  pub latest_at : n.configurations.latest_index ≡ 1
  pub nothing_committed : n.configurations.committed.servers ≡ []

module _ (st : StableStore) (lg : LogStore) (env : Env) where
  pub new_raft-Launched :
      (s : st.S) (l : lg.S) (t : ℕ) (e : Log) (configuration : Configuration)
      → st.get_uint64 s key_current_term ≡ found t
      → (st.set_uint64 s key_current_term t).0 ≡ true
      → lg.last_index l ≡ some 1
      → lg.get_log l 1 ≡ found e
      → e.index ≡ 1
      → e.log_type ≡ log_configuration
      → env.decode_configuration e.payload ≡ some configuration
      → (n : Node st.S lg.S) × (new_raft st lg env (some []) s l ≡ next n)
        × Launched configuration t n
  unfolding new_raft start_from start_in_term restore_snapshot restore_snapshots set_last_log
      get_last_snapshot set_current_term set_state scan_log scan_step blank set_latest_configuration
      set_committed_configuration
  new_raft-Launched s l t e configuration term written last entry index type decoded =
      rw (term, last, entry, written, index)
        (
          set_latest_configuration
              (set_committed_configuration started started.configurations.latest
                started.configurations.latest_index)
              configuration e.index,
          rw entry (
              ap (λ (r : Step st.S lg.S). r >>= next)
                (process_configuration_log_entry-decoded env started e configuration type decoded)),
          record {
            is_follower = refl;
            in_term = refl;
            last_index = refl;
            latest_is = refl;
            latest_at = index;
            nothing_committed = refl;
          },
        )
    where
      started : Node st.S lg.S
      started =
          set_last_log
            (record (set_state (blank st lg env s l) follower) {
              stable = (st.set_uint64 s key_current_term t).1;
              current_term = t;
            })
            1 e.term

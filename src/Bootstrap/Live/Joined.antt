-- ===== src/Bootstrap/Live/Joined.antt =====
-- liveBootstrap of raft.go: the server after it.
use perf_raft.Prelude.{
  ◌<◌, ◌≡◌, Bool, true, false, Option, some, List, [], ◌∷◌, ltb, refl, ap, ◌∙◌, arith,
}
use perf_raft.Configuration.{Configuration, has_vote}
use perf_raft.LogStore.{found, LogStore, LogStoreLaws, StableStore, StableStoreLaws, latest}
use perf_raft.Node.{
  Node, Env, returned, follower, key_current_term, set_current_term, set_last_log,
  set_latest_configuration, set_committed_configuration,
}
use perf_raft.Process.Untouched.{process_configuration_log_entry-decoded}
use perf_raft.Start.{SnapshotMeta}
use perf_raft.Start.First.{Launched}
use perf_raft.Bootstrap.{done, bootstrap_cluster, first_entry}
use perf_raft.Bootstrap.Once.{bootstrap_cluster-Begun}
use perf_raft.Bootstrap.Live.{
  live, live_bootstrap, once_bootstrapped, with_entry, in_first_term, live_from,
}

module _ (st : StableStore) (laws : StableStoreLaws st) (lg : LogStore) (log_laws : LogStoreLaws lg)
    (env : Env) where
  -- A follower without configuration that bootstraps itself with success runs on as NewRaft would start
  -- it from the same stores: a follower of term 1 with the configuration at index 1, not yet committed.
  pub live_bootstrap-Launched :
      (options_ok : Bool) (snaps : Option (List SnapshotMeta)) (configuration : Configuration)
      (n : Node st.S lg.S) {t : st.S} {m : lg.S}
      → n.state ≡ follower
      → n.configurations.latest.servers ≡ []
      → has_vote configuration env.local_id ≡ true
      → bootstrap_cluster st lg env options_ok snaps configuration n.stable n.logs ≡ (done, t, m)
      → 2 < env.protocol_version
      → env.decode_configuration (env.encode_configuration configuration) ≡ some configuration
      → (st.set_uint64 t key_current_term 1).0 ≡ true
      → (k : Node st.S lg.S) × (live_bootstrap st lg env options_ok snaps configuration n
          ≡ returned k live)
        × Launched configuration 1 k
  unfolding live_bootstrap once_bootstrapped with_entry in_first_term live_from first_entry latest
      set_current_term set_last_log set_latest_configuration set_committed_configuration
  live_bootstrap-Launched options_ok snaps configuration n {t} {m} idle empty voter h modern codec
        written =
      let b =
        bootstrap_cluster-Begun st laws lg env options_ok snaps configuration n.stable n.logs h in
      let new : ltb env.protocol_version 3 ≡ false = ground arith in
      let e = first_entry st lg env configuration in
      let got : lg.get_log m 1 ≡ found e =
        ap (λ k. lg.get_log k 1) b.log_is
        ∙ log_laws.get_log-store_logs n.logs (e ∷ []) 1 b.log_saved in
      let started : Node st.S lg.S =
        set_last_log
          (record n { stable = (st.set_uint64 t key_current_term 1).1; logs = m; current_term = 1 })
          1 1 in
      let adopted =
        process_configuration_log_entry-decoded env started e configuration (rw new refl)
          (rw new codec) in
      (
        set_latest_configuration
            (set_committed_configuration started started.configurations.latest
              started.configurations.latest_index)
            configuration 1,
        rw (voter, h, got, written) (ap (live_from st lg env) adopted),
        record {
          is_follower = idle;
          in_term = refl;
          last_index = refl;
          latest_is = refl;
          latest_at = refl;
          nothing_committed = empty;
        },
      )

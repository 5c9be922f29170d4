-- ===== src/Bootstrap/Launch.antt =====
-- NewRaft of api.go on the stores that BootstrapCluster wrote.
use perf_raft.Prelude.{
  ◌<◌, ◌≡◌, Bool, true, false, Option, some, List, [], ◌∷◌, ltb, refl, ap, ◌∙◌, arith,
}
use perf_raft.Configuration.{Configuration}
use perf_raft.LogStore.{Log, LogStore, LogStoreLaws, StableStore, StableStoreLaws, latest}
use perf_raft.Node.{Node, Env, key_current_term}
use perf_raft.Process.{next}
use perf_raft.Start.{SnapshotMeta, new_raft}
use perf_raft.Start.First.{Launched, new_raft-Launched}
use perf_raft.Bootstrap.{done, bootstrap_cluster, first_entry}
use perf_raft.Bootstrap.Once.{bootstrap_cluster-Begun}

-- A log store that was empty has the index of the one entry stored as its last.
abbrev pub CountsFirst : LogStore → Type 0
CountsFirst lg =
    (l : lg.S) (e : Log)
    → lg.last_index l ≡ some 0
    → (lg.store_logs l (e ∷ [])).0 ≡ true
    → lg.last_index (lg.store_logs l (e ∷ [])).1 ≡ some e.index

module _ (st : StableStore) (laws : StableStoreLaws st) (lg : LogStore) (log_laws : LogStoreLaws lg)
    (counts : CountsFirst lg) (env : Env) where
  -- After a success on an empty log, by a server of protocol version 3 or later and with a codec that
  -- reads the configuration back, NewRaft without snapshots starts a follower of term 1, whose latest
  -- configuration is the one that was given, at index 1, and not yet committed, if it can write its term.
  pub new_raft-bootstrap_cluster :
      (options_ok : Bool) (snaps : Option (List SnapshotMeta)) (configuration : Configuration)
      (s : st.S) (l : lg.S) {t : st.S} {m : lg.S}
      → bootstrap_cluster st lg env options_ok snaps configuration s l ≡ (done, t, m)
      → lg.last_index l ≡ some 0
      → 2 < env.protocol_version
      → env.decode_configuration (env.encode_configuration configuration) ≡ some configuration
      → (st.set_uint64 t key_current_term 1).0 ≡ true
      → (n : Node st.S lg.S) × (new_raft st lg env (some []) t m ≡ next n)
        × Launched configuration 1 n
  unfolding first_entry latest
  new_raft-bootstrap_cluster options_ok snaps configuration s l {t} {m} h empty modern codec
        written =
      let b = bootstrap_cluster-Begun st laws lg env options_ok snaps configuration s l h in
      let e = first_entry st lg env configuration in
      let new : ltb env.protocol_version 3 ≡ false = ground arith in
      new_raft-Launched st lg env t m 1 e configuration b.term_saved written
        (ap lg.last_index b.log_is ∙ counts l e empty b.log_saved)
        (ap (λ k. lg.get_log k 1) b.log_is ∙ log_laws.get_log-store_logs l (e ∷ []) 1 b.log_saved)
        refl (rw new refl) (rw new codec)

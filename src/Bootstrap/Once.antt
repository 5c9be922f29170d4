-- ===== src/Bootstrap/Once.antt =====
-- BootstrapCluster of api.go works once, and NewRaft starts from what it wrote.
use perf_raft.Prelude.{◌≡◌, Bool, true, false, Option, none, some, List, [], ◌∷◌, refl, arith}
use perf_raft.Configuration.{Configuration, check_configuration}
use perf_raft.LogStore.{found, LogStore, StableStore, StableStoreLaws}
use perf_raft.Node.{Env, key_current_term}
use perf_raft.Start.{SnapshotMeta}
use perf_raft.Bootstrap.{
  done, cant_bootstrap, state_of, has_existing_state, first_entry, write_first, on_state,
  on_checked, bootstrap_cluster,
}

module _ (st : StableStore) (laws : StableStoreLaws st) (lg : LogStore) (env : Env) where
  -- What holds when BootstrapCluster succeeds.
  pub record Begun (options_ok : Bool) (snaps : Option (List SnapshotMeta))
      (configuration : Configuration) (s : st.S) (l : lg.S) (t : st.S) (m : lg.S) : Type 0 where
    pub options : options_ok ≡ true
    pub checked : check_configuration configuration ≡ none
    pub clean : has_existing_state st lg env snaps s l ≡ some false
    pub term_saved : st.get_uint64 t key_current_term ≡ found 1
    pub log_saved : (lg.store_logs l (first_entry st lg env configuration ∷ [])).0 ≡ true
    pub log_is : m ≡ (lg.store_logs l (first_entry st lg env configuration ∷ [])).1

  pub bootstrap_cluster-Begun :
      (options_ok : Bool) (snaps : Option (List SnapshotMeta)) (configuration : Configuration)
      (s : st.S) (l : lg.S) {t : st.S} {m : lg.S}
      → bootstrap_cluster st lg env options_ok snaps configuration s l ≡ (done, t, m)
      → Begun options_ok snaps configuration s l t m
  unfolding bootstrap_cluster on_checked on_state write_first
  bootstrap_cluster-Begun options_ok snaps configuration s l h =
      ground (arith, h, laws.get_uint64-set_uint64 s key_current_term 1)

  -- After a success, any further attempt with a configuration that is sound is refused, and leaves
  -- both stores as they are.
  pub bootstrap_cluster-once :
      (options_ok : Bool) (snaps : Option (List SnapshotMeta)) (configuration : Configuration)
      (s : st.S) (l : lg.S) {t : st.S} {m : lg.S}
      → bootstrap_cluster st lg env options_ok snaps configuration s l ≡ (done, t, m)
      → (later_snaps : Option (List SnapshotMeta)) (other : Configuration)
      → check_configuration other ≡ none
      → bootstrap_cluster st lg env true later_snaps other t m ≡ (cant_bootstrap, t, m)
  unfolding bootstrap_cluster on_checked on_state has_existing_state state_of
  bootstrap_cluster-once options_ok snaps configuration s l {t} {m} h later_snaps other sound =
      let b = bootstrap_cluster-Begun options_ok snaps configuration s l h in
      rw (sound, b.term_saved) refl

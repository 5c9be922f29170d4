-- ===== src/Start/Snapshotted.antt =====
-- NewRaft of api.go with a snapshot and an empty log.
use perf_raft.Prelude.{ℕ, ◌-◌, ◌<◌, ◌≡◌, true, some, List, ◌∷◌, ltb, refl, arith}
use perf_raft.LogStore.{found, LogStore, StableStore}
use perf_raft.Node.{
  Node, Env, follower, key_current_term, set_current_term, set_state, set_last_log,
  get_last_snapshot, set_last_snapshot, set_latest_configuration, set_committed_configuration,
}
use perf_raft.Process.{next}
use perf_raft.Start.{
  SnapshotMeta, new_raft, start_from, start_in_term, restore_snapshot, restore_snapshots, scan_log,
  adopt_snapshot, blank,
}

-- A server that has started with no more than a snapshot.
pub record StartedFrom {St Lg : Type 0} (snap : SnapshotMeta) (term : ℕ) (n : Node St Lg)
    : Type 0 where
  pub is_follower : n.state ≡ follower
  pub in_term : n.current_term ≡ term
  pub snapshot_index : n.last_snapshot_index ≡ snap.index
  pub snapshot_term : n.last_snapshot_term ≡ snap.term
  pub applied : n.last_applied ≡ snap.index
  pub latest_is : n.configurations.latest ≡ snap.configuration
  pub latest_at : n.configurations.latest_index ≡ snap.configuration_index
  pub committed_is : n.configurations.committed ≡ snap.configuration
  pub committed_at : n.configurations.committed_index ≡ snap.configuration_index

module _ (st : StableStore) (lg : LogStore) (env : Env) where
  pub new_raft-StartedFrom :
      (s : st.S) (l : lg.S) (t : ℕ) (snap : SnapshotMeta) (older : List SnapshotMeta)
      → st.get_uint64 s key_current_term ≡ found t
      → (st.set_uint64 s key_current_term t).0 ≡ true
      → lg.last_index l ≡ some 0
      → snap.restores ≡ true
      → 0 < snap.version
      → (n : Node st.S lg.S) × (new_raft st lg env (some (snap ∷ older)) s l ≡ next n)
        × StartedFrom snap t n
  unfolding new_raft start_from start_in_term restore_snapshot restore_snapshots set_last_log
      get_last_snapshot set_last_snapshot set_current_term set_state scan_log blank adopt_snapshot
      set_latest_configuration set_committed_configuration
  new_raft-StartedFrom s l t snap older term written empty restores modern =
      let new : ltb 0 snap.version ≡ true = ground arith in
      let none_left : 0 - snap.index ≡ 0 = omega arith in
      rw (term, empty, written, restores, new)
        (
          set_latest_configuration
              (set_committed_configuration
                (set_last_snapshot (record started { last_applied = snap.index }) snap.index
                  snap.term)
                snap.configuration snap.configuration_index)
              snap.configuration snap.configuration_index,
          rw none_left refl,
          record {
            is_follower = refl;
            in_term = refl;
            snapshot_index = refl;
            snapshot_term = refl;
            applied = refl;
            latest_is = refl;
            latest_at = refl;
            committed_is = refl;
            committed_at = refl;
          },
        )
    where
      started : Node st.S lg.S
      started =
          set_last_log
            (record (set_state (blank st lg env s l) follower) {
              stable = (st.set_uint64 s key_current_term t).1;
              current_term = t;
            })
            0 0

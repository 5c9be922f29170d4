-- ===== src/Snapshot/UserRestore.antt =====
-- restoreUserSnapshot of raft.go: a leader takes over a snapshot from outside, at an index that leaves a
-- hole in its log, which makes replication send the snapshot.
use perf_raft.Prelude.{
  ℕ, ◌+◌, ◌≤◌, ◌<◌, ◌≡◌, ◌^◌, ◌≢◌, ◌⊎◌, inc64, Bool, false, not, Option, none, some, [], ltb, ◌==◌,
  if◌then◌else◌, arith, refl, sym, subst, Bool-cases, inl, inr,
}
use perf_raft.LogStore.{found, not_found, LogStore, StableStore}
use perf_raft.Node.{Env, get_last_index, set_last_log, set_last_snapshot}
use perf_raft.Append.{AppendEntriesRequest}
use perf_raft.Leader.{Leader}
use perf_raft.Replication.{SnapshotMeta, setup_append_entries}
use perf_raft.Replication.Request.{setup_append_entries-hole}
use perf_raft.Snapshot.{Installing, remove_old_logs}

pub data UserRestoreError : Type 0 where
  unsupported_version change_outstanding not_created not_written wrong_size not_closed :
      UserRestoreError

-- How it ends: without the leader's state when the state machine cannot restore, which is a panic.
pub data UserRestored (St Lg : Type 0) : Type 0 where
  done : Option UserRestoreError → Leader St Lg → UserRestored St Lg
  died : UserRestored St Lg

module _ (st : StableStore) (lg : LogStore) (monotonic : Bool) where
  -- The higher of the two indexes, and one more, in 64 bits.
  abbrev pub burned_index : Leader st.S lg.S → SnapshotMeta → ℕ
  burned_index l meta =
      inc64 (if ltb (get_last_index l.node) meta.index then meta.index else get_last_index l.node)

  unfoldable pub adopt_user_snapshot : Leader st.S lg.S → ℕ → Leader st.S lg.S
  unfolding set_last_log set_last_snapshot remove_old_logs
  adopt_user_snapshot l index =
      let n = set_last_log l.node index l.node.current_term in
      let m = set_last_snapshot (record n { last_applied = index }) index l.node.current_term in
      record l { node = if monotonic then record m { logs = (remove_old_logs lg m.logs).1 } else m }

  unfoldable pub with_sink :
      Installing → SnapshotMeta → ℕ → Leader st.S lg.S → UserRestored st.S lg.S
  unfolding adopt_user_snapshot
  with_sink does meta index l =
      if not does.created then done (some not_created) l else elim does.copied [
        | none ↦ done (some not_written) l
        | some size ↦
            if not (size == meta.size)
            then done (some wrong_size) l
            else if not does.closed
            then done (some not_closed) l
            else if not does.restored
            then died
            else done none (adopt_user_snapshot l index)
      ]

  unfoldable pub restore_user_snapshot :
      SnapshotMeta → Installing → Leader st.S lg.S → UserRestored st.S lg.S
  unfolding with_sink
  restore_user_snapshot meta does l =
      if ltb 1 meta.version
      then done (some unsupported_version) l
      else if not (l.node.configurations.committed_index == l.node.configurations.latest_index)
      then done (some change_outstanding) l
      else with_sink does meta (burned_index l meta) (record l { inflight = [] })

  -- What a success leaves behind.
  pub record IsBurned (l m : Leader st.S lg.S) (index : ℕ) : Type 0 where
    pub stable : l.node.configurations.committed_index ≡ l.node.configurations.latest_index
    pub last_log : m.node.last_log_index ≡ index
    pub last_snapshot : m.node.last_snapshot_index ≡ index
    pub last_applied : m.node.last_applied ≡ index
    pub configurations : m.node.configurations ≡ l.node.configurations
    pub none_inflight : m.inflight ≡ []
    pub logs : m.node.logs ≡ (if monotonic then (remove_old_logs lg l.node.logs).1 else l.node.logs)

  adopt_user_snapshot-IsBurned :
      (l : Leader st.S lg.S) (index : ℕ)
      → l.node.configurations.committed_index ≡ l.node.configurations.latest_index
      → IsBurned l (adopt_user_snapshot (record l { inflight = [] }) index) index
  unfolding adopt_user_snapshot set_last_log set_last_snapshot
  adopt_user_snapshot-IsBurned l index same = elim (Bool-cases monotonic) [
    | inl e ↦ record {
      stable = same;
      last_log = rw e refl;
      last_snapshot = rw e refl;
      last_applied = rw e refl;
      configurations = rw e refl;
      none_inflight = refl;
      logs = rw e refl;
    }
    | inr e ↦ record {
      stable = same;
      last_log = rw e refl;
      last_snapshot = rw e refl;
      last_applied = rw e refl;
      configurations = rw e refl;
      none_inflight = refl;
      logs = rw e refl;
    }
  ]

  restore_user_snapshot-IsBurned :
      (meta : SnapshotMeta) (does : Installing) (l : Leader st.S lg.S) {m : Leader st.S lg.S}
      → restore_user_snapshot meta does l ≡ done none m
      → IsBurned l m (burned_index l meta)
  unfolding restore_user_snapshot with_sink
  restore_user_snapshot-IsBurned meta does l {m} h =
      let index = burned_index l meta in
      let facts : (l.node.configurations.committed_index ≡ l.node.configurations.latest_index)
          × (adopt_user_snapshot (record l { inflight = [] }) index ≡ m) =
        ground (arith, h) in
      subst (λ k. IsBurned l k index) facts.1 (adopt_user_snapshot-IsBurned l index facts.0)

  -- After restoreUserSnapshot has succeeded on a log store that allows gaps, and with indexes before the
  -- last 64-bit number, the last log index, the last applied one and that of the last snapshot are the
  -- same new index: past the leader's last one and past the snapshot's, and the next one of either. No
  -- configuration was outstanding, the configurations and the log are the same, and no entry is inflight.
  -- If the log had nothing at that index, no request whose batch would reach over it can be set up for a
  -- peer.
  pub restore_user_snapshot_lem :
      (env : Env) (max_append_entries : ℕ) (meta : SnapshotMeta) (does : Installing)
      (l : Leader st.S lg.S) {m : Leader st.S lg.S}
      → restore_user_snapshot meta does l ≡ done none m
      → monotonic ≡ false
      → get_last_index l.node + 1 < 2 ^ 64
      → meta.index + 1 < 2 ^ 64
      → let index = m.node.last_log_index in
        IsBurned l m index
        × (get_last_index l.node < index)
        × (meta.index < index)
        × ((index ≡ get_last_index l.node + 1) ⊎ (index ≡ meta.index + 1))
        × (lg.get_log l.node.logs index ≡ not_found
            → (term next last : ℕ) → next ≤ index
            → index < next + max_append_entries
            → index ≤ last
            → (req : AppendEntriesRequest)
            → setup_append_entries st lg env max_append_entries m.node term next last ≢ found req)
  restore_user_snapshot_lem env max_append_entries meta does l {m} h gaps small_log small_meta =
      let b = restore_user_snapshot-IsBurned meta does l h in
      let burned = b.last_log in
      let same : l.node.logs ≡ m.node.logs = sym (rw gaps at b.logs) in
      (
        subst (IsBurned l m) (sym burned) b,
        ground (arith, burned),
        ground (arith, burned),
        ground (arith, burned),
        λ empty term next last le lt reach req.
            setup_append_entries-hole st lg env max_append_entries m.node term next last
              m.node.last_log_index le reach lt
              (subst (λ s. lg.get_log s m.node.last_log_index ≡ not_found) same empty) req,
      )

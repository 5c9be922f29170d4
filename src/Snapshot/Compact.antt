-- ===== src/Snapshot/Compact.antt =====
-- snapshot.go: which entries stay after a compaction, and when a snapshot is taken.
use perf_raft.Prelude.{
  ℕ, ◌+◌, ◌-◌, ◌^◌, ◌<◌, ◌≤◌, ◌≡◌, ◌≢◌, ◌⊎◌, Bool, true, false, none, some, ltb, leb, if◌then◌else◌,
  arith, refl, Bool-cases, Option-cases, inl, inr,
}
use perf_raft.LogStore.{not_found, LogStore, LogStoreLaws, StableStore}
use perf_raft.Node.{Node, set_last_snapshot}
use perf_raft.Replication.{min}
use perf_raft.Snapshot.{
  trim, compact_logs_with_trailing, remove_old_logs, compact_logs, should_snapshot, SnapshotError,
  compact_error, compacted, take_snapshot,
}

module _ (lg : LogStore) (laws : LogStoreLaws lg) where
  trim-kept :
      (snap_index last_kept : ℕ) (s : lg.S) (lo i : ℕ)
      → min snap_index last_kept < i
      → (trim lg snap_index last_kept s lo).0 ≡ true
      → lg.get_log (trim lg snap_index last_kept s lo).1 i ≡ lg.get_log s i
  unfolding trim
  trim-kept snap_index last_kept s lo i after h =
      elim (Bool-cases (ltb (min snap_index last_kept) lo)) [
        | inl e ↦ rw e refl
        | inr e ↦
            let deleted = laws.get_log-delete_range s lo (min snap_index last_kept) i (rw e at h) in
            rw e (ground (arith, deleted, after))
      ]

  -- A compaction without an error leaves every entry as it was that comes after the snapshot, or that is
  -- among the last `trailing` ones.
  pub compact_logs_with_trailing-kept :
      (s : lg.S) (snap last trailing i : ℕ)
      → (compact_logs_with_trailing lg s snap last trailing).0 ≡ true
      → (snap < i) ⊎ (last < i + trailing)
      → lg.get_log (compact_logs_with_trailing lg s snap last trailing).1 i ≡ lg.get_log s i
  unfolding compact_logs_with_trailing min
  compact_logs_with_trailing-kept s snap last trailing i h after =
      elim (Option-cases (lg.first_index s)) [
        | inl e ↦ rw (e, compact_logs_with_trailing) refl
        | inr (lo, e) ↦ elim (Bool-cases (leb last trailing)) [
          | inl d ↦ rw (e, compact_logs_with_trailing) (rw d refl)
          | inr d ↦
              let whole = rw (e, compact_logs_with_trailing) at h in
              rw (e, compact_logs_with_trailing)
                (rw d (
                  trim-kept snap (last - trailing) s lo i (ground (arith, d, after))
                    (rw d at whole)))
        ]
      ]

  -- When the log of a store that allows no gap was cleared without an error, none of its entries, from
  -- the first index to the last, is left.
  pub remove_old_logs-gone :
      (s : lg.S) (lo hi i : ℕ)
      → lg.first_index s ≡ some lo
      → lg.last_index s ≡ some hi
      → (remove_old_logs lg s).0 ≡ true
      → 1 ≤ lo
      → lo ≤ i
      → i ≤ hi
      → lg.get_log (remove_old_logs lg s).1 i ≡ not_found
  unfolding remove_old_logs compact_logs_with_trailing trim min
  remove_old_logs-gone s lo hi i first last h one le ge =
      let deletes = laws.get_log-delete_range s lo hi i in
      ground (arith, first, last, h, one, le, ge, deletes)

  module _ (st : StableStore) where
    fine : {b : Bool} → (if b then none else some compact_error) ≡ none → b ≡ true
    fine {b = true} h = refl
    fine {b = false} h = ground (arith, h)

    fault : {x : SnapshotError} → some x ≢ none
    fault h = ground (arith, h)

    -- A snapshot that was taken without an error is not older than the committed configuration, is
    -- remembered as the last one, and costs the log no entry after it and none of the trailing ones.
    pub take_snapshot-Taken :
        (trailing index term : ℕ) (created persisted closed : Bool) (n : Node st.S lg.S)
        → (take_snapshot st lg trailing (some (index, term)) created persisted closed n).0 ≡ none
        → let m =
            (take_snapshot st lg trailing (some (index, term)) created persisted closed n).1 in
          (n.configurations.committed_index ≤ index)
          × (m.last_snapshot_index ≡ index)
          × (m.last_snapshot_term ≡ term)
          × ((i : ℕ)
              → (index < i) ⊎ (n.last_log_index < i + trailing)
              → lg.get_log m.logs i ≡ lg.get_log n.logs i)
    unfolding take_snapshot compacted compact_logs set_last_snapshot
    take_snapshot-Taken trailing index term false persisted closed n h = ground (arith, h)
    take_snapshot-Taken trailing index term true false closed n h = ground (arith, h)
    take_snapshot-Taken trailing index term true true false n h = ground (arith, h)
    take_snapshot-Taken trailing index term true true true n h =
        elim (Bool-cases (ltb index n.configurations.committed_index)) [
          | inl e ↦ absurd (fault (rw e at h))
          | inr e ↦ rw e (
            ground (arith, e),
            refl,
            refl,
            λ i after.
                compact_logs_with_trailing-kept n.logs index n.last_log_index trailing i
                  (fine (rw e at h)) after,
          )
        ]

    -- The log is empty after a snapshot was restored: the difference of the indexes wraps around, and a
    -- new snapshot is due although there is nothing to put into it.
    pub should_snapshot-wraps :
        (threshold : ℕ) (n : Node st.S lg.S)
        → lg.last_index n.logs ≡ some 0
        → 0 < n.last_snapshot_index
        → n.last_snapshot_index + threshold ≤ 2 ^ 64
        → should_snapshot st lg threshold n ≡ true
    unfolding should_snapshot
    should_snapshot-wraps threshold n empty pos fits = ground (arith, empty, pos, fits)

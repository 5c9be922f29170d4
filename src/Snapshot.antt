-- ===== src/Snapshot.antt =====
-- snapshot.go and installSnapshot of raft.go: when a snapshot is taken, how the log is compacted after
-- one, and how a follower takes over the snapshot of its leader. What the state machine and the snapshot
-- store answer are arguments.
pub mod Compact
pub mod Install
pub mod UserRestore
mod Tests
use perf_raft.Prelude.{
  ℕ, ◌+◌, ◌-◌, ◌%◌, ◌^◌, String, Bool, true, false, not, ◌||◌, Option, none, some, List, [], ltb,
  leb, ◌==◌, if◌then◌else◌, str_eq,
}
use perf_raft.Configuration.{Configuration}
use perf_raft.LogStore.{Bytes, LogStore, StableStore}
use perf_raft.Node.{
  Node, Env, Outcome, returned, panicked, follower, set_state, set_leader, set_last_contact,
  set_current_term, set_last_snapshot, set_latest_configuration, set_committed_configuration,
}
use perf_raft.Replication.{InstallSnapshotRequest, InstallSnapshotResponse, min}

module _ (lg : LogStore) where
  unfoldable pub trim : ℕ → ℕ → lg.S → ℕ → Bool × lg.S
  trim snap_index last_kept s min_log =
      if ltb (min snap_index last_kept) min_log
      then (true, s)
      else lg.delete_range s min_log (min snap_index last_kept)

  -- Whether there was no error, and the store.
  unfoldable pub compact_logs_with_trailing : lg.S → ℕ → ℕ → ℕ → Bool × lg.S
  unfolding trim
  compact_logs_with_trailing s snap_index last_log_index trailing_logs = elim (lg.first_index s) [
    | none ↦ (false, s)
    | some min_log ↦
        if leb last_log_index trailing_logs
        then (true, s)
        else trim snap_index (last_log_index - trailing_logs) s min_log
  ]

  -- Every entry goes, for a store that allows no gap.
  unfoldable pub remove_old_logs : lg.S → Bool × lg.S
  unfolding compact_logs_with_trailing
  remove_old_logs s = elim (lg.last_index s) [
    | none ↦ (false, s)
    | some last ↦ compact_logs_with_trailing s last last 0
  ]

-- Why no snapshot was taken. What takeSnapshot asks of others, in order: the state machine gives its
-- snapshot's index and term, then the store creates, writes and closes the snapshot.
pub data SnapshotError : Type 0 where
  fsm_error configuration_outstanding create_error persist_error close_error compact_error :
      SnapshotError

module _ (st : StableStore) (lg : LogStore) where
  unfoldable pub compact_logs : ℕ → Node st.S lg.S → ℕ → Bool × Node st.S lg.S
  unfolding compact_logs_with_trailing
  compact_logs trailing_logs n snap_index =
      let r = compact_logs_with_trailing lg n.logs snap_index n.last_log_index trailing_logs in
      (r.0, record n { logs = r.1 })

  -- The difference wraps around.
  unfoldable pub should_snapshot : ℕ → Node st.S lg.S → Bool
  should_snapshot snapshot_threshold n = elim (lg.last_index n.logs) [
    | none ↦ false
    | some last ↦ leb snapshot_threshold ((last + 2 ^ 64 - n.last_snapshot_index) % 2 ^ 64)
  ]

  unfoldable pub compacted : Bool × Node st.S lg.S → Option SnapshotError × Node st.S lg.S
  compacted (ok, n) = (if ok then none else some compact_error, n)

  unfoldable pub take_snapshot :
      ℕ
      → Option (ℕ × ℕ)
      → (created persisted closed : Bool) → Node st.S lg.S
      → Option SnapshotError × Node st.S lg.S
  unfolding compacted compact_logs set_last_snapshot
  take_snapshot trailing_logs none created persisted closed n = (some fsm_error, n)
  take_snapshot trailing_logs (some (index, term)) created persisted closed n =
      if ltb index n.configurations.committed_index
      then (some configuration_outstanding, n)
      else if not created
      then (some create_error, n)
      else if not persisted
      then (some persist_error, n)
      else if not closed
      then (some close_error, n)
      else compacted (compact_logs trailing_logs (set_last_snapshot n index term) index)

-- What others answer to installSnapshot: the snapshot store creates a snapshot, so many bytes are copied
-- to it (nothing is an error), it is closed, and the state machine restores it.
pub record Installing : Type 0 where
  pub created : Bool
  pub copied : Option ℕ
  pub closed : Bool
  pub restored : Bool

-- The response, and whether an RPC error goes with it.
pub record InstallReply : Type 0 where
  pub response : InstallSnapshotResponse
  pub rpc_error : Bool

unfoldable pub refused : InstallSnapshotResponse → Bool → InstallReply
refused resp rpc_error = record { response = resp; rpc_error = rpc_error }

module _ (st : StableStore) (lg : LogStore) (env : Env) (trailing_logs : ℕ) (monotonic : Bool)
    (now : ℕ) where
  -- Clear or compact the log; an error is only logged.
  unfoldable pub clear_logs : Node st.S lg.S → ℕ → Node st.S lg.S
  unfolding remove_old_logs compact_logs
  clear_logs n index =
      if monotonic
      then record n { logs = (remove_old_logs lg n.logs).1 }
      else (compact_logs st lg trailing_logs n index).1

  -- Once the state machine has restored the snapshot.
  unfoldable pub adopt_snapshot :
      Node st.S lg.S → InstallSnapshotRequest → Configuration → ℕ → Node st.S lg.S
  unfolding clear_logs set_last_snapshot set_latest_configuration set_committed_configuration
  adopt_snapshot n req configuration index =
      clear_logs
        (set_committed_configuration
          (set_latest_configuration
            (set_last_snapshot (record n { last_applied = req.last_log_index }) req.last_log_index
              req.last_log_term)
            configuration index)
          configuration index)
        req.last_log_index

  unfoldable pub install_copied :
      InstallSnapshotResponse
      → InstallSnapshotRequest
      → Installing
      → Node st.S lg.S
      → Configuration
      → ℕ
      → Outcome st.S lg.S InstallReply
  unfolding adopt_snapshot refused
  install_copied resp req does n configuration index =
      if not does.closed || not does.restored
      then returned n (refused resp true)
      else returned (set_last_contact (adopt_snapshot n req configuration index) now)
          (refused (record resp { success = true }) false)

  unfoldable pub install_decoded :
      InstallSnapshotResponse
      → InstallSnapshotRequest
      → Installing
      → Node st.S lg.S
      → Configuration
      → ℕ
      → Outcome st.S lg.S InstallReply
  unfolding install_copied refused
  install_decoded resp req does n configuration index =
      if not does.created then returned n (refused resp true) else elim does.copied [
        | none ↦ returned n (refused resp true)
        | some size ↦
            if not (size == req.size)
            then returned n (refused resp true)
            else install_copied resp req does n configuration index
      ]

  -- The configuration of the snapshot; DecodeConfiguration panics on what it cannot read.
  unfoldable pub install_led :
      InstallSnapshotResponse
      → InstallSnapshotRequest
      → Installing
      → Node st.S lg.S
      → Outcome st.S lg.S InstallReply
  unfolding install_decoded refused
  install_led resp req does n =
      if ltb 0 req.snapshot_version
      then elim (env.decode_configuration req.configuration) [
        | none ↦ panicked n.stable n.logs
        | some c ↦ install_decoded resp req does n c req.configuration_index
      ]
      else elim (env.decode_peers req.peers) [
        | none ↦ returned n (refused resp true)
        | some c ↦ install_decoded resp req does n c req.last_log_index
      ]

  unfoldable pub install_in_term :
      InstallSnapshotResponse
      → InstallSnapshotRequest
      → Installing
      → Node st.S lg.S
      → Outcome st.S lg.S InstallReply
  unfolding install_led
  install_in_term resp req does n =
      let addr = if str_eq req.header.id "" then req.leader else req.header.addr in
      install_led resp req does (set_leader n (env.decode_peer addr) req.header.id)

  unfoldable pub install_newer :
      InstallSnapshotRequest → Installing → Bool × Node st.S lg.S → Outcome st.S lg.S InstallReply
  unfolding install_in_term
  install_newer req does (false, n) = panicked n.stable n.logs
  install_newer req does (true, n) =
      install_in_term (record { term = req.term; success = false }) req does n

  unfoldable pub install_snapshot :
      InstallSnapshotRequest → Installing → Node st.S lg.S → Outcome st.S lg.S InstallReply
  unfolding install_newer refused
  install_snapshot req does n =
      let resp : InstallSnapshotResponse = record { term = n.current_term; success = false } in
      if ltb 1 req.snapshot_version
      then returned n (refused resp true)
      else if ltb req.term n.current_term
      then returned n (refused resp false)
      else if ltb n.current_term req.term
      then install_newer req does (set_current_term st (set_state n follower) req.term)
      else install_in_term resp req does n

-- ===== src/Fsm.antt =====
-- fsm.go: the goroutine between the log and the application's state machine. The state machine is a
-- parameter: what the interfaces FSM, BatchingFSM and ConfigurationStore ask of it. Metrics are left out.
pub mod Batching
pub mod Replicas
mod Tests
use perf_raft.Prelude.{
  ℕ, Bool, true, false, not, Option, none, some, List, [], ◌∷◌, ◌++◌, ◌==◌, if◌then◌else◌, length,
  String,
}
use perf_raft.Configuration.{Configuration}
use perf_raft.LogStore.{
  Log, LogType, Bytes, log_command, log_noop, log_add_peer_deprecated, log_remove_peer_deprecated,
  log_barrier, log_configuration,
}
use perf_raft.Node.{Env}
use perf_raft.Replication.{SnapshotMeta}

-- The two optional interfaces are there or not.
pub record StateMachine : Type 1 where
  pub S : Type 0
  pub R : Type 0
  pub apply_log : S → Log → R × S
  pub apply_logs : Option (S → List Log → List R × S)
  pub store_configuration : Option (S → ℕ → Configuration → S)
  pub take : S → Option Bytes
  pub restore_from : S → Bytes → Option S

-- commitTuple: an entry, and whether a future waits for it.
pub record CommitTuple : Type 0 where
  pub log : Log
  pub awaited : Bool

module _ (fsm : StateMachine) (env : Env) where
  -- The state machine and the variables of runFSM; the responses that went to futures, by index.
  pub record Runner : Type 0 where
    pub machine : fsm.S
    pub last_index : ℕ
    pub last_term : ℕ
    pub responses : List (ℕ × Option fsm.R)

  unfoldable pub respond : CommitTuple → Option fsm.R → Runner → Runner
  respond t r q =
      if t.awaited then record q { responses = q.responses ++ (t.log.index, r) ∷ [] } else q

  unfoldable pub update_indexes : Log → Runner → Runner
  update_indexes l q = record q { last_index = l.index; last_term = l.term }

  -- `none` is a panic, on a configuration that cannot be decoded.
  store_decoded :
      CommitTuple
      → (fsm.S → ℕ → Configuration → fsm.S)
      → Option Configuration
      → Runner
      → Option Runner
  unfolding respond update_indexes
  store_decoded t store none q = none
  store_decoded t store (some c) q =
      some (
        respond t none
          (update_indexes t.log (record q { machine = store q.machine t.log.index c })))

  store_if_enabled :
      CommitTuple → Option (fsm.S → ℕ → Configuration → fsm.S) → Runner → Option Runner
  unfolding respond store_decoded
  store_if_enabled t none q = some (respond t none q)
  store_if_enabled t (some store) q =
      store_decoded t store (env.decode_configuration t.log.payload) q

  -- The switch of applySingle.
  apply_by_type : LogType → CommitTuple → Runner → Option Runner
  unfolding respond update_indexes store_if_enabled
  apply_by_type log_command t q =
      let r = fsm.apply_log q.machine t.log in
      some (respond t (some r.0) (update_indexes t.log (record q { machine = r.1 })))
  apply_by_type log_configuration t q = store_if_enabled t fsm.store_configuration q
  apply_by_type _ t q = some (respond t none (update_indexes t.log q))

  unfoldable pub apply_single : CommitTuple → Runner → Option Runner
  unfolding apply_by_type
  apply_single t q = apply_by_type t.log.log_type t q

  unfoldable pub apply_each : List CommitTuple → Runner → Option Runner
  unfolding apply_single
  apply_each [] q = some q
  apply_each (t ∷ ts) q = elim (apply_single t q) [ none ↦ none | some p ↦ apply_each ts p ]

  -- shouldSend of applyBatch.
  unfoldable pub should_send : LogType → Bool
  should_send log_command = true
  should_send log_configuration = true
  should_send _ = false

  unfoldable pub send_logs : List CommitTuple → List Log
  unfolding should_send
  send_logs [] = []
  send_logs (t ∷ ts) =
      let rest = send_logs ts in if should_send t.log.log_type then t.log ∷ rest else rest

  -- lastBatchIndex and lastBatchTerm.
  unfoldable pub last_of_batch : ℕ × ℕ → List CommitTuple → ℕ × ℕ
  last_of_batch last [] = last
  last_of_batch last (t ∷ ts) = last_of_batch (t.log.index, t.log.term) ts

  abbrev first_of : List fsm.R → Option fsm.R
  first_of [] = none
  first_of (r ∷ rs) = some r

  abbrev rest_of : List fsm.R → List fsm.R
  rest_of [] = []
  rest_of (r ∷ rs) = rs

  -- The loop that hands the responses to the futures; there are as many as entries that were sent.
  unfoldable pub hand_out : List CommitTuple → List fsm.R → Runner → Runner
  unfolding respond should_send
  hand_out [] rs q = q
  hand_out (t ∷ ts) rs q =
      let sent = hand_out ts (rest_of rs) (respond t (first_of rs) q) in
      let kept = hand_out ts rs (respond t none q) in
      if should_send t.log.log_type then sent else kept

  with_responses : List CommitTuple → List Log → List fsm.R × fsm.S → Runner → Option Runner
  unfolding hand_out last_of_batch
  with_responses ts logs r q =
      if length logs == length r.0
      then some (
          hand_out ts r.0 (record q {
            machine = r.1;
            last_index = (last_of_batch (0, 0) ts).0;
            last_term = (last_of_batch (0, 0) ts).1;
          }))
      else none

  unfoldable pub call_batch :
      (fsm.S → List Log → List fsm.R × fsm.S) → List Log → fsm.S → List fsm.R × fsm.S
  call_batch f [] s = ([], s)
  call_batch f (l ∷ ls) s = f s (l ∷ ls)

  unfoldable pub apply_batching :
      (fsm.S → List Log → List fsm.R × fsm.S) → List CommitTuple → Runner → Option Runner
  unfolding send_logs call_batch with_responses
  apply_batching f ts q = with_responses ts (send_logs ts) (call_batch f (send_logs ts) q.machine) q

  -- applyBatch; `none` is a panic.
  unfoldable pub apply_batch : List CommitTuple → Runner → Option Runner
  unfolding apply_each apply_batching
  apply_batch ts q = elim fsm.apply_logs [ none ↦ apply_each ts q | some f ↦ apply_batching f ts q ]

  restored : SnapshotMeta → Option fsm.S → Runner → Bool × Runner
  restored meta none q = (false, q)
  restored meta (some s) q =
      (true, record q { machine = s; last_index = meta.index; last_term = meta.term })

  -- `restore`: whether it succeeded, given what Open of the snapshot store gives.
  unfoldable pub restore : Option (SnapshotMeta × Bytes) → Runner → Bool × Runner
  unfolding restored
  restore none q = (false, q)
  restore (some (meta, source)) q = restored meta (fsm.restore_from q.machine source) q

  -- `snapshot`: nothing new, an error of the state machine, or its snapshot with index and term.
  pub data Snapshotted : Type 0 where
    nothing_new : Snapshotted
    snapshot_error : Snapshotted
    snapshotted : ℕ → ℕ → Bytes → Snapshotted

  unfoldable pub snapshot : Runner → Snapshotted
  snapshot q = if q.last_index == 0 then nothing_new else elim (fsm.take q.machine) [
    | none ↦ snapshot_error
    | some b ↦ snapshotted q.last_index q.last_term b
  ]

-- ===== src/Fsm/Batching.antt =====
-- applyBatch of fsm.go beside applySingle.
use perf_raft.Prelude.{
  ℕ, suc, ◌≡◌, ◌≢◌, true, none, some, List, [], ◌∷◌, ◌==◌, length, arith, refl, sym, ap, ◌∙◌,
  Bool-cases, inl, inr,
}
use perf_raft.LogStore.{
  Log, LogType, log_command, log_noop, log_add_peer_deprecated, log_remove_peer_deprecated,
  log_barrier, log_configuration,
}
use perf_raft.Node.{Env}
use perf_raft.Fsm.{
  StateMachine, CommitTuple, Runner, respond, update_indexes, apply_by_type, apply_single,
  apply_each, should_send, send_logs, last_of_batch, hand_out, with_responses, call_batch,
  apply_batching, apply_batch,
}

equal_lengths : {a b : ℕ} → a ≡ b → (b == a) ≡ true
equal_lengths h = ground (arith, h)

module _ (fsm : StateMachine) (env : Env) where
  -- What the interface BatchingFSM asks for: a batch is its entries in order, one response for each.
  abbrev pub AppliesInOrder : (fsm.S → List Log → List fsm.R × fsm.S) → Type 0
  AppliesInOrder f =
      (s : fsm.S) (l : Log) (ls : List Log)
      → let rest = call_batch fsm env f ls (fsm.apply_log s l).1 in
        f s (l ∷ ls) ≡ ((fsm.apply_log s l).0 ∷ rest.0, rest.1)

  abbrev pub NoConfiguration : List CommitTuple → Type 0
  NoConfiguration [] = Unit
  NoConfiguration (t ∷ ts) = (t.log.log_type ≢ log_configuration) × NoConfiguration ts

  module _ (f : fsm.S → List Log → List fsm.R × fsm.S) (law : AppliesInOrder f) where
    length-call_batch :
        (ls : List Log) (s : fsm.S) → length (call_batch fsm env f ls s).0 ≡ length ls
    unfolding call_batch
    length-call_batch [] s = refl
    length-call_batch (l ∷ ls) s =
        ap (λ r. length r.0) (law s l ls) ∙ ap suc (length-call_batch ls (fsm.apply_log s l).1)

    -- The end of applyBatch, whatever the indexes before.
    abbrev finished :
        ℕ × ℕ → List CommitTuple → List fsm.R × fsm.S → Runner fsm env → Runner fsm env
    finished last ts r q = hand_out fsm env ts r.0 (record q {
      machine = r.1;
      last_index = (last_of_batch fsm env last ts).0;
      last_term = (last_of_batch fsm env last ts).1;
    })

    -- One entry of a type, before the rest.
    finished-step :
        (k : LogType) (t : CommitTuple) (ts : List CommitTuple) (q : Runner fsm env)
        → t.log.log_type ≡ k
        → k ≢ log_configuration
        → ((p : Runner fsm env)
            → apply_each fsm env ts p
              ≡ some (
                  finished
                    (p.last_index, p.last_term)
                    ts
                    (call_batch fsm env f (send_logs fsm env ts) p.machine)
                    p))
        → elim (apply_by_type fsm env k t q) [ none ↦ none | some p ↦ apply_each fsm env ts p ]
          ≡ some (
              finished
                (t.log.index, t.log.term)
                (t ∷ ts)
                (call_batch fsm env f (send_logs fsm env (t ∷ ts)) q.machine)
                q)
    unfolding apply_by_type respond update_indexes send_logs should_send hand_out last_of_batch
        call_batch
    finished-step log_command t ts q e other ih =
        let sends = ap (should_send fsm env) e in
        elim (Bool-cases t.awaited) [
          | inl w ↦ rw (sends, w) (rw (law q.machine t.log (send_logs fsm env ts)) (ih _))
          | inr w ↦ rw (sends, w) (rw (law q.machine t.log (send_logs fsm env ts)) (ih _))
        ]
    finished-step log_configuration t ts q e other ih = absurd (other refl)
    finished-step log_noop t ts q e other ih =
        let sends = ap (should_send fsm env) e in
        elim (Bool-cases t.awaited) [ inl w ↦ rw (sends, w) (ih _) | inr w ↦ rw (sends, w) (ih _) ]
    finished-step log_add_peer_deprecated t ts q e other ih =
        let sends = ap (should_send fsm env) e in
        elim (Bool-cases t.awaited) [ inl w ↦ rw (sends, w) (ih _) | inr w ↦ rw (sends, w) (ih _) ]
    finished-step log_remove_peer_deprecated t ts q e other ih =
        let sends = ap (should_send fsm env) e in
        elim (Bool-cases t.awaited) [ inl w ↦ rw (sends, w) (ih _) | inr w ↦ rw (sends, w) (ih _) ]
    finished-step log_barrier t ts q e other ih =
        let sends = ap (should_send fsm env) e in
        elim (Bool-cases t.awaited) [ inl w ↦ rw (sends, w) (ih _) | inr w ↦ rw (sends, w) (ih _) ]

    apply_each-finished :
        (ts : List CommitTuple) (q : Runner fsm env)
        → NoConfiguration ts
        → apply_each fsm env ts q
          ≡ some (
              finished
                (q.last_index, q.last_term)
                ts
                (call_batch fsm env f (send_logs fsm env ts) q.machine)
                q)
    unfolding apply_each apply_single send_logs hand_out last_of_batch call_batch
    apply_each-finished [] q h = refl
    apply_each-finished (t ∷ ts) q h =
        finished-step t.log.log_type t ts q refl h.0 (λ p. apply_each-finished ts p h.1)

    -- For a state machine that takes batches, and applies a batch as its entries in order with one response
    -- for each, applyBatch comes to the same as applying the entries of a batch one by one: the state, the
    -- indexes and the responses are the same, if the batch has an entry and no configuration.
    pub apply_batch-apply_each :
        (ts : List CommitTuple) (q : Runner fsm env)
        → fsm.apply_logs ≡ some f
        → ts ≢ []
        → NoConfiguration ts
        → apply_batch fsm env ts q ≡ apply_each fsm env ts q
    unfolding apply_batch apply_batching with_responses
    apply_batch-apply_each [] q e full h = absurd (full refl)
    apply_batch-apply_each (t ∷ ts) q e full h =
        let ls = send_logs fsm env (t ∷ ts) in
        rw e (
          rw (equal_lengths (length-call_batch ls q.machine))
            (sym (apply_each-finished (t ∷ ts) q h)))

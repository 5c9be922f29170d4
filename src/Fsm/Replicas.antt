-- ===== src/Fsm/Replicas.antt =====
-- runFSM of fsm.go behind processLogs of raft.go: replicas whose logs agree reach the same state.
use perf_raft.Prelude.{ℕ, ◌≡◌, Bool, Option, none, some, List, [], ◌∷◌}
use perf_raft.LogStore.{Log, LogStore}
use perf_raft.Node.{Node, Env}
use perf_raft.Process.{Sent}
use perf_raft.Fsm.{StateMachine, CommitTuple, Runner, apply_batch}

-- The entries of a batch, with the futures that there are.
pub tuples_of : (ℕ → Bool) → List Log → List CommitTuple
tuples_of awaited [] = []
tuples_of awaited (l ∷ ls) = record { log = l; awaited = awaited l.index } ∷ tuples_of awaited ls

module _ (fsm : StateMachine) (env : Env) where
  -- The batches of one processLogs, one after the other.
  pub run_batches : (ℕ → Bool) → List (List Log) → Runner fsm env → Option (Runner fsm env)
  run_batches awaited [] q = some q
  run_batches awaited (b ∷ bs) q = elim (apply_batch fsm env (tuples_of awaited b) q) [
    | none ↦ none
    | some p ↦ run_batches awaited bs p
  ]

  -- Without what went to the futures.
  abbrev pub bare : Runner fsm env → Runner fsm env
  bare q = record q { responses = [] }

  abbrev pub bare_end : Option (Runner fsm env) → Option (Runner fsm env)
  bare_end none = none
  bare_end (some q) = some (bare q)

  -- Both replicas died of an entry that cannot be read, or both went on: to the same last applied index
  -- and, their state machines with what they keep of the log, to the same end.
  abbrev pub Agree :
      {St St' Lg Lg' : Type 0}
      → (a b : ℕ → Bool) → (q p : Runner fsm env) → Option (Node St Lg × Sent)
      → Option (Node St' Lg' × Sent)
      → Type 0
  Agree a b q p none none = Unit
  Agree a b q p (some (n, sent)) (some (m, sent')) =
      (n.last_applied ≡ m.last_applied)
      × (bare_end (run_batches a sent.batches q) ≡ bare_end (run_batches b sent'.batches p))
  Agree a b q p _ _ = ⊥

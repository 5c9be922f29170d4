-- ===== src/Process/Unvoting.antt =====
-- The handling of log entries in raft.go touches neither the term nor the stable store.
use perf_raft.Prelude.{
  ℕ, ◌+◌, ◌-◌, ◌≡◌, Option, none, some, [], refl, Option-cases, Bool-cases, leb, inl, inr, ◌∙◌,
}
use perf_raft.LogStore.{
  Log, LogType, log_add_peer_deprecated, log_remove_peer_deprecated, log_configuration, LogStore,
}
use perf_raft.Node.{Node, Env}
use perf_raft.Process.{
  Step, next, stop, die, ◌>>=◌, process_configuration_log_entry, process_by_type, process_logs,
  process_loop, Sent,
}

-- The same term and the same stable store.
abbrev pub SameVote : {St Lg : Type 0} → Node St Lg → Node St Lg → Type 0
SameVote n m = (m.stable ≡ n.stable) × (m.current_term ≡ n.current_term)

abbrev pub StepSame : {St Lg : Type 0} → Node St Lg → Step St Lg → Type 0
StepSame n (next m) = SameVote n m
StepSame n (stop m e) = SameVote n m
StepSame n (die m) = SameVote n m

pub StepSame-trans :
    {St Lg : Type 0} (n m : Node St Lg) (r : Step St Lg)
    → SameVote n m
    → StepSame m r
    → StepSame n r
StepSame-trans n m (next k) s h = (h.0 ∙ s.0, h.1 ∙ s.1)
StepSame-trans n m (stop k e) s h = (h.0 ∙ s.0, h.1 ∙ s.1)
StepSame-trans n m (die k) s h = (h.0 ∙ s.0, h.1 ∙ s.1)

pub StepSame-bind :
    {St Lg : Type 0} (n : Node St Lg) (r : Step St Lg) (f : Node St Lg → Step St Lg)
    → StepSame n r
    → ((m : Node St Lg) → StepSame m (f m))
    → StepSame n (r >>= f)
StepSame-bind n (next m) f s keep = StepSame-trans n m (f m) s (keep m)
StepSame-bind n (stop m e) f s keep = s
StepSame-bind n (die m) f s keep = s

module _ {St Lg : Type 0} (env : Env) where
  process_by_type-StepSame :
      (n : Node St Lg) (entry : Log) (t : LogType) → StepSame n (process_by_type env n entry t)
  unfolding process_configuration_log_entry
  process_by_type-StepSame n entry log_configuration =
      elim (Option-cases (env.decode_configuration entry.payload)) [
        | inl e ↦ rw e (refl, refl)
        | inr (c, e) ↦ rw e (refl, refl)
      ]
  process_by_type-StepSame n entry log_add_peer_deprecated =
      elim (Option-cases (env.decode_peers entry.payload)) [
        | inl e ↦ rw e (refl, refl)
        | inr (c, e) ↦ rw e (refl, refl)
      ]
  process_by_type-StepSame n entry log_remove_peer_deprecated =
      elim (Option-cases (env.decode_peers entry.payload)) [
        | inl e ↦ rw e (refl, refl)
        | inr (c, e) ↦ rw e (refl, refl)
      ]
  process_by_type-StepSame n entry _ = (refl, refl)

  pub process_configuration_log_entry-StepSame :
      (n : Node St Lg) (entry : Log) → StepSame n (process_configuration_log_entry env n entry)
  unfolding process_configuration_log_entry
  process_configuration_log_entry-StepSame n entry = process_by_type-StepSame n entry entry.log_type

abbrev pub ProcessedSame : {St Lg : Type 0} → Node St Lg → Option (Node St Lg × Sent) → Type 0
ProcessedSame n none = Unit
ProcessedSame n (some (m, sent)) = SameVote n m

pub process_logs-SameVote :
    (lg : LogStore) (env : Env) (max : ℕ) (futures : ℕ → Option Log) {St : Type 0}
    (n : Node St lg.S) (index : ℕ)
    → ProcessedSame n (process_logs lg env max futures n index)
unfolding process_logs
process_logs-SameVote lg env max futures n index = elim (Bool-cases (leb index n.last_applied)) [
  | inl e ↦ rw e (refl, refl)
  | inr e ↦
      rw e
        (elim (Option-cases (
          process_loop lg env max futures (index - n.last_applied) (n.last_applied + 1) n.logs []
            (record { batches = []; responded = [] }))) [
              | inl p ↦ rw p tt
              | inr (r, p) ↦ rw p (refl, refl)
            ])
]

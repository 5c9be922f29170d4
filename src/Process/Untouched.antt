-- ===== src/Process/Untouched.antt =====
-- processConfigurationLogEntry of raft.go leaves the log store alone.
use perf_raft.Prelude.{
  ℕ, ◌+◌, ◌-◌, ◌≡◌, [], Option, refl, ◌∙◌, none, some, inl, inr, Bool-cases, Option-cases, leb,
}
use perf_raft.Configuration.{Configuration}
use perf_raft.LogStore.{
  Log, LogType, log_add_peer_deprecated, log_remove_peer_deprecated, log_configuration, LogStore,
}
use perf_raft.Node.{Node, Env, set_latest_configuration, set_committed_configuration}
use perf_raft.Process.{
  Step, next, stop, die, ◌>>=◌, process_configuration_log_entry, process_by_type, Sent,
  process_loop, process_logs, adopt_decoded, commit_latest,
}

-- A step that goes on has the same logs.
abbrev pub SameLogs : {St Lg : Type 0} → Node St Lg → Step St Lg → Type 0
SameLogs n (next m) = m.logs ≡ n.logs
SameLogs n (stop m e) = Unit
SameLogs n (die m) = Unit

pub SameLogs-bind :
    {St Lg : Type 0} (n : Node St Lg) (r : Step St Lg) (f : Node St Lg → Step St Lg)
    → SameLogs n r
    → ((m : Node St Lg) → SameLogs m (f m))
    → SameLogs n (r >>= f)
SameLogs-bind n (next m) f s keep = SameLogs-trans (f m) (keep m)
  where
    SameLogs-trans : (r : Step _ _) → SameLogs m r → SameLogs n r
    SameLogs-trans (next k) h = h ∙ s
    SameLogs-trans (stop k e) h = tt
    SameLogs-trans (die k) h = tt
SameLogs-bind n (stop m e) f s keep = tt
SameLogs-bind n (die m) f s keep = tt

module _ {St Lg : Type 0} (env : Env) where
  process_by_type-SameLogs :
      (n : Node St Lg) (entry : Log) (t : LogType) → SameLogs n (process_by_type env n entry t)
  unfolding process_configuration_log_entry
  process_by_type-SameLogs n entry log_configuration =
      elim (Option-cases (env.decode_configuration entry.payload)) [
        | inl e ↦ rw e tt
        | inr (c, e) ↦ rw e refl
      ]
  process_by_type-SameLogs n entry log_add_peer_deprecated =
      elim (Option-cases (env.decode_peers entry.payload)) [
        | inl e ↦ rw e tt
        | inr (c, e) ↦ rw e refl
      ]
  process_by_type-SameLogs n entry log_remove_peer_deprecated =
      elim (Option-cases (env.decode_peers entry.payload)) [
        | inl e ↦ rw e tt
        | inr (c, e) ↦ rw e refl
      ]
  process_by_type-SameLogs n entry _ = refl

  pub process_configuration_log_entry-SameLogs :
      (n : Node St Lg) (entry : Log) → SameLogs n (process_configuration_log_entry env n entry)
  unfolding process_configuration_log_entry
  process_configuration_log_entry-SameLogs n entry = process_by_type-SameLogs n entry entry.log_type

abbrev pub ProcessedLogs : {St Lg : Type 0} → Node St Lg → Option (Node St Lg × Sent) → Type 0
ProcessedLogs n none = Unit
ProcessedLogs n (some (m, sent)) =
    (m.logs ≡ n.logs)
    × (m.commit_index ≡ n.commit_index)
    × (m.state ≡ n.state)
    × (m.configurations ≡ n.configurations)

pub process_logs-ProcessedLogs :
    (lg : LogStore) (env : Env) (max : ℕ) (futures : ℕ → Option Log) {St : Type 0}
    (n : Node St lg.S) (index : ℕ)
    → ProcessedLogs n (process_logs lg env max futures n index)
unfolding process_logs
process_logs-ProcessedLogs lg env max futures n index =
    elim (Bool-cases (leb index n.last_applied)) [
      | inl e ↦ rw e (refl, refl, refl, refl)
      | inr e ↦
          rw e
            (elim (Option-cases (
              process_loop lg env max futures (index - n.last_applied) (n.last_applied + 1) n.logs
                [] (record { batches = []; responded = [] }))) [
                  | inl p ↦ rw p tt
                  | inr (r, p) ↦ rw p (refl, refl, refl, refl)
                ])
    ]

-- An entry with a configuration commits the latest one, and becomes the latest.
pub process_configuration_log_entry-decoded :
    {St Lg : Type 0} (env : Env) (n : Node St Lg) (e : Log) (configuration : Configuration)
    → e.log_type ≡ log_configuration
    → env.decode_configuration e.payload ≡ some configuration
    → process_configuration_log_entry env n e
      ≡ next (
          set_latest_configuration
            (set_committed_configuration n n.configurations.latest n.configurations.latest_index)
            configuration
            e.index)
unfolding process_configuration_log_entry process_by_type adopt_decoded commit_latest
process_configuration_log_entry-decoded env n e configuration type decoded = rw (type, decoded) refl

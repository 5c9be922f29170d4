-- ===== src/Fsm/Tests.antt =====
-- A state machine that keeps the payloads it was given, alone and behind two replicas.
use perf_raft.Prelude.{true, false, none, some, List, [], ◌∷◌, ◌++◌, ◌≡◌, refl}
use perf_raft.LogStore.{Log, Bytes}
use perf_raft.Fsm.{StateMachine, CommitTuple, Runner, call_batch, apply_each, apply_batch}
use perf_raft.Fsm.Batching.{AppliesInOrder, apply_batch-apply_each}
use perf_raft.Samples.{command_at, sample_env}

abbrev keep : List Bytes → Log → Bytes × List Bytes
keep s l = (l.payload, s ++ l.payload ∷ [])

abbrev keep_all : List Bytes → List Log → List Bytes × List Bytes
keep_all s [] = ([], s)
keep_all s (l ∷ ls) = let rest = keep_all (s ++ l.payload ∷ []) ls in (l.payload ∷ rest.0, rest.1)

abbrev keeper : StateMachine
keeper = record {
  S = List Bytes;
  R = Bytes;
  apply_log = keep;
  apply_logs = none;
  store_configuration = none;
  take = λ s. some [];
  restore_from = λ s b. some [];
}

abbrev batching : StateMachine
batching = record keeper { apply_logs = some keep_all }

in_order : AppliesInOrder batching sample_env keep_all
unfolding call_batch
in_order s l [] = refl
in_order s l (k ∷ ks) = refl

abbrev batch : List CommitTuple
batch =
    record { log = command_at 1; awaited = true }
    ∷ record { log = command_at 2; awaited = false }
    ∷ []

abbrev fresh : Runner batching sample_env
fresh = record { machine = []; last_index = 0; last_term = 0; responses = [] }

apply_batch-apply_each_example :
    apply_batch batching sample_env batch fresh ≡ apply_each batching sample_env batch fresh
apply_batch-apply_each_example =
    apply_batch-apply_each batching sample_env keep_all in_order batch fresh refl (λ e. cc)
      ((λ e. cc), ((λ e. cc), tt))

abbrev idle : Runner keeper sample_env
idle = record { machine = []; last_index = 0; last_term = 0; responses = [] }

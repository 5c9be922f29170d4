-- ===== src/LogCache/Tests.antt =====
-- log_cache.go over the in-memory store.
use mathlib.Core.Bool.{false≢true}
use perf_raft.Prelude.{sym, ◌≡◌, some, List, [], ◌∷◌, refl}
use perf_raft.LogStore.{StoresAtomically}
use perf_raft.InmemStore.{InmemStore, as_log_store}
use perf_raft.InmemStore.Logs.{inmem_log_laws}
use perf_raft.LogCache.{LogCache, new_log_cache, make}
use perf_raft.LogCache.Coherence.{
  Call, read, write, cut, ask_last, answers_store, answers_cache, answers_new_log_cache,
}
use perf_raft.Samples.{command_at, sample_store}

abbrev two_slots : LogCache InmemStore
two_slots = record { store = sample_store; cache = make 2 }

made : new_log_cache as_log_store 2 sample_store ≡ some two_slots
unfolding new_log_cache
made = refl

never_fails : StoresAtomically as_log_store
never_fails s logs i h = absurd (false≢true (sym h))

abbrev calls : List Call
calls =
    write (command_at 3 ∷ command_at 4 ∷ []) ∷ read 4 ∷ cut 4 4 ∷ read 4 ∷ read 3 ∷ ask_last ∷ []

answers_new_log_cache_example :
    answers_cache as_log_store two_slots calls ≡ answers_store as_log_store sample_store calls
answers_new_log_cache_example =
    answers_new_log_cache as_log_store inmem_log_laws never_fails 2 sample_store calls made

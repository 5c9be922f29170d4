-- ===== src/Bootstrap/Tests.antt =====
-- Three servers are bootstrapped on empty stores in memory.
use perf_raft.Prelude.{true, none, some, ◌≡◌, [], ◌∷◌, refl, arith}
use perf_raft.Configuration.{check_configuration, check_servers, contains}
use perf_raft.InmemStore.{
  InmemStore, new_inmem_store, as_log_store, as_stable_store, last_index, store_logs, store_one,
  get_uint64, set_uint64, lookup,
}
use perf_raft.InmemStore.Kv.{inmem_stable_laws}
use perf_raft.InmemStore.Logs.{inmem_log_laws}
use perf_raft.Node.{Node}
use perf_raft.Process.{next}
use perf_raft.Start.{new_raft}
use perf_raft.Start.First.{Launched}
use perf_raft.Bootstrap.{
  done, cant_bootstrap, state_of, any_log, any_snapshots, has_existing_state, first_entry,
  write_first, on_state, on_checked, bootstrap_cluster,
}
use perf_raft.Bootstrap.Once.{bootstrap_cluster-once}
use perf_raft.Bootstrap.Launch.{CountsFirst, new_raft-bootstrap_cluster}
use perf_raft.Samples.{sample_env, three, two}

abbrev stable : InmemStore
stable = set_uint64 new_inmem_store "CurrentTerm" 1

abbrev logs : InmemStore
logs = store_logs new_inmem_store (first_entry as_stable_store as_log_store sample_env three ∷ [])

bootstrapped :
    bootstrap_cluster as_stable_store as_log_store sample_env true
      (some [])
      three
      new_inmem_store
      new_inmem_store
    ≡ (done, stable, logs)
unfolding bootstrap_cluster on_checked on_state write_first has_existing_state state_of any_log
    any_snapshots check_configuration check_servers contains get_uint64 lookup last_index
    new_inmem_store
bootstrapped = refl

sound : check_configuration two ≡ none
unfolding check_configuration check_servers contains
sound = refl

bootstrap_cluster-once_example :
    bootstrap_cluster as_stable_store as_log_store sample_env true none two stable logs
    ≡ (cant_bootstrap, stable, logs)
bootstrap_cluster-once_example =
    bootstrap_cluster-once as_stable_store inmem_stable_laws as_log_store sample_env true (some [])
      three new_inmem_store new_inmem_store bootstrapped none two sound

counts_first : CountsFirst as_log_store
unfolding store_logs store_one last_index
counts_first l e empty stored = ground (arith, empty)

empty_log : as_log_store.last_index new_inmem_store ≡ some 0
unfolding last_index new_inmem_store
empty_log = refl

new_raft-bootstrap_cluster_example :
    (n : Node InmemStore InmemStore) × (new_raft as_stable_store as_log_store sample_env
        (some [])
        stable
        logs
      ≡ next n)
    × Launched three 1 n
new_raft-bootstrap_cluster_example =
    new_raft-bootstrap_cluster as_stable_store inmem_stable_laws as_log_store inmem_log_laws
      counts_first sample_env true (some []) three new_inmem_store new_inmem_store bootstrapped
      empty_log (omega arith) refl refl

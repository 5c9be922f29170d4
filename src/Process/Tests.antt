-- ===== src/Process/Tests.antt =====
-- processLogs of raft.go on a log of two commands.
use perf_raft.Prelude.{none, arith}
use perf_raft.InmemStore.{as_log_store}
use perf_raft.Process.{process_logs}
use perf_raft.Process.Batches.{AllSent, entries_from, process_logs-AllSent}
use perf_raft.Samples.{sample_env, sample_node, sample_store}

process_logs-AllSent_example :
    AllSent sample_env 1 sample_node 2
      (process_logs as_log_store sample_env 1 (λ i. none) sample_node 2)
      (entries_from as_log_store sample_env 1 (λ i. none) 2 1 sample_store)
process_logs-AllSent_example =
    process_logs-AllSent as_log_store sample_env 1 (λ i. none) sample_node 2 (omega arith)
      (omega arith)

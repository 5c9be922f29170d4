-- ===== src/InmemStore/Tests.antt =====
-- inmem_store.go with a log of two entries.
use perf_raft.Prelude.{ℕ, ◌-◌, ◌^◌, ◌≡◌, inr, some, false, arith}
use perf_raft.InmemStore.{InmemStore, get_log, find_log, delete_range}
use perf_raft.InmemStore.Range.{IsContiguous, is_found, delete_range_from_zero}
use perf_raft.Samples.{sample_store}

sample-IsContiguous : IsContiguous sample_store
unfolding get_log find_log
sample-IsContiguous = record {
  ends = inr (omega arith, omega arith);
  fits = omega arith;
  readable = λ i. ground arith;
}

delete_range_from_zero_example :
    (t : InmemStore) × (delete_range sample_store 0 2 ≡ some t)
    × (t.high_index ≡ 2 ^ 64 - 1)
    × ((i : ℕ) → is_found (get_log t i) ≡ false)
delete_range_from_zero_example =
    delete_range_from_zero sample_store 2 sample-IsContiguous (omega arith) (omega arith)

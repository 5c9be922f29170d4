-- ===== src/InmemStore/Range.antt =====
-- The two ends that inmem_store.go keeps beside the entries: for a log that is written without gaps
-- and cut at its ends, as the library does, they are the ends of what can be read.
use perf_raft.Prelude.{
  ℕ, ◌+◌, ◌-◌, ◌^◌, ◌≤◌, ◌<◌, ◌≡◌, ◌⊎◌, inl, some, Bool, true, false, ◌&&◌, List, [], ◌∷◌, ltb, leb,
  if◌then◌else◌, refl, arith, length,
}
use perf_raft.LogStore.{Log, Read, found, not_found, failed}
use perf_raft.InmemStore.{
  InmemStore, find_log, get_log, store_one, store_logs, cut_range, delete_range, new_inmem_store,
}
use perf_raft.InmemStore.Logs.{find_log-delete_log, get_log-cut_range}

abbrev pub is_found : Read Log → Bool
is_found (found l) = true
is_found not_found = false
is_found failed = false

-- The log holds the entries from `low_index` to `high_index`, each under its index, and no other;
-- both are 0 if there is none.
pub record IsContiguous (s : InmemStore) : Type 0 where
  pub ends :
      ((s.low_index ≡ 0) × (s.high_index ≡ 0)) ⊎ ((0 < s.low_index) × (s.low_index ≤ s.high_index))
  pub fits : s.high_index + 1 < 2 ^ 64
  pub readable :
      (i : ℕ)
      → is_found (get_log s i) ≡ (ltb 0 s.low_index && (leb s.low_index i && leb i s.high_index))

-- A batch whose indexes follow on from `i`.
abbrev pub Consecutive : ℕ → List Log → Type 0
Consecutive i [] = Unit
Consecutive i (l ∷ ls) = (l.index ≡ i + 1) × Consecutive (i + 1) ls

new_inmem_store-IsContiguous : IsContiguous new_inmem_store
unfolding new_inmem_store get_log find_log
new_inmem_store-IsContiguous = record {
  ends = inl (refl, refl);
  fits = omega arith;
  readable = λ i. ground arith;
}

store_one-IsContiguous :
    (s : InmemStore) (l : Log)
    → IsContiguous s
    → (l.index ≡ s.high_index + 1) ⊎ ((s.high_index ≡ 0) × (0 < l.index))
    → l.index + 1 < 2 ^ 64
    → IsContiguous (store_one s l)
unfolding store_one get_log find_log
store_one-IsContiguous s l v h f = record {
  ends = ground (arith, v.ends);
  fits = ground arith;
  readable = λ i. ground (arith, v.ends, v.readable i, find_log-delete_log l.index i s.logs);
}

-- A batch that follows on from the last entry, or that starts anywhere in an empty store, keeps the
-- ends exact.
pub store_logs-IsContiguous :
    (s : InmemStore) (l : Log) (ls : List Log)
    → IsContiguous s
    → (l.index ≡ s.high_index + 1) ⊎ ((s.high_index ≡ 0) × (0 < l.index))
    → Consecutive l.index ls
    → l.index + length ls + 1 < 2 ^ 64
    → IsContiguous (store_logs s (l ∷ ls))
unfolding store_logs
store_logs-IsContiguous s l [] v h c f = store_one-IsContiguous s l v h (omega arith)
store_logs-IsContiguous s l (k ∷ ls) v h (e, c) f =
    store_logs-IsContiguous (store_one s l) k ls (store_one-IsContiguous s l v h (omega arith))
      (inl (one_high (omega (arith, e)))) (rw e c) (omega (arith, e))
  where
    one_high : k.index ≡ l.index + 1 → k.index ≡ (store_one s l).high_index + 1
    one_high e' = ground (arith, v.ends)

-- The two ends before the store is found to be empty.
abbrev low_after : InmemStore → ℕ → ℕ → ℕ
low_after s lo hi = if leb lo s.low_index then hi + 1 else s.low_index

abbrev high_after : InmemStore → ℕ → ℕ → ℕ
high_after s lo hi = if leb s.high_index hi then lo - 1 else s.high_index

module _ (s : InmemStore) (lo hi : ℕ) (pos : 0 < lo) (lo_fits : lo < 2 ^ 64)
    (f : hi + 1 < 2 ^ 64) where
  low_index-cut_range :
      (cut_range s lo hi).low_index
      ≡ (if ltb (high_after s lo hi) (low_after s lo hi) then 0 else low_after s lo hi)
  unfolding cut_range
  low_index-cut_range = ground arith

  high_index-cut_range :
      (cut_range s lo hi).high_index
      ≡ (if ltb (high_after s lo hi) (low_after s lo hi) then 0 else high_after s lo hi)
  unfolding cut_range
  high_index-cut_range = ground arith

-- A deleted range that meets the log at one of its ends keeps them exact.
pub cut_range-IsContiguous :
    (s : InmemStore) (lo hi : ℕ)
    → IsContiguous s
    → 0 < s.low_index
    → 0 < lo
    → lo ≤ s.high_index + 1
    → s.low_index ≤ hi + 1
    → hi + 1 < 2 ^ 64
    → (lo ≤ s.low_index) ⊎ (s.high_index ≤ hi)
    → IsContiguous (cut_range s lo hi)
cut_range-IsContiguous s lo hi v some_log pos above below f h =
    let lo_fits : lo < 2 ^ 64 = omega (arith, v.fits) in
    let low = low_index-cut_range s lo hi pos lo_fits f in
    let high = high_index-cut_range s lo hi pos lo_fits f in
    record {
      ends = ground (arith, v.ends, low, high);
      fits = ground (arith, v.ends, v.fits, low, high);
      readable = λ i. ground (arith, v.ends, v.readable i, low, high, get_log-cut_range s lo hi i);
    }

-- A range from index 0 that covers the log, and does not reach the last 64-bit number, empties it, and
-- leaves a store whose last index is the largest 64-bit number.
pub delete_range_from_zero :
    (s : InmemStore) (hi : ℕ)
    → IsContiguous s
    → s.high_index ≤ hi
    → hi + 1 < 2 ^ 64
    → (t : InmemStore) × (delete_range s 0 hi ≡ some t)
      × (t.high_index ≡ 2 ^ 64 - 1)
      × ((i : ℕ) → is_found (get_log t i) ≡ false)
unfolding delete_range cut_range
delete_range_from_zero s hi v h f = (
  cut_range s 0 hi,
  ground arith,
  ground arith,
  λ i. ground (arith, v.readable i, get_log-cut_range s 0 hi i),
)

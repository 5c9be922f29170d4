-- ===== src/InmemStore/Logs.antt =====
-- Reads of inmem_store.go after its writes.
use perf_raft.Prelude.{
  ℕ, zero, suc, ◌+◌, ◌-◌, true, ◌≡◌, ◌&&◌, none, List, [], ◌∷◌, ltb, leb, ◌==◌, if◌then◌else◌, refl,
  arith,
}
use perf_raft.LogStore.{Log, not_found, latest, after_batch, LogStoreLaws}
use perf_raft.InmemStore.{
  InmemStore, find_log, delete_log, get_log, store_one, store_logs, delete_loop, cut_range,
  as_log_store, delete_range,
}

pub find_log-delete_log :
    (i j : ℕ) (m : List Log) → find_log j (delete_log i m) ≡ (if i == j then none else find_log j m)
unfolding find_log delete_log
find_log-delete_log i j [] = ground arith
find_log-delete_log i j (l ∷ m) = ground (arith, find_log-delete_log i j m)

-- The last entry of the batch with the index is read, and else what was there before.
pub get_log-store_logs :
    (s : InmemStore) (logs : List Log) (i : ℕ)
    → get_log (store_logs s logs) i ≡ after_batch (latest i logs) (get_log s i)
unfolding get_log store_logs latest find_log
get_log-store_logs s [] i = refl
get_log-store_logs s (l ∷ ls) i =
    ground (arith, get_log-store_logs (store_one s l) ls i, find_log-delete_log l.index i s.logs)

find_log-delete_loop :
    (rounds j i : ℕ) (m : List Log)
    → find_log i (delete_loop rounds j m)
      ≡ (if leb j i && ltb i (j + rounds) then none else find_log i m)
unfolding delete_loop
find_log-delete_loop zero j i m = ground arith
find_log-delete_loop (suc rounds) j i m =
    ground
      (arith, find_log-delete_loop rounds (j + 1) i (delete_log j m), find_log-delete_log j i m)

-- The indexes of the range, both ends included, are gone, and no other.
pub get_log-cut_range :
    (s : InmemStore) (lo hi i : ℕ)
    → get_log (cut_range s lo hi) i ≡ (if leb lo i && leb i hi then not_found else get_log s i)
unfolding get_log cut_range
get_log-cut_range s lo hi i = ground (arith, find_log-delete_loop (hi + 1 - lo) lo i s.logs)

get_log-delete_range :
    (s : InmemStore) (lo hi i : ℕ)
    → (as_log_store.delete_range s lo hi).0 ≡ true
    → get_log (as_log_store.delete_range s lo hi).1 i
      ≡ (if leb lo i && leb i hi then not_found else get_log s i)
unfolding delete_range
get_log-delete_range s lo hi i h = ground (arith, h, get_log-cut_range s lo hi i)

-- What is read by index of the in-memory store after a write that returns: of a batch, the later of two
-- entries with one index; of a deleted range, which does not reach the last 64-bit number, nothing; and
-- else what was read before.
pub inmem_log_laws : LogStoreLaws as_log_store
inmem_log_laws = record {
  get_log-store_logs = λ s logs i h. get_log-store_logs s logs i;
  get_log-delete_range = λ s lo hi i h. get_log-delete_range s lo hi i h;
}

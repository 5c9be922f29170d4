-- ===== src/InmemStore/Kv.antt =====
-- The StableStore half of inmem_store.go.
use perf_raft.Prelude.{ℕ, ◌≡◌, String, if◌then◌else◌, refl, arith, str_eq, str_eq_iff}
use perf_raft.LogStore.{found, StableStoreLaws, Bytes}
use perf_raft.InmemStore.{
  InmemStore, lookup, insert, get, set, get_uint64, set_uint64, new_inmem_store, as_stable_store,
}

get-set :
    (s : InmemStore) (k j : String) (v : Bytes)
    → get (set s k v) j ≡ (if str_eq k j then found v else get s j)
unfolding get set lookup insert
get-set s k j v = ground arith

get_uint64-set_uint64 :
    (s : InmemStore) (k j : String) (v : ℕ)
    → get_uint64 (set_uint64 s k v) j ≡ (if str_eq k j then found v else get_uint64 s j)
unfolding get_uint64 set_uint64 lookup insert
get_uint64-set_uint64 s k j v = ground arith

get_uint64-set :
    (s : InmemStore) (k j : String) (v : Bytes) → get_uint64 (set s k v) j ≡ get_uint64 s j
unfolding get_uint64 set
get_uint64-set s k j v = refl

get-set_uint64 : (s : InmemStore) (k j : String) (v : ℕ) → get (set_uint64 s k v) j ≡ get s j
unfolding get set_uint64
get-set_uint64 s k j v = refl

-- The in-memory store keeps what the StableStore interface promises: a value that was set is read back under its
-- key and kind, and nothing else changes.
pub inmem_stable_laws : StableStoreLaws as_stable_store
inmem_stable_laws = record {
  get-set = λ s k v h. ground (arith, get-set s k k v, str_eq_iff k k);
  get-set_failed = λ s k v h. cc;
  get-set_ne = λ s k j v h. ground (arith, get-set s k j v, str_eq_iff k j);
  get_uint64-set = get_uint64-set;
  get_uint64-set_uint64 = λ s k v h. ground (arith, get_uint64-set_uint64 s k k v, str_eq_iff k k);
  get_uint64-set_uint64_failed = λ s k v h. cc;
  get_uint64-set_uint64_ne =
      λ s k j v h. ground (arith, get_uint64-set_uint64 s k j v, str_eq_iff k j);
  get-set_uint64 = get-set_uint64;
}

pub get_uint64-new_inmem_store : (k : String) → get_uint64 new_inmem_store k ≡ found 0
unfolding get_uint64 new_inmem_store lookup
get_uint64-new_inmem_store k = refl

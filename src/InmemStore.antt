-- ===== src/InmemStore.antt =====
-- inmem_store.go: the in-memory LogStore and StableStore. A Go map is an association list; a stored
-- byte slice that is nil does not occur. The store never fails.
pub mod Logs
pub mod Range
pub mod Kv
mod Tests
use perf_raft.Prelude.{
  ℕ, zero, suc, ◌+◌, ◌-◌, ◌%◌, ◌^◌, ◌≤◌, ◌<◌, ◌≡◌, String, Bool, true, false, Option, none, some,
  List, [], ◌∷◌, ltb, leb, ◌==◌, if◌then◌else◌, str_eq, inc64, dec64,
}
use perf_raft.LogStore.{Log, Bytes, Read, found, not_found, LogStore, StableStore}

-- map[string]V: m[k], and m[k] = v.
unfoldable pub lookup {ℓ} : {V : Type ℓ} → String → List (String × V) → Option V
lookup k [] = none
lookup k ((j, v) ∷ m) = if str_eq j k then some v else lookup k m

unfoldable pub insert {ℓ} : {V : Type ℓ} → String → V → List (String × V) → List (String × V)
insert k v m = (k, v) ∷ m

-- map[uint64]*Log: m[i], m[l.Index] = l, and delete(m, i).
unfoldable pub find_log : ℕ → List Log → Option Log
find_log i [] = none
find_log i (l ∷ m) = if l.index == i then some l else find_log i m

unfoldable pub delete_log : ℕ → List Log → List Log
delete_log i [] = []
delete_log i (l ∷ m) = let rest = delete_log i m in if l.index == i then rest else l ∷ rest

pub record InmemStore : Type 0 where
  pub low_index : ℕ
  pub high_index : ℕ
  pub logs : List Log
  pub kv : List (String × Bytes)
  pub kv_int : List (String × ℕ)

unfoldable pub new_inmem_store : InmemStore
new_inmem_store = record { low_index = 0; high_index = 0; logs = []; kv = []; kv_int = [] }

unfoldable pub first_index : InmemStore → ℕ
first_index s = s.low_index

unfoldable pub last_index : InmemStore → ℕ
last_index s = s.high_index

abbrev or_missing {ℓ} : {A : Type ℓ} → Option A → Read A
or_missing none = not_found
or_missing (some a) = found a

unfoldable pub get_log : InmemStore → ℕ → Read Log
get_log s i = or_missing (find_log i s.logs)

unfoldable pub store_one : InmemStore → Log → InmemStore
store_one s l = record s {
  logs = l ∷ delete_log l.index s.logs;
  low_index = if s.low_index == 0 then l.index else s.low_index;
  high_index = if ltb s.high_index l.index then l.index else s.high_index;
}

unfoldable pub store_logs : InmemStore → List Log → InmemStore
unfolding store_one
store_logs s [] = s
store_logs s (l ∷ ls) = store_logs (store_one s l) ls

pub store_log : InmemStore → Log → InmemStore
store_log s l = store_logs s (l ∷ [])

-- `for j := min; j <= max; j++ { delete(i.logs, j) }` with the rounds that it makes.
unfoldable pub delete_loop : ℕ → ℕ → List Log → List Log
delete_loop zero j m = m
delete_loop (suc rounds) j m = delete_loop rounds (j + 1) (delete_log j m)

unfoldable pub raise_low : ℕ → ℕ → InmemStore → InmemStore
raise_low min max s = if leb min s.low_index then record s { low_index = inc64 max } else s

unfoldable pub lower_high : ℕ → ℕ → InmemStore → InmemStore
lower_high min max s = if leb s.high_index max then record s { high_index = dec64 min } else s

unfoldable pub reset_empty : InmemStore → InmemStore
reset_empty s =
    if ltb s.high_index s.low_index then record s { low_index = 0; high_index = 0 } else s

-- DeleteRange, if its loop ends; see Range for what it does at 0.
unfoldable pub cut_range : InmemStore → ℕ → ℕ → InmemStore
unfolding delete_loop raise_low lower_high reset_empty
cut_range s min max = reset_empty (
    lower_high min max
      (raise_low min max (record s { logs = delete_loop (max + 1 - min) min s.logs })))

-- With the last 64-bit number for `max` the loop never ends, which is nothing.
unfoldable pub delete_range : InmemStore → ℕ → ℕ → Option InmemStore
delete_range s min max = if leb (2 ^ 64 - 1) max then none else some (cut_range s min max)

unfoldable pub set : InmemStore → String → Bytes → InmemStore
set s k v = record s { kv = insert k v s.kv }

unfoldable pub get : InmemStore → String → Read Bytes
get s k = or_missing (lookup k s.kv)

unfoldable pub set_uint64 : InmemStore → String → ℕ → InmemStore
set_uint64 s k v = record s { kv_int = insert k v s.kv_int }

-- A missing key reads as 0.
unfoldable pub get_uint64 : InmemStore → String → Read ℕ
get_uint64 s k = elim (lookup k s.kv_int) [ none ↦ found 0 | some v ↦ found v ]

-- The store behind the two interfaces; a write that never returns is not one that has succeeded.
abbrev pub as_log_store : LogStore
as_log_store = record {
  S = InmemStore;
  first_index = λ s. some (first_index s);
  last_index = λ s. some (last_index s);
  get_log = get_log;
  store_logs = λ s logs. (true, store_logs s logs);
  delete_range = λ s lo hi. elim (delete_range s lo hi) [ none ↦ (false, s) | some t ↦ (true, t) ];
}

abbrev pub as_stable_store : StableStore
as_stable_store = record {
  S = InmemStore;
  set = λ s k v. (true, set s k v);
  get = get;
  set_uint64 = λ s k v. (true, set_uint64 s k v);
  get_uint64 = get_uint64;
}

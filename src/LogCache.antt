-- ===== src/LogCache.antt =====
-- log_cache.go: a LogStore that keeps the latest entries of another one in a ring buffer.
pub mod Coherence
mod Tests
use perf_raft.Prelude.{
  ℕ, zero, suc, ◌+◌, ◌%◌, Bool, true, false, Option, none, some, List, [], ◌∷◌, ◌==◌, if◌then◌else◌,
  length,
}
use perf_raft.LogStore.{Log, Read, found, LogStore}

-- The buffer, `nil` where it holds nothing.
abbrev pub Slots : Type 0
Slots = List (Option Log)

pub get_or_nil : Slots → ℕ → Option Log
get_or_nil [] i = none
get_or_nil (x ∷ xs) zero = x
get_or_nil (x ∷ xs) (suc i) = get_or_nil xs i

pub set : Slots → ℕ → Option Log → Slots
set [] i v = []
set (x ∷ xs) zero v = v ∷ xs
set (x ∷ xs) (suc i) v = x ∷ set xs i v

-- make([]*Log, n)
pub make : ℕ → Slots
make zero = []
make (suc n) = none ∷ make n

-- c.cache[idx%uint64(len(c.cache))]
pub slot : Slots → ℕ → Option Log
slot cache idx = get_or_nil cache (idx % length cache)

-- The loop of StoreLogs.
pub fill : Slots → List Log → Slots
fill cache [] = cache
fill cache (l ∷ ls) = fill (set cache (l.index % length cache) (some l)) ls

-- The entry if it is the one that was asked for.
pub hit : ℕ → Option Log → Option Log
hit idx none = none
hit idx (some l) = if l.index == idx then some l else none

pub record LogCache (S : Type 0) : Type 0 where
  pub store : S
  pub cache : Slots

module _ (backing : LogStore) where
  -- A capacity that is not positive is an error.
  pub new_log_cache : ℕ → backing.S → Option (LogCache backing.S)
  new_log_cache zero store = none
  new_log_cache (suc n) store = some (record { store = store; cache = make (suc n) })

  pub get_log : LogCache backing.S → ℕ → Read Log
  get_log c idx = elim (hit idx (slot c.cache idx)) [
    | some l ↦ found l
    | none ↦ backing.get_log c.store idx
  ]

  keep_logs : LogCache backing.S → List Log → Bool × backing.S → Bool × LogCache backing.S
  keep_logs c logs (false, s) = (false, record c { store = s })
  keep_logs c logs (true, s) = (true, record { store = s; cache = fill c.cache logs })

  pub store_logs : LogCache backing.S → List Log → Bool × LogCache backing.S
  unfolding keep_logs
  store_logs c logs = keep_logs c logs (backing.store_logs c.store logs)

  pub store_log : LogCache backing.S → Log → Bool × LogCache backing.S
  store_log c l = store_logs c (l ∷ [])

  pub first_index : LogCache backing.S → Option ℕ
  first_index c = backing.first_index c.store

  pub last_index : LogCache backing.S → Option ℕ
  last_index c = backing.last_index c.store

  pub delete_range : LogCache backing.S → ℕ → ℕ → Bool × LogCache backing.S
  delete_range c lo hi =
      let r = backing.delete_range c.store lo hi in
      (r.0, record { store = r.1; cache = make (length c.cache) })

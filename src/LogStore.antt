-- ===== src/LogStore.antt =====
-- log.go and stable.go: log entries, and the two storage interfaces that the library is given. What
-- stands behind an interface is a parameter: its operations, and as laws what their comments promise.
use perf_raft.Prelude.{
  ℕ, String, ◌≡◌, ◌≢◌, ◌⊎◌, Bool, true, false, Option, none, some, List, [], ◌∷◌, ◌==◌,
  if◌then◌else◌, leb, ◌&&◌,
}

-- A Go byte slice that is not nil.
abbrev pub Bytes : Type 0
Bytes = List ℕ

pub data LogType : Type 0 where
  log_command log_noop log_add_peer_deprecated log_remove_peer_deprecated : LogType
  log_barrier log_configuration : LogType

pub record Log : Type 0 where
  pub index : ℕ
  pub term : ℕ
  pub log_type : LogType
  pub payload : Bytes
  pub extensions : Bytes
  pub appended_at : ℕ

-- The outcome of a read: a value, the error "not found", or another error.
pub data Read {ℓ} (A : Type ℓ) : Type ℓ where
  found : A → Read A
  not_found : Read A
  failed : Read A

-- The last entry of a batch with an index: the one that a store keeps.
unfoldable pub latest : ℕ → List Log → Option Log
latest i [] = none
latest i (l ∷ ls) = elim (latest i ls) [
  | some k ↦ some k
  | none ↦ if l.index == i then some l else none
]

-- What a read of `i` gives after a batch was stored.
abbrev pub after_batch : Option Log → Read Log → Read Log
after_batch none old = old
after_batch (some l) old = found l

-- An operation that writes says whether it succeeded. StoreLog is StoreLogs of one entry.
pub record LogStore : Type 1 where
  pub S : Type 0
  pub first_index : S → Option ℕ
  pub last_index : S → Option ℕ
  pub get_log : S → ℕ → Read Log
  pub store_logs : S → List Log → Bool × S
  pub delete_range : S → ℕ → ℕ → Bool × S

-- A batch that was stored can be read, and a range that was deleted is gone.
pub record LogStoreLaws (store : LogStore) : Type 0 where
  pub get_log-store_logs :
      (s : store.S) (logs : List Log) (i : ℕ)
      → (store.store_logs s logs).0 ≡ true
      → store.get_log (store.store_logs s logs).1 i
        ≡ after_batch (latest i logs) (store.get_log s i)
  pub get_log-delete_range :
      (s : store.S) (lo hi i : ℕ)
      → (store.delete_range s lo hi).0 ≡ true
      → store.get_log (store.delete_range s lo hi).1 i
        ≡ (if leb lo i && leb i hi then not_found else store.get_log s i)

-- A batch that could not be stored has left no trace.
abbrev pub StoresAtomically : LogStore → Type 0
StoresAtomically store =
    (s : store.S) (logs : List Log) (i : ℕ)
    → (store.store_logs s logs).0 ≡ false
    → store.get_log (store.store_logs s logs).1 i ≡ store.get_log s i

pub record StableStore : Type 1 where
  pub S : Type 0
  pub set : S → String → Bytes → Bool × S
  pub get : S → String → Read Bytes
  pub set_uint64 : S → String → ℕ → Bool × S
  pub get_uint64 : S → String → Read ℕ

-- A write that succeeds can be read, and one that fails may have happened or not. Neither touches
-- another key, or the other kind of value.
pub record StableStoreLaws (store : StableStore) : Type 0 where
  pub get-set :
      (s : store.S) (k : String) (v : Bytes)
      → (store.set s k v).0 ≡ true
      → store.get (store.set s k v).1 k ≡ found v
  pub get-set_failed :
      (s : store.S) (k : String) (v : Bytes)
      → (store.set s k v).0 ≡ false
      → (store.get (store.set s k v).1 k ≡ found v)
        ⊎ (store.get (store.set s k v).1 k ≡ store.get s k)
  pub get-set_ne :
      (s : store.S) (k j : String) (v : Bytes)
      → k ≢ j
      → store.get (store.set s k v).1 j ≡ store.get s j
  pub get_uint64-set :
      (s : store.S) (k j : String) (v : Bytes)
      → store.get_uint64 (store.set s k v).1 j ≡ store.get_uint64 s j
  pub get_uint64-set_uint64 :
      (s : store.S) (k : String) (v : ℕ)
      → (store.set_uint64 s k v).0 ≡ true
      → store.get_uint64 (store.set_uint64 s k v).1 k ≡ found v
  pub get_uint64-set_uint64_failed :
      (s : store.S) (k : String) (v : ℕ)
      → (store.set_uint64 s k v).0 ≡ false
      → (store.get_uint64 (store.set_uint64 s k v).1 k ≡ found v)
        ⊎ (store.get_uint64 (store.set_uint64 s k v).1 k ≡ store.get_uint64 s k)
  pub get_uint64-set_uint64_ne :
      (s : store.S) (k j : String) (v : ℕ)
      → k ≢ j
      → store.get_uint64 (store.set_uint64 s k v).1 j ≡ store.get_uint64 s j
  pub get-set_uint64 :
      (s : store.S) (k j : String) (v : ℕ) → store.get (store.set_uint64 s k v).1 j ≡ store.get s j

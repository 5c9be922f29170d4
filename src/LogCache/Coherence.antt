-- ===== src/LogCache/Coherence.antt =====
-- A client of log_cache.go cannot tell the cache from the store behind it.
use native.Mathlib.Nat.{mod-lt}
use mathlib.Core.Option.{some-injective}
use perf_raft.Prelude.{
  ℕ, zero, suc, ◌%◌, ◌<◌, ◌≡◌, ◌⊎◌, inl, inr, Bool, true, false, Option, none, some, List, [], ◌∷◌,
  ◌==◌, if◌then◌else◌, length, refl, arith, ap, ap₂, sym, subst, ◌∙◌, Option-cases,
}
use perf_raft.LogStore.{Log, Read, found, LogStore, LogStoreLaws, StoresAtomically, latest}
use perf_raft.LogCache.{
  LogCache, Slots, get_or_nil, set, make, slot, fill, hit, new_log_cache, get_log, store_logs,
  delete_range, keep_logs, first_index, last_index,
}

length-set : (xs : Slots) (i : ℕ) (v : Option Log) → length (set xs i v) ≡ length xs
unfolding set
length-set [] i v = refl
length-set (x ∷ xs) zero v = refl
length-set (x ∷ xs) (suc i) v = ap suc (length-set xs i v)

get_or_nil-set :
    (xs : Slots) (i j : ℕ) (v : Option Log)
    → i < length xs
    → get_or_nil (set xs i v) j ≡ (if i == j then v else get_or_nil xs j)
unfolding set get_or_nil
get_or_nil-set [] i j v h = absurd (omega arith)
get_or_nil-set (x ∷ xs) zero zero v h = ground arith
get_or_nil-set (x ∷ xs) zero (suc j) v h = ground arith
get_or_nil-set (x ∷ xs) (suc i) zero v h = ground arith
get_or_nil-set (x ∷ xs) (suc i) (suc j) v h = ground (arith, get_or_nil-set xs i j v)

length-make : (n : ℕ) → length (make n) ≡ n
unfolding make
length-make zero = refl
length-make (suc n) = ap suc (length-make n)

get_or_nil-make : (n i : ℕ) → get_or_nil (make n) i ≡ none
unfolding make get_or_nil
get_or_nil-make zero i = refl
get_or_nil-make (suc n) zero = refl
get_or_nil-make (suc n) (suc i) = get_or_nil-make n i

slot-set :
    (cache : Slots) (l : Log) (i : ℕ)
    → 0 < length cache
    → slot (set cache (l.index % length cache) (some l)) i
      ≡ (if (l.index % length cache) == (i % length cache) then some l else slot cache i)
unfolding slot
slot-set cache l i h =
    rw (length-set cache (l.index % length cache) (some l))
      (get_or_nil-set cache (l.index % length cache) (i % length cache) (some l) (mod-lt l.index h))

length-fill : (logs : List Log) (cache : Slots) → length (fill cache logs) ≡ length cache
unfolding fill
length-fill [] cache = refl
length-fill (l ∷ ls) cache =
    length-fill ls (set cache (l.index % length cache) (some l))
    ∙ length-set cache (l.index % length cache) (some l)

-- A hit in the buffer after a batch is the batch's last entry with the index, or an old hit of an
-- index that the batch does not have.
hit-fill :
    (logs : List Log) (cache : Slots) (i : ℕ) (l : Log)
    → 0 < length cache
    → hit i (slot (fill cache logs) i) ≡ some l
    → (latest i logs ≡ some l) ⊎ ((latest i logs ≡ none) × (hit i (slot cache i) ≡ some l))
unfolding fill latest hit
hit-fill [] cache i l pos h = inr (refl, h)
hit-fill (x ∷ xs) cache i l pos h =
    let cache' = set cache (x.index % length cache) (some x) in
    ground (
      arith,
      hit-fill xs cache' i l (omega (arith, length-set cache (x.index % length cache) (some x))) h,
      slot-set cache x i pos,
      ap (λ (k : ℕ). k % length cache) {x = x.index} {y = i},
    )

module _ (backing : LogStore) where
  -- What the buffer answers is what the store would answer.
  pub record IsCoherent (c : LogCache backing.S) : Type 0 where
    pub nonempty : 0 < length c.cache
    pub hits :
        (i : ℕ) (l : Log) → hit i (slot c.cache i) ≡ some l → backing.get_log c.store i ≡ found l

  pub get_log-backing :
      (c : LogCache backing.S) (i : ℕ)
      → IsCoherent c
      → get_log backing c i ≡ backing.get_log c.store i
  unfolding get_log
  get_log-backing c i v = elim (Option-cases (hit i (slot c.cache i))) [
    | inl e ↦ rw (e, get_log)
    | inr (l, e) ↦ rw (e, get_log) (sym (v.hits i l e))
  ]

  empty-IsCoherent :
      (n : ℕ) (s : backing.S) → 0 < n → IsCoherent (record { store = s; cache = make n })
  unfolding slot hit
  empty-IsCoherent n s h = record {
    nonempty = omega (arith, length-make n);
    hits = λ i l e. ground (arith, get_or_nil-make n (i % length (make n)));
  }

  delete_range-IsCoherent :
      (c : LogCache backing.S) (lo hi : ℕ)
      → IsCoherent c
      → IsCoherent (delete_range backing c lo hi).1
  unfolding delete_range
  delete_range-IsCoherent c lo hi v =
      empty-IsCoherent (length c.cache) (backing.delete_range c.store lo hi).1 v.nonempty

  done-keep_logs :
      (c : LogCache backing.S) (logs : List Log) (r : Bool × backing.S)
      → (keep_logs backing c logs r).0 ≡ r.0
  unfolding keep_logs
  done-keep_logs c logs (true, s) = refl
  done-keep_logs c logs (false, s) = refl

  store-keep_logs :
      (c : LogCache backing.S) (logs : List Log) (r : Bool × backing.S)
      → (keep_logs backing c logs r).1.store ≡ r.1
  unfolding keep_logs
  store-keep_logs c logs (true, s) = refl
  store-keep_logs c logs (false, s) = refl

  module _ (laws : LogStoreLaws backing) (atomic : StoresAtomically backing) where
    keep_logs-IsCoherent :
        (c : LogCache backing.S) (logs : List Log) (r : Bool × backing.S)
        → backing.store_logs c.store logs ≡ r
        → IsCoherent c
        → IsCoherent (keep_logs backing c logs r).1
    unfolding keep_logs
    keep_logs-IsCoherent c logs (true, s) e v = record {
      nonempty = omega (arith, length-fill logs c.cache, v.nonempty);
      hits = λ i l h.
          let stored =
            sym (ap (λ (r : Bool × backing.S). backing.get_log r.1 i) e)
            ∙ laws.get_log-store_logs c.store logs i (ap (λ (r : Bool × backing.S). r.0) e) in
          elim (hit-fill logs c.cache i l v.nonempty h) [
            | inl p ↦ stored ∙ rw p refl
            | inr (p, q) ↦ stored ∙ rw p (v.hits i l q)
          ];
    }
    keep_logs-IsCoherent c logs (false, s) e v = record {
      nonempty = v.nonempty;
      hits = λ i l h.
          sym (ap (λ (r : Bool × backing.S). backing.get_log r.1 i) e)
          ∙ atomic c.store logs i (ap (λ (r : Bool × backing.S). r.0) e)
          ∙ v.hits i l h;
    }

    store_logs-IsCoherent :
        (c : LogCache backing.S) (logs : List Log)
        → IsCoherent c
        → IsCoherent (store_logs backing c logs).1
    unfolding store_logs
    store_logs-IsCoherent c logs v =
        keep_logs-IsCoherent c logs (backing.store_logs c.store logs) refl v

-- The calls of the LogStore interface, and their answers.
pub data Call : Type 0 where
  read : ℕ → Call
  write : List Log → Call
  cut : ℕ → ℕ → Call
  ask_first ask_last : Call

pub data Answer : Type 0 where
  entry : Read Log → Answer
  done : Bool → Answer
  index : Option ℕ → Answer

module _ (backing : LogStore) where
  pub call_store : backing.S → Call → Answer × backing.S
  call_store s (read i) = (entry (backing.get_log s i), s)
  call_store s (write logs) = let r = backing.store_logs s logs in (done r.0, r.1)
  call_store s (cut lo hi) = let r = backing.delete_range s lo hi in (done r.0, r.1)
  call_store s ask_first = (index (backing.first_index s), s)
  call_store s ask_last = (index (backing.last_index s), s)

  pub call_cache : LogCache backing.S → Call → Answer × LogCache backing.S
  call_cache c (read i) = (entry (get_log backing c i), c)
  call_cache c (write logs) = let r = store_logs backing c logs in (done r.0, r.1)
  call_cache c (cut lo hi) = let r = delete_range backing c lo hi in (done r.0, r.1)
  call_cache c ask_first = (index (first_index backing c), c)
  call_cache c ask_last = (index (last_index backing c), c)

  pub answers_store : backing.S → List Call → List Answer
  answers_store s [] = []
  answers_store s (k ∷ ks) = (call_store s k).0 ∷ answers_store (call_store s k).1 ks

  pub answers_cache : LogCache backing.S → List Call → List Answer
  answers_cache c [] = []
  answers_cache c (k ∷ ks) = (call_cache c k).0 ∷ answers_cache (call_cache c k).1 ks

  module _ (laws : LogStoreLaws backing) (atomic : StoresAtomically backing) where
    -- One call: the same answer, the same store behind, and a buffer that stays right.
    call_cache-call_store :
        (c : LogCache backing.S) (k : Call)
        → IsCoherent backing c
        → ((call_cache c k).0 ≡ (call_store c.store k).0)
          × ((call_cache c k).1.store ≡ (call_store c.store k).1)
          × IsCoherent backing (call_cache c k).1
    unfolding call_cache call_store store_logs
    call_cache-call_store c (read i) v = (ap entry (get_log-backing backing c i v), refl, v)
    call_cache-call_store c (write logs) v = (
      ap done (done-keep_logs backing c logs (backing.store_logs c.store logs)),
      store-keep_logs backing c logs (backing.store_logs c.store logs),
      store_logs-IsCoherent backing laws atomic c logs v,
    )
    call_cache-call_store c (cut lo hi) v = (
      unfold delete_range in refl,
      unfold delete_range in refl,
      delete_range-IsCoherent backing c lo hi v,
    )
    call_cache-call_store c ask_first v = (unfold first_index in refl, refl, v)
    call_cache-call_store c ask_last v = (unfold last_index in refl, refl, v)

    answers_cache-coherent :
        (c : LogCache backing.S) (s : backing.S) (ks : List Call)
        → c.store ≡ s
        → IsCoherent backing c
        → answers_cache c ks ≡ answers_store s ks
    unfolding answers_cache answers_store
    answers_cache-coherent c s [] e v = refl
    answers_cache-coherent c s (k ∷ ks) e v =
        let (same, next, v') = call_cache-call_store c k v in
        let goal = answers_cache-coherent (call_cache c k).1 (call_store c.store k).1 ks next v' in
        ap₂ ◌∷◌ same goal ∙ ap (λ t. answers_store t (k ∷ ks)) e

    -- A new cache answers every sequence of calls as the store behind it would, if a batch that the
    -- store fails to take leaves it as it was.
    pub answers_new_log_cache :
        (n : ℕ) (s : backing.S) (ks : List Call) {c : LogCache backing.S}
        → new_log_cache backing n s ≡ some c
        → answers_cache c ks ≡ answers_store s ks
    unfolding new_log_cache
    answers_new_log_cache zero s ks h = cc
    answers_new_log_cache (suc n) s ks {c} h =
        answers_cache-coherent c s ks
          (ap (λ (d : LogCache backing.S). d.store) (sym (some-injective _ _ h)))
          (subst (IsCoherent backing) (some-injective _ _ h)
            (empty-IsCoherent backing (suc n) s (omega arith)))

-- ===== src/Server/Keeping.antt =====
-- What a handler of raft.go does to the account of votes on disk: nothing, if it leaves term and stable
-- store alone, or if it moves to a later term first.
use perf_raft.Prelude.{
  ℕ, ◌<◌, ◌≤◌, ◌≡◌, ◌⊎◌, inl, inr, Bool, true, false, some, List, [], Elem, refl, sym, ap, subst,
  ◌∙◌, Bool-cases,
}
use perf_raft.LogStore.{Bytes, found, StableStore, StableStoreLaws}
use perf_raft.Node.{
  Node, Outcome, returned, panicked, set_current_term, key_current_term, key_last_vote_term,
  key_last_vote_cand,
}
use perf_raft.Process.{Step, next, stop, die}
use perf_raft.Process.Unvoting.{SameVote, StepSame}
use perf_raft.Append.Unvoting.{OutcomeSame}
use perf_raft.Vote.{number_or_zero}
use perf_raft.Vote.Casting.{Grant, Holds, Keeps, OnDisk-same, vote_key-ne-term_key}
use perf_raft.Vote.Ballots.{Survives, set_current_term-Keeps, set_current_term-Holds}

-- A step of the start or of the log, a panic included.
abbrev pub AccountsStep : (st : StableStore) {Lg : Type 0} → Step st.S Lg → List Grant → Type 0
AccountsStep st (next n) grants = Keeps st n grants
AccountsStep st (stop n e) grants = (t : ℕ) × Holds st n.stable t grants
AccountsStep st (die n) grants = (t : ℕ) × Holds st n.stable t grants

module _ (st : StableStore) (laws : StableStoreLaws st) where
  -- The disk may move ahead of the term in memory, whether or not it was written.
  pub set_uint64-Holds_ahead :
      (s : st.S) (term t : ℕ) (grants : List Grant)
      → Holds st s term grants
      → term ≤ t
      → Holds st (st.set_uint64 s key_current_term t).1 term grants
  set_uint64-Holds_ahead s term t grants v le = record {
    persisted = elim (Bool-cases (st.set_uint64 s key_current_term t).0) [
      | inl w ↦ (t, ap number_or_zero (laws.get_uint64-set_uint64 s key_current_term t w), le)
      | inr w ↦ elim (laws.get_uint64-set_uint64_failed s key_current_term t w) [
        | inl new ↦ (t, ap number_or_zero new, le)
        | inr old ↦ OnDisk-same st old refl v.persisted
      ]
    ];
    one = v.one;
    kept = λ u c h. elim (v.kept u c h) [
      | inl before ↦ inl before
      | inr (now, last, cand) ↦ inr (
        now,
        ap number_or_zero (
              laws.get_uint64-set_uint64_ne s key_current_term key_last_vote_term t
                (λ e. vote_key-ne-term_key (sym e)))
            ∙ last,
        laws.get-set_uint64 s key_current_term key_last_vote_cand t ∙ cand,
      )
    ];
  }

module _ (st : StableStore) (laws : StableStoreLaws st) {Lg : Type 0} where
  pub SameVote-Keeps :
      (n m : Node st.S Lg) (grants : List Grant)
      → SameVote n m
      → Keeps st n grants
      → Keeps st m grants
  SameVote-Keeps n m grants same v = record {
    persisted =
        OnDisk-same st (ap (λ d. st.get_uint64 d key_current_term) same.0) same.1 v.persisted;
    one = v.one;
    kept =
        subst (λ d. KeptOn d m.current_term) (sym same.0)
          (subst (λ t. KeptOn n.stable t) (sym same.1) v.kept);
  }
    where
      KeptOn : st.S → ℕ → Type 0
      KeptOn s term =
          (t : ℕ) (c : Bytes)
          → Elem (t, c) grants
          → (t < term)
            ⊎ ((t ≡ term)
                × (number_or_zero (st.get_uint64 s key_last_vote_term) ≡ some t)
                × (st.get s key_last_vote_cand ≡ found c))

  pub outcome-Survives :
      {R : Type 0} (n : Node st.S Lg) (o : Outcome st.S Lg R) (grants : List Grant)
      → OutcomeSame n o
      → Keeps st n grants
      → Survives st (λ r. []) grants o
  outcome-Survives n (returned m r) grants same v = SameVote-Keeps n m grants same v
  outcome-Survives n (panicked s l) grants same v =
      (n.current_term, subst (λ d. Holds st d n.current_term grants) (sym same) v)

  pub step-Accounts :
      (n : Node st.S Lg) (r : Step st.S Lg) (grants : List Grant)
      → StepSame n r
      → Keeps st n grants
      → AccountsStep st r grants
  step-Accounts n (next m) grants same v = SameVote-Keeps n m grants same v
  step-Accounts n (stop m e) grants same v = (m.current_term, SameVote-Keeps n m grants same v)
  step-Accounts n (die m) grants same v = (m.current_term, SameVote-Keeps n m grants same v)

  -- A handler that dies if the new term cannot be written, and then touches neither.
  pub set_current_term-Survives :
      {R : Type 0} (f : Bool × Node st.S Lg → Outcome st.S Lg R) (n : Node st.S Lg) (t : ℕ)
      (grants : List Grant)
      → ((m : Node st.S Lg) → f (false, m) ≡ panicked m.stable m.logs)
      → ((m : Node st.S Lg) → OutcomeSame m (f (true, m)))
      → Keeps st n grants
      → n.current_term ≤ t
      → Survives st (λ r. []) grants (f (set_current_term st n t))
  set_current_term-Survives f n t grants dies same v le = go (set_current_term st n t) refl
    where
      go :
          (r : Bool × Node st.S Lg)
          → set_current_term st n t ≡ r
          → Survives st (λ r. []) grants (f r)
      go (true, m) e = outcome-Survives m (f (true, m)) grants (same m) (
          subst (λ j. Keeps st j grants) (ap (λ (r : Bool × Node st.S Lg). r.1) e)
            (set_current_term-Keeps st laws n n.current_term t grants v le
              (ap (λ (r : Bool × Node st.S Lg). r.0) e)).0)
      go (false, m) e = rw (dies m) (
          subst (λ (j : Node st.S Lg). (u : ℕ) × Holds st j.stable u grants)
            (ap (λ (r : Bool × Node st.S Lg). r.1) e)
            (set_current_term-Holds st laws n n.current_term t grants v le
              (ap (λ (r : Bool × Node st.S Lg). r.0) e)))

-- ===== src/Vote/Casting.antt =====
-- A server votes for at most one candidate in a term: what requestVote and electSelf of raft.go
-- promise, over any store that keeps its word, and with writes that fail half-way.
use mathlib.Core.Bool.{false≢true}
use perf_raft.Prelude.{
  ℕ, ◌<◌, ◌≤◌, ◌≡◌, ◌≢◌, ◌⊎◌, inl, inr, Bool, true, false, not, ◌&&◌, some, List, [], ◌∷◌, ◌++◌,
  ◌==◌, str_eq, str_eq_iff, Elem, arith, refl, sym, ap, subst, ◌∙◌, Bool-cases,
}
use perf_raft.LogStore.{Bytes, Read, found, not_found, failed, StableStore, StableStoreLaws}
use perf_raft.Node.{
  Node, key_current_term, key_last_vote_term, key_last_vote_cand, set_last_contact, persist_vote,
}
use perf_raft.Vote.{
  RequestVoteRequest, bytes_equal, number_or_zero, bytes_or_nil, candidate_of, vote_afresh,
  vote_once, read_vote, cast_vote, is_no_voter, is_behind, get_last_entry,
}

pub bytes_equal→≡ : (a b : Bytes) → bytes_equal a b ≡ true → a ≡ b
unfolding bytes_equal
bytes_equal→≡ [] [] h = refl
bytes_equal→≡ [] (y ∷ ys) h = cc
bytes_equal→≡ (x ∷ xs) [] h = cc
bytes_equal→≡ (x ∷ xs) (y ∷ ys) h = ground (arith, bytes_equal→≡ xs ys)

found-inj : {a b : Bytes} → found a ≡ found b → a ≡ b
found-inj e = cc

-- A vote that was given: the term, and the candidate's address.
abbrev pub Grant : Type 0
Grant = ℕ × Bytes

-- At most one candidate for each term.
abbrev pub OnePerTerm : List Grant → Type 0
OnePerTerm grants = (t : ℕ) (c d : Bytes) → Elem (t, c) grants → Elem (t, d) grants → c ≡ d

one_more :
    (t : ℕ) (c : Bytes) (grants : List Grant)
    → OnePerTerm grants
    → ((d : Bytes) → Elem (t, d) grants → c ≡ d)
    → OnePerTerm ((t, c) ∷ grants)
one_more t c grants one same u a b (inl e) (inl f) =
    sym (ap (λ (g : Grant). g.1) e) ∙ ap (λ (g : Grant). g.1) f
one_more t c grants one same u a b (inl e) (inr k) =
    sym (ap (λ (g : Grant). g.1) e)
    ∙ same b (subst (λ w. Elem (w, b) grants) (sym (ap (λ (g : Grant). g.0) e)) k)
one_more t c grants one same u a b (inr h) (inl f) =
    sym (same a (subst (λ w. Elem (w, a) grants) (sym (ap (λ (g : Grant). g.0) f)) h))
    ∙ ap (λ (g : Grant). g.1) f
one_more t c grants one same u a b (inr h) (inr k) = one u a b h k

-- The term on disk is this one or, where BootstrapCluster failed half-way, a later one.
abbrev pub OnDisk : (st : StableStore) → st.S → ℕ → Type 0
OnDisk st s term =
    (d : ℕ) × (number_or_zero (st.get_uint64 s key_current_term) ≡ some d) × (term ≤ d)

pub OnDisk-same :
    (st : StableStore) {s t : st.S} {term now : ℕ}
    → st.get_uint64 t key_current_term ≡ st.get_uint64 s key_current_term
    → now ≡ term
    → OnDisk st s term
    → OnDisk st t now
OnDisk-same st e same p = (p.0, ap number_or_zero e ∙ p.1, omega (arith, p.2, same))

-- What the disk says of the votes that were given in the terms up to this one: each is of a term before
-- it, or it is the vote on disk, and no two of a term differ.
pub record Holds (st : StableStore) (s : st.S) (term : ℕ) (grants : List Grant) : Type 0 where
  pub persisted : OnDisk st s term
  pub one : OnePerTerm grants
  pub kept :
      (t : ℕ) (c : Bytes)
      → Elem (t, c) grants
      → (t < term)
        ⊎ ((t ≡ term)
            × (number_or_zero (st.get_uint64 s key_last_vote_term) ≡ some t)
            × (st.get s key_last_vote_cand ≡ found c))

-- The same of a running server, with the term that it has in memory.
abbrev pub Keeps : (st : StableStore) {Lg : Type 0} → Node st.S Lg → List Grant → Type 0
Keeps st n grants = Holds st n.stable n.current_term grants

-- No vote yet in the current term.
abbrev pub Unvoted : {S Lg : Type 0} → Node S Lg → List Grant → Type 0
Unvoted n grants = (t : ℕ) (c : Bytes) → Elem (t, c) grants → t < n.current_term

abbrev pub granted_vote : ℕ → Bytes → Bool → List Grant
granted_vote t c true = (t, c) ∷ []
granted_vote t c false = []

pub one_before :
    (t : ℕ) (c : Bytes) (given : Bool) (grants : List Grant)
    → OnePerTerm (granted_vote t c given ++ grants)
    → OnePerTerm grants
one_before t c true grants one = λ u a b h k. one u a b (inr h) (inr k)
one_before t c false grants one = one

pub vote_key-ne-term_key : key_last_vote_term ≢ key_current_term
vote_key-ne-term_key e = false≢true ((str_eq_iff key_last_vote_term key_current_term).1 e)

module _ (st : StableStore) (laws : StableStoreLaws st) {Lg : Type 0} where
  pub persist_vote-term :
      (n : Node st.S Lg) (t : ℕ) (c : Bytes)
      → ((persist_vote st n t c).1.current_term ≡ n.current_term)
        × (st.get_uint64 (persist_vote st n t c).1.stable key_current_term
            ≡ st.get_uint64 n.stable key_current_term)
  unfolding persist_vote
  persist_vote-term n t c = ground (
    arith,
    laws.get_uint64-set_uint64_ne n.stable key_last_vote_term key_current_term t
        vote_key-ne-term_key,
    laws.get_uint64-set (st.set_uint64 n.stable key_last_vote_term t).1 key_last_vote_cand
        key_current_term c,
  )

  pub persist_vote-written :
      (n : Node st.S Lg) (t : ℕ) (c : Bytes)
      → (persist_vote st n t c).0 ≡ true
      → (st.get_uint64 (persist_vote st n t c).1.stable key_last_vote_term ≡ found t)
        × (st.get (persist_vote st n t c).1.stable key_last_vote_cand ≡ found c)
  unfolding persist_vote
  persist_vote-written n t c h = ground (
    arith,
    laws.get_uint64-set_uint64 n.stable key_last_vote_term t,
    laws.get_uint64-set (st.set_uint64 n.stable key_last_vote_term t).1 key_last_vote_cand
        key_last_vote_term c,
    laws.get-set (st.set_uint64 n.stable key_last_vote_term t).1 key_last_vote_cand c,
  )

  -- A fresh vote for `c` in the current term, kept on disk.
  pub grant-Keeps :
      (n m : Node st.S Lg) (grants : List Grant) (t : ℕ) (c : Bytes)
      → Unvoted n grants
      → OnePerTerm grants
      → t ≡ n.current_term
      → m.current_term ≡ n.current_term
      → OnDisk st m.stable n.current_term
      → number_or_zero (st.get_uint64 m.stable key_last_vote_term) ≡ some t
      → st.get m.stable key_last_vote_cand ≡ found c
      → Keeps st m ((t, c) ∷ grants)
  grant-Keeps n m grants t c old one now same persisted term cand = record {
    persisted = OnDisk-same st refl same persisted;
    one = one_more t c grants one λ d h. absurd (omega (arith, old t d h));
    kept = λ u d. elim [
      | inl e ↦
          let et = ap (λ (g : Grant). g.0) e in
          let ec = ap (λ (g : Grant). g.1) e in
          inr (sym et ∙ now ∙ sym same, term ∙ ap some et, cand ∙ ap found ec)
      | inr h ↦ inl (omega (arith, old u d h))
    ];
  }

  -- A vote that came to nothing, whatever of it was written.
  pub Unvoted-Keeps :
      (n m : Node st.S Lg) (grants : List Grant)
      → Unvoted n grants
      → OnePerTerm grants
      → m.current_term ≡ n.current_term
      → OnDisk st m.stable n.current_term
      → Keeps st m grants
  Unvoted-Keeps n m grants old one same persisted = record {
    persisted = OnDisk-same st refl same persisted;
    one = one;
    kept = λ t d h. inl (omega (arith, old t d h));
  }

  -- Casting a vote in the current term keeps the record of votes right.
  vote_afresh-Keeps :
      (n : Node st.S Lg) (req : RequestVoteRequest) (now : ℕ) (grants : List Grant)
      → Unvoted n grants
      → Keeps st n grants
      → req.term ≡ n.current_term
      → Keeps st
          (vote_afresh st n req now).0
          (granted_vote req.term (candidate_of req) (vote_afresh st n req now).1 ++ grants)
  unfolding vote_afresh set_last_contact
  vote_afresh-Keeps n req now grants old v same =
      let c = candidate_of req in
      let (kept_term, kept_disk) = persist_vote-term n req.term c in
      elim (Bool-cases (is_behind (get_last_entry n) req.last_log_index req.last_log_term)) [
        | inl e ↦ rw e v
        | inr e ↦ rw e (elim (Bool-cases (persist_vote st n req.term c).0) [
          | inl w ↦ rw w (
              grant-Keeps n (set_last_contact (persist_vote st n req.term c).1 now) grants req.term
                c old v.one same kept_term (OnDisk-same st kept_disk refl v.persisted)
                (ap number_or_zero (persist_vote-written n req.term c w).0)
                (persist_vote-written n req.term c w).1)
          | inr w ↦ rw w (
              Unvoted-Keeps n (persist_vote st n req.term c).1 grants old v.one kept_term
                (OnDisk-same st kept_disk refl v.persisted))
        ])
      ]

  -- A duplicate request: granted again to the candidate on disk only.
  vote_again-Keeps :
      (n : Node st.S Lg) (t : ℕ) (c d : Bytes) (grants : List Grant)
      → Keeps st n grants
      → t ≡ n.current_term
      → number_or_zero (st.get_uint64 n.stable key_last_vote_term) ≡ some t
      → st.get n.stable key_last_vote_cand ≡ found d
      → Keeps st n (granted_vote t c (bytes_equal d c) ++ grants)
  vote_again-Keeps n t c d grants v same term cand = elim (Bool-cases (bytes_equal d c)) [
    | inr e ↦ rw e v
    | inl e ↦ rw e (record {
      persisted = v.persisted;
      one = one_more t c grants v.one λ b h. elim (v.kept t b h) [
        | inl before ↦ absurd (omega arith)
        | inr (_, _, disk) ↦ sym (bytes_equal→≡ d c e) ∙ found-inj (sym cand ∙ disk)
      ];
      kept = λ u b. elim [
        | inl p ↦
            let et = ap (λ (g : Grant). g.0) p in
            let ec = ap (λ (g : Grant). g.1) p in
            inr (sym et ∙ same, term ∙ ap some et, cand ∙ ap found (bytes_equal→≡ d c e ∙ ec))
        | inr h ↦ v.kept u b h
      ];
    })
  ]

  -- Where the disk does not hold a vote of this term, no vote was given in it.
  Unvoted-of_disk :
      (n : Node st.S Lg) (grants : List Grant)
      → Keeps st n grants
      → ((c : Bytes)
          → number_or_zero (st.get_uint64 n.stable key_last_vote_term) ≡ some n.current_term
          → ¬ (st.get n.stable key_last_vote_cand ≡ found c))
      → Unvoted n grants
  Unvoted-of_disk n grants v none_on_disk u c h = elim (v.kept u c h) [
    | inl before ↦ before
    | inr (now, term, cand) ↦ absurd (none_on_disk c (term ∙ ap some now) cand)
  ]

  vote_once-Keeps :
      (n : Node st.S Lg) (req : RequestVoteRequest) (now : ℕ) (grants : List Grant) (t : ℕ)
      (d : Bytes)
      → Keeps st n grants
      → req.term ≡ n.current_term
      → number_or_zero (st.get_uint64 n.stable key_last_vote_term) ≡ some t
      → st.get n.stable key_last_vote_cand ≡ found d
      → Keeps st
          (vote_once st n req now t (some d)).0
          (granted_vote req.term (candidate_of req) (vote_once st n req now t (some d)).1 ++ grants)
  unfolding vote_once
  vote_once-Keeps n req now grants t d v same term cand = elim (Bool-cases (t == req.term)) [
    | inl e ↦ rw e (
        vote_again-Keeps n req.term (candidate_of req) d grants v same
          (term ∙ ap some (ground arith)) cand)
    | inr e ↦ rw e (
        vote_afresh-Keeps n req now grants
          (Unvoted-of_disk n grants v λ c h k. ground (arith, term, h)) v same)
  ]

  -- The same, by what the two reads give.
  read_vote-Keeps :
      (n : Node st.S Lg) (req : RequestVoteRequest) (now : ℕ) (grants : List Grant) (r : Read ℕ)
      (q : Read Bytes)
      → Keeps st n grants
      → req.term ≡ n.current_term
      → st.get_uint64 n.stable key_last_vote_term ≡ r
      → st.get n.stable key_last_vote_cand ≡ q
      → Keeps st (read_vote st n req now (number_or_zero r) (bytes_or_nil q)).0 (
          granted_vote req.term
            (candidate_of req)
            (read_vote st n req now (number_or_zero r) (bytes_or_nil q)).1
          ++ grants)
  unfolding read_vote vote_once
  read_vote-Keeps n req now grants (found t) (found d) v same er eq =
      vote_once-Keeps n req now grants t d v same (ap number_or_zero er) eq
  read_vote-Keeps n req now grants not_found (found d) v same er eq =
      vote_once-Keeps n req now grants 0 d v same (ap number_or_zero er) eq
  read_vote-Keeps n req now grants (found t) not_found v same er eq =
      vote_afresh-Keeps n req now grants (Unvoted-of_disk n grants v λ c h k. cc) v same
  read_vote-Keeps n req now grants not_found not_found v same er eq =
      vote_afresh-Keeps n req now grants (Unvoted-of_disk n grants v λ c h k. cc) v same
  read_vote-Keeps n req now grants failed q v same er eq = v
  read_vote-Keeps n req now grants (found t) failed v same er eq = v
  read_vote-Keeps n req now grants not_found failed v same er eq = v

  pub cast_vote-Keeps :
      (n : Node st.S Lg) (req : RequestVoteRequest) (now : ℕ) (grants : List Grant)
      → Keeps st n grants
      → req.term ≡ n.current_term
      → Keeps st
          (cast_vote st n req now).0
          (granted_vote req.term (candidate_of req) (cast_vote st n req now).1 ++ grants)
  unfolding cast_vote
  cast_vote-Keeps n req now grants v same =
      elim (Bool-cases (not (str_eq req.header.id "") && is_no_voter st n req.header.id)) [
        | inl e ↦ rw e v
        | inr e ↦ rw e (read_vote-Keeps n req now grants _ _ v same refl refl)
      ]

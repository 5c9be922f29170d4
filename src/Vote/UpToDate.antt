-- ===== src/Vote/UpToDate.antt =====
-- To whom requestVote and requestPreVote of raft.go say yes.
use mathlib.Core.Bool.{false≢true}
use perf_raft.Prelude.{
  ℕ, ◌<◌, ◌≤◌, ◌≡◌, ◌⊎◌, ◌↔◌, inl, inr, Bool, true, false, not, ◌&&◌, some, ltb, ◌==◌, str_eq,
  arith, refl, sym, ap, ◌∙◌, Bool-cases,
}
use perf_raft.LogStore.{Bytes, Read, found, not_found, failed, StableStore, StableStoreLaws}
use perf_raft.Node.{
  Node, Env, Outcome, returned, panicked, follower, key_current_term, key_last_vote_term,
  key_last_vote_cand, get_last_entry, set_state, set_last_contact, set_current_term,
}
use perf_raft.Vote.{
  RequestVoteRequest, RequestVoteResponse, RequestPreVoteRequest, number_or_zero, bytes_or_nil,
  candidate_of, is_behind, is_stranger, is_no_voter, has_other_leader, pre_vote_response,
  vote_afresh, vote_once, read_vote, cast_vote, vote_result, vote_response, vote_in_new_term,
  request_vote, request_pre_vote,
}
use perf_raft.Vote.Casting.{persist_vote-term, vote_key-ne-term_key, bytes_equal→≡}

-- A log that ends in the second entry is at least as up to date as one that ends in the first:
-- a later term, or the same and no shorter. Entries are an index and a term.
abbrev pub UpToDate : ℕ × ℕ → ℕ × ℕ → Type 0
UpToDate (index, term) (index', term') = (term < term') ⊎ ((term ≡ term') × (index ≤ index'))

is_behind_iff :
    (index term index' term' : ℕ)
    → (is_behind (index, term) index' term' ≡ false) ↔ UpToDate (index, term) (index', term')
unfolding is_behind
is_behind_iff index term index' term' = ground arith

module _ (st : StableStore) {Lg : Type 0} (env : Env) where
  -- A pre-vote is granted exactly if no other leader is known, the candidate is a voter of the latest
  -- configuration or there is none, its term is not behind, and its log is at least as up to date.
  pub request_pre_vote_iff :
      (n : Node st.S Lg) (req : RequestPreVoteRequest)
      → ((request_pre_vote st env n req).granted ≡ true) ↔ (
          (is_stranger st n req.header.id ≡ false)
          × (has_other_leader st n (env.decode_peer req.header.addr) ≡ false)
          × (is_no_voter st n req.header.id ≡ false)
          × (n.current_term ≤ req.term)
          × UpToDate (get_last_entry n) (req.last_log_index, req.last_log_term))
  unfolding request_pre_vote pre_vote_response
  request_pre_vote_iff n req = ground (
    arith,
    is_behind_iff (get_last_entry n).0 (get_last_entry n).1 req.last_log_index req.last_log_term,
  )

-- The disk has a vote for the candidate in the term already.
abbrev pub VotedFor : (st : StableStore) → st.S → ℕ → Bytes → Type 0
VotedFor st s term c =
    (number_or_zero (st.get_uint64 s key_last_vote_term) ≡ some term)
    × (st.get s key_last_vote_cand ≡ found c)

-- Why a vote was given.
abbrev pub Reason : (st : StableStore) {Lg : Type 0} → Node st.S Lg → RequestVoteRequest → Type 0
Reason st n req =
    UpToDate (get_last_entry n) (req.last_log_index, req.last_log_term)
    ⊎ VotedFor st n.stable req.term (candidate_of req)

-- What a granted vote says of the server before and after, and of the response.
abbrev pub GrantedFairly :
    (st : StableStore) {Lg : Type 0}
    → Env
    → Node st.S Lg
    → RequestVoteRequest
    → Outcome st.S Lg RequestVoteResponse
    → Type 0
GrantedFairly st env n req (panicked s l) = Unit
GrantedFairly st env n req (returned m resp) =
    resp.granted ≡ true
    → (n.current_term ≤ req.term)
      × (m.current_term ≡ req.term)
      × ((has_other_leader st n (env.decode_peer (candidate_of req)) && not req.leadership_transfer)
          ≡ false)
      × ((not (str_eq req.header.id "") && is_no_voter st n req.header.id) ≡ false)
      × Reason st n req

module _ (st : StableStore) (laws : StableStoreLaws st) {Lg : Type 0} where
  vote_afresh-Reason :
      (n : Node st.S Lg) (req : RequestVoteRequest) (now : ℕ)
      → (vote_afresh st n req now).1 ≡ true
      → ((vote_afresh st n req now).0.current_term ≡ n.current_term) × Reason st n req
  unfolding vote_afresh set_last_contact
  vote_afresh-Reason n req now h = ground (
    arith,
    persist_vote-term st laws n req.term (candidate_of req),
    is_behind_iff (get_last_entry n).0 (get_last_entry n).1 req.last_log_index req.last_log_term,
  )

  read_vote-Reason :
      (n : Node st.S Lg) (req : RequestVoteRequest) (now : ℕ) (r : Read ℕ) (q : Read Bytes)
      → st.get_uint64 n.stable key_last_vote_term ≡ r
      → st.get n.stable key_last_vote_cand ≡ q
      → (read_vote st n req now (number_or_zero r) (bytes_or_nil q)).1 ≡ true
      → ((read_vote st n req now (number_or_zero r) (bytes_or_nil q)).0.current_term
          ≡ n.current_term)
        × Reason st n req
  unfolding read_vote vote_once
  read_vote-Reason n req now (found t) (found d) er eq h = elim (Bool-cases (t == req.term)) [
    | inl e ↦ rw e (
      refl,
      inr (
        ap number_or_zero er ∙ ap some (ground arith),
        eq ∙ ap found (bytes_equal→≡ d (candidate_of req) (rw e at h)),
      ),
    )
    | inr e ↦ rw e (vote_afresh-Reason n req now (rw e at h))
  ]
  read_vote-Reason n req now not_found (found d) er eq h = elim (Bool-cases (0 == req.term)) [
    | inl e ↦ rw e (
      refl,
      inr (
        ap number_or_zero er ∙ ap some (ground arith),
        eq ∙ ap found (bytes_equal→≡ d (candidate_of req) (rw e at h)),
      ),
    )
    | inr e ↦ rw e (vote_afresh-Reason n req now (rw e at h))
  ]
  read_vote-Reason n req now (found t) not_found er eq h = vote_afresh-Reason n req now h
  read_vote-Reason n req now not_found not_found er eq h = vote_afresh-Reason n req now h
  read_vote-Reason n req now failed q er eq h = absurd (false≢true h)
  read_vote-Reason n req now (found t) failed er eq h = absurd (false≢true h)
  read_vote-Reason n req now not_found failed er eq h = absurd (false≢true h)

  cast_vote-Reason :
      (n : Node st.S Lg) (req : RequestVoteRequest) (now : ℕ)
      → (cast_vote st n req now).1 ≡ true
      → ((cast_vote st n req now).0.current_term ≡ n.current_term)
        × ((not (str_eq req.header.id "") && is_no_voter st n req.header.id) ≡ false)
        × Reason st n req
  unfolding cast_vote
  cast_vote-Reason n req now =
      elim (Bool-cases (not (str_eq req.header.id "") && is_no_voter st n req.header.id)) [
        | inl e ↦ rw e (λ h. absurd (false≢true h))
        | inr e ↦ rw e λ h. let r = read_vote-Reason n req now _ _ refl refl h in (r.0, refl, r.1)
      ]

  module _ (env : Env) where
    -- A vote is granted only in the server's term or a later one, which then is the server's, to a
    -- candidate that no known leader opposes unless it hands leadership over, that is a voter of
    -- the latest configuration (if both are known), and whose log is at least as up to date or that
    -- has the vote of this term on disk already.
    pub request_vote-GrantedFairly :
        (n : Node st.S Lg) (req : RequestVoteRequest) (now : ℕ)
        → GrantedFairly st env n req (request_vote st env n req now)
    unfolding request_vote vote_result vote_response vote_in_new_term set_state set_current_term
        get_last_entry
    request_vote-GrantedFairly n req now =
        elim (Bool-cases (not (str_eq req.header.id "") && is_stranger st n req.header.id)) [
          | inl e ↦ rw e (λ h. absurd (false≢true h))
          | inr e ↦ rw e (elim (Bool-cases other) [
            | inl f ↦ rw f (λ h. absurd (false≢true h))
            | inr f ↦ rw f (elim (Bool-cases (ltb req.term n.current_term)) [
              | inl g ↦ rw g (λ h. absurd (false≢true h))
              | inr g ↦ rw g (elim (Bool-cases (ltb n.current_term req.term)) [
                | inl h ↦ rw h (new_term (ground arith) f)
                | inr h ↦ rw h (λ y.
                    let r = cast_vote-Reason n req now y in
                    (ground arith, r.0 ∙ ground arith, f, r.1, r.2))
              ])
            ])
          ])
        ]
      where
        other : Bool
        other =
            has_other_leader st n (env.decode_peer (candidate_of req))
            && not req.leadership_transfer

        new_term :
            n.current_term ≤ req.term
            → other ≡ false
            → GrantedFairly st env n req (
                vote_in_new_term st env n req now
                  (set_current_term st (set_state n follower) req.term))
        new_term le f = elim (Bool-cases (st.set_uint64 n.stable key_current_term req.term).0) [
          | inl w ↦ rw w (λ y.
              let s = (st.set_uint64 n.stable key_current_term req.term).1 in
              let r =
                cast_vote-Reason
                  (record (set_state n follower) { stable = s; current_term = req.term }) req now
                  y in
              (
                le,
                r.0,
                f,
                r.1,
                elim r.2 [
                  | inl u ↦ inl u
                  | inr (term, cand) ↦ inr (
                    ap number_or_zero (
                          sym (
                            laws.get_uint64-set_uint64_ne n.stable key_current_term
                              key_last_vote_term req.term (λ e. vote_key-ne-term_key (sym e))))
                        ∙ term,
                    sym (laws.get-set_uint64 n.stable key_current_term key_last_vote_cand req.term)
                        ∙ cand,
                  )
                ],
              ))
          | inr w ↦ rw w tt
        ]

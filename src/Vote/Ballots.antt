-- ===== src/Vote/Ballots.antt =====
-- What requestVote and electSelf of raft.go leave behind: in every outcome, a panic included, the
-- disk still accounts for all votes that were given.
use mathlib.Core.Bool.{false≢true}
use perf_raft.Prelude.{
  ℕ, ◌+◌, ◌^◌, ◌<◌, ◌≤◌, ◌≡◌, inl, inr, Bool, true, false, not, ◌&&◌, some, List, [], ◌∷◌, ◌++◌,
  ltb, str_eq, inc64, Elem, arith, refl, sym, ap, subst, ◌∙◌, Bool-cases,
}
use perf_raft.Configuration.{Server, is_voter}
use perf_raft.LogStore.{Bytes, found, StableStore, StableStoreLaws}
use perf_raft.Node.{
  Node, Env, Outcome, returned, panicked, follower, key_current_term, key_last_vote_term,
  key_last_vote_cand, set_state, set_current_term, persist_vote,
}
use perf_raft.Vote.{
  RequestVoteRequest, RequestVoteResponse, number_or_zero, candidate_of, is_stranger,
  has_other_leader, vote_result, vote_in_new_term, request_vote, Ballot, elect_loop, elect_self,
  elect_in_new_term, vote_response, vote_request,
}
use perf_raft.Vote.Casting.{
  Grant, Holds, Keeps, Unvoted, granted_vote, one_before, vote_key-ne-term_key, cast_vote-Keeps,
  OnDisk-same, persist_vote-term, persist_vote-written, grant-Keeps, Unvoted-Keeps,
}

-- The disk of a server that runs or that died.
abbrev pub Survives :
    (st : StableStore) {Lg R : Type 0} → (R → List Grant) → List Grant → Outcome st.S Lg R → Type 0
Survives st votes grants (returned n r) = Keeps st n (votes r ++ grants)
Survives st votes grants (panicked s l) = (t : ℕ) × Holds st s t grants

abbrev pub own : Ballot → List Grant
own b = granted_vote b.request.term b.request.header.addr b.own_vote

module _ (st : StableStore) (laws : StableStoreLaws st) where
  same_vote :
      (s : st.S) (t : ℕ)
      → st.get_uint64 (st.set_uint64 s key_current_term t).1 key_last_vote_term
        ≡ st.get_uint64 s key_last_vote_term
  same_vote s t =
      laws.get_uint64-set_uint64_ne s key_current_term key_last_vote_term t
        (λ e. vote_key-ne-term_key (sym e))

  -- A later term, or the same again, was written.
  set_uint64-Holds :
      (s : st.S) (term t : ℕ) (grants : List Grant)
      → Holds st s term grants
      → term ≤ t
      → (st.set_uint64 s key_current_term t).0 ≡ true
      → Holds st (st.set_uint64 s key_current_term t).1 t grants
  set_uint64-Holds s term t grants v le w = record {
    persisted =
        (t, ap number_or_zero (laws.get_uint64-set_uint64 s key_current_term t w), omega arith);
    one = v.one;
    kept = λ u c h. elim (v.kept u c h) [
      | inl before ↦ inl (omega arith)
      | inr (now, last, cand) ↦ elim (Bool-cases (ltb term t)) [
        | inl b ↦ inl (ground arith)
        | inr b ↦ inr (
          ground arith,
          ap number_or_zero (same_vote s t) ∙ last,
          laws.get-set_uint64 s key_current_term key_last_vote_cand t ∙ cand,
        )
      ]
    ];
  }

  -- A term that may have been written or not.
  set_uint64-Holds_failed :
      (s : st.S) (term t : ℕ) (grants : List Grant)
      → Holds st s term grants
      → term ≤ t
      → (st.set_uint64 s key_current_term t).0 ≡ false
      → (u : ℕ) × Holds st (st.set_uint64 s key_current_term t).1 u grants
  set_uint64-Holds_failed s term t grants v le w =
      elim (laws.get_uint64-set_uint64_failed s key_current_term t w) [
        | inl new ↦ (
          t,
          record {
            persisted = (t, ap number_or_zero new, omega arith);
            one = v.one;
            kept = λ u c h. elim (v.kept u c h) [
              | inl before ↦ inl (omega arith)
              | inr (now, last, cand) ↦ elim (Bool-cases (ltb term t)) [
                | inl b ↦ inl (ground arith)
                | inr b ↦ inr (
                  ground arith,
                  ap number_or_zero (same_vote s t) ∙ last,
                  laws.get-set_uint64 s key_current_term key_last_vote_cand t ∙ cand,
                )
              ]
            ];
          },
        )
        | inr old ↦ (
          term,
          record {
            persisted = OnDisk-same st old refl v.persisted;
            one = v.one;
            kept = λ u c h. elim (v.kept u c h) [
              | inl before ↦ inl before
              | inr (now, last, cand) ↦ inr (
                now,
                ap number_or_zero (same_vote s t) ∙ last,
                laws.get-set_uint64 s key_current_term key_last_vote_cand t ∙ cand,
              )
            ];
          },
        )
      ]

  module _ {Lg : Type 0} where
    pub set_current_term-Keeps :
        (n : Node st.S Lg) (term t : ℕ) (grants : List Grant)
        → Holds st n.stable term grants
        → term ≤ t
        → (set_current_term st n t).0 ≡ true
        → Keeps st (set_current_term st n t).1 grants
          × ((set_current_term st n t).1.current_term ≡ t)
    unfolding set_current_term
    set_current_term-Keeps n term t grants v le w =
        elim (Bool-cases (st.set_uint64 n.stable key_current_term t).0) [
          | inl b ↦ rw b (set_uint64-Holds n.stable term t grants v le b, refl)
          | inr b ↦ absurd (false≢true (rw b at w))
        ]

    pub set_current_term-Holds :
        (n : Node st.S Lg) (term t : ℕ) (grants : List Grant)
        → Holds st n.stable term grants
        → term ≤ t
        → (set_current_term st n t).0 ≡ false
        → (u : ℕ) × Holds st (set_current_term st n t).1.stable u grants
    unfolding set_current_term
    set_current_term-Holds n term t grants v le w =
        elim (Bool-cases (st.set_uint64 n.stable key_current_term t).0) [
          | inl b ↦ absurd (false≢true (sym (rw b at w)))
          | inr b ↦ rw b (set_uint64-Holds_failed n.stable term t grants v le b)
        ]

    module _ (env : Env) where
      -- Every outcome of a vote request: a vote, a refusal or a panic.
      pub request_vote-Survives :
          (n : Node st.S Lg) (req : RequestVoteRequest) (now : ℕ) (grants : List Grant)
          → Keeps st n grants
          → Survives st
              (λ (resp : RequestVoteResponse).
                granted_vote req.term (candidate_of req) resp.granted)
              grants
              (request_vote st env n req now)
      unfolding request_vote vote_result vote_response vote_in_new_term set_state
      request_vote-Survives n req now grants v =
          elim (Bool-cases (not (str_eq req.header.id "") && is_stranger st n req.header.id)) [
            | inl e ↦ rw e v
            | inr e ↦ rw e (elim (Bool-cases other) [
              | inl f ↦ rw f v
              | inr f ↦ rw f (elim (Bool-cases (ltb req.term n.current_term)) [
                | inl g ↦ rw g v
                | inr g ↦ rw g (elim (Bool-cases (ltb n.current_term req.term)) [
                  | inl h ↦ rw h (
                      new_term (set_current_term st (set_state n follower) req.term) refl
                        (ground arith))
                  | inr h ↦ rw h (cast_vote-Keeps st laws n req now grants v (ground arith))
                ])
              ])
            ])
          ]
        where
          other : Bool
          other =
              has_other_leader st n (env.decode_peer (candidate_of req))
              && not req.leadership_transfer

          S : Outcome st.S Lg RequestVoteResponse → Type 0
          S =
              Survives st
                (λ (resp : RequestVoteResponse).
                  granted_vote req.term (candidate_of req) resp.granted)
                grants

          new_term :
              (r : Bool × Node st.S Lg)
              → set_current_term st (set_state n follower) req.term ≡ r
              → n.current_term ≤ req.term
              → S (vote_in_new_term st env n req now r)
          new_term (true, m) e le =
              let k =
                set_current_term-Keeps (set_state n follower) n.current_term req.term grants v le
                  (ap (λ (r : Bool × Node st.S Lg). r.0) e) in
              cast_vote-Keeps st laws m req now grants
                (subst (λ j. Keeps st j grants) (ap (λ (r : Bool × Node st.S Lg). r.1) e) k.0)
                (sym k.1 ∙ ap (λ (r : Bool × Node st.S Lg). r.1.current_term) e)
          new_term (false, m) e le =
              subst (λ (j : Node st.S Lg). (u : ℕ) × Holds st j.stable u grants)
                (ap (λ (r : Bool × Node st.S Lg). r.1) e)
                (set_current_term-Holds (set_state n follower) n.current_term req.term grants v le
                  (ap (λ (r : Bool × Node st.S Lg). r.0) e))

    -- Our own vote a second time changes nothing on disk, also if a write fails.
    persist_vote_again :
        (n : Node st.S Lg) (t : ℕ) (c : Bytes)
        → number_or_zero (st.get_uint64 n.stable key_last_vote_term) ≡ some t
        → st.get n.stable key_last_vote_cand ≡ found c
        → (number_or_zero (st.get_uint64 (persist_vote st n t c).1.stable key_last_vote_term)
            ≡ some t)
          × (st.get (persist_vote st n t c).1.stable key_last_vote_cand ≡ found c)
    unfolding persist_vote
    persist_vote_again n t c term cand =
        let s = (st.set_uint64 n.stable key_last_vote_term t).1 in
        ground (
          arith,
          laws.get_uint64-set_uint64 n.stable key_last_vote_term t,
          laws.get_uint64-set_uint64_failed n.stable key_last_vote_term t,
          laws.get-set_uint64 n.stable key_last_vote_term key_last_vote_cand t,
          laws.get_uint64-set s key_last_vote_cand key_last_vote_term c,
          laws.get-set s key_last_vote_cand c,
          laws.get-set_failed s key_last_vote_cand c,
        )

    -- A write of our vote that failed, after it was written before or not.
    failed_vote-Keeps :
        (n : Node st.S Lg) (t : ℕ) (c : Bytes) (before : Bool) (grants : List Grant)
        → Unvoted n grants
        → t ≡ n.current_term
        → Keeps st n (granted_vote t c before ++ grants)
        → Keeps st (persist_vote st n t c).1 (granted_vote t c before ++ grants)
    failed_vote-Keeps n t c false grants old same v =
        Unvoted-Keeps st laws n (persist_vote st n t c).1 grants old v.one
          (persist_vote-term st laws n t c).0
          (OnDisk-same st (persist_vote-term st laws n t c).1 refl v.persisted)
    failed_vote-Keeps n t c true grants old same v = elim (v.kept t c (inl refl)) [
      | inl before ↦ absurd (omega arith)
      | inr (now, term, cand) ↦
          let again = persist_vote_again n t c term cand in
          grant-Keeps st laws n (persist_vote st n t c).1 grants t c old
            (one_before t c true grants v.one) same (persist_vote-term st laws n t c).0
            (OnDisk-same st (persist_vote-term st laws n t c).1 refl v.persisted) again.0 again.1
    ]

    held_term :
        (n : Node st.S Lg) (t : ℕ) (c : Bytes) (grants : List Grant)
        → Keeps st n grants
        → Elem (t, c) grants
        → t ≤ n.current_term
    held_term n t c grants v h = elim (v.kept t c h) [
      | inl before ↦ omega arith
      | inr (now, _, _) ↦ omega arith
    ]

    module _ (env : Env) where
      elect_loop-Keeps :
          (n : Node st.S Lg) (b : Ballot) (servers : List Server) (grants : List Grant)
          → Unvoted n grants
          → b.request.term ≡ n.current_term
          → Keeps st n (own b ++ grants)
          → Keeps st
              (elect_loop st env n b servers).0
              (own (elect_loop st env n b servers).1 ++ grants)
      unfolding elect_loop
      elect_loop-Keeps n b [] grants old same v = v
      elect_loop-Keeps n b (server ∷ rest) grants old same v =
          elim (Bool-cases (not (is_voter server.suffrage))) [
            | inl e ↦ rw e (elect_loop-Keeps n b rest grants old same v)
            | inr e ↦ rw e (elim (Bool-cases (not (str_eq server.id env.local_id))) [
              | inl f ↦ rw f (
                  elect_loop-Keeps n (record b { asked = b.asked ++ server ∷ [] }) rest grants old
                    same v)
              | inr f ↦
                  rw f
                    (elim (Bool-cases (persist_vote st n b.request.term b.request.header.addr).0) [
                      | inl w ↦ rw w (
                          elect_loop-Keeps
                            (persist_vote st n b.request.term b.request.header.addr).1
                            (record b { own_vote = true }) rest grants
                            (λ t c h. omega (arith, old t c h, term)) (same ∙ sym term)
                            (grant-Keeps st laws n
                              (persist_vote st n b.request.term b.request.header.addr).1 grants
                              b.request.term b.request.header.addr old
                              (one_before b.request.term b.request.header.addr b.own_vote grants
                                v.one)
                              same term
                              (OnDisk-same st
                                (persist_vote-term st laws n b.request.term b.request.header.addr).1
                                refl v.persisted)
                              (ap number_or_zero
                                (persist_vote-written st laws n b.request.term b.request.header.addr
                                  w).0)
                              (persist_vote-written st laws n b.request.term b.request.header.addr
                                w).1))
                      | inr w ↦ rw w (
                          failed_vote-Keeps n b.request.term b.request.header.addr b.own_vote grants
                            old same v)
                    ])
            ])
          ]
        where
          term :
              (persist_vote st n b.request.term b.request.header.addr).1.current_term
              ≡ n.current_term
          term = (persist_vote-term st laws n b.request.term b.request.header.addr).0

      -- Standing for election: our vote in a term in which nobody has one, or a panic.
      pub elect_self-Survives :
          (n : Node st.S Lg) (grants : List Grant)
          → n.current_term + 1 < 2 ^ 64
          → Keeps st n grants
          → Survives st own grants (elect_self st env n)
      unfolding elect_self elect_in_new_term vote_request
      elect_self-Survives n grants room v = go (set_current_term st n (inc64 n.current_term)) refl
        where
          le : n.current_term ≤ inc64 n.current_term
          le = omega arith

          go :
              (r : Bool × Node st.S Lg)
              → set_current_term st n (inc64 n.current_term) ≡ r
              → Survives st own grants (elect_in_new_term st env (inc64 n.current_term) r)
          go (true, m) e =
              let k =
                set_current_term-Keeps n n.current_term (inc64 n.current_term) grants v le
                  (ap (λ (r : Bool × Node st.S Lg). r.0) e) in
              let now = sym k.1 ∙ ap (λ (r : Bool × Node st.S Lg). r.1.current_term) e in
              elect_loop-Keeps m _ m.configurations.latest.servers grants
                (λ t c h. omega (arith, held_term n t c grants v h, now)) now
                (subst (λ j. Keeps st j grants) (ap (λ (r : Bool × Node st.S Lg). r.1) e) k.0)
          go (false, m) e =
              subst (λ (j : Node st.S Lg). (u : ℕ) × Holds st j.stable u grants)
                (ap (λ (r : Bool × Node st.S Lg). r.1) e)
                (set_current_term-Holds n n.current_term (inc64 n.current_term) grants v le
                  (ap (λ (r : Bool × Node st.S Lg). r.0) e))

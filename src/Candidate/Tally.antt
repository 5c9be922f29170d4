-- ===== src/Candidate/Tally.antt =====
-- The tally of runCandidate of raft.go: a candidate that becomes leader has a quorum behind it.
use mathlib.Core.Bool.{false≢true}
use perf_raft.Prelude.{
  ℕ, ◌+◌, ◌≤◌, ◌≡◌, ◌≢◌, inl, inr, String, Bool, true, false, ◌&&◌, ◌||◌, List, [], ◌∷◌, map, ltb,
  leb, if◌then◌else◌, str_eq, str_eq_iff, Elem, Distinct, refl, ap, subst, ◌∙◌, arith, Bool-cases,
}
use perf_raft.Configuration.{Server, Configuration, quorum_size, has_vote, has_vote_in}
use perf_raft.Configuration.Quorum.{granted}
use perf_raft.LogStore.{StableStore}
use perf_raft.Node.{
  Node, Env, follower, leader, set_state, set_leader, set_current_term, key_current_term,
}
use perf_raft.Candidate.{
  Campaign, Response, Progress, goes_on, is_over, died, fall_back, after_vote, hear_vote,
  hear_votes,
}

-- Did this server grant its vote in one of the responses?
unfoldable pub said_yes : List Response → String → Bool
said_yes [] id = false
said_yes (r ∷ rs) id = (r.granted && str_eq r.voter_id id) || said_yes rs id

-- How many of the responses grant a vote.
unfoldable pub count_yes : List Response → ℕ
count_yes [] = 0
count_yes (r ∷ rs) = if r.granted then count_yes rs + 1 else count_yes rs

-- Every response is of a voter of the configuration.
abbrev pub FromVoters : Configuration → List Response → Type 0
FromVoters c [] = Unit
FromVoters c (r ∷ rs) = (has_vote c r.voter_id ≡ true) × FromVoters c rs

-- One more voter says yes.
granted_mono :
    (q r : String → Bool) (servers : List Server)
    → ((id : String) → q id ≡ true → r id ≡ true)
    → granted q servers ≤ granted r servers
unfolding granted
granted_mono q r [] h = omega arith
granted_mono q r (s ∷ rest) h = ground (arith, granted_mono q r rest h, h s.id)

granted-one_more :
    (q r : String → Bool) (servers : List Server) (id : String)
    → has_vote_in servers id ≡ true
    → q id ≡ false
    → r id ≡ true
    → ((j : String) → q j ≡ true → r j ≡ true)
    → granted q servers + 1 ≤ granted r servers
unfolding granted has_vote_in
granted-one_more q r [] id v a b h = absurd (false≢true v)
granted-one_more q r (s ∷ rest) id v a b h = elim (Bool-cases (str_eq s.id id)) [
  | inl e ↦
      let p = (str_eq_iff s.id id).0 e in
      ground (arith, rw e at v, ap q p ∙ a, ap r p ∙ b, granted_mono q r rest h)
  | inr e ↦ ground (arith, granted-one_more q r rest id (rw e at v) a b h, h s.id)
]

said_yes_absent :
    (rs : List Response) (id : String)
    → ¬ Elem id (map (λ r. r.voter_id) rs)
    → said_yes rs id ≡ false
unfolding said_yes
said_yes_absent [] id h = refl
said_yes_absent (r ∷ rs) id h = ground (arith, str_eq_iff r.voter_id id, said_yes_absent rs id)

-- Responses from different voters: so many voters said yes.
count_yes-le-granted :
    (c : Configuration) (rs : List Response)
    → Distinct (map (λ r. r.voter_id) rs)
    → FromVoters c rs
    → count_yes rs ≤ granted (said_yes rs) c.servers
unfolding count_yes said_yes has_vote_in has_vote
count_yes-le-granted c [] d v = omega arith
count_yes-le-granted c (r ∷ rs) d v =
    let ih = count_yes-le-granted c rs d.1 v.1 in
    elim (Bool-cases r.granted) [
      | inr e ↦
          rw e (omega (arith, ih, granted_mono (said_yes rs) (said_yes rs) c.servers (λ j k. k)))
      | inl e ↦ rw e (
          omega (
            arith,
            ih,
            granted-one_more (said_yes rs) (λ j. str_eq r.voter_id j || said_yes rs j) c.servers
                r.voter_id v.0 (said_yes_absent rs r.voter_id d.0)
                (ground (arith, str_eq_iff r.voter_id r.voter_id)) (λ j k. ground arith),
          ))
    ]

module _ (st : StableStore) {Lg : Type 0} (env : Env) where
  -- What one response does to the loop.
  abbrev Heard : Campaign st.S Lg → Response → Progress st.S Lg → Type 0
  Heard c r (goes_on d) =
      (d.node ≡ c.node)
      × (d.votes_needed ≡ c.votes_needed)
      × (d.granted_votes ≡ c.granted_votes + count_yes (r ∷ []))
  Heard c r (is_over n) =
      n.state ≡ leader
      → (c.votes_needed ≤ c.granted_votes + count_yes (r ∷ []))
        × (n.current_term ≡ c.node.current_term)
  Heard c r (died s l) = Unit

  hear_vote-Heard : (c : Campaign st.S Lg) (r : Response) → Heard c r (hear_vote st env c r)
  unfolding hear_vote after_vote fall_back count_yes set_leader set_state set_current_term
  hear_vote-Heard c r = elim (Bool-cases (ltb c.node.current_term r.term)) [
    | inl e ↦ rw e (elim (Bool-cases (st.set_uint64 c.node.stable key_current_term r.term).0) [
      | inl w ↦ rw w (λ h. absurd (not_leader h))
      | inr w ↦ rw w tt
    ])
    | inr e ↦ rw e (elim (Bool-cases r.granted) [
      | inl g ↦ rw g (elim (Bool-cases (leb c.votes_needed (c.granted_votes + 1))) [
        | inl k ↦ rw k (λ h. (ground arith, refl))
        | inr k ↦ rw k (refl, refl, refl)
      ])
      | inr g ↦ rw g (elim (Bool-cases (leb c.votes_needed c.granted_votes)) [
        | inl k ↦ rw k (λ h. (ground arith, refl))
        | inr k ↦ rw k (refl, refl, omega arith)
      ])
    ])
  ]
    where
      not_leader : follower ≢ leader
      not_leader h = cc

  -- Where the loop stands after some responses.
  abbrev pub Counted : Campaign st.S Lg → List Response → Progress st.S Lg → Type 0
  Counted c rs (goes_on d) = Unit
  Counted c rs (died s l) = Unit
  Counted c rs (is_over n) =
      n.state ≡ leader
      → (c.votes_needed ≤ c.granted_votes + count_yes rs) × (n.current_term ≡ c.node.current_term)

  hear_votes-Counted :
      (c : Campaign st.S Lg) (rs : List Response) → Counted c rs (hear_votes st env c rs)
  unfolding hear_votes count_yes
  hear_votes-Counted c [] = tt
  hear_votes-Counted c (r ∷ rs) =
      heard (hear_vote st env c r) (hear_vote-Heard c r) (λ d. hear_votes-Counted d rs)
    where
      later :
          (d : Campaign st.S Lg) (p : Progress st.S Lg)
          → Heard c r (goes_on d)
          → Counted d rs p
          → Counted c (r ∷ rs) p
      later d (goes_on e) h k = tt
      later d (died s l) h k = tt
      later d (is_over n) h k = λ yes. ground (arith, h, k yes)

      heard :
          (p : Progress st.S Lg)
          → Heard c r p
          → ((d : Campaign st.S Lg) → Counted d rs (hear_votes st env d rs))
          → Counted c (r ∷ rs) (elim p [
            | goes_on d ↦ hear_votes st env d rs
            | is_over n ↦ is_over n
            | died s l ↦ died s l
          ])
      heard (goes_on d) h rest = later d (hear_votes st env d rs) h (rest d)
      heard (is_over n) h rest = λ yes. ground (arith, h yes)
      heard (died s l) h rest = tt

  -- A candidate that begins without a vote and becomes leader on responses of different voters of its
  -- configuration has a quorum of it behind it, in the term in which it began to count.
  pub hear_votes-quorum :
      (c : Campaign st.S Lg) (configuration : Configuration) (rs : List Response) {n : Node st.S Lg}
      → c.votes_needed ≡ quorum_size configuration
      → c.granted_votes ≡ 0
      → Distinct (map (λ r. r.voter_id) rs)
      → FromVoters configuration rs
      → hear_votes st env c rs ≡ is_over n
      → n.state ≡ leader
      → (quorum_size configuration ≤ granted (said_yes rs) configuration.servers)
        × (n.current_term ≡ c.node.current_term)
  hear_votes-quorum c configuration rs need none_yet d v e won =
      let k = subst (Counted c rs) e (hear_votes-Counted c rs) won in
      (omega (arith, k.0, count_yes-le-granted configuration rs d v), k.1)

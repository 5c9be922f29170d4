-- ===== src/Candidate/Winning.antt =====
-- runCandidate of raft.go: how a candidate wins.
use perf_raft.Prelude.{
  ℕ, ◌+◌, ◌≤◌, ◌<◌, ◌≡◌, inl, inr, inc64, Bool, true, false, List, [], ◌∷◌, ltb, leb, not, ◌&&◌,
  refl, arith, Bool-cases,
}
use perf_raft.Configuration.{quorum_size}
use perf_raft.LogStore.{StableStore}
use perf_raft.Node.{Node, Env, returned, leader, set_state, set_leader}
use perf_raft.Vote.{Ballot, elect_self}
use perf_raft.Candidate.{
  Campaign, Response, Progress, goes_on, leave_campaign, after_vote, hear_vote, hear_votes,
  begin_campaign, hear_pre_vote, hear_pre_votes, after_pre_vote, count_pre_vote, elected,
  run_campaign, pre_vote_on, vote_on,
}
use perf_raft.Candidate.Tally.{count_yes}

-- None of the responses is of a later term.
abbrev pub NoneLater : ℕ → List Response → Type 0
NoneLater term [] = Unit
NoneLater term (r ∷ rs) = (r.term ≤ term) × NoneLater term rs

module _ (st : StableStore) {Lg : Type 0} (env : Env) where
  -- The candidate, made the leader.
  abbrev pub won : Node st.S Lg → Progress st.S Lg
  won n = leave_campaign st env (set_leader (set_state n leader) env.local_addr env.local_id)

  -- Whatever else is said, and in whatever order: if no response is of a later term and as many of them
  -- grant a vote as are missing, the candidate becomes leader.
  pub hear_votes-won :
      (c : Campaign st.S Lg) (rs : List Response)
      → NoneLater c.node.current_term rs
      → c.granted_votes < c.votes_needed
      → c.votes_needed ≤ c.granted_votes + count_yes rs
      → hear_votes st env c rs ≡ won c.node
  unfolding hear_votes hear_vote after_vote count_yes
  hear_votes-won c [] later missing enough = absurd (ground (arith, missing, enough))
  hear_votes-won c (r ∷ rs) later missing enough =
      let current : ltb c.node.current_term r.term ≡ false = ground (arith, later.0) in
      rw (hear_votes, current)
        (elim (Bool-cases r.granted) [
          | inl g ↦ rw g (elim (Bool-cases (leb c.votes_needed (c.granted_votes + 1))) [
            | inl k ↦ rw k refl
            | inr k ↦ rw k (
                hear_votes-won (record c { granted_votes = c.granted_votes + 1 }) rs later.1
                  (ground arith) (ground arith))
          ])
          | inr g ↦ rw g (elim (Bool-cases (leb c.votes_needed c.granted_votes)) [
            | inl k ↦ absurd (ground arith)
            | inr k ↦ rw k (hear_votes-won c rs later.1 missing (ground arith))
          ])
        ])

  -- The pre-vote of `n` was won with the node `m` that electSelf leaves.
  abbrev pub voting_from : ℕ → ℕ → Node st.S Lg → Campaign st.S Lg
  voting_from term needed m = record {
    node = m;
    term = term;
    pre_vote_granted_votes = 0;
    pre_vote_refused_votes = 0;
    granted_votes = 0;
    votes_needed = needed;
    pre_voting = false;
    voting = true;
  }

  hear_pre_votes_stop :
      (c : Campaign st.S Lg) (rs : List Response)
      → c.pre_voting ≡ false
      → hear_pre_votes st env c rs ≡ goes_on c
  unfolding hear_pre_votes
  hear_pre_votes_stop c [] e = refl
  hear_pre_votes_stop c (r ∷ rs) e = rw e refl

  hear_pre_votes-elect_self :
      (c : Campaign st.S Lg) (rs : List Response) {m : Node st.S Lg} {b : Ballot}
      → elect_self st env c.node ≡ returned m b
      → b.abandoned ≡ false
      → c.pre_voting ≡ true
      → c.granted_votes ≡ 0
      → NoneLater c.term rs
      → c.pre_vote_granted_votes < c.votes_needed
      → c.votes_needed ≤ c.pre_vote_granted_votes + count_yes rs
      → hear_pre_votes st env c rs ≡ goes_on (voting_from c.term c.votes_needed m)
  unfolding hear_pre_votes hear_pre_vote after_pre_vote count_pre_vote elected count_yes
  hear_pre_votes-elect_self c [] e saved on zero later missing enough =
      absurd (ground (arith, missing, enough))
  hear_pre_votes-elect_self c (r ∷ rs) {m} e saved on zero later missing enough =
      let current : ltb c.term r.term ≡ false = ground (arith, later.0) in
      rw (on, current)
        (elim (Bool-cases r.granted) [
          | inl g ↦ rw g (elim (Bool-cases (leb c.votes_needed (c.pre_vote_granted_votes + 1))) [
            | inl k ↦
                rw (k, e, zero, saved)
                  (hear_pre_votes_stop (voting_from c.term c.votes_needed m) rs refl)
            | inr k ↦ rw k (
                hear_pre_votes-elect_self
                  (record c {
                    pre_vote_granted_votes = c.pre_vote_granted_votes + 1;
                    pre_voting = true;
                  })
                  rs e saved refl zero later.1 (ground arith) (ground arith))
          ])
          | inr g ↦ rw g (elim (Bool-cases (leb c.votes_needed c.pre_vote_granted_votes)) [
            | inl k ↦ absurd (ground arith)
            | inr k ↦ rw k (
                hear_pre_votes-elect_self
                  (record c {
                    pre_vote_refused_votes = c.pre_vote_refused_votes + 1;
                    pre_voting = true;
                  })
                  rs e saved refl zero later.1 missing (ground arith))
          ])
        ])

  -- A campaign ends with the candidate as leader if it can save its term and its own vote, a quorum of
  -- its configuration is among the pre-votes (unless they are switched off, or leadership is handed
  -- over) and among the votes, and no response is of a later term.
  pub run_campaign-won :
      (disabled : Bool) (n : Node st.S Lg) (pre_votes votes : List Response) {m : Node st.S Lg}
      {b : Ballot}
      → elect_self st env n ≡ returned m b
      → b.abandoned ≡ false
      → NoneLater (inc64 n.current_term) pre_votes
      → NoneLater m.current_term votes
      → (disabled ≡ false
          → n.candidate_from_leadership_transfer ≡ false
          → quorum_size n.configurations.latest ≤ count_yes pre_votes)
      → quorum_size n.configurations.latest ≤ count_yes votes
      → run_campaign st env disabled n pre_votes votes ≡ won m
  unfolding run_campaign pre_vote_on vote_on begin_campaign elected quorum_size
  run_campaign-won disabled n pre_votes votes {m} e saved pre_later later pre_quorum quorum =
      let needed = quorum_size n.configurations.latest in
      let some_needed : 0 < needed = omega arith in
      let elect_won =
        hear_votes-won (voting_from (inc64 n.current_term) needed m) votes later some_needed
          (omega (arith, quorum)) in
      let asks = not disabled && not n.candidate_from_leadership_transfer in
      elim (Bool-cases asks) [
        | inl k ↦
            let c : Campaign st.S Lg = record {
              node = n;
              term = inc64 n.current_term;
              pre_vote_granted_votes = 0;
              pre_vote_refused_votes = 0;
              granted_votes = 0;
              votes_needed = needed;
              pre_voting = true;
              voting = false;
            } in
            let both : (disabled ≡ false) × (n.candidate_from_leadership_transfer ≡ false) =
              ground (arith, k) in
            let pre =
              hear_pre_votes-elect_self c pre_votes e saved refl refl pre_later some_needed
                (omega (arith, pre_quorum both.0 both.1)) in
            rw (k, pre) elect_won
        | inr k ↦
            let stop =
              hear_pre_votes_stop (voting_from (inc64 n.current_term) needed m) pre_votes refl in
            rw (k, e, saved, stop) elect_won
      ]

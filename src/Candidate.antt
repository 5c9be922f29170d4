-- ===== src/Candidate.antt =====
-- runCandidate and preElectSelf of raft.go: a campaign, from the first request to its end. The
-- requests that a candidate answers meanwhile are the handlers' own matter; the timers are left out, and
-- what it answers to clients is in Leading.Serving.
pub mod Tally
pub mod Winning
mod Tests
use perf_raft.Prelude.{
  ℕ, ◌+◌, String, Bool, true, false, not, ◌&&◌, ◌||◌, List, [], ◌∷◌, ◌++◌, ltb, leb, if◌then◌else◌,
  str_eq, inc64,
}
use perf_raft.Configuration.{Configuration, Server, is_voter, quorum_size}
use perf_raft.LogStore.{StableStore}
use perf_raft.Node.{
  Node, Env, Outcome, returned, panicked, get_rpc_header, follower, leader, get_last_entry,
  set_state, set_leader, set_current_term,
}
use perf_raft.Vote.{RequestPreVoteRequest, Ballot, elect_self}

-- What preElectSelf does: the request that it sends, whether it has cast a pre-vote for itself, and
-- whom it asks.
pub record PreBallot : Type 0 where
  pub request : RequestPreVoteRequest
  pub own_vote : Bool
  pub asked : List Server

-- The loop over the servers of preElectSelf.
pre_elect_loop : String → PreBallot → List Server → PreBallot
pre_elect_loop id b [] = b
pre_elect_loop id b (server ∷ rest) =
    if not (is_voter server.suffrage)
    then pre_elect_loop id b rest
    else if str_eq server.id id
    then pre_elect_loop id (record b { own_vote = true }) rest
    else pre_elect_loop id (record b { asked = b.asked ++ server ∷ [] }) rest

-- A response as the channels carry it: from whom, its term, and whether the vote was granted.
pub record Response : Type 0 where
  pub voter_id : String
  pub term : ℕ
  pub granted : Bool

-- The variables of runCandidate; `pre_voting` and `voting` say which channel is there.
pub record Campaign (St Lg : Type 0) : Type 0 where
  pub node : Node St Lg
  pub term : ℕ
  pub pre_vote_granted_votes : ℕ
  pub pre_vote_refused_votes : ℕ
  pub granted_votes : ℕ
  pub votes_needed : ℕ
  pub pre_voting : Bool
  pub voting : Bool

-- The loop goes on, runCandidate returns, or the process died in a panic.
pub data Progress (St Lg : Type 0) : Type 0 where
  goes_on : Campaign St Lg → Progress St Lg
  is_over : Node St Lg → Progress St Lg
  died : St → Lg → Progress St Lg

module _ (st : StableStore) {Lg : Type 0} (env : Env) where
  pub pre_elect_self : Node st.S Lg → PreBallot
  unfolding pre_elect_loop get_last_entry
  pre_elect_self n =
      pre_elect_loop env.local_id
        (record {
          request = record {
            header = get_rpc_header env;
            term = inc64 n.current_term;
            last_log_index = (get_last_entry n).0;
            last_log_term = (get_last_entry n).1;
          };
          own_vote = false;
          asked = [];
        })
        n.configurations.latest.servers

  -- The deferred call: runCandidate is left, and the flag of a leadership transfer is reset.
  abbrev pub leave_campaign : Node st.S Lg → Progress st.S Lg
  leave_campaign n = is_over (record n { candidate_from_leadership_transfer = false })

  -- A later term was heard of.
  fall_back : Bool × Node st.S Lg → Progress st.S Lg
  fall_back (true, n) = leave_campaign n
  fall_back (false, n) = died n.stable n.logs

  -- The election itself begins; when its own vote could not be saved, the channel of the votes is nil.
  elected : Campaign st.S Lg → Outcome st.S Lg Ballot → Progress st.S Lg
  elected c (panicked s l) = died s l
  elected c (returned n b) =
      goes_on (record c { node = n; pre_voting = false; voting = not b.abandoned })

  -- runCandidate up to its loop.
  unfoldable pub begin_campaign : Bool → Node st.S Lg → Progress st.S Lg
  unfolding elected quorum_size
  begin_campaign pre_vote_disabled n =
      let c : Campaign st.S Lg = record {
        node = n;
        term = inc64 n.current_term;
        pre_vote_granted_votes = 0;
        pre_vote_refused_votes = 0;
        granted_votes = 0;
        votes_needed = quorum_size n.configurations.latest;
        pre_voting = true;
        voting = false;
      } in
      if not pre_vote_disabled && not n.candidate_from_leadership_transfer
      then goes_on c
      else elected c (elect_self st env n)

  -- A pre-vote is counted.
  count_pre_vote : Campaign st.S Lg → Bool → Campaign st.S Lg
  count_pre_vote c true = record c { pre_vote_granted_votes = c.pre_vote_granted_votes + 1 }
  count_pre_vote c false = record c { pre_vote_refused_votes = c.pre_vote_refused_votes + 1 }

  -- Has the pre-vote been won?
  after_pre_vote : Campaign st.S Lg → Progress st.S Lg
  unfolding elected
  after_pre_vote c =
      if leb c.votes_needed c.pre_vote_granted_votes
      then elected (record c { pre_vote_granted_votes = 0; pre_vote_refused_votes = 0 })
          (elect_self st env c.node)
      else goes_on c

  unfoldable pub hear_pre_vote : Campaign st.S Lg → Response → Progress st.S Lg
  unfolding fall_back count_pre_vote after_pre_vote
  hear_pre_vote c r =
      if ltb c.term r.term
      then fall_back (set_current_term st (set_state c.node follower) r.term)
      else after_pre_vote (count_pre_vote c r.granted)

  -- Has the election been won?
  unfoldable pub after_vote : Campaign st.S Lg → Progress st.S Lg
  after_vote c =
      if leb c.votes_needed c.granted_votes
      then leave_campaign (set_leader (set_state c.node leader) env.local_addr env.local_id)
      else goes_on c

  unfoldable pub hear_vote : Campaign st.S Lg → Response → Progress st.S Lg
  unfolding fall_back after_vote
  hear_vote c r =
      if ltb c.node.current_term r.term
      then fall_back (set_current_term st (set_state c.node follower) r.term)
      else after_vote (if r.granted then record c { granted_votes = c.granted_votes + 1 } else c)

  -- Responses one after the other, as long as the loop goes on.
  unfoldable pub hear_votes : Campaign st.S Lg → List Response → Progress st.S Lg
  hear_votes c [] = goes_on c
  hear_votes c (r ∷ rs) = elim (hear_vote c r) [
    | goes_on d ↦ hear_votes d rs
    | is_over n ↦ is_over n
    | died s l ↦ died s l
  ]

  -- Pre-votes one after the other; once the pre-vote is won, their channel is nil.
  unfoldable pub hear_pre_votes : Campaign st.S Lg → List Response → Progress st.S Lg
  hear_pre_votes c [] = goes_on c
  hear_pre_votes c (r ∷ rs) =
      if c.pre_voting
      then elim (hear_pre_vote c r) [
        | goes_on d ↦ hear_pre_votes d rs
        | is_over n ↦ is_over n
        | died s l ↦ died s l
      ]
      else goes_on c

  -- From a channel that is nil no vote is heard.
  vote_on : List Response → Progress st.S Lg → Progress st.S Lg
  vote_on votes (goes_on c) = if c.voting then hear_votes c votes else goes_on c
  vote_on votes (is_over n) = is_over n
  vote_on votes (died s l) = died s l

  pre_vote_on : List Response → List Response → Progress st.S Lg → Progress st.S Lg
  unfolding vote_on
  pre_vote_on pre_votes votes (goes_on c) = vote_on votes (hear_pre_votes c pre_votes)
  pre_vote_on pre_votes votes (is_over n) = is_over n
  pre_vote_on pre_votes votes (died s l) = died s l

  -- A campaign that hears these pre-votes and these votes.
  pub run_campaign : Bool → Node st.S Lg → List Response → List Response → Progress st.S Lg
  unfolding pre_vote_on
  run_campaign pre_vote_disabled n pre_votes votes =
      pre_vote_on pre_votes votes (begin_campaign pre_vote_disabled n)

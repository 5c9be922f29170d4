-- ===== src/Candidate/Tests.antt =====
-- A whole campaign of one of three servers.
use perf_raft.Prelude.{String, true, false, ◌≡◌, List, [], ◌∷◌, refl, arith}
use perf_raft.InmemStore.{InmemStore, set, set_uint64, insert, as_stable_store}
use perf_raft.Node.{Node, get_last_entry, get_rpc_header, set_current_term, persist_vote}
use perf_raft.Configuration.{quorum_size, count_voters}
use perf_raft.Candidate.{Response, run_campaign}
use perf_raft.Candidate.Winning.{won, run_campaign-won}
use perf_raft.Vote.{Ballot, elect_self, elect_in_new_term, elect_loop, vote_request}
use perf_raft.Candidate.Tally.{count_yes}
use perf_raft.Samples.{server_of, sample_env, sample_node, sample_stable}

abbrev yes_from : String → Response
yes_from id = record { voter_id = id; term = 2; granted = true }

-- The candidate has saved its term and its vote.
abbrev voted_for_itself : Node InmemStore InmemStore
voted_for_itself = record sample_node {
  current_term = 2;
  stable = record sample_stable {
    kv = ("LastVoteCand", 1 ∷ []) ∷ [];
    kv_int = ("LastVoteTerm", 2) ∷ ("CurrentTerm", 2) ∷ ("CurrentTerm", 1) ∷ [];
  };
}

abbrev own_ballot : Ballot
own_ballot = record {
  request = record {
    header = get_rpc_header sample_env;
    term = 2;
    candidate_bytes = 1 ∷ [];
    last_log_index = 2;
    last_log_term = 1;
    leadership_transfer = false;
  };
  own_vote = true;
  asked = server_of "b" ∷ server_of "c" ∷ [];
  abandoned = false;
}

abbrev answers_of : String → String → List Response
answers_of id other =
    yes_from id ∷ record { voter_id = "b"; term = 1; granted = false } ∷ yes_from other ∷ []

run_campaign-won_example :
    run_campaign as_stable_store sample_env false sample_node
      (answers_of "a" "c")
      (answers_of "a" "c")
    ≡ won as_stable_store sample_env voted_for_itself
unfolding quorum_size count_voters count_yes elect_self elect_in_new_term elect_loop vote_request
    get_last_entry get_rpc_header set_current_term persist_vote set_uint64 set insert
run_campaign-won_example =
    run_campaign-won as_stable_store sample_env false sample_node (answers_of "a" "c")
      (answers_of "a" "c") {m = voted_for_itself} {b = own_ballot} refl refl (ground arith)
      (ground arith) (λ e k. ground arith) (ground arith)

-- ===== src/Follower/Tests.antt =====
-- A follower of three servers whose timer fires, and that is asked for its vote.
use perf_raft.Prelude.{false, true, ◌≤◌, ◌≡◌, [], ◌∷◌, refl}
use perf_raft.InmemStore.{
  InmemStore, as_log_store, as_stable_store, set, set_uint64, get_uint64, get, lookup, insert,
}
use perf_raft.Configuration.{has_vote, has_vote_in, in_configuration}
use perf_raft.Node.{
  Node, returned, set_current_term, persist_vote, set_last_contact, set_state, get_last_entry,
  get_rpc_header,
}
use perf_raft.Options.{default_config, check_rpc_header}
use perf_raft.Vote.{
  request_vote, vote_result, vote_in_new_term, cast_vote, read_vote, vote_afresh, vote_response,
  vote_once,
}
use perf_raft.Follower.{
  Command, request_vote_asked, voted, process_rpc, process_command, reply, header_of,
}
use perf_raft.Follower.Terms.{process_rpc-TermGrows}
use perf_raft.Samples.{sample_env, sample_node, sample_stable, vote_for}

abbrev listening : Node InmemStore InmemStore
listening = record sample_node {
  configurations = record sample_node.configurations { latest_index = 1 };
}

abbrev asked : Command
asked = request_vote_asked (vote_for "b" 1 2)

-- The server of the next term; its vote is on disk.
abbrev moved : Node InmemStore InmemStore
moved = record listening {
  current_term = 2;
  last_contact = 9;
  stable = record sample_stable {
    kv = ("LastVoteCand", 1 ∷ []) ∷ [];
    kv_int = ("LastVoteTerm", 2) ∷ ("CurrentTerm", 2) ∷ ("CurrentTerm", 1) ∷ [];
  };
}

answered :
    process_rpc as_stable_store as_log_store sample_env default_config false 9 listening asked
    ≡ returned moved (voted (vote_response as_stable_store sample_env listening 2 true))
unfolding process_rpc process_command reply header_of check_rpc_header default_config request_vote
    vote_result vote_in_new_term cast_vote read_vote vote_afresh vote_once set_current_term
    persist_vote set_last_contact set_state get_last_entry get_uint64 get set set_uint64 lookup
    insert has_vote has_vote_in vote_response get_rpc_header in_configuration
answered = refl

process_rpc-TermGrows_example : listening.current_term ≤ moved.current_term
process_rpc-TermGrows_example =
    process_rpc-TermGrows as_stable_store as_log_store sample_env default_config false 9 listening
      asked answered

-- ===== src/Samples.antt =====
-- Concrete data for the tests: servers, entries, a codec and a server that has just started.
use perf_raft.Prelude.{ℕ, String, false, none, some, [], ◌∷◌}
use perf_raft.Configuration.{Server, Configuration, voter}
use perf_raft.LogStore.{Log, log_command}
use perf_raft.InmemStore.{InmemStore}
use perf_raft.Node.{Node, Env, RpcHeader, follower}
use perf_raft.Vote.{RequestVoteRequest}

abbrev pub server_of : String → Server
server_of id = record { suffrage = voter; id = id; address = id }

abbrev pub three : Configuration
three = record { servers = server_of "a" ∷ server_of "b" ∷ server_of "c" ∷ [] }

abbrev pub two : Configuration
two = record { servers = server_of "a" ∷ server_of "c" ∷ [] }

abbrev pub command_at : ℕ → Log
command_at i = record {
  index = i;
  term = 1;
  log_type = log_command;
  payload = 7 ∷ [];
  extensions = [];
  appended_at = 0;
}

abbrev pub sample_env : Env
sample_env = record {
  protocol_version = 3;
  local_id = "a";
  local_addr = "a";
  encode_peer = λ id addr. 1 ∷ [];
  decode_peer = λ bytes. "b";
  encode_peers = λ c. [];
  decode_peers = λ bytes. none;
  decode_configuration = λ bytes. some three;
  encode_configuration = λ c. 3 ∷ [];
}

abbrev pub sample_store : InmemStore
sample_store = record {
  low_index = 1;
  high_index = 2;
  logs = command_at 1 ∷ command_at 2 ∷ [];
  kv = [];
  kv_int = [];
}

abbrev pub sample_stable : InmemStore
sample_stable = record {
  low_index = 0;
  high_index = 0;
  logs = [];
  kv = [];
  kv_int = ("CurrentTerm", 1) ∷ [];
}

abbrev pub sample_node : Node InmemStore InmemStore
sample_node = record {
  state = follower;
  current_term = 1;
  commit_index = 0;
  last_applied = 0;
  last_snapshot_index = 0;
  last_snapshot_term = 0;
  last_log_index = 2;
  last_log_term = 1;
  leader_addr = "";
  leader_id = "";
  last_contact = 0;
  candidate_from_leadership_transfer = false;
  configurations = record {
    committed = three;
    committed_index = 0;
    latest = three;
    latest_index = 0;
  };
  stable = sample_stable;
  logs = sample_store;
}

abbrev pub header_of : String → ℕ → RpcHeader
header_of id byte = record { protocol_version = 3; id = id; addr = byte ∷ [] }

abbrev pub vote_for : String → ℕ → ℕ → RequestVoteRequest
vote_for id byte term = record {
  header = header_of id byte;
  term = term;
  candidate_bytes = [];
  last_log_index = 2;
  last_log_term = 1;
  leadership_transfer = false;
}

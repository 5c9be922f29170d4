-- ===== src/Node.antt =====
-- state.go and the parts of raft.go that read and write a server's state. The state of a server is a
-- record; what it was configured with is `Env`. Locks, metrics, observers and log output are left out.
-- Both uses of atomic variables and of the mutex are reads and writes of the fields.
use perf_raft.Prelude.{ℕ, String, Bool, true, false, Option, leb, if◌then◌else◌}
use perf_raft.Configuration.{Configuration}
use perf_raft.LogStore.{Bytes, StableStore}

pub data RaftState : Type 0 where
  follower candidate leader shutdown : RaftState

abbrev pub is_follower : RaftState → Bool
is_follower follower = true
is_follower _ = false

-- configurations of configuration.go.
pub record Configurations : Type 0 where
  pub committed : Configuration
  pub committed_index : ℕ
  pub latest : Configuration
  pub latest_index : ℕ

-- The fields of Raft that the handlers use, over the states of its two stores.
pub record Node (St Lg : Type 0) : Type 0 where
  pub state : RaftState
  pub current_term : ℕ
  pub commit_index : ℕ
  pub last_applied : ℕ
  pub last_snapshot_index : ℕ
  pub last_snapshot_term : ℕ
  pub last_log_index : ℕ
  pub last_log_term : ℕ
  pub leader_addr : String
  pub leader_id : String
  pub last_contact : ℕ
  pub candidate_from_leadership_transfer : Bool
  pub configurations : Configurations
  pub stable : St
  pub logs : Lg

-- The configuration of the server, and what its transport and the codec do: EncodePeer and DecodePeer,
-- encodePeers, decodePeers, EncodeConfiguration and DecodeConfiguration (which panics where it gives
-- nothing).
pub record Env : Type 0 where
  pub protocol_version : ℕ
  pub local_id : String
  pub local_addr : String
  pub encode_peer : String → String → Bytes
  pub decode_peer : Bytes → String
  pub encode_peers : Configuration → Bytes
  pub decode_peers : Bytes → Option Configuration
  pub decode_configuration : Bytes → Option Configuration
  pub encode_configuration : Configuration → Bytes

pub record RpcHeader : Type 0 where
  pub protocol_version : ℕ
  pub id : String
  pub addr : Bytes

unfoldable pub get_rpc_header : Env → RpcHeader
get_rpc_header env = record {
  protocol_version = env.protocol_version;
  id = env.local_id;
  addr = env.encode_peer env.local_id env.local_addr;
}

-- The end of a handler: the server goes on, or the process died in a panic, and what is left of it is
-- its two stores.
pub data Outcome (St Lg R : Type 0) : Type 0 where
  returned : Node St Lg → R → Outcome St Lg R
  panicked : St → Lg → Outcome St Lg R

abbrev pub key_current_term : String
key_current_term = "CurrentTerm"

abbrev pub key_last_vote_term : String
key_last_vote_term = "LastVoteTerm"

abbrev pub key_last_vote_cand : String
key_last_vote_cand = "LastVoteCand"

module _ {St Lg : Type 0} where
  unfoldable pub get_last_log : Node St Lg → ℕ × ℕ
  get_last_log n = (n.last_log_index, n.last_log_term)

  unfoldable pub set_last_log : Node St Lg → ℕ → ℕ → Node St Lg
  set_last_log n index term = record n { last_log_index = index; last_log_term = term }

  unfoldable pub get_last_snapshot : Node St Lg → ℕ × ℕ
  get_last_snapshot n = (n.last_snapshot_index, n.last_snapshot_term)

  unfoldable pub set_last_snapshot : Node St Lg → ℕ → ℕ → Node St Lg
  set_last_snapshot n index term = record n {
    last_snapshot_index = index;
    last_snapshot_term = term;
  }

  -- The larger of the two, which is the last index in stable storage.
  unfoldable pub get_last_index : Node St Lg → ℕ
  get_last_index n =
      if leb n.last_snapshot_index n.last_log_index then n.last_log_index else n.last_snapshot_index

  unfoldable pub get_last_entry : Node St Lg → ℕ × ℕ
  get_last_entry n =
      if leb n.last_snapshot_index n.last_log_index
      then (n.last_log_index, n.last_log_term)
      else (n.last_snapshot_index, n.last_snapshot_term)

  unfoldable pub set_leader : Node St Lg → String → String → Node St Lg
  set_leader n addr id = record n { leader_addr = addr; leader_id = id }

  -- Any transition clears the leader.
  unfoldable pub set_state : Node St Lg → RaftState → Node St Lg
  set_state n state = record n { leader_addr = ""; leader_id = ""; state = state }

  unfoldable pub set_last_contact : Node St Lg → ℕ → Node St Lg
  set_last_contact n now = record n { last_contact = now }

  unfoldable pub set_latest_configuration : Node St Lg → Configuration → ℕ → Node St Lg
  set_latest_configuration n c i = record n {
    configurations = record n.configurations { latest = c; latest_index = i };
  }

  unfoldable pub set_committed_configuration : Node St Lg → Configuration → ℕ → Node St Lg
  set_committed_configuration n c i = record n {
    configurations = record n.configurations { committed = c; committed_index = i };
  }

  -- TimeoutNow: the server stands for election at once.
  unfoldable pub timeout_now : Node St Lg → Node St Lg
  unfolding set_state
  timeout_now n = record (set_state n candidate) { candidate_from_leadership_transfer = true }

module _ (st : StableStore) {Lg : Type 0} where
  -- The term is on disk before it is used; if it cannot be written the process dies.
  unfoldable pub set_current_term : Node st.S Lg → ℕ → Bool × Node st.S Lg
  set_current_term n t =
      let r = st.set_uint64 n.stable key_current_term t in
      if r.0
      then (true, record n { stable = r.1; current_term = t })
      else (false, record n { stable = r.1 })

  -- The term of the vote first, then for whom; whether both were written.
  unfoldable pub persist_vote : Node st.S Lg → ℕ → Bytes → Bool × Node st.S Lg
  persist_vote n term cand =
      let r = st.set_uint64 n.stable key_last_vote_term term in
      let q = st.set r.1 key_last_vote_cand cand in
      if r.0 then (q.0, record n { stable = q.1 }) else (false, record n { stable = r.1 })

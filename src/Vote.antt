-- ===== src/Vote.antt =====
-- The two vote handlers of raft.go, requestVote and requestPreVote, and electSelf.
pub mod Casting
pub mod UpToDate
pub mod Ballots
mod Tests
use perf_raft.Prelude.{
  ℕ, zero, suc, ◌+◌, ◌%◌, String, Bool, true, false, not, ◌&&◌, ◌||◌, Option, none, some, List, [],
  ◌∷◌, ◌++◌, ltb, leb, ◌==◌, if◌then◌else◌, str_eq, inc64,
}
use perf_raft.Configuration.{Configuration, Server, in_configuration, has_vote, is_voter}
use perf_raft.LogStore.{Bytes, Read, found, not_found, failed, StableStore}
use perf_raft.Node.{
  Node, Env, RpcHeader, get_rpc_header, Outcome, returned, panicked, follower, candidate,
  key_last_vote_term, key_last_vote_cand, get_last_entry, set_state, set_last_contact,
  set_current_term, persist_vote,
}

pub record RequestVoteRequest : Type 0 where
  pub header : RpcHeader
  pub term : ℕ
  pub candidate_bytes : Bytes
  pub last_log_index : ℕ
  pub last_log_term : ℕ
  pub leadership_transfer : Bool

pub record RequestVoteResponse : Type 0 where
  pub header : RpcHeader
  pub term : ℕ
  pub peers : Option Bytes
  pub granted : Bool

pub record RequestPreVoteRequest : Type 0 where
  pub header : RpcHeader
  pub term : ℕ
  pub last_log_index : ℕ
  pub last_log_term : ℕ

pub record RequestPreVoteResponse : Type 0 where
  pub header : RpcHeader
  pub term : ℕ
  pub granted : Bool

abbrev pub is_empty {ℓ} : {A : Type ℓ} → List A → Bool
is_empty [] = true
is_empty (x ∷ xs) = false

-- bytes.Equal
unfoldable pub bytes_equal : Bytes → Bytes → Bool
bytes_equal [] [] = true
bytes_equal (x ∷ xs) (y ∷ ys) = x == y && bytes_equal xs ys
bytes_equal _ _ = false

-- A number that is not found reads as 0, and a slice that is not found as nil; `none` is an error.
abbrev pub number_or_zero : Read ℕ → Option ℕ
number_or_zero (found v) = some v
number_or_zero not_found = some 0
number_or_zero failed = none

abbrev pub bytes_or_nil : Read Bytes → Option (Option Bytes)
bytes_or_nil (found v) = some (some v)
bytes_or_nil not_found = some none
bytes_or_nil failed = none

-- The address of the candidate, from the header or, of an old server, from its own field.
abbrev pub candidate_of : RequestVoteRequest → Bytes
candidate_of req = if is_empty req.header.addr then req.candidate_bytes else req.header.addr

-- Is the log of the candidate behind ours?
unfoldable pub is_behind : ℕ × ℕ → ℕ → ℕ → Bool
is_behind (last_index, last_term) index term =
    ltb term last_term || (last_term == term && ltb index last_index)

pre_vote_response : Env → ℕ → Bool → RequestPreVoteResponse
pre_vote_response env term granted = record {
  header = get_rpc_header env;
  term = term;
  granted = granted;
}

module _ (st : StableStore) {Lg : Type 0} where
  -- The end of requestVote, when we have not voted in the term.
  unfoldable pub vote_afresh : Node st.S Lg → RequestVoteRequest → ℕ → Node st.S Lg × Bool
  unfolding is_behind get_last_entry persist_vote
  vote_afresh n req now =
      let r = persist_vote st n req.term (candidate_of req) in
      if is_behind (get_last_entry n) req.last_log_index req.last_log_term
      then (n, false)
      else if r.0
      then (set_last_contact r.1 now, true)
      else (r.1, false)

  -- Have we voted in this election before?
  unfoldable pub vote_once :
      Node st.S Lg → RequestVoteRequest → ℕ → ℕ → Option Bytes → Node st.S Lg × Bool
  vote_once n req now last_vote_term none = vote_afresh n req now
  vote_once n req now last_vote_term (some cand) =
      if last_vote_term == req.term
      then (n, bytes_equal cand (candidate_of req))
      else vote_afresh n req now

  unfoldable pub read_vote :
      Node st.S Lg → RequestVoteRequest → ℕ → Option ℕ → Option (Option Bytes) → Node st.S Lg × Bool
  read_vote n req now (some last_vote_term) (some cand) = vote_once n req now last_vote_term cand
  read_vote n req now _ _ = (n, false)

  abbrev pub is_no_voter : Node st.S Lg → String → Bool
  is_no_voter n id =
      not (is_empty n.configurations.latest.servers) && not (has_vote n.configurations.latest id)

  -- requestVote from the check of the candidate's suffrage on.
  unfoldable pub cast_vote : Node st.S Lg → RequestVoteRequest → ℕ → Node st.S Lg × Bool
  cast_vote n req now =
      if not (str_eq req.header.id "") && is_no_voter n req.header.id
      then (n, false)
      else read_vote n req now (number_or_zero (st.get_uint64 n.stable key_last_vote_term))
          (bytes_or_nil (st.get n.stable key_last_vote_cand))

  abbrev pub is_stranger : Node st.S Lg → String → Bool
  is_stranger n id =
      not (is_empty n.configurations.latest.servers)
      && not (in_configuration n.configurations.latest id)

  abbrev pub has_other_leader : Node st.S Lg → String → Bool
  has_other_leader n addr = not (str_eq n.leader_addr "") && not (str_eq n.leader_addr addr)

  module _ (env : Env) where
    unfoldable pub vote_response : Node st.S Lg → ℕ → Bool → RequestVoteResponse
    vote_response n term granted = record {
      header = get_rpc_header env;
      term = term;
      peers =
          if ltb env.protocol_version 2
          then some (env.encode_peers n.configurations.latest)
          else none;
      granted = granted;
    }

    unfoldable pub vote_result :
        Node st.S Lg → ℕ → Node st.S Lg × Bool → Outcome st.S Lg RequestVoteResponse
    vote_result n term (m, granted) = returned m (vote_response n term granted)

    -- The vote once the new term has been written, if it could be.
    unfoldable pub vote_in_new_term :
        Node st.S Lg
        → RequestVoteRequest
        → ℕ
        → Bool × Node st.S Lg
        → Outcome st.S Lg RequestVoteResponse
    vote_in_new_term n req now (false, m) = panicked m.stable m.logs
    vote_in_new_term n req now (true, m) = vote_result n req.term (cast_vote m req now)

    unfoldable pub request_vote :
        Node st.S Lg → RequestVoteRequest → ℕ → Outcome st.S Lg RequestVoteResponse
    request_vote n req now =
        if not (str_eq req.header.id "") && is_stranger n req.header.id
        then vote_result n n.current_term (n, false)
        else if has_other_leader n (env.decode_peer (candidate_of req))
            && not req.leadership_transfer
        then vote_result n n.current_term (n, false)
        else if ltb req.term n.current_term
        then vote_result n n.current_term (n, false)
        else if ltb n.current_term req.term
        then vote_in_new_term n req now (set_current_term st (set_state n follower) req.term)
        else vote_result n n.current_term (cast_vote n req now)

    -- requestPreVote only answers: the server stays as it is.
    pub request_pre_vote : Node st.S Lg → RequestPreVoteRequest → RequestPreVoteResponse
    unfolding pre_vote_response is_behind get_last_entry
    request_pre_vote n req =
        let term = if ltb n.current_term req.term then req.term else n.current_term in
        if is_stranger n req.header.id
        then pre_vote_response env n.current_term false
        else if has_other_leader n (env.decode_peer req.header.addr)
        then pre_vote_response env n.current_term false
        else if ltb req.term n.current_term
        then pre_vote_response env n.current_term false
        else if is_no_voter n req.header.id
        then pre_vote_response env term false
        else if is_behind (get_last_entry n) req.last_log_index req.last_log_term
        then pre_vote_response env term false
        else pre_vote_response env term true

-- What electSelf did: the request that it sends, whether our own vote is in, whom it asked, and
-- whether it gave up because our vote could not be written.
pub record Ballot : Type 0 where
  pub request : RequestVoteRequest
  pub own_vote : Bool
  pub asked : List Server
  pub abandoned : Bool

module _ (st : StableStore) {Lg : Type 0} (env : Env) where
  -- The loop over the servers of electSelf.
  unfoldable pub elect_loop : Node st.S Lg → Ballot → List Server → Node st.S Lg × Ballot
  elect_loop n b [] = (n, b)
  elect_loop n b (server ∷ rest) =
      let r = persist_vote st n b.request.term b.request.header.addr in
      let skipped = elect_loop n b rest in
      let asking = elect_loop n (record b { asked = b.asked ++ server ∷ [] }) rest in
      let voted = elect_loop r.1 (record b { own_vote = true }) rest in
      if not (is_voter server.suffrage)
      then skipped
      else if not (str_eq server.id env.local_id)
      then asking
      else if r.0
      then voted
      else (r.1, record b { abandoned = true })

  unfoldable pub vote_request : Node st.S Lg → ℕ → RequestVoteRequest
  vote_request n term = record {
    header = get_rpc_header env;
    term = term;
    candidate_bytes = env.encode_peer env.local_id env.local_addr;
    last_log_index = (get_last_entry n).0;
    last_log_term = (get_last_entry n).1;
    leadership_transfer = n.candidate_from_leadership_transfer;
  }

  unfoldable pub elect_in_new_term : ℕ → Bool × Node st.S Lg → Outcome st.S Lg Ballot
  elect_in_new_term term (false, n) = panicked n.stable n.logs
  elect_in_new_term term (true, n) =
      let r =
        elect_loop n
          (record {
            request = vote_request n term;
            own_vote = false;
            asked = [];
            abandoned = false;
          })
          n.configurations.latest.servers in
      returned r.0 r.1

  unfoldable pub elect_self : Node st.S Lg → Outcome st.S Lg Ballot
  unfolding elect_in_new_term elect_loop vote_request get_last_entry
  elect_self n =
      elect_in_new_term (inc64 n.current_term) (set_current_term st n (inc64 n.current_term))

-- ===== src/Append.antt =====
-- appendEntries of raft.go, in the order of its stages.
pub mod Unvoting
pub mod Entries
pub mod Success
mod Tests
use perf_raft.Prelude.{
  ℕ, zero, suc, ◌+◌, ◌-◌, String, Bool, true, false, not, ◌&&◌, ◌||◌, Option, none, some, List, [],
  ◌∷◌, ◌++◌, ltb, leb, ◌==◌, if◌then◌else◌,
}
use perf_raft.LogStore.{Log, Bytes, Read, found, not_found, failed, LogStore, StableStore}
use perf_raft.Node.{
  Node, Env, RpcHeader, get_rpc_header, Outcome, returned, panicked, follower, is_follower,
  get_last_entry, get_last_index, set_state, set_leader, set_last_log, set_last_contact,
  set_current_term, set_latest_configuration, set_committed_configuration,
}
use perf_raft.Process.{
  Step, next, stop, die, ◌>>=◌, process_configuration_log_entry, process_logs, Sent,
}
use perf_raft.Vote.{is_empty}

pub record AppendEntriesRequest : Type 0 where
  pub header : RpcHeader
  pub term : ℕ
  pub leader : Bytes
  pub prev_log_entry : ℕ
  pub prev_log_term : ℕ
  pub entries : List Log
  pub leader_commit_index : ℕ

pub record AppendEntriesResponse : Type 0 where
  pub header : RpcHeader
  pub term : ℕ
  pub last_log : ℕ
  pub success : Bool
  pub no_retry_backoff : Bool

-- What the handler gives back: the response, whether an RPC error goes with it, and what it sent to
-- the state machine.
pub record AppendReply : Type 0 where
  pub response : AppendEntriesResponse
  pub rpc_error : Bool
  pub sent : List (List Log)

-- What the search for the first conflict finds: the entries that are new, or an early return.
pub data Scan (St Lg : Type 0) : Type 0 where
  to_store : Node St Lg → List Log → Scan St Lg
  gave_up : Node St Lg → Scan St Lg

module _ (st : StableStore) (lg : LogStore) where
  -- The term of our entry before the new ones, if there is one.
  pub previous_term : Node st.S lg.S → ℕ → Option ℕ
  unfolding get_last_entry
  previous_term n prev =
      if prev == (get_last_entry n).0
      then some (get_last_entry n).1
      else elim (lg.get_log n.logs prev) [
        | found l ↦ some l.term
        | not_found ↦ none
        | failed ↦ none
      ]

  -- Does our log have the entry that the leader's new ones follow?
  pub has_previous : Node st.S lg.S → AppendEntriesRequest → Bool
  has_previous n a =
      if ltb 0 a.prev_log_entry
      then elim (previous_term n a.prev_log_entry) [ some t ↦ a.prev_log_term == t | none ↦ false ]
      else true

  -- A conflict at the first of the entries: our log from there on goes.
  cut_suffix : Node st.S lg.S → ℕ → Log → List Log → Scan st.S lg.S
  cut_suffix n last e es =
      let r = lg.delete_range n.logs e.index last in
      let m = record n { logs = r.1 } in
      if not r.0
      then gave_up m
      else if leb e.index n.configurations.latest_index
      then to_store
          (set_latest_configuration m n.configurations.committed n.configurations.committed_index)
          (e ∷ es)
      else to_store m (e ∷ es)

  -- The loop over the entries; `last` is the last index of the log when it began.
  scan_entries : Node st.S lg.S → ℕ → List Log → Scan st.S lg.S
  scan_entries n last [] = to_store n []
  scan_entries n last (e ∷ es) =
      let later = scan_entries n last es in
      let stored = lg.get_log n.logs e.index in
      if ltb last e.index then to_store n (e ∷ es) else elim stored [
        | found l ↦ if e.term == l.term then later else cut_suffix n last e es
        | not_found ↦ gave_up n
        | failed ↦ gave_up n
      ]

  module _ (env : Env) where
    adopt_configurations : Node st.S lg.S → List Log → Step st.S lg.S
    adopt_configurations n [] = next n
    adopt_configurations n (e ∷ es) =
        process_configuration_log_entry env n e >>= λ m. adopt_configurations m es

    abbrev last_of : Log → List Log → Log
    last_of e [] = e
    last_of e (d ∷ es) = last_of d es

    store_entries : Scan st.S lg.S → Step st.S lg.S
    store_entries (gave_up n) = stop n false
    store_entries (to_store n []) = next n
    store_entries (to_store n (e ∷ es)) =
        let r = lg.store_logs n.logs (e ∷ es) in
        let m = record n { logs = r.1 } in
        if not r.0
        then stop m false
        else (adopt_configurations m (e ∷ es) >>= λ k.
            next (set_last_log k (last_of e es).index (last_of e es).term))

    -- The stage of the entries.
    pub take_entries : Node st.S lg.S → AppendEntriesRequest → Step st.S lg.S
    unfolding store_entries scan_entries
    take_entries n a =
        if is_empty a.entries
        then next n
        else store_entries (scan_entries n n.last_log_index a.entries)

    append_response : Node st.S lg.S → ℕ → Bool → Bool → AppendEntriesResponse
    append_response n term success no_retry_backoff = record {
      header = get_rpc_header env;
      term = term;
      last_log = get_last_index n;
      success = success;
      no_retry_backoff = no_retry_backoff;
    }

    module _ (max_append_entries : ℕ) (now : ℕ) where
      -- `min` of util.go.
      abbrev smaller : ℕ → ℕ → ℕ
      smaller a b = if leb a b then a else b

      -- The node with the new commit index, before its entries are applied.
      pub commit_to : Node st.S lg.S → ℕ → Node st.S lg.S
      unfolding get_last_index
      commit_to n leader_commit =
          let idx = smaller leader_commit (get_last_index n) in
          let m = record n { commit_index = idx } in
          if leb n.configurations.latest_index idx
          then set_committed_configuration m n.configurations.latest n.configurations.latest_index
          else m

      finish :
          AppendEntriesResponse → Node st.S lg.S × List (List Log) → Outcome st.S lg.S AppendReply
      finish resp (n, batches) =
          returned (set_last_contact n now) (record {
            response = record resp { success = true };
            rpc_error = false;
            sent = batches;
          })

      -- The stage of the commit index, and the end.
      commit_entries :
          AppendEntriesResponse
          → AppendEntriesRequest
          → Node st.S lg.S
          → Outcome st.S lg.S AppendReply
      commit_entries resp a n =
          if ltb 0 a.leader_commit_index && ltb n.commit_index a.leader_commit_index
          then (let m = commit_to n a.leader_commit_index in
              elim (process_logs lg env max_append_entries (λ i. none) m m.commit_index) [
                | none ↦ panicked m.stable m.logs
                | some (k, sent) ↦ finish resp (k, sent.batches)
              ])
          else finish resp (n, [])

      after_entries :
          AppendEntriesResponse
          → AppendEntriesRequest
          → Step st.S lg.S
          → Outcome st.S lg.S AppendReply
      after_entries resp a (next n) = commit_entries resp a n
      after_entries resp a (stop n e) =
          returned n (record { response = resp; rpc_error = e; sent = [] })
      after_entries resp a (die n) = panicked n.stable n.logs

      -- From the leader's address on, in the term of the request.
      append_in_term :
          AppendEntriesResponse
          → AppendEntriesRequest
          → Node st.S lg.S
          → Outcome st.S lg.S AppendReply
      append_in_term resp a n =
          let addr = if is_empty a.header.addr then a.leader else a.header.addr in
          let m = set_leader n (env.decode_peer addr) a.header.id in
          if has_previous m a
          then after_entries resp a (take_entries m a)
          else returned m (record {
            response = record resp { no_retry_backoff = true };
            rpc_error = false;
            sent = [];
          })

      append_in_new_term :
          AppendEntriesResponse
          → AppendEntriesRequest
          → Bool × Node st.S lg.S
          → Outcome st.S lg.S AppendReply
      append_in_new_term resp a (false, n) = panicked n.stable n.logs
      append_in_new_term resp a (true, n) = append_in_term (record resp { term = a.term }) a n

      pub append_entries : Node st.S lg.S → AppendEntriesRequest → Outcome st.S lg.S AppendReply
      append_entries n a =
          let resp = append_response n n.current_term false false in
          if ltb a.term n.current_term
          then returned n (record { response = resp; rpc_error = false; sent = [] })
          else if ltb n.current_term a.term
              || (not (is_follower n.state) && not n.candidate_from_leadership_transfer)
          then append_in_new_term resp a (set_current_term st (set_state n follower) a.term)
          else append_in_term resp a n

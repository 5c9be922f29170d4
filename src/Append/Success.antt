-- ===== src/Append/Success.antt =====
-- What a success of appendEntries of raft.go says of the log.
use mathlib.Core.Bool.{false≢true}
use perf_raft.Prelude.{
  ℕ, ◌<◌, ◌≡◌, true, false, not, ◌&&◌, ◌||◌, if◌then◌else◌, none, List, refl, sym, subst, ◌∙◌,
  arith, Bool-cases, inl, inr, ltb,
}
use perf_raft.LogStore.{Log, LogStore, LogStoreLaws, StableStore}
use perf_raft.Node.{
  Node, Env, Outcome, returned, panicked, follower, key_current_term, is_follower, set_state,
  set_current_term, set_leader, set_last_contact, set_committed_configuration,
}
use perf_raft.Process.{Step, next, stop, die}
use perf_raft.Process.Untouched.{process_logs-ProcessedLogs}
use perf_raft.Vote.{is_empty}
use perf_raft.Append.{
  AppendEntriesRequest, AppendEntriesResponse, AppendReply, commit_to, finish, commit_entries,
  after_entries, append_in_term, append_response, append_in_new_term, append_entries, take_entries,
  has_previous,
}
use perf_raft.Append.Entries.{RisingFrom, Stored, Appended, take_entries-Appended}

-- An outcome with the logs as they were.
abbrev KeepsLogs : {St Lg : Type 0} → Node St Lg → Outcome St Lg AppendReply → Type 0
KeepsLogs n (returned m r) = m.logs ≡ n.logs
KeepsLogs n (panicked s l) = Unit

-- A success means that the entries are in the log, and that it is as it was below `i`.
abbrev pub Succeeded :
    (lg : LogStore) {St : Type 0} → lg.S → ℕ → List Log → Outcome St lg.S AppendReply → Type 0
Succeeded lg s i es (panicked t l) = Unit
Succeeded lg s i es (returned m r) =
    r.response.success ≡ true
    → Stored lg m.logs es × ((j : ℕ) → j < i → lg.get_log m.logs j ≡ lg.get_log s j)

module _ (st : StableStore) (lg : LogStore) (laws : LogStoreLaws lg) (env : Env)
    (max_append_entries now : ℕ) where
  commit_entries-KeepsLogs :
      (resp : AppendEntriesResponse) (a : AppendEntriesRequest) (n : Node st.S lg.S)
      → KeepsLogs n (commit_entries st lg env max_append_entries now resp a n)
  unfolding commit_entries finish set_last_contact commit_to set_committed_configuration
  commit_entries-KeepsLogs resp a n =
      let m = commit_to st lg env max_append_entries now n a.leader_commit_index in
      ground (
        arith,
        process_logs-ProcessedLogs lg env max_append_entries (λ (i : ℕ). none) m m.commit_index,
      )

  after_entries-Succeeded :
      (s : lg.S) (i : ℕ) (resp : AppendEntriesResponse) (a : AppendEntriesRequest)
      (r : Step st.S lg.S)
      → resp.success ≡ false
      → Appended lg s i a.entries r
      → Succeeded lg s i a.entries (after_entries st lg env max_append_entries now resp a r)
  unfolding after_entries
  after_entries-Succeeded s i resp a (stop m e) fails h =
      λ yes. absurd (false≢true (sym fails ∙ yes))
  after_entries-Succeeded s i resp a (die m) fails h = tt
  after_entries-Succeeded s i resp a (next m) fails h =
      keep (commit_entries st lg env max_append_entries now resp a m)
        (commit_entries-KeepsLogs resp a m)
    where
      keep : (o : Outcome st.S lg.S AppendReply) → KeepsLogs m o → Succeeded lg s i a.entries o
      keep (panicked t l) same = tt
      keep (returned k r) same = λ yes.
          subst (λ t. Stored lg t a.entries × ((j : ℕ) → j < i → lg.get_log t j ≡ lg.get_log s j))
            (sym same) h

  append_in_term-Succeeded :
      (i : ℕ) (resp : AppendEntriesResponse) (a : AppendEntriesRequest) (n : Node st.S lg.S)
      → resp.success ≡ false
      → RisingFrom i a.entries
      → Succeeded lg n.logs i a.entries (append_in_term st lg env max_append_entries now resp a n)
  unfolding append_in_term set_leader
  append_in_term-Succeeded i resp a n fails r =
      let addr = if is_empty a.header.addr then a.leader else a.header.addr in
      let m = set_leader n (env.decode_peer addr) a.header.id in
      elim (Bool-cases (has_previous st lg m a)) [
        | inl e ↦ rw e (
            after_entries-Succeeded m.logs i resp a (take_entries st lg env m a) fails
              (take_entries-Appended st lg laws env m a i r))
        | inr e ↦ rw e (λ yes. absurd (false≢true (sym fails ∙ yes)))
      ]

  -- When appendEntries answers with success, over any stores whose log keeps its word and for a request
  -- whose indexes rise, then for each of its entries the log has one with its index and term, and what
  -- the log had below the first of them, or any index before it, is as it was.
  pub append_entries-Succeeded :
      (n : Node st.S lg.S) (a : AppendEntriesRequest) (i : ℕ)
      → RisingFrom i a.entries
      → Succeeded lg n.logs i a.entries (append_entries st lg env max_append_entries now n a)
  unfolding append_entries append_in_new_term append_response set_state set_current_term
  append_entries-Succeeded n a i r = elim (Bool-cases (ltb a.term n.current_term)) [
    | inl stale ↦ rw stale (λ yes. absurd (false≢true yes))
    | inr fresh ↦
        rw fresh
          (elim (Bool-cases (
            ltb n.current_term a.term
            || not (is_follower n.state) && not n.candidate_from_leadership_transfer)) [
              | inr b ↦ rw b (append_in_term-Succeeded i _ a n refl r)
              | inl b ↦ rw b (elim (Bool-cases (st.set_uint64 n.stable key_current_term a.term).0) [
                | inl w ↦ rw w (
                    append_in_term-Succeeded i _ a
                      (record (set_state n follower) {
                        stable = (st.set_uint64 n.stable key_current_term a.term).1;
                        current_term = a.term;
                      })
                      refl r)
                | inr w ↦ rw w tt
              ])
            ])
  ]

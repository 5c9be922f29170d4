-- ===== src/Follower/Terms.antt =====
-- processRPC of raft.go and the term of a server.
use perf_raft.Prelude.{ℕ, ◌≤◌, ◌≡◌, Bool, true, false, refl, subst, arith, Bool-cases, inl, inr}
use perf_raft.LogStore.{LogStore, StableStore}
use perf_raft.Node.{
  Node, Env, Outcome, returned, panicked, follower, set_state, set_current_term, set_last_contact,
  persist_vote, timeout_now,
}
use perf_raft.Options.{Config, check_rpc_header}
use perf_raft.Append.Unvoting.{OutcomeSame, append_entries_cases}
use perf_raft.Append.{AppendEntriesRequest, append_entries}
use perf_raft.Snapshot.{Installing, install_newer, install_snapshot}
use perf_raft.Server.Snapshots.{install_in_term-OutcomeSame}
use perf_raft.Replication.{InstallSnapshotRequest, InstallSnapshotResponse}
use perf_raft.Vote.{
  RequestVoteRequest, request_vote, vote_result, vote_in_new_term, cast_vote, read_vote, vote_once,
  vote_afresh,
}
use perf_raft.Follower.{
  Command, append_entries_asked, request_vote_asked, request_pre_vote_asked, install_snapshot_asked,
  timeout_now_asked, unexpected, Reply, reply, header_of, process_command, process_rpc,
}

abbrev pub TermGrows : {St Lg R : Type 0} → ℕ → Outcome St Lg R → Type 0
TermGrows term (returned m r) = term ≤ m.current_term
TermGrows term (panicked s l) = Unit

module _ (st : StableStore) (lg : LogStore) (env : Env) where
  OutcomeSame-TermGrows :
      {R : Type 0} (n : Node st.S lg.S) (o : Outcome st.S lg.S R)
      → OutcomeSame n o
      → TermGrows n.current_term o
  OutcomeSame-TermGrows n (returned m r) same = omega (arith, same.1)
  OutcomeSame-TermGrows n (panicked s l) same = tt

  TermGrows-trans :
      {R : Type 0} (s t : ℕ) (o : Outcome st.S lg.S R) → s ≤ t → TermGrows t o → TermGrows s o
  TermGrows-trans s t (returned m r) le h = omega arith
  TermGrows-trans s t (panicked a l) le h = tt

  set_current_term-TermGrows :
      {R : Type 0} (f : Bool × Node st.S lg.S → Outcome st.S lg.S R) (n : Node st.S lg.S) (t : ℕ)
      → ((m : Node st.S lg.S) → f (false, m) ≡ panicked m.stable m.logs)
      → ((m : Node st.S lg.S) → TermGrows m.current_term (f (true, m)))
      → n.current_term ≤ t
      → TermGrows n.current_term (f (set_current_term st n t))
  unfolding set_current_term
  set_current_term-TermGrows f n t dies keeps le =
      let r = st.set_uint64 n.stable "CurrentTerm" t in
      elim (Bool-cases r.0) [
        | inl e ↦
            let m = record n { stable = r.1; current_term = t } in
            rw e (TermGrows-trans n.current_term t (f (true, m)) le (keeps m))
        | inr e ↦ rw (e, dies (record n { stable = r.1 })) tt
      ]

  append_entries-TermGrows :
      (max_append_entries now : ℕ) (n : Node st.S lg.S) (a : AppendEntriesRequest)
      → TermGrows n.current_term (append_entries st lg env max_append_entries now n a)
  unfolding set_current_term set_state
  append_entries-TermGrows max_append_entries now n a =
      append_entries_cases st lg env max_append_entries now (TermGrows n.current_term) n a
        (λ o same. OutcomeSame-TermGrows n o same)
        (λ le. (
          λ w. tt,
          λ w o same.
              let m = (set_current_term st (set_state n follower) a.term).1 in
              TermGrows-trans n.current_term m.current_term o (ground (arith, w, le))
                (OutcomeSame-TermGrows m o same),
        ))

  install_snapshot-TermGrows :
      (trailing_logs : ℕ) (monotonic : Bool) (now : ℕ) (n : Node st.S lg.S)
      (req : InstallSnapshotRequest) (does : Installing)
      → TermGrows n.current_term (install_snapshot st lg env trailing_logs monotonic now req does n)
  unfolding install_snapshot install_newer set_state
  install_snapshot-TermGrows trailing_logs monotonic now n req does =
      let same = install_in_term-OutcomeSame st lg env trailing_logs monotonic now in
      let resp : InstallSnapshotResponse = record { term = n.current_term; success = false } in
      ground (
        arith,
        OutcomeSame-TermGrows n _ (same resp req does n),
        set_current_term-TermGrows (install_newer st lg env trailing_logs monotonic now req does)
            (set_state n follower) req.term (λ m. refl)
            (λ m. OutcomeSame-TermGrows m _ (same _ req does m)),
      )

  current_term-cast_vote :
      (n : Node st.S lg.S) (req : RequestVoteRequest) (now : ℕ)
      → (cast_vote st n req now).0.current_term ≡ n.current_term
  unfolding cast_vote read_vote vote_once vote_afresh persist_vote set_last_contact
  current_term-cast_vote n req now = ground arith

  request_vote-TermGrows :
      (n : Node st.S lg.S) (req : RequestVoteRequest) (now : ℕ)
      → TermGrows n.current_term (request_vote st env n req now)
  unfolding request_vote vote_result vote_in_new_term set_state
  request_vote-TermGrows n req now = ground (
    arith,
    current_term-cast_vote n req now,
    set_current_term-TermGrows (vote_in_new_term st env n req now) (set_state n follower) req.term
        (λ m. refl) (λ m. omega (arith, current_term-cast_vote m req now)),
  )

  module _ (config : Config) (monotonic : Bool) where
    reply-TermGrows :
        {R : Type 0} (term : ℕ) (f : R → Reply) (o : Outcome st.S lg.S R)
        → TermGrows term o
        → TermGrows term (reply st lg env config monotonic f o)
    unfolding reply
    reply-TermGrows term f (returned m r) h = h
    reply-TermGrows term f (panicked s l) h = tt

    process_command-TermGrows :
        (now : ℕ) (n : Node st.S lg.S) (command : Command)
        → TermGrows n.current_term (process_command st lg env config monotonic now n command)
    unfolding process_command timeout_now set_state
    process_command-TermGrows now n (append_entries_asked a) =
        reply-TermGrows n.current_term _ _
          (append_entries-TermGrows config.max_append_entries now n a)
    process_command-TermGrows now n (request_vote_asked req) =
        reply-TermGrows n.current_term _ _ (request_vote-TermGrows n req now)
    process_command-TermGrows now n (install_snapshot_asked req does) =
        reply-TermGrows n.current_term _ _
          (install_snapshot-TermGrows config.trailing_logs monotonic now n req does)
    process_command-TermGrows now n (request_pre_vote_asked req) = omega arith
    process_command-TermGrows now n (timeout_now_asked header) = omega arith
    process_command-TermGrows now n (unexpected header) = omega arith

    -- Whatever RPC a server is sent, if it goes on after it then in the same term or in a later one.
    pub process_rpc-TermGrows :
        (now : ℕ) (n : Node st.S lg.S) (command : Command) {m : Node st.S lg.S} {r : Reply}
        → process_rpc st lg env config monotonic now n command ≡ returned m r
        → n.current_term ≤ m.current_term
    unfolding process_rpc
    process_rpc-TermGrows now n command e =
        subst (TermGrows n.current_term) e
          (elim (Bool-cases (check_rpc_header config (header_of command))) [
            | inl ok ↦ rw ok (process_command-TermGrows now n command)
            | inr bad ↦ rw bad (omega arith)
          ])

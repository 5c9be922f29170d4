-- ===== src/Append/Unvoting.antt =====
-- Beyond the change of the term at its beginning, appendEntries of raft.go touches neither the term nor
-- the stable store.
use perf_raft.Prelude.{
  ℕ, ◌≡◌, Bool, true, false, not, none, List, [], ◌∷◌, arith, refl, sym, ap, subst, Bool-cases, inl,
  inr, if◌then◌else◌, ◌≤◌, ◌&&◌, ◌||◌, ltb,
}
use perf_raft.LogStore.{Log, LogStore, StableStore}
use perf_raft.Node.{
  Node, Env, Outcome, returned, panicked, set_latest_configuration, set_committed_configuration,
  set_last_log, follower, is_follower, set_state, set_current_term, set_leader, set_last_contact,
}
use perf_raft.Process.{Step, next, stop, die, process_configuration_log_entry}
use perf_raft.Process.Unvoting.{
  SameVote, StepSame, StepSame-bind, StepSame-trans, process_configuration_log_entry-StepSame,
  process_logs-SameVote,
}
use perf_raft.Append.{
  AppendEntriesRequest, AppendEntriesResponse, AppendReply, Scan, to_store, gave_up, cut_suffix,
  scan_entries, adopt_configurations, store_entries, take_entries, commit_to, finish,
  commit_entries, after_entries, append_in_term, append_response, append_in_new_term,
  append_entries, has_previous,
}
use perf_raft.Vote.{is_empty}

abbrev ScanSame : {St Lg : Type 0} → Node St Lg → Scan St Lg → Type 0
ScanSame n (to_store m es) = SameVote n m
ScanSame n (gave_up m) = SameVote n m

-- The vote on disk after an outcome: that of a server that runs, or the store that is left.
abbrev pub OutcomeSame : {St Lg R : Type 0} → Node St Lg → Outcome St Lg R → Type 0
OutcomeSame n (returned m r) = SameVote n m
OutcomeSame n (panicked s l) = s ≡ n.stable

module _ (st : StableStore) (lg : LogStore) where
  cut_suffix-ScanSame :
      (n : Node st.S lg.S) (last : ℕ) (e : Log) (es : List Log)
      → ScanSame n (cut_suffix st lg n last e es)
  unfolding cut_suffix set_latest_configuration
  cut_suffix-ScanSame n last e es = ground arith

  scan_entries-ScanSame :
      (n : Node st.S lg.S) (last : ℕ) (es : List Log) → ScanSame n (scan_entries st lg n last es)
  unfolding scan_entries
  scan_entries-ScanSame n last [] = (refl, refl)
  scan_entries-ScanSame n last (e ∷ es) =
      ground (arith, scan_entries-ScanSame n last es, cut_suffix-ScanSame n last e es)

  module _ (env : Env) where
    adopt_configurations-StepSame :
        (n : Node st.S lg.S) (es : List Log) → StepSame n (adopt_configurations st lg env n es)
    unfolding adopt_configurations
    adopt_configurations-StepSame n [] = (refl, refl)
    adopt_configurations-StepSame n (e ∷ es) =
        StepSame-bind n (process_configuration_log_entry env n e) _
          (process_configuration_log_entry-StepSame env n e)
          (λ m. adopt_configurations-StepSame m es)

    store_entries-StepSame :
        (n : Node st.S lg.S) (r : Scan st.S lg.S)
        → ScanSame n r
        → StepSame n (store_entries st lg env r)
    unfolding store_entries set_last_log
    store_entries-StepSame n (gave_up m) s = s
    store_entries-StepSame n (to_store m []) s = s
    store_entries-StepSame n (to_store m (e ∷ es)) s =
        let k = record m { logs = (lg.store_logs m.logs (e ∷ es)).1 } in
        elim (Bool-cases (lg.store_logs m.logs (e ∷ es)).0) [
          | inr b ↦ rw b s
          | inl b ↦ rw b (
              StepSame-trans n k _ s (
                StepSame-bind k (adopt_configurations st lg env k (e ∷ es)) _
                  (adopt_configurations-StepSame k (e ∷ es)) (λ j. (refl, refl))))
        ]

    take_entries-StepSame :
        (n : Node st.S lg.S) (a : AppendEntriesRequest) → StepSame n (take_entries st lg env n a)
    unfolding take_entries
    take_entries-StepSame n a = elim (Bool-cases (is_empty a.entries)) [
      | inl e ↦ rw e (refl, refl)
      | inr e ↦
          rw e (store_entries-StepSame n _ (scan_entries-ScanSame n n.last_log_index a.entries))
    ]

    module _ (max_append_entries now : ℕ) where
      commit_to-SameVote :
          (n : Node st.S lg.S) (i : ℕ) → SameVote n (commit_to st lg env max_append_entries now n i)
      unfolding commit_to set_committed_configuration
      commit_to-SameVote n i = ground arith

      commit_entries-OutcomeSame :
          (resp : AppendEntriesResponse) (a : AppendEntriesRequest) (n : Node st.S lg.S)
          → OutcomeSame n (commit_entries st lg env max_append_entries now resp a n)
      unfolding commit_entries finish set_last_contact
      commit_entries-OutcomeSame resp a n =
          let m = commit_to st lg env max_append_entries now n a.leader_commit_index in
          ground (
            arith,
            commit_to-SameVote n a.leader_commit_index,
            process_logs-SameVote lg env max_append_entries (λ (i : ℕ). none) m m.commit_index,
          )

      after_entries-OutcomeSame :
          (resp : AppendEntriesResponse) (a : AppendEntriesRequest) (n : Node st.S lg.S)
          (r : Step st.S lg.S)
          → StepSame n r
          → OutcomeSame n (after_entries st lg env max_append_entries now resp a r)
      unfolding after_entries
      after_entries-OutcomeSame resp a n (next m) s =
          ground (arith, commit_entries-OutcomeSame resp a m)
      after_entries-OutcomeSame resp a n (stop m e) s = s
      after_entries-OutcomeSame resp a n (die m) s = s.0

      append_in_term-OutcomeSame :
          (resp : AppendEntriesResponse) (a : AppendEntriesRequest) (n : Node st.S lg.S)
          → OutcomeSame n (append_in_term st lg env max_append_entries now resp a n)
      unfolding append_in_term set_leader
      append_in_term-OutcomeSame resp a n =
          let addr = if is_empty a.header.addr then a.leader else a.header.addr in
          let m = set_leader n (env.decode_peer addr) a.header.id in
          elim (Bool-cases (has_previous st lg m a)) [
            | inl e ↦ rw e (
                relead m _ (
                  after_entries-OutcomeSame _ a m (take_entries st lg env m a)
                    (take_entries-StepSame m a)))
            | inr e ↦ rw e (refl, refl)
          ]
        where
          relead :
              (m : Node st.S lg.S) (o : Outcome st.S lg.S AppendReply)
              → OutcomeSame m o
              → OutcomeSame (record n { stable = m.stable; current_term = m.current_term }) o
          relead m (returned k r) h = h
          relead m (panicked s l) h = h

      -- Either the request leaves the term alone, or it is not behind and its term is written first;
      -- what follows keeps term and votes.
      pub append_entries_cases {ℓ} :
          (P : Outcome st.S lg.S AppendReply → Type ℓ) (n : Node st.S lg.S)
          (a : AppendEntriesRequest)
          → ((o : Outcome st.S lg.S AppendReply) → OutcomeSame n o → P o)
          → (n.current_term ≤ a.term
              → (((set_current_term st (set_state n follower) a.term).0 ≡ false)
                  → P (
                      panicked
                        (set_current_term st (set_state n follower) a.term).1.stable
                        (set_current_term st (set_state n follower) a.term).1.logs))
                × (((set_current_term st (set_state n follower) a.term).0 ≡ true)
                    → (o : Outcome st.S lg.S AppendReply)
                    → OutcomeSame (set_current_term st (set_state n follower) a.term).1 o
                    → P o))
          → P (append_entries st lg env max_append_entries now n a)
      unfolding append_entries append_in_new_term
      append_entries_cases P n a same raised = elim (Bool-cases (ltb a.term n.current_term)) [
        | inl stale ↦ rw stale (same _ (refl, refl))
        | inr fresh ↦
            rw fresh
              (elim (Bool-cases (
                ltb n.current_term a.term
                || not (is_follower n.state) && not n.candidate_from_leadership_transfer)) [
                  | inl b ↦ rw b (
                      new_term (set_current_term st (set_state n follower) a.term) refl
                        (ground arith))
                  | inr b ↦ rw b (same _ (append_in_term-OutcomeSame _ a n))
                ])
      ]
        where
          new_term :
              (r : Bool × Node st.S lg.S)
              → set_current_term st (set_state n follower) a.term ≡ r
              → n.current_term ≤ a.term
              → P (
                  append_in_new_term st lg env max_append_entries now
                    (append_response st lg env n n.current_term false false)
                    a
                    r)
          new_term (true, m) e le =
              (raised le).1 (ap (λ (r : Bool × Node st.S lg.S). r.0) e)
                (append_in_term st lg env max_append_entries now
                  (record (append_response st lg env n n.current_term false false) {
                    term = a.term;
                  })
                  a m)
                (subst
                  (λ k. OutcomeSame k (
                    append_in_term st lg env max_append_entries now
                      (record (append_response st lg env n n.current_term false false) {
                        term = a.term;
                      })
                      a m))
                  (sym (ap (λ (r : Bool × Node st.S lg.S). r.1) e))
                  (append_in_term-OutcomeSame _ a m))
          new_term (false, m) e le =
              subst (λ k. P (panicked k.stable k.logs)) (ap (λ (r : Bool × Node st.S lg.S). r.1) e)
                ((raised le).0 (ap (λ (r : Bool × Node st.S lg.S). r.0) e))

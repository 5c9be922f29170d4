-- ===== src/Leading/Serving/Pending.antt =====
-- leaderLoop of raft.go with a change of the configuration that is outstanding.
use perf_raft.Prelude.{
  ℕ, ◌≤◌, ◌<◌, ◌≡◌, ◌||◌, String, Bool, Option, none, some, List, [], ◌∷◌, subst, refl, sym, arith,
}
use perf_raft.Commitment.{match, get_commit_index}
use perf_raft.Configuration.{ConfigurationChangeRequest}
use perf_raft.LogStore.{Log, LogStore, StableStore}
use perf_raft.Node.{Env, Configurations, get_last_index, set_state}
use perf_raft.Process.{Sent}
use perf_raft.Process.Untouched.{process_logs-ProcessedLogs}
use perf_raft.Snapshot.UserRestore.{restore_user_snapshot}
use perf_raft.Leader.{Leader, append_configuration_entry, configuration_change_if_stable}
use perf_raft.Leader.Change.{configurations-dispatch_logs, append_configuration_entry-pending}
use perf_raft.Leading.{
  in_group, last_index_of, take_ready, Committed, raise_commit, removes_us, applied, apply_ready,
  leave, take_commits,
}
use perf_raft.Leading.Serving.{
  Call, apply, verify, user_restore, transfer, configurations, change, Answer, not_taken, Serving,
  serve, serve_apply, serve_restored, serve_transfer, serve_change, hand_over, gather,
}

-- What the leader's loop goes through: a call of a client, a voter that has stored the log up to an index,
-- or the commit branch.
pub data Event : Type 0 where
  is_called : Call → Event
  hears_of : String → ℕ → Event
  commits : Event

abbrev pub NeverCommits : List Event → Type 0
NeverCommits [] = Unit
NeverCommits (commits ∷ es) = ⊥
NeverCommits (is_called c ∷ es) = NeverCommits es
NeverCommits (hears_of id i ∷ es) = NeverCommits es

module _ (st : StableStore) (lg : LogStore) (env : Env) (max_append_entries : ℕ)
    (monotonic shutdown_on_remove : Bool) (now : ℕ) where
  abbrev after_call :
      Serving st.S lg.S → Option (Serving st.S lg.S × Answer) → Option (Serving st.S lg.S)
  after_call s none = none
  after_call s (some (t, a)) = some t

  abbrev after_commits :
      Serving st.S lg.S → Option (Committed st.S lg.S) → Option (Serving st.S lg.S)
  after_commits s none = none
  after_commits s (some c) = some (record {
    leader = c.after;
    transferring = s.transferring;
    stepping_down =
        s.stepping_down || removes_us st lg env max_append_entries shutdown_on_remove s.leader;
  })

  -- A call as the branches of the loop answer it, a report of a replication goroutine to the commitment
  -- that it shares with the leader, or the commit branch; `none` is a panic.
  unfoldable pub after_event : Serving st.S lg.S → Event → Option (Serving st.S lg.S)
  after_event s (is_called c) = after_call s (serve st lg env max_append_entries monotonic now s c)
  after_event s (hears_of id i) =
      some (record s { leader = record s.leader { commitment = match s.leader.commitment id i } })
  after_event s commits =
      after_commits s
        (take_commits st lg env max_append_entries shutdown_on_remove s.stepping_down s.leader)

  -- Every time that the commit branch is taken, the commit index is below this one.
  abbrev pub BelowAt : ℕ → Serving st.S lg.S → Event → Type 0
  BelowAt i s commits = get_commit_index s.leader.commitment < i
  BelowAt i s _ = Unit

  abbrev pub StaysBelow : ℕ → List Event → Option (Serving st.S lg.S) → Type 0
  StaysBelow i es none = Unit
  StaysBelow i [] (some s) = Unit
  StaysBelow i (e ∷ es) (some s) = BelowAt i s e × StaysBelow i es (after_event s e)

  -- Without the commit branch there is nothing to stay below.
  pub NeverCommits-StaysBelow :
      (i : ℕ) (es : List Event) (o : Option (Serving st.S lg.S))
      → NeverCommits es
      → StaysBelow i es o
  NeverCommits-StaysBelow i [] none h = tt
  NeverCommits-StaysBelow i [] (some s) h = tt
  NeverCommits-StaysBelow i (e ∷ es) none h = tt
  NeverCommits-StaysBelow i (is_called c ∷ es) (some s) h =
      (tt, NeverCommits-StaysBelow i es (after_event s (is_called c)) h)
  NeverCommits-StaysBelow i (hears_of id j ∷ es) (some s) h =
      (tt, NeverCommits-StaysBelow i es (after_event s (hears_of id j)) h)
  NeverCommits-StaysBelow i (commits ∷ es) (some s) h = absurd h

  -- No change of the configuration is taken, and none happens.
  abbrev IsTurnedAway : Serving st.S lg.S → Event → Type 0
  IsTurnedAway s (is_called (change request)) =
      serve st lg env max_append_entries monotonic now s (change request) ≡ some (s, not_taken)
  IsTurnedAway s _ = Unit

  abbrev pub NoneTaken : Configurations → List Event → Option (Serving st.S lg.S) → Type 0
  NoneTaken k es none = Unit
  NoneTaken k [] (some s) = s.leader.node.configurations ≡ k
  NoneTaken k (e ∷ es) (some s) =
      (s.leader.node.configurations ≡ k) × IsTurnedAway s e × NoneTaken k es (after_event s e)

  abbrev Keeps : Configurations → Option (Serving st.S lg.S) → Type 0
  Keeps k none = Unit
  Keeps k (some s) = s.leader.node.configurations ≡ k

  -- Neither a client nor the commit branch changes the configurations.
  serve-Keeps :
      (s : Serving st.S lg.S) (c : Call)
      → s.leader.node.configurations.committed_index < s.leader.node.configurations.latest_index
      → Keeps s.leader.node.configurations
          (after_call s (serve st lg env max_append_entries monotonic now s c))
  unfolding serve serve_apply serve_change serve_restored serve_transfer hand_over
      restore_user_snapshot configuration_change_if_stable
  serve-Keeps s verify h = refl
  serve-Keeps s configurations h = ground arith
  serve-Keeps s (transfer target) h = ground arith
  serve-Keeps s (apply l waiting) h =
      let ready = gather max_append_entries waiting in
      ground (arith, configurations-dispatch_logs st lg env s.leader now (l ∷ ready.0))
  serve-Keeps s (change request) h = ground (arith, h)
  serve-Keeps s (user_restore meta does) h = ground (arith, h)

  abbrev KeepsReady : Configurations → Option (Leader st.S lg.S × Sent) → Type 0
  KeepsReady k none = Unit
  KeepsReady k (some (l, sent)) = l.node.configurations ≡ k

  apply_ready-Keeps :
      (m : Leader st.S lg.S) (r : List Log × List Log)
      → KeepsReady m.node.configurations
          (apply_ready st lg env max_append_entries shutdown_on_remove m r)
  unfolding apply_ready applied
  apply_ready-Keeps m ([], rest) = refl
  apply_ready-Keeps m (e ∷ es, rest) = ground (
    arith,
    process_logs-ProcessedLogs lg env max_append_entries (in_group (e ∷ es)) m.node
        (last_index_of e.index es),
  )

  leave-Keeps :
      (s : Serving st.S lg.S) (k : Configurations) (b : Bool) (o : Option (Leader st.S lg.S × Sent))
      → KeepsReady k o
      → Keeps k (after_commits s (leave st lg env max_append_entries shutdown_on_remove b o))
  unfolding leave set_state
  leave-Keeps s k b none h = tt
  leave-Keeps s k b (some (l, sent)) h = ground (arith, h)

  raise_commit-configurations :
      (l : Leader st.S lg.S)
      → get_commit_index l.commitment < l.node.configurations.latest_index
      → (raise_commit st lg env max_append_entries shutdown_on_remove l).node.configurations
        ≡ l.node.configurations
  unfolding raise_commit
  raise_commit-configurations l low = ground (arith, low)

  take_commits-Keeps :
      (s : Serving st.S lg.S)
      → get_commit_index s.leader.commitment < s.leader.node.configurations.latest_index
      → Keeps s.leader.node.configurations (
          after_commits s
            (take_commits st lg env max_append_entries shutdown_on_remove s.stepping_down s.leader))
  unfolding take_commits
  take_commits-Keeps s low =
      let m = raise_commit st lg env max_append_entries shutdown_on_remove s.leader in
      let r = take_ready m.node.commit_index m.inflight in
      leave-Keeps s s.leader.node.configurations _ _ (
        subst (λ k. KeepsReady k (apply_ready st lg env max_append_entries shutdown_on_remove m r))
          (raise_commit-configurations s.leader low) (apply_ready-Keeps m r))

  after_event-Keeps :
      (s : Serving st.S lg.S) (e : Event)
      → s.leader.node.configurations.committed_index < s.leader.node.configurations.latest_index
      → BelowAt s.leader.node.configurations.latest_index s e
      → Keeps s.leader.node.configurations (after_event s e)
  unfolding after_event
  after_event-Keeps s (is_called c) h below = serve-Keeps s c h
  after_event-Keeps s (hears_of id i) h below = refl
  after_event-Keeps s commits h below = take_commits-Keeps s below

  IsTurnedAway-outstanding :
      (s : Serving st.S lg.S) (e : Event)
      → s.leader.node.configurations.committed_index < s.leader.node.configurations.latest_index
      → IsTurnedAway s e
  unfolding serve configuration_change_if_stable
  IsTurnedAway-outstanding s (is_called (change request)) h = ground (arith, h)
  IsTurnedAway-outstanding s (is_called verify) h = tt
  IsTurnedAway-outstanding s (is_called configurations) h = tt
  IsTurnedAway-outstanding s (is_called (transfer target)) h = tt
  IsTurnedAway-outstanding s (is_called (apply l waiting)) h = tt
  IsTurnedAway-outstanding s (is_called (user_restore meta does)) h = tt
  IsTurnedAway-outstanding s (hears_of id i) h = tt
  IsTurnedAway-outstanding s commits h = tt

  outstanding-NoneTaken :
      (k : Configurations) (es : List Event) (o : Option (Serving st.S lg.S))
      → k.committed_index < k.latest_index
      → Keeps k o
      → StaysBelow k.latest_index es o
      → NoneTaken k es o
  outstanding-NoneTaken k es none h same below = tt
  outstanding-NoneTaken k [] (some s) h same below = same
  outstanding-NoneTaken k (e ∷ es) (some s) h same below =
      let outstanding =
        subst (λ (j : Configurations). j.committed_index < j.latest_index) (sym same) h in
      let below_now =
        subst (λ (j : Configurations). BelowAt j.latest_index s e) (sym same) below.0 in
      let kept =
        subst (λ j. Keeps j (after_event s e)) same (after_event-Keeps s e outstanding below_now) in
      (
        same,
        IsTurnedAway-outstanding s e outstanding,
        outstanding-NoneTaken k es (after_event s e) h kept below.1,
      )

  -- After a leader has accepted a change of the configuration, whatever its clients call, whichever voters
  -- store entries and however often it takes its commit branch: as long as the commit index is below the
  -- index of that change whenever the branch is taken, it takes no other change, its configurations stay
  -- as the accepted change has left them, and the latest one is not the committed one. The committed
  -- configuration stands in the log before the change.
  pub append_configuration_entry-NoneTaken :
      (s : Serving st.S lg.S) (request : ConfigurationChangeRequest) (es : List Event)
      → s.leader.node.configurations.committed_index ≤ get_last_index s.leader.node
      → (append_configuration_entry st lg env s.leader now request).1 ≡ none
      → let m = (append_configuration_entry st lg env s.leader now request).0 in
        let k = m.node.configurations in
        let after = some (record s { leader = m }) in
        StaysBelow k.latest_index es after
        → (k.committed_index < k.latest_index) × NoneTaken k es after
  append_configuration_entry-NoneTaken s request es le accepted below =
      let h = append_configuration_entry-pending st lg env s.leader now request le accepted in
      let m = (append_configuration_entry st lg env s.leader now request).0 in
      (
        h,
        outstanding-NoneTaken m.node.configurations es (some (record s { leader = m })) h refl
            below,
      )

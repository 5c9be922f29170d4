-- ===== src/Leading/Commits.antt =====
-- The commit branch of leaderLoop of raft.go: which entries leave the queue.
use perf_raft.Prelude.{
  ℕ, ◌<◌, ◌≤◌, ◌≡◌, ◌⊎◌, inl, inr, Bool, true, false, not, ◌&&◌, ◌||◌, Option, none, some, List, [],
  ◌∷◌, ◌++◌, ltb, if◌then◌else◌, arith, refl, sym, ap, subst, ◌∙◌, Bool-cases, Option-cases,
}
use perf_raft.Commitment.{get_commit_index}
use perf_raft.Configuration.{has_vote}
use perf_raft.LogStore.{Log, LogStore, StableStore}
use perf_raft.Node.{Env, follower, set_state, set_committed_configuration}
use perf_raft.Process.{Sent}
use perf_raft.Process.Untouched.{process_logs-ProcessedLogs}
use perf_raft.Leader.{Leader}
use perf_raft.Leading.{
  in_group, take_ready, last_index_of, Committed, raise_commit, removes_us, applied, apply_ready,
  leave, take_commits,
}

abbrev pub AllAtMost : ℕ → List Log → Type 0
AllAtMost i [] = Unit
AllAtMost i (l ∷ ls) = (l.index ≤ i) × AllAtMost i ls

-- The queue goes on with an entry past the commit index, or is empty.
abbrev pub StartsBeyond : ℕ → List Log → Type 0
StartsBeyond i [] = Unit
StartsBeyond i (l ∷ ls) = i < l.index

take_ready_lem :
    (i : ℕ) (queue : List Log)
    → (queue ≡ (take_ready i queue).0 ++ (take_ready i queue).1)
      × AllAtMost i (take_ready i queue).0
      × StartsBeyond i (take_ready i queue).1
unfolding take_ready
take_ready_lem i [] = (refl, tt, tt)
take_ready_lem i (l ∷ ls) =
    let (a, b, c) = take_ready_lem i ls in
    elim (Bool-cases (ltb i l.index)) [
      | inl e ↦ rw e (refl, tt, ground arith)
      | inr e ↦ rw e (ap (λ q. l ∷ q) a, (ground arith, b), c)
    ]

module _ (st : StableStore) (lg : LogStore) (env : Env) (max_append_entries : ℕ)
    (shutdown_on_remove : Bool) where
  -- The latest configuration is committed now, which it was not before, and the server has no vote in it.
  abbrev pub LosesVote : Leader st.S lg.S → Type 0
  LosesVote l =
      (l.node.commit_index < l.node.configurations.latest_index)
      × (l.node.configurations.latest_index ≤ get_commit_index l.commitment)
      × (has_vote l.node.configurations.latest env.local_id ≡ false)

  removes_us_lem :
      (l : Leader st.S lg.S)
      → (removes_us st lg env max_append_entries shutdown_on_remove l ≡ true → LosesVote l)
        × (LosesVote l → removes_us st lg env max_append_entries shutdown_on_remove l ≡ true)
  unfolding removes_us
  removes_us_lem l = ground arith

  -- What the branch makes of the queue and of the leader.
  pub record Cleared (stepping_down : Bool) (l : Leader st.S lg.S) (c : Committed st.S lg.S)
      : Type 0 where
    pub ready : List Log
    pub queue : l.inflight ≡ ready ++ c.after.inflight
    pub all_committed : AllAtMost (get_commit_index l.commitment) ready
    pub rest_uncommitted : StartsBeyond (get_commit_index l.commitment) c.after.inflight
    pub commit_index : c.after.node.commit_index ≡ get_commit_index l.commitment
    pub leaves :
        (stepping_down ≡ true) ⊎ LosesVote l
        → (c.shuts_down ≡ shutdown_on_remove)
          × (shutdown_on_remove ≡ false → c.after.node.state ≡ follower)
    pub stays :
        stepping_down ≡ false
        → ¬ LosesVote l
        → (c.shuts_down ≡ false)
          × (c.after.node.state ≡ l.node.state)
          × (c.after.commitment ≡ l.commitment)

  -- Without the last step: the queue and the commit index.
  abbrev Applied : Leader st.S lg.S → List Log → ℕ → Option (Leader st.S lg.S × Sent) → Type 0
  Applied m rest i none = Unit
  Applied m rest i (some (k, sent)) =
      (k.inflight ≡ rest)
      × (k.node.commit_index ≡ i)
      × (k.commitment ≡ m.commitment)
      × (k.node.state ≡ m.node.state)

  apply_ready-Applied :
      (m : Leader st.S lg.S) (r : List Log × List Log)
      → Applied m r.1 m.node.commit_index
          (apply_ready st lg env max_append_entries shutdown_on_remove m r)
  unfolding apply_ready applied
  apply_ready-Applied m ([], rest) = (refl, refl, refl, refl)
  apply_ready-Applied m (e ∷ es, rest) =
      let k =
        process_logs-ProcessedLogs lg env max_append_entries (in_group (e ∷ es)) m.node
          (last_index_of e.index es) in
      ground (arith, k)

  raise_commit_lem :
      (l : Leader st.S lg.S)
      → let m = raise_commit st lg env max_append_entries shutdown_on_remove l in
        (m.node.commit_index ≡ get_commit_index l.commitment)
        × (m.inflight ≡ l.inflight)
        × (m.commitment ≡ l.commitment)
        × (m.node.state ≡ l.node.state)
  unfolding raise_commit set_committed_configuration
  raise_commit_lem l = ground arith

  -- What is left of a server that goes on, or steps down.
  abbrev left : Bool → Leader st.S lg.S → Leader st.S lg.S
  left b k =
      if b && not shutdown_on_remove then record k { node = set_state k.node follower } else k

  leave-Cleared :
      (stepping_down b : Bool) (l k : Leader st.S lg.S) (sent : Sent) (r : List Log × List Log)
      → l.inflight ≡ r.0 ++ r.1
      → AllAtMost (get_commit_index l.commitment) r.0
      → StartsBeyond (get_commit_index l.commitment) r.1
      → k.inflight ≡ r.1
      → k.node.commit_index ≡ get_commit_index l.commitment
      → k.commitment ≡ l.commitment
      → k.node.state ≡ l.node.state
      → ((stepping_down ≡ true) ⊎ LosesVote l → b ≡ true)
      → (stepping_down ≡ false → ¬ LosesVote l → b ≡ false)
      → Cleared stepping_down l
          (record { after = left b k; sent = sent; shuts_down = b && shutdown_on_remove })
  unfolding set_state
  leave-Cleared stepping_down b l k sent r split low high rest idx same state leaving staying =
      let kept : (left b k).inflight ≡ k.inflight = ground arith in
      record {
        ready = r.0;
        queue = split ∙ ap (λ q. r.0 ++ q) (sym rest ∙ sym kept);
        all_committed = low;
        rest_uncommitted =
            subst (StartsBeyond (get_commit_index l.commitment)) (sym rest ∙ sym kept) high;
        commit_index = ground (arith, idx);
        leaves = λ e. ground (arith, leaving e);
        stays = λ e d. ground (arith, staying e d, same, state);
      }

  -- When a commit is taken without a panic, the leader has the commit index of the voters; exactly the
  -- entries at the front of the queue up to it have left the queue, and the next one is past it. If the
  -- latest configuration is committed by this, which it was not before, and has no vote for the leader,
  -- or the leader was stepping down already, it shuts down if it is set up to do so, and becomes a
  -- follower if it is not; else it does not shut down, and its state and its commitment are what they
  -- were.
  pub take_commits-Cleared :
      (stepping_down : Bool) (l : Leader st.S lg.S) {c : Committed st.S lg.S}
      → take_commits st lg env max_append_entries shutdown_on_remove stepping_down l ≡ some c
      → Cleared stepping_down l c
  unfolding take_commits leave set_state
  take_commits-Cleared stepping_down l {c} h =
      let (idx, same, kept, state) = raise_commit_lem l in
      let (split, low, high) = take_ready_lem m.node.commit_index m.inflight in
      elim (Option-cases (apply_ready st lg env max_append_entries shutdown_on_remove m r)) [
        | inl e ↦ absurd (none≢some (sym (rw e at h)))
        | inr ((k, sent), e) ↦
            let (a, b, d, f) =
              subst (Applied m r.1 m.node.commit_index) e (apply_ready-Applied m r) in
            subst (Cleared stepping_down l) (some-inj (rw e at h)) (
              leave-Cleared stepping_down steps_down l k sent r (sym same ∙ split)
                (subst (λ i. AllAtMost i r.0) idx low) (subst (λ i. StartsBeyond i r.1) idx high) a
                (b ∙ idx) (d ∙ kept) (f ∙ state) leaving staying)
      ]
    where
      m : Leader st.S lg.S
      m = raise_commit st lg env max_append_entries shutdown_on_remove l

      r : List Log × List Log
      r = take_ready m.node.commit_index m.inflight

      steps_down : Bool
      steps_down = stepping_down || removes_us st lg env max_append_entries shutdown_on_remove l

      leaving : (stepping_down ≡ true) ⊎ LosesVote l → steps_down ≡ true
      leaving (inl e) = ground arith
      leaving (inr v) = ground (arith, (removes_us_lem l).1 v)

      staying : stepping_down ≡ false → ¬ LosesVote l → steps_down ≡ false
      staying e d =
          elim (Bool-cases (removes_us st lg env max_append_entries shutdown_on_remove l)) [
            | inl k ↦ absurd (d ((removes_us_lem l).0 k))
            | inr k ↦ ground (arith, k)
          ]

      some-inj : {a b : Committed st.S lg.S} → some a ≡ some b → a ≡ b
      some-inj e = cc

      none≢some : {a : Committed st.S lg.S} → some a ≡ none → ⊥
      none≢some e = cc

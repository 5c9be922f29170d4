-- ===== src/Leading/Serving/Guarded.antt =====
-- What a leader of raft.go lets its clients change.
use perf_raft.Prelude.{ℕ, ◌≡◌, ◌⊎◌, String, Bool, true, false, Option, none, some, subst, arith}
use perf_raft.LogStore.{LogStore, StableStore}
use perf_raft.Node.{Env}
use perf_raft.Snapshot.UserRestore.{with_sink, restore_user_snapshot}
use perf_raft.Leader.{configuration_change_if_stable}
use perf_raft.Leading.Serving.{
  Call, apply, verify, user_restore, transfer, configurations, change, Answer, Serving, serve,
  serve_apply, serve_restored, serve_transfer, serve_change, hand_over,
}

module _ (st : StableStore) (lg : LogStore) (env : Env) (max_append_entries : ℕ) (monotonic : Bool)
    (now : ℕ) where
  -- When a call may change what the leader holds.
  abbrev pub Allowed : Serving st.S lg.S → Call → Type 0
  Allowed s (apply l waiting) = s.stepping_down ≡ false
  Allowed s (change request) = configuration_change_if_stable st lg env s.leader ≡ true
  Allowed s (user_restore meta does) =
      s.leader.node.configurations.committed_index ≡ s.leader.node.configurations.latest_index
  Allowed s _ = ⊥

  abbrev GuardedBy : Serving st.S lg.S → Call → Option (Serving st.S lg.S × Answer) → Type 0
  GuardedBy s c none = s.transferring ≡ false
  GuardedBy s c (some (t, a)) =
      (t.stepping_down ≡ s.stepping_down)
      × ((t.leader ≡ s.leader) ⊎ ((s.transferring ≡ false) × Allowed s c))

  serve_transfer-GuardedBy :
      (s : Serving st.S lg.S) (target : Option (String × String))
      → GuardedBy s
          (transfer target)
          (some (serve_transfer st lg env max_append_entries monotonic now s target))
  unfolding serve_transfer hand_over
  serve_transfer-GuardedBy s (some (id, address)) = ground arith
  serve_transfer-GuardedBy s none = ground arith

  serve-GuardedBy :
      (s : Serving st.S lg.S) (c : Call)
      → GuardedBy s c (serve st lg env max_append_entries monotonic now s c)
  unfolding serve serve_apply serve_change serve_restored restore_user_snapshot with_sink
  serve-GuardedBy s verify = ground arith
  serve-GuardedBy s configurations = ground arith
  serve-GuardedBy s (transfer target) = ground (arith, serve_transfer-GuardedBy s target)
  serve-GuardedBy s (apply l waiting) = ground arith
  serve-GuardedBy s (change request) = ground arith
  serve-GuardedBy s (user_restore meta does) = ground arith

  -- Whatever a client calls, what the leader holds stays as it is, unless no transfer of leadership is in
  -- progress and the call is one that may change it: new entries while the leader does not step down, a
  -- configuration while the last one is committed and so is an entry of this term, or a snapshot while
  -- no configuration is outstanding. During a transfer no call makes the process panic.
  pub serve-Guarded :
      (s : Serving st.S lg.S) (c : Call)
      → ((t : Serving st.S lg.S) (a : Answer)
          → serve st lg env max_append_entries monotonic now s c ≡ some (t, a)
          → (t.leader ≡ s.leader) ⊎ ((s.transferring ≡ false) × Allowed s c))
        × (serve st lg env max_append_entries monotonic now s c ≡ none → s.transferring ≡ false)
  serve-Guarded s c = (
    λ t a e. (subst (GuardedBy s c) e (serve-GuardedBy s c)).1,
    λ e. subst (GuardedBy s c) e (serve-GuardedBy s c),
  )

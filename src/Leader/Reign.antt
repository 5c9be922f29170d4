-- ===== src/Leader/Reign.antt =====
-- runLeader of raft.go without its loop: how a reign begins and how it ends.
use perf_raft.Prelude.{
  ℕ, ◌+◌, ◌≡◌, String, Bool, true, false, ◌&&◌, none, some, List, [], ◌∷◌, if◌then◌else◌, str_eq,
  arith, refl, Bool-cases, inl, inr,
}
use perf_raft.LogStore.{Log, log_noop, LogStore, StableStore}
use perf_raft.Node.{Node, Env, get_last_index, set_leader, set_last_contact, set_last_log}
use perf_raft.Commitment.{new_commitment, match}
use perf_raft.Leader.{
  Leader, find_replica, number_logs, setup_leader_state, dispatch_logs, start_stop_replication,
  in_config,
}
use perf_raft.Leader.Peers.{next_of, start_stop_replication_lem}

module _ (st : StableStore) (lg : LogStore) (env : Env) where
  -- The entry that a leader begins with, before it is numbered.
  abbrev pub noop : Log
  noop = record {
    index = 0;
    term = 0;
    log_type = log_noop;
    payload = [];
    extensions = [];
    appended_at = 0;
  }

  -- From setupLeaderState to the loop; whether the entry was written.
  unfoldable pub begin_reign : Node st.S lg.S → ℕ → Bool × Leader st.S lg.S
  begin_reign n now =
      dispatch_logs st lg env
        (start_stop_replication st lg env (setup_leader_state st lg env n) now) now (noop ∷ [])

  -- The deferred function: the entries whose futures hear that leadership was lost, and the server. The
  -- pending verifications hear it too; what only the leader keeps is gone.
  pub end_reign : Leader st.S lg.S → ℕ → List Log × Node st.S lg.S
  unfolding set_last_contact set_leader
  end_reign l now =
      let n = set_last_contact l.node now in
      (
        l.inflight,
        if str_eq n.leader_addr env.local_addr && str_eq n.leader_id env.local_id
            then set_leader n "" ""
            else n,
      )

  -- How a leader starts out.
  pub record Begun (n : Node st.S lg.S) (now : ℕ) (l : Leader st.S lg.S) : Type 0 where
    pub last_log : l.node.last_log_index ≡ get_last_index n + 1
    pub last_term : l.node.last_log_term ≡ n.current_term
    pub inflight_is :
        l.inflight
        ≡ record noop { index = get_last_index n + 1; term = n.current_term; appended_at = now }
          ∷ []
    pub logs_are : l.node.logs ≡ (lg.store_logs n.logs l.inflight).1
    pub commits_from :
        l.commitment
        ≡ match
            (new_commitment false n.configurations.latest (get_last_index n + 1))
            env.local_id
            (get_last_index n + 1)
    pub sends_from :
        (id : String)
        → next_of (find_replica id l.replicas) ≡ (
            if in_config st lg env n.configurations.latest.servers id
            then some l.node.last_log_index
            else none)

  -- A leader that could write its first entry starts with one entry of no effect, in its term and after
  -- all others, waiting for a majority; nothing before that entry is committed by counting, and each
  -- other server of the latest configuration, and no one else, is sent the log from that entry on.
  pub begin_reign-Begun :
      (n : Node st.S lg.S) (now : ℕ)
      → (begin_reign n now).0 ≡ true
      → Begun n now (begin_reign n now).1
  unfolding begin_reign dispatch_logs start_stop_replication setup_leader_state number_logs
      set_last_log find_replica
  begin_reign-Begun n now h =
      let l = setup_leader_state st lg env n in
      let entries = number_logs (get_last_index n) n.current_term now (noop ∷ []) in
      elim (Bool-cases (lg.store_logs n.logs entries).0) [
        | inl e ↦ rw e (record {
          last_log = refl;
          last_term = refl;
          inflight_is = refl;
          logs_are = refl;
          commits_from = refl;
          sends_from = λ id. start_stop_replication_lem st lg env l now id;
        })
        | inr e ↦ absurd (ground (arith, h, e))
      ]

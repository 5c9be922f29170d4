-- ===== src/Start/Unvoting.antt =====
-- NewRaft of api.go restores the term from the stable store, and leaves the votes in it alone.
use perf_raft.Prelude.{
  ℕ, zero, suc, ◌+◌, ◌≡◌, Bool, true, false, Option, none, some, List, [], ◌∷◌, arith, refl, sym,
  ap, subst,
}
use perf_raft.Configuration.{Configuration}
use perf_raft.LogStore.{Log, Read, found, not_found, failed, LogStore, StableStore}
use perf_raft.Node.{
  Node, Env, follower, key_current_term, set_state, set_current_term, set_last_log,
  set_last_snapshot, set_latest_configuration, set_committed_configuration,
}
use perf_raft.Process.{Step, stop, die, process_configuration_log_entry}
use perf_raft.Process.Unvoting.{StepSame, StepSame-bind, process_configuration_log_entry-StepSame}
use perf_raft.Vote.{number_or_zero}
use perf_raft.Start.{
  SnapshotMeta, adopt_snapshot, adopt_peers_snapshot, restore_snapshots, restore_snapshot, scan_log,
  scan_step, start_in_term, start_from, new_raft, blank, last_entry,
}

module _ (st : StableStore) (lg : LogStore) (env : Env) where
  adopt_peers_snapshot-StepSame :
      (n : Node st.S lg.S) (snap : SnapshotMeta) (c : Option Configuration)
      → StepSame n (adopt_peers_snapshot st lg env n snap c)
  unfolding adopt_peers_snapshot adopt_snapshot set_latest_configuration set_committed_configuration
      set_last_snapshot
  adopt_peers_snapshot-StepSame n snap none = (refl, refl)
  adopt_peers_snapshot-StepSame n snap (some c) = (refl, refl)

  restore_snapshots-StepSame :
      (tried : Bool) (n : Node st.S lg.S) (snaps : List SnapshotMeta)
      → StepSame n (restore_snapshots st lg env tried n snaps)
  unfolding restore_snapshots adopt_snapshot set_latest_configuration set_committed_configuration
      set_last_snapshot
  restore_snapshots-StepSame tried n [] = ground arith
  restore_snapshots-StepSame tried n (snap ∷ rest) = ground (
    arith,
    restore_snapshots-StepSame true n rest,
    adopt_peers_snapshot-StepSame n snap (env.decode_peers snap.peers),
  )

  restore_snapshot-StepSame :
      (snaps : Option (List SnapshotMeta)) (n : Node st.S lg.S)
      → StepSame n (restore_snapshot st lg env snaps n)
  unfolding restore_snapshot
  restore_snapshot-StepSame none n = (refl, refl)
  restore_snapshot-StepSame (some snaps) n = restore_snapshots-StepSame false n snaps

  scan_step-StepSame :
      (n : Node st.S lg.S) (rest : Node st.S lg.S → Step st.S lg.S) (r : Read Log)
      → ((m : Node st.S lg.S) → StepSame m (rest m))
      → StepSame n (scan_step st lg env n rest r)
  unfolding scan_step
  scan_step-StepSame n rest (found l) keep =
      StepSame-bind n (process_configuration_log_entry env n l) rest
        (process_configuration_log_entry-StepSame env n l) keep
  scan_step-StepSame n rest not_found keep = (refl, refl)
  scan_step-StepSame n rest failed keep = (refl, refl)

  scan_log-StepSame :
      (rounds index : ℕ) (n : Node st.S lg.S) → StepSame n (scan_log st lg env rounds index n)
  unfolding scan_log
  scan_log-StepSame zero index n = (refl, refl)
  scan_log-StepSame (suc rounds) index n =
      scan_step-StepSame n (scan_log st lg env rounds (index + 1)) (lg.get_log n.logs index)
        (λ m. scan_log-StepSame rounds (index + 1) m)

  start_in_term-StepSame :
      (snaps : Option (List SnapshotMeta)) (last : ℕ × ℕ) (n : Node st.S lg.S)
      → StepSame n (start_in_term st lg env snaps last (true, n))
  unfolding start_in_term set_last_log
  start_in_term-StepSame snaps last n =
      StepSame-bind n (restore_snapshot st lg env snaps (set_last_log n last.0 last.1)) _
        (restore_snapshot-StepSame snaps (set_last_log n last.0 last.1))
        (λ m. scan_log-StepSame _ _ m)

  -- Either the server does not start, on the store as it was; or the term of the store is written back
  -- first, and what follows keeps it.
  pub new_raft_cases {ℓ} :
      (P : Step st.S lg.S → Type ℓ) (snaps : Option (List SnapshotMeta)) (s : st.S) (l : lg.S)
      → ((n : Node st.S lg.S) → n.stable ≡ s → P (stop n true))
      → ((n : Node st.S lg.S) (t : ℕ)
          → n.stable ≡ s
          → number_or_zero (st.get_uint64 s key_current_term) ≡ some t
          → (((set_current_term st n t).0 ≡ false) → P (die (set_current_term st n t).1))
            × (((set_current_term st n t).0 ≡ true)
                → (r : Step st.S lg.S) → StepSame (set_current_term st n t).1 r
                → P r))
      → P (new_raft st lg env snaps s l)
  unfolding new_raft start_from start_in_term blank set_state
  new_raft_cases P snaps s l refused started =
      go (number_or_zero (st.get_uint64 s key_current_term))
        (last_entry st lg env (lg.last_index l) l) refl
    where
      begun :
          (t : ℕ) (last : ℕ × ℕ) (r : Bool × Node st.S lg.S)
          → set_current_term st (set_state (blank st lg env s l) follower) t ≡ r
          → number_or_zero (st.get_uint64 s key_current_term) ≡ some t
          → P (start_in_term st lg env snaps last r)
      begun t last (true, m) e h =
          (started (set_state (blank st lg env s l) follower) t refl h).1
            (ap (λ (r : Bool × Node st.S lg.S). r.0) e)
            (start_in_term st lg env snaps last (true, m))
            (subst (λ k. StepSame k (start_in_term st lg env snaps last (true, m)))
              (sym (ap (λ (r : Bool × Node st.S lg.S). r.1) e))
              (start_in_term-StepSame snaps last m))
      begun t last (false, m) e h =
          subst (λ k. P (die k)) (ap (λ (r : Bool × Node st.S lg.S). r.1) e)
            ((started (set_state (blank st lg env s l) follower) t refl h).0
              (ap (λ (r : Bool × Node st.S lg.S). r.0) e))

      go :
          (t : Option ℕ) (last : Option (ℕ × ℕ))
          → number_or_zero (st.get_uint64 s key_current_term) ≡ t
          → P (start_from st lg env snaps s l t last)
      go (some t) (some last) e = begun t last _ refl e
      go (some t) none e = refused _ refl
      go none (some last) e = refused _ refl
      go none none e = refused _ refl

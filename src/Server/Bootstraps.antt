-- ===== src/Server/Bootstraps.antt =====
-- BootstrapCluster of api.go and liveBootstrap of raft.go: what they do to the account of votes on disk.
use perf_raft.Prelude.{
  ℕ, ◌≤◌, ◌≡◌, Bool, true, false, Option, none, some, List, [], refl, arith, Bool-cases,
  Option-cases, inl, inr,
}
use perf_raft.Configuration.{Configuration, check_configuration, has_vote}
use perf_raft.LogStore.{Log, Read, found, not_found, failed, LogStore, StableStore, StableStoreLaws}
use perf_raft.Node.{Node, Env, is_follower, set_last_log, key_current_term}
use perf_raft.Append.Unvoting.{OutcomeSame}
use perf_raft.Process.{Step, next, stop, die, process_configuration_log_entry}
use perf_raft.Process.Unvoting.{StepSame, process_configuration_log_entry-StepSame}
use perf_raft.Start.{SnapshotMeta}
use perf_raft.Vote.{number_or_zero}
use perf_raft.Vote.Casting.{Grant, Holds, Keeps}
use perf_raft.Vote.Ballots.{Survives}
use perf_raft.Bootstrap.{
  Bootstrapped, done, bad_options, bad_configuration, state_unknown, cant_bootstrap, term_not_saved,
  log_not_saved, state_of, has_existing_state, write_first, on_state, on_checked, bootstrap_cluster,
}
use perf_raft.Bootstrap.Live.{
  LiveResult, live_from, in_first_term, with_entry, once_bootstrapped, live_bootstrap, on_bootstrap,
}
use perf_raft.Server.Keeping.{set_current_term-Survives, set_uint64-Holds_ahead}

module _ (st : StableStore) (laws : StableStoreLaws st) (lg : LogStore) (env : Env) where
  -- The disk before the term is written has no term.
  no_term :
      (r : Read ℕ) (last : Option ℕ) (snaps : Option (List SnapshotMeta)) {d : ℕ}
      → number_or_zero r ≡ some d
      → state_of st lg env r last snaps ≡ some false
      → d ≡ 0
  unfolding state_of
  no_term (found t) last snaps h e = ground (arith, h, e)
  no_term not_found last snaps h e = ground (arith, h)
  no_term failed last snaps h e = absurd (ground (arith, e))

  -- After a success there was no term before.
  abbrev pub BootstrapHolds : ℕ → List Grant → Bootstrapped × st.S × lg.S → Type 0
  BootstrapHolds term grants r = Holds st r.1 term grants × (r.0 ≡ done → term ≤ 1)

  write_first-Holds :
      (configuration : Configuration) (s : st.S) (l : lg.S) (term : ℕ) (grants : List Grant)
      → Holds st s term grants
      → term ≤ 1
      → BootstrapHolds term grants (write_first st lg env configuration s l)
  unfolding write_first
  write_first-Holds configuration s l term grants v le =
      ground (arith, set_uint64-Holds_ahead st laws s term 1 grants v le)

  on_state-Holds :
      (snaps : Option (List SnapshotMeta)) (configuration : Configuration) (s : st.S) (l : lg.S)
      (term : ℕ) (grants : List Grant) (r : Option Bool)
      → has_existing_state st lg env snaps s l ≡ r
      → Holds st s term grants
      → BootstrapHolds term grants (on_state st lg env configuration s l r)
  unfolding on_state has_existing_state
  on_state-Holds snaps configuration s l term grants none e v = (v, λ h. absurd (ground (arith, h)))
  on_state-Holds snaps configuration s l term grants (some true) e v =
      (v, λ h. absurd (ground (arith, h)))
  on_state-Holds snaps configuration s l term grants (some false) e v =
      let zero_term = no_term (st.get_uint64 s key_current_term) _ snaps v.persisted.1 e in
      write_first-Holds configuration s l term grants v (omega (arith, v.persisted.2, zero_term))

  pub bootstrap_cluster-Holds :
      (options_ok : Bool) (snaps : Option (List SnapshotMeta)) (configuration : Configuration)
      (s : st.S) (l : lg.S) (term : ℕ) (grants : List Grant)
      → Holds st s term grants
      → BootstrapHolds term grants (bootstrap_cluster st lg env options_ok snaps configuration s l)
  unfolding bootstrap_cluster on_checked
  bootstrap_cluster-Holds options_ok snaps configuration s l term grants v =
      elim (Bool-cases options_ok) [
        | inr e ↦ rw e (v, λ h. absurd (ground (arith, h)))
        | inl e ↦ rw e (elim (Option-cases (check_configuration configuration)) [
          | inr (x, f) ↦ rw f (v, λ h. absurd (ground (arith, h)))
          | inl f ↦ rw f (on_state-Holds snaps configuration s l term grants _ refl v)
        ])
      ]

  live_from-OutcomeSame :
      (n : Node st.S lg.S) (r : Step st.S lg.S)
      → StepSame n r
      → OutcomeSame n (live_from st lg env r)
  unfolding live_from
  live_from-OutcomeSame n (next m) same = same
  live_from-OutcomeSame n (stop m e) same = same
  live_from-OutcomeSame n (die m) same = same.0

  in_first_term-OutcomeSame :
      (entry : Log) (n : Node st.S lg.S) → OutcomeSame n (in_first_term st lg env entry (true, n))
  unfolding in_first_term set_last_log
  in_first_term-OutcomeSame entry n =
      let m = set_last_log n entry.index entry.term in
      live_from-OutcomeSame n (process_configuration_log_entry env m entry)
        (process_configuration_log_entry-StepSame env m entry)

  with_entry-Survives :
      (n : Node st.S lg.S) (r : Read Log) (grants : List Grant)
      → Keeps st n grants
      → n.current_term ≤ 1
      → Survives st (λ (r : LiveResult). []) grants (with_entry st lg env n r)
  unfolding with_entry in_first_term
  with_entry-Survives n (found entry) grants v le =
      set_current_term-Survives st laws (in_first_term st lg env entry) n 1 grants (λ m. refl)
        (λ m. in_first_term-OutcomeSame entry m) v le
  with_entry-Survives n not_found grants v le = (n.current_term, v)
  with_entry-Survives n failed grants v le = (n.current_term, v)

  once_bootstrapped-Survives :
      (n : Node st.S lg.S) (r : Bootstrapped × st.S × lg.S) (grants : List Grant)
      → BootstrapHolds n.current_term grants r
      → Survives st (λ (r : LiveResult). []) grants (once_bootstrapped st lg env n r)
  unfolding once_bootstrapped
  once_bootstrapped-Survives n (done, s, l) grants v =
      with_entry-Survives (record n { stable = s; logs = l }) (lg.get_log l 1) grants v.0 (v.1 refl)
  once_bootstrapped-Survives n (bad_options, s, l) grants v = v.0
  once_bootstrapped-Survives n (bad_configuration x, s, l) grants v = v.0
  once_bootstrapped-Survives n (state_unknown, s, l) grants v = v.0
  once_bootstrapped-Survives n (cant_bootstrap, s, l) grants v = v.0
  once_bootstrapped-Survives n (term_not_saved, s, l) grants v = v.0
  once_bootstrapped-Survives n (log_not_saved, s, l) grants v = v.0

  pub on_bootstrap-Survives :
      (options_ok : Bool) (snaps : Option (List SnapshotMeta)) (configuration : Configuration)
      (n : Node st.S lg.S) (grants : List Grant)
      → Keeps st n grants
      → Survives st
          (λ (r : LiveResult). [])
          grants
          (on_bootstrap st lg env options_ok snaps configuration n)
  unfolding on_bootstrap live_bootstrap
  on_bootstrap-Survives options_ok snaps configuration n grants v =
      elim (Bool-cases (is_follower n.state)) [
        | inr e ↦ rw e v
        | inl e ↦ rw e (elim (Bool-cases (has_vote configuration env.local_id)) [
          | inr f ↦ rw f v
          | inl f ↦ rw f (
              once_bootstrapped-Survives n _ grants (
                bootstrap_cluster-Holds options_ok snaps configuration n.stable n.logs
                  n.current_term grants v))
        ])
      ]

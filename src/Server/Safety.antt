-- ===== src/Server/Safety.antt =====
-- A server of raft.go and api.go under a sequence of the events of Server: the account of its votes.
use perf_raft.Prelude.{
  ℕ, ◌≡◌, some, List, [], ◌∷◌, ◌++◌, arith, sym, subst, ◌∙◌, ltb, Bool-cases, inl, inr, refl,
}
use perf_raft.LogStore.{LogStore, StableStore, StableStoreLaws}
use perf_raft.Node.{
  Node, Env, Outcome, returned, panicked, set_state, set_current_term, follower, key_current_term,
  timeout_now,
}
use perf_raft.Process.{Step, next, stop, die}
use perf_raft.Vote.{number_or_zero, request_vote, elect_self}
use perf_raft.Vote.Casting.{Grant, Holds, Keeps, OnePerTerm}
use perf_raft.Vote.Ballots.{
  Survives, own, request_vote-Survives, elect_self-Survives, set_current_term-Keeps,
  set_current_term-Holds,
}
use perf_raft.Snapshot.{InstallReply, install_snapshot}
use perf_raft.Bootstrap.Live.{LiveResult, on_bootstrap}
use perf_raft.Server.Snapshots.{install_snapshot-Survives}
use perf_raft.Server.Bootstraps.{bootstrap_cluster-Holds, on_bootstrap-Survives}
use perf_raft.Server.Keeping.{
  AccountsStep, outcome-Survives, step-Accounts, set_current_term-Survives,
}
use perf_raft.Append.{AppendReply, append_entries}
use perf_raft.Append.Unvoting.{append_entries_cases}
use perf_raft.Start.{new_raft}
use perf_raft.Start.Unvoting.{new_raft_cases}
use perf_raft.Server.{
  Server, up, down, Event, vote_asked, pre_vote_asked, entries_sent, told_to_stand, stands, crashes,
  starts, settle, launch, handle_up, handle_down, handle, run, HasRoom, HasRoomAlong, vote_given,
  response_heard, snapshot_sent, bootstraps, bootstrapped, hear_term, termed,
}

-- The disk accounts for the votes, of a server that runs or that is down.
abbrev pub Accounts : (st : StableStore) {Lg : Type 0} → Server st.S Lg → List Grant → Type 0
Accounts st (up n) grants = Keeps st n grants
Accounts st (down s l) grants = (t : ℕ) × Holds st s t grants

some-inj : {a b : ℕ} → some a ≡ some b → a ≡ b
some-inj e = cc

module _ (st : StableStore) (laws : StableStoreLaws st) (lg : LogStore) (env : Env)
    (max_append_entries : ℕ) where
  append_entries-Survives :
      (n : Node st.S lg.S) (a : _) (now : ℕ) (grants : List Grant)
      → Keeps st n grants
      → Survives st
          (λ (r : AppendReply). [])
          grants
          (append_entries st lg env max_append_entries now n a)
  unfolding set_state
  append_entries-Survives n a now grants v =
      append_entries_cases st lg env max_append_entries now
        (Survives st (λ (r : AppendReply). []) grants) n a
        (λ o same. outcome-Survives st laws n o grants same v)
        (λ le. (
          λ w.
              set_current_term-Holds st laws (set_state n follower) n.current_term a.term grants v
                le w,
          λ w o same.
              outcome-Survives st laws (set_current_term st (set_state n follower) a.term).1 o
                grants same
                (set_current_term-Keeps st laws (set_state n follower) n.current_term a.term grants
                  v le w).0,
        ))

  new_raft-Accounts :
      (s : st.S) (l : lg.S) (snaps : _) (t : ℕ) (grants : List Grant)
      → Holds st s t grants
      → AccountsStep st (new_raft st lg env snaps s l) grants
  new_raft-Accounts s l snaps t grants v =
      new_raft_cases st lg env (λ r. AccountsStep st r grants) snaps s l
        (λ n same. (t, subst (λ d. Holds st d t grants) (sym same) v))
        (λ n u same h.
          let d = subst (λ d. Holds st d t grants) (sym same) v in
          let e = some-inj (sym v.persisted.1 ∙ h) in
          let le = v.persisted.2 in
          (
            λ w. set_current_term-Holds st laws n t u grants d (omega arith) w,
            λ w r kept.
                step-Accounts st laws (set_current_term st n u).1 r grants kept
                  (set_current_term-Keeps st laws n t u grants d (omega arith) w).0,
          ))

  step_launch-Accounts :
      (r : Step st.S lg.S) (grants : List Grant)
      → AccountsStep st r grants
      → Accounts st (launch st lg env max_append_entries r) grants
  unfolding launch
  step_launch-Accounts (next n) grants v = v
  step_launch-Accounts (stop n e) grants v = v
  step_launch-Accounts (die n) grants v = v

  settle-Accounts :
      {R : Type 0} (votes : R → List Grant) (o : Outcome st.S lg.S R) (grants : List Grant)
      → Survives st votes grants o
      → Accounts st
          (settle st lg env max_append_entries votes o).0
          ((settle st lg env max_append_entries votes o).1 ++ grants)
  unfolding settle
  settle-Accounts votes (returned n r) grants v = v
  settle-Accounts votes (panicked s l) grants v = v

  hear_term-Survives :
      (n : Node st.S lg.S) (term : ℕ) (grants : List Grant)
      → Keeps st n grants
      → Survives st (λ (t : ℕ). []) grants (hear_term st lg env max_append_entries n term)
  unfolding hear_term termed set_state
  hear_term-Survives n term grants v = elim (Bool-cases (ltb n.current_term term)) [
    | inr e ↦ rw e v
    | inl e ↦ rw e (
        set_current_term-Survives st laws (termed st lg env max_append_entries)
          (set_state n follower) term grants (λ m. refl) (λ m. (refl, refl)) v (ground arith))
  ]

  -- Every event keeps the account of the votes that were given, a crash or a failed write included.
  pub handle-Accounts :
      (v : Server st.S lg.S) (e : Event) (grants : List Grant)
      → HasRoom st lg env max_append_entries v e
      → Accounts st v grants
      → Accounts st
          (handle st lg env max_append_entries v e).0
          ((handle st lg env max_append_entries v e).1 ++ grants)
  unfolding handle handle_up handle_down settle bootstrapped timeout_now set_state
  handle-Accounts (up n) (vote_asked req now) grants room v =
      settle-Accounts (vote_given st lg env max_append_entries req) (request_vote st env n req now)
        grants (request_vote-Survives st laws env n req now grants v)
  handle-Accounts (up n) (pre_vote_asked req) grants room v = v
  handle-Accounts (up n) (entries_sent a now) grants room v =
      settle-Accounts (λ (r : AppendReply). [])
        (append_entries st lg env max_append_entries now n a) grants
        (append_entries-Survives n a now grants v)
  handle-Accounts (up n) told_to_stand grants room v = v
  handle-Accounts (up n) stands grants room v =
      settle-Accounts own (elect_self st env n) grants
        (elect_self-Survives st laws env n grants room v)
  handle-Accounts (up n) (response_heard term) grants room v =
      settle-Accounts (λ (t : ℕ). []) (hear_term st lg env max_append_entries n term) grants
        (hear_term-Survives n term grants v)
  handle-Accounts (up n) crashes grants room v = (n.current_term, v)
  handle-Accounts (up n) (starts snaps) grants room v = v
  handle-Accounts (up n) (snapshot_sent req does trailing_logs monotonic now) grants room v =
      settle-Accounts (λ (r : InstallReply). [])
        (install_snapshot st lg env trailing_logs monotonic now req does n) grants
        (install_snapshot-Survives st lg env trailing_logs monotonic now laws n req does grants v)
  handle-Accounts (up n) (bootstraps options_ok snaps configuration) grants room v =
      settle-Accounts (λ (r : LiveResult). [])
        (on_bootstrap st lg env options_ok snaps configuration n) grants
        (on_bootstrap-Survives st laws lg env options_ok snaps configuration n grants v)
  handle-Accounts (down s l) (starts snaps) grants room v =
      step_launch-Accounts (new_raft st lg env snaps s l) grants
        (new_raft-Accounts s l snaps v.0 grants v.1)
  handle-Accounts (down s l) (bootstraps options_ok snaps configuration) grants room v = (
    v.0,
    (bootstrap_cluster-Holds st laws lg env options_ok snaps configuration s l v.0 grants v.1).0,
  )
  handle-Accounts (down s l) (snapshot_sent req does trailing_logs monotonic now) grants room v = v
  handle-Accounts (down s l) (vote_asked req now) grants room v = v
  handle-Accounts (down s l) (pre_vote_asked req) grants room v = v
  handle-Accounts (down s l) (entries_sent a now) grants room v = v
  handle-Accounts (down s l) told_to_stand grants room v = v
  handle-Accounts (down s l) stands grants room v = v
  handle-Accounts (down s l) (response_heard term) grants room v = v
  handle-Accounts (down s l) crashes grants room v = v

  run-Accounts :
      (v : Server st.S lg.S) (es : List Event) (grants : List Grant)
      → HasRoomAlong st lg env max_append_entries v es
      → Accounts st v grants
      → Accounts st
          (run st lg env max_append_entries v grants es).0
          (run st lg env max_append_entries v grants es).1
  unfolding run HasRoomAlong
  run-Accounts v [] grants room a = a
  run-Accounts v (e ∷ es) grants room a =
      run-Accounts (handle st lg env max_append_entries v e).0 es
        ((handle st lg env max_append_entries v e).1 ++ grants) room.1
        (handle-Accounts v e grants room.0 a)

  pub Accounts-one :
      (v : Server st.S lg.S) (grants : List Grant) → Accounts st v grants → OnePerTerm grants
  Accounts-one (up n) grants a = a.one
  Accounts-one (down s l) grants a = a.1.one

  -- From any disk with a readable term, over any sequence of vote requests, pre-vote requests,
  -- appended entries, snapshots, calls to stand, elections that the server starts, responses of later
  -- terms, bootstraps of a running or a stopped server, crashes and restarts, with writes of the stable
  -- store that fail or are half done, and as long as there is a next term to stand in: the votes that the server gives away, its own included, never go to two candidates in
  -- one term.
  pub run-OnePerTerm :
      (s : st.S) (l : lg.S) (term : ℕ) (es : List Event)
      → number_or_zero (st.get_uint64 s key_current_term) ≡ some term
      → HasRoomAlong st lg env max_append_entries (down s l) es
      → OnePerTerm (run st lg env max_append_entries (down s l) [] es).1
  run-OnePerTerm s l term es h room =
      let a = run-Accounts (down s l) es [] room (
        term,
        record {
          persisted = (term, h, omega arith);
          one = λ t c d x y. absurd x;
          kept = λ t c x. absurd x;
        },
      ) in
      Accounts-one (run st lg env max_append_entries (down s l) [] es).0
        (run st lg env max_append_entries (down s l) [] es).1 a

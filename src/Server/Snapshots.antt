-- ===== src/Server/Snapshots.antt =====
-- Beyond the change of the term at its beginning, installSnapshot of raft.go touches neither the term nor
-- the stable store.
use perf_raft.Prelude.{
  ℕ, Bool, false, List, [], refl, arith, Bool-cases, Option-cases, inl, inr, ltb, str_eq,
  if◌then◌else◌,
}
use perf_raft.Configuration.{Configuration}
use perf_raft.LogStore.{LogStore, StableStore, StableStoreLaws}
use perf_raft.Node.{
  Node, Env, Outcome, returned, panicked, follower, set_state, set_leader, set_last_contact,
  set_last_snapshot, set_latest_configuration, set_committed_configuration,
}
use perf_raft.Append.Unvoting.{OutcomeSame}
use perf_raft.Process.Unvoting.{SameVote}
use perf_raft.Vote.Casting.{Grant, Keeps}
use perf_raft.Vote.Ballots.{Survives}
use perf_raft.Server.Keeping.{outcome-Survives, set_current_term-Survives}
use perf_raft.Replication.{InstallSnapshotRequest, InstallSnapshotResponse}
use perf_raft.Snapshot.{
  Installing, InstallReply, clear_logs, compact_logs, adopt_snapshot, install_copied,
  install_decoded, install_led, install_in_term, install_newer, install_snapshot,
}

module _ (st : StableStore) (lg : LogStore) (env : Env) (trailing_logs : ℕ) (monotonic : Bool)
    (now : ℕ) where
  adopt_snapshot-SameVote :
      (n : Node st.S lg.S) (req : InstallSnapshotRequest) (c : Configuration) (i : ℕ)
      → SameVote n
          (set_last_contact (adopt_snapshot st lg env trailing_logs monotonic now n req c i) now)
  unfolding adopt_snapshot clear_logs compact_logs set_last_snapshot set_latest_configuration
      set_committed_configuration set_last_contact
  adopt_snapshot-SameVote n req c i = elim (Bool-cases monotonic) [
    | inl e ↦ rw e (refl, refl)
    | inr e ↦ rw e (refl, refl)
  ]

  install_decoded-OutcomeSame :
      (resp : InstallSnapshotResponse) (req : InstallSnapshotRequest) (does : Installing)
      (n : Node st.S lg.S) (c : Configuration) (i : ℕ)
      → OutcomeSame n (install_decoded st lg env trailing_logs monotonic now resp req does n c i)
  unfolding install_decoded install_copied
  install_decoded-OutcomeSame resp req does n c i =
      ground (arith, adopt_snapshot-SameVote n req c i)

  install_led-OutcomeSame :
      (resp : InstallSnapshotResponse) (req : InstallSnapshotRequest) (does : Installing)
      (n : Node st.S lg.S)
      → OutcomeSame n (install_led st lg env trailing_logs monotonic now resp req does n)
  unfolding install_led
  install_led-OutcomeSame resp req does n = elim (Bool-cases (ltb 0 req.snapshot_version)) [
    | inl e ↦ rw e (elim (Option-cases (env.decode_configuration req.configuration)) [
      | inl d ↦ rw d refl
      | inr (c, d) ↦ rw d (install_decoded-OutcomeSame resp req does n c req.configuration_index)
    ])
    | inr e ↦ rw e (elim (Option-cases (env.decode_peers req.peers)) [
      | inl d ↦ rw d (refl, refl)
      | inr (c, d) ↦ rw d (install_decoded-OutcomeSame resp req does n c req.last_log_index)
    ])
  ]

  pub install_in_term-OutcomeSame :
      (resp : InstallSnapshotResponse) (req : InstallSnapshotRequest) (does : Installing)
      (n : Node st.S lg.S)
      → OutcomeSame n (install_in_term st lg env trailing_logs monotonic now resp req does n)
  unfolding install_in_term set_leader
  install_in_term-OutcomeSame resp req does n =
      let addr = if str_eq req.header.id "" then req.leader else req.header.addr in
      let m = set_leader n (env.decode_peer addr) req.header.id in
      relead m _ (install_led-OutcomeSame resp req does m)
    where
      relead :
          (m : Node st.S lg.S) (o : Outcome st.S lg.S InstallReply)
          → OutcomeSame m o
          → OutcomeSame (record n { stable = m.stable; current_term = m.current_term }) o
      relead m (returned k r) h = h
      relead m (panicked s l) h = h

  -- Either the request leaves the term alone, or it is of a later term, which is written first; what
  -- follows keeps term and votes.
  pub install_snapshot-Survives :
      (laws : StableStoreLaws st) (n : Node st.S lg.S) (req : InstallSnapshotRequest)
      (does : Installing) (grants : List Grant)
      → Keeps st n grants
      → Survives st
          (λ (r : InstallReply). [])
          grants
          (install_snapshot st lg env trailing_logs monotonic now req does n)
  unfolding install_snapshot install_newer set_state
  install_snapshot-Survives laws n req does grants v =
      let resp : InstallSnapshotResponse = record { term = n.current_term; success = false } in
      elim (Bool-cases (ltb 1 req.snapshot_version)) [
        | inl e ↦ rw e v
        | inr e ↦ rw e (elim (Bool-cases (ltb req.term n.current_term)) [
          | inl f ↦ rw f v
          | inr f ↦ rw f (elim (Bool-cases (ltb n.current_term req.term)) [
            | inl g ↦ rw g (
                set_current_term-Survives st laws
                  (install_newer st lg env trailing_logs monotonic now req does)
                  (set_state n follower) req.term grants (λ m. refl)
                  (λ m. install_in_term-OutcomeSame _ req does m) v (ground arith))
            | inr g ↦ rw g (
                outcome-Survives st laws n _ grants (install_in_term-OutcomeSame resp req does n) v)
          ])
        ])
      ]

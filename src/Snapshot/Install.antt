-- ===== src/Snapshot/Install.antt =====
-- installSnapshot of raft.go: a snapshot is adopted as a whole or not at all.
use mathlib.Core.Bool.{true≢false}
use perf_raft.Prelude.{
  ℕ, ◌+◌, ◌<◌, ◌≡◌, ◌⊎◌, some, arith, Bool, true, false, not, ◌||◌, ltb, ◌==◌, refl, sym, ap, ap₂,
  ◌∙◌, Bool-cases, Option-cases, inl, inr,
}
use perf_raft.Configuration.{Configuration}
use perf_raft.LogStore.{LogStore, LogStoreLaws, StableStore}
use perf_raft.Node.{
  Node, Env, Outcome, returned, panicked, follower, key_current_term, set_state, set_leader,
  set_last_contact, set_current_term, set_last_snapshot, set_latest_configuration,
  set_committed_configuration,
}
use perf_raft.Replication.{InstallSnapshotRequest, InstallSnapshotResponse}
use perf_raft.Snapshot.Compact.{compact_logs_with_trailing-kept}
use perf_raft.Snapshot.{
  compact_logs_with_trailing, compact_logs, clear_logs, adopt_snapshot, Installing, InstallReply,
  refused, install_copied, install_decoded, install_led, install_in_term, install_newer,
  install_snapshot,
}

module _ (st : StableStore) (lg : LogStore) (laws : LogStoreLaws lg) (env : Env) (trailing_logs : ℕ)
    (monotonic : Bool) (now : ℕ) where
  -- What a refused snapshot leaves alone.
  pub record IsKept (n m : Node st.S lg.S) : Type 0 where
    pub configurations : m.configurations ≡ n.configurations
    pub last_applied : m.last_applied ≡ n.last_applied
    pub last_snapshot_index : m.last_snapshot_index ≡ n.last_snapshot_index
    pub last_snapshot_term : m.last_snapshot_term ≡ n.last_snapshot_term
    pub last_log_index : m.last_log_index ≡ n.last_log_index
    pub logs : m.logs ≡ n.logs

  -- The configuration that the request carries, and its index: a snapshot of the first version has a list
  -- of peers only, which counts as the configuration at the snapshot's own index.
  abbrev pub Carries : InstallSnapshotRequest → Configuration → ℕ → Type 0
  Carries req c i =
      ((0 < req.snapshot_version)
        × (env.decode_configuration req.configuration ≡ some c)
        × (i ≡ req.configuration_index))
      ⊎ ((req.snapshot_version ≡ 0)
          × (env.decode_peers req.peers ≡ some c)
          × (i ≡ req.last_log_index))

  -- What an adopted snapshot leaves behind; the last log index stays what it was.
  pub record IsAdopted (req : InstallSnapshotRequest) (n m : Node st.S lg.S) : Type 0 where
    pub last_applied : m.last_applied ≡ req.last_log_index
    pub last_snapshot_index : m.last_snapshot_index ≡ req.last_log_index
    pub last_snapshot_term : m.last_snapshot_term ≡ req.last_log_term
    pub last_log_index : m.last_log_index ≡ n.last_log_index
    pub same_configuration : m.configurations.latest ≡ m.configurations.committed
    pub same_index : m.configurations.latest_index ≡ m.configurations.committed_index
    pub carried : Carries req m.configurations.latest m.configurations.latest_index
    pub newer_entries :
        monotonic ≡ false
        → (compact_logs_with_trailing lg n.logs req.last_log_index n.last_log_index trailing_logs).0
          ≡ true
        → (j : ℕ) → (req.last_log_index < j) ⊎ (n.last_log_index < j + trailing_logs)
        → lg.get_log m.logs j ≡ lg.get_log n.logs j

  abbrev pub AllOrNothing :
      InstallSnapshotRequest → Node st.S lg.S → Outcome st.S lg.S InstallReply → Type 0
  AllOrNothing req n (returned m r) =
      ((r.response.success ≡ true) → IsAdopted req n m)
      × ((r.response.success ≡ false) → IsKept n m)
  AllOrNothing req n (panicked s l) = l ≡ n.logs

  kept : (n : Node st.S lg.S) → IsKept n n
  kept n = record {
    configurations = refl;
    last_applied = refl;
    last_snapshot_index = refl;
    last_snapshot_term = refl;
    last_log_index = refl;
    logs = refl;
  }

  IsKept-as :
      (n m : Node st.S lg.S)
      → m.configurations ≡ n.configurations
      → m.last_applied ≡ n.last_applied
      → m.last_snapshot_index ≡ n.last_snapshot_index
      → m.last_snapshot_term ≡ n.last_snapshot_term
      → m.last_log_index ≡ n.last_log_index
      → m.logs ≡ n.logs
      → IsKept n m
  IsKept-as n m a b c d e f = record {
    configurations = a;
    last_applied = b;
    last_snapshot_index = c;
    last_snapshot_term = d;
    last_log_index = e;
    logs = f;
  }

  untouched :
      (req : InstallSnapshotRequest) (n : Node st.S lg.S) (resp : InstallSnapshotResponse)
      → resp.success ≡ false
      → ((resp.success ≡ true) → IsAdopted req n n) × ((resp.success ≡ false) → IsKept n n)
  untouched req n resp h = (λ k. absurd (true≢false (sym k ∙ h)), λ k. kept n)

  adopt_snapshot-IsAdopted :
      (req : InstallSnapshotRequest) (n : Node st.S lg.S) (c : Configuration) (i : ℕ)
      → Carries req c i
      → IsAdopted req n
          (set_last_contact (adopt_snapshot st lg env trailing_logs monotonic now n req c i) now)
  unfolding adopt_snapshot clear_logs compact_logs set_last_contact set_last_snapshot
      set_latest_configuration set_committed_configuration
  adopt_snapshot-IsAdopted req n c i from = elim (Bool-cases monotonic) [
    | inl e ↦ record {
      last_applied = rw e refl;
      last_snapshot_index = rw e refl;
      last_snapshot_term = rw e refl;
      last_log_index = rw e refl;
      same_configuration = rw e refl;
      same_index = rw e refl;
      carried = rw e from;
      newer_entries = λ off ok j after. absurd (true≢false (sym e ∙ off));
    }
    | inr e ↦ record {
      last_applied = rw e refl;
      last_snapshot_index = rw e refl;
      last_snapshot_term = rw e refl;
      last_log_index = rw e refl;
      same_configuration = rw e refl;
      same_index = rw e refl;
      carried = rw e from;
      newer_entries = λ off ok j after. rw e (
          compact_logs_with_trailing-kept lg laws n.logs req.last_log_index n.last_log_index
            trailing_logs j ok after);
    }
  ]

  install_copied-AllOrNothing :
      (resp : InstallSnapshotResponse) (req : InstallSnapshotRequest) (does : Installing)
      (n : Node st.S lg.S) (c : Configuration) (i : ℕ)
      → resp.success ≡ false
      → Carries req c i
      → AllOrNothing req n
          (install_copied st lg env trailing_logs monotonic now resp req does n c i)
  unfolding install_copied refused
  install_copied-AllOrNothing resp req does n c i h from =
      elim (Bool-cases (not does.closed || not does.restored)) [
        | inl e ↦ rw (e, AllOrNothing) (untouched req n resp h)
        | inr e ↦
            rw (e, AllOrNothing)
              (λ k. adopt_snapshot-IsAdopted req n c i from, λ k. absurd (true≢false k))
      ]

  install_decoded-AllOrNothing :
      (resp : InstallSnapshotResponse) (req : InstallSnapshotRequest) (does : Installing)
      (n : Node st.S lg.S) (c : Configuration) (i : ℕ)
      → resp.success ≡ false
      → Carries req c i
      → AllOrNothing req n
          (install_decoded st lg env trailing_logs monotonic now resp req does n c i)
  unfolding install_decoded refused
  install_decoded-AllOrNothing resp req does n c i h from =
      let same = untouched req n resp h in
      elim (Bool-cases does.created) [
        | inr e ↦ rw (e, AllOrNothing) same
        | inl e ↦ elim (Option-cases does.copied) [
          | inl d ↦ rw (e, AllOrNothing) (rw (d, AllOrNothing) same)
          | inr (size, d) ↦ elim (Bool-cases (size == req.size)) [
            | inr k ↦ rw (e, AllOrNothing) (rw (d, AllOrNothing) (rw (k, AllOrNothing) same))
            | inl k ↦
                rw (e, AllOrNothing)
                  (rw (d, AllOrNothing)
                    (rw (k, AllOrNothing) (install_copied-AllOrNothing resp req does n c i h from)))
          ]
        ]
      ]

  install_led-AllOrNothing :
      (resp : InstallSnapshotResponse) (req : InstallSnapshotRequest) (does : Installing)
      (n : Node st.S lg.S)
      → resp.success ≡ false
      → AllOrNothing req n (install_led st lg env trailing_logs monotonic now resp req does n)
  unfolding install_led refused
  install_led-AllOrNothing resp req does n h = elim (Bool-cases (ltb 0 req.snapshot_version)) [
    | inl e ↦ elim (Option-cases (env.decode_configuration req.configuration)) [
      | inl d ↦ rw (e, AllOrNothing) (rw (d, AllOrNothing) refl)
      | inr (c, d) ↦
          rw (e, AllOrNothing)
            (rw (d, AllOrNothing)
              (install_decoded-AllOrNothing resp req does n c _ h (inl (ground arith, d, refl))))
    ]
    | inr e ↦ elim (Option-cases (env.decode_peers req.peers)) [
      | inl d ↦ rw (e, AllOrNothing) (rw (d, AllOrNothing) (untouched req n resp h))
      | inr (c, d) ↦
          rw (e, AllOrNothing)
            (rw (d, AllOrNothing)
              (install_decoded-AllOrNothing resp req does n c _ h (inr (ground arith, d, refl))))
    ]
  ]

  -- What was kept so far makes no difference.
  AllOrNothing-after :
      (req : InstallSnapshotRequest) (n m : Node st.S lg.S) (o : Outcome st.S lg.S InstallReply)
      → IsKept n m
      → AllOrNothing req m o
      → AllOrNothing req n o
  AllOrNothing-after req n m (returned p r) k h = (
    λ t.
        let a = h.0 t in
        record {
          last_applied = a.last_applied;
          last_snapshot_index = a.last_snapshot_index;
          last_snapshot_term = a.last_snapshot_term;
          last_log_index = a.last_log_index ∙ k.last_log_index;
          same_configuration = a.same_configuration;
          same_index = a.same_index;
          carried = a.carried;
          newer_entries = λ off ok j after.
              a.newer_entries off
                (ap₂ (λ s i. (compact_logs_with_trailing lg s req.last_log_index i trailing_logs).0)
                    k.logs k.last_log_index
                  ∙ ok)
                j (ground (arith, after, k.last_log_index))
              ∙ ap (λ s. lg.get_log s j) k.logs;
        },
    λ f.
        let a = h.1 f in
        record {
          configurations = a.configurations ∙ k.configurations;
          last_applied = a.last_applied ∙ k.last_applied;
          last_snapshot_index = a.last_snapshot_index ∙ k.last_snapshot_index;
          last_snapshot_term = a.last_snapshot_term ∙ k.last_snapshot_term;
          last_log_index = a.last_log_index ∙ k.last_log_index;
          logs = a.logs ∙ k.logs;
        },
  )
  AllOrNothing-after req n m (panicked p l) k h = h ∙ k.logs

  install_in_term-AllOrNothing :
      (resp : InstallSnapshotResponse) (req : InstallSnapshotRequest) (does : Installing)
      (n : Node st.S lg.S)
      → resp.success ≡ false
      → AllOrNothing req n (install_in_term st lg env trailing_logs monotonic now resp req does n)
  unfolding install_in_term set_leader
  install_in_term-AllOrNothing resp req does n h =
      AllOrNothing-after req n _ _ (IsKept-as n _ refl refl refl refl refl refl)
        (install_led-AllOrNothing resp req does _ h)

  install_newer-AllOrNothing :
      (req : InstallSnapshotRequest) (does : Installing) (n : Node st.S lg.S)
      (r : Bool × Node st.S lg.S)
      → IsKept n r.1
      → AllOrNothing req n (install_newer st lg env trailing_logs monotonic now req does r)
  unfolding install_newer
  install_newer-AllOrNothing req does n (false, m) k = k.logs
  install_newer-AllOrNothing req does n (true, m) k =
      AllOrNothing-after req n m _ k (install_in_term-AllOrNothing _ req does m refl)

  set_current_term-IsKept :
      (n : Node st.S lg.S) (t : ℕ) → IsKept n (set_current_term st (set_state n follower) t).1
  unfolding set_current_term set_state
  set_current_term-IsKept n t = elim (Bool-cases (st.set_uint64 n.stable key_current_term t).0) [
    | inl e ↦ rw e (IsKept-as n _ refl refl refl refl refl refl)
    | inr e ↦ rw e (IsKept-as n _ refl refl refl refl refl refl)
  ]

  -- installSnapshot adopts a snapshot as a whole or not at all, over a log store that keeps the laws of
  -- reads after writes. After a success the last applied entry, the last snapshot and both configurations
  -- with their indexes are those of the request, and the last log index is what it was; if the log was
  -- compacted without an error, and not cleared for a store that allows no gap, every entry after the
  -- snapshot or among the trailing ones is read as before. After a refusal or an error none of these
  -- fields has changed, and the log is the same; the same holds for the log when the server dies in a
  -- panic.
  pub install_snapshot-AllOrNothing :
      (req : InstallSnapshotRequest) (does : Installing) (n : Node st.S lg.S)
      → AllOrNothing req n (install_snapshot st lg env trailing_logs monotonic now req does n)
  unfolding install_snapshot refused
  install_snapshot-AllOrNothing req does n = elim (Bool-cases (ltb 1 req.snapshot_version)) [
    | inl e ↦ rw (e, AllOrNothing) (λ k. absurd (true≢false (sym k)), λ k. kept n)
    | inr e ↦ elim (Bool-cases (ltb req.term n.current_term)) [
      | inl d ↦
          rw (e, AllOrNothing)
            (rw (d, AllOrNothing) (λ k. absurd (true≢false (sym k)), λ k. kept n))
      | inr d ↦ elim (Bool-cases (ltb n.current_term req.term)) [
        | inl k ↦
            rw (e, AllOrNothing)
              (rw (d, AllOrNothing)
                (rw (k, AllOrNothing)
                  (install_newer-AllOrNothing req does n _ (set_current_term-IsKept n req.term))))
        | inr k ↦
            rw (e, AllOrNothing)
              (rw (d, AllOrNothing)
                (rw (k, AllOrNothing) (install_in_term-AllOrNothing _ req does n refl)))
      ]
    ]
  ]

-- ===== src/Recover/Restart.antt =====
-- NewRaft of api.go on the stores that RecoverCluster left.
use perf_raft.Prelude.{
  ℕ, ◌+◌, ◌^◌, Bool, ◌<◌, ◌≤◌, ◌≡◌, true, Option, none, some, List, ◌∷◌, sym, ap, ◌∙◌, arith,
}
use perf_raft.Configuration.{Configuration}
use perf_raft.LogStore.{Bytes, found, LogStore, StableStore}
use perf_raft.Node.{Node, Env, key_current_term}
use perf_raft.Process.{next}
use perf_raft.Start.{SnapshotMeta, new_raft}
use perf_raft.Start.Snapshotted.{StartedFrom, new_raft-StartedFrom}
use perf_raft.Fsm.{StateMachine}
use perf_raft.Recover.{Sealed, Sealing, recover_cluster}
use perf_raft.Recover.Replayed.{recover_cluster-Recovered}

some-inj : {A : Type 0} {a b : A} → some a ≡ some b → a ≡ b
some-inj e = cc

-- A log store with entries, not up to the last 64-bit number, of which all are deleted, has 0 as its last index again.
abbrev pub EmptiesWhole : LogStore → Type 0
EmptiesWhole lg =
    (l : lg.S) (first last : ℕ)
    → lg.first_index l ≡ some first
    → lg.last_index l ≡ some last
    → 0 < first
    → first ≤ last
    → last + 1 < 2 ^ 64
    → (lg.delete_range l first last).0 ≡ true
    → lg.last_index (lg.delete_range l first last).1 ≡ some 0

-- The snapshot as it is listed later.
pub record ListedAs (z : Sealed) (snap : SnapshotMeta) : Type 0 where
  pub version : snap.version ≡ z.version
  pub index : snap.index ≡ z.index
  pub term : snap.term ≡ z.term
  pub configuration : snap.configuration ≡ z.configuration
  pub configuration_index : snap.configuration_index ≡ z.configuration_index
  pub restores : snap.restores ≡ true

module _ (st : StableStore) (lg : LogStore) (empties : EmptiesWhole lg) (env : Env)
    (fsm : StateMachine) (contents : SnapshotMeta → Option Bytes) where
  -- After a recovery without an error on a log that has entries, NewRaft starts a follower in the term on
  -- disk, if the new snapshot is listed first and can be restored, and the term can be written: its latest
  -- and its committed configuration are the one that was forced, at index 1, whatever configurations the
  -- old log and the old snapshots had, and it goes on from the place of the new snapshot.
  pub new_raft-recover_cluster :
      (options_ok : Bool) (snaps : List SnapshotMeta) (does : Sealing)
      (configuration : Configuration) (machine : fsm.S) (s : st.S) (l : lg.S) {term first last : ℕ}
      {z : Sealed} (snap : SnapshotMeta) (older : List SnapshotMeta)
      → let r =
          recover_cluster st lg env fsm contents options_ok
            (some snaps)
            does
            configuration
            machine
            s
            l in
        r.error ≡ none
        → r.sealed ≡ some z
        → ListedAs z snap
        → lg.first_index l ≡ some first
        → lg.last_index l ≡ some last
        → 0 < first
        → first ≤ last
        → last + 1 < 2 ^ 64
        → st.get_uint64 s key_current_term ≡ found term
        → (st.set_uint64 s key_current_term term).0 ≡ true
        → (n : Node st.S lg.S) × (new_raft st lg env (some (snap ∷ older)) s r.logs ≡ next n)
          × StartedFrom snap term n
          × (n.configurations.latest ≡ configuration)
          × (n.configurations.latest_index ≡ 1)
          × (n.configurations.committed ≡ configuration)
          × (n.configurations.committed_index ≡ 1)
  new_raft-recover_cluster options_ok snaps does configuration machine s l snap older e sealed
        listed at till positive ordered small term written =
      let r =
        recover_cluster-Recovered st lg env fsm contents options_ok snaps does configuration machine
          s l e in
      let first_is : r.first ≡ _ = some-inj (sym r.first_is ∙ at) in
      let last_is : r.last ≡ _ = some-inj (sym r.last_is ∙ till) in
      let empty =
        empties l r.first r.last r.first_is r.last_is (omega (arith, positive, first_is))
          (omega (arith, ordered, first_is, last_is)) (omega (arith, small, last_is))
          (ap (λ (p : Bool × lg.S). p.0) r.emptied) in
      let is_z = some-inj (sym sealed ∙ r.sealed_is) in
      let (n, starts, from) =
        new_raft-StartedFrom st lg env s _ _ snap older term written
          (ap (λ (p : Bool × lg.S). lg.last_index p.1) (sym r.emptied) ∙ empty) listed.restores
          (omega (arith, listed.version, ap (λ (k : Sealed). k.version) is_z)) in
      (
        n,
        starts,
        from,
        from.latest_is ∙ listed.configuration ∙ ap (λ (k : Sealed). k.configuration) is_z,
        from.latest_at
            ∙ listed.configuration_index
            ∙ ap (λ (k : Sealed). k.configuration_index) is_z,
        from.committed_is ∙ listed.configuration ∙ ap (λ (k : Sealed). k.configuration) is_z,
        from.committed_at
            ∙ listed.configuration_index
            ∙ ap (λ (k : Sealed). k.configuration_index) is_z,
      )

-- ===== src/Recover/Replayed.antt =====
-- RecoverCluster of api.go: the steps of a success.
use perf_raft.Prelude.{
  ℕ, zero, suc, ◌+◌, ◌-◌, ◌≡◌, Bool, true, false, not, ◌&&◌, ◌||◌, ◌==◌, Option, none, some, List,
  [], ◌∷◌, length, refl, subst, arith, Bool-cases, Option-cases, inl, inr,
}
use perf_raft.Configuration.{Configuration, check_configuration}
use perf_raft.LogStore.{Log, Bytes, Read, found, not_found, failed, LogStore, StableStore}
use perf_raft.Node.{Env}
use perf_raft.Vote.{is_empty}
use perf_raft.Start.{SnapshotMeta}
use perf_raft.Bootstrap.{has_existing_state}
use perf_raft.Fsm.{StateMachine}
use perf_raft.Recover.{
  Recovery, Sealing, Replay, restore_newest, replay_entry, replay_logs, gives_up, compacted,
  compact, seal, replayed, from_snapshot, with_snapshots, on_existing, recover_cluster,
}

-- The entries that a store has from an index on.
abbrev pub ReadsFrom : (lg : LogStore) → lg.S → ℕ → List Log → Type 0
ReadsFrom lg l index [] = Unit
ReadsFrom lg l index (e ∷ es) = (lg.get_log l index ≡ found e) × ReadsFrom lg l (index + 1) es

module _ (st : StableStore) (lg : LogStore) (env : Env) (fsm : StateMachine)
    (contents : SnapshotMeta → Option Bytes) where
  -- All entries, one after the other.
  unfoldable pub replay_all :
      List Log → Replay st lg env fsm contents → Replay st lg env fsm contents
  replay_all [] q = q
  replay_all (e ∷ es) q = replay_all es (replay_entry st lg env fsm contents e q)

  -- What was read, and what became of it.
  abbrev pub AllRead :
      ℕ → ℕ → lg.S → Replay st lg env fsm contents → Option (Replay st lg env fsm contents) → Type 0
  AllRead rounds index l q none = Unit
  AllRead rounds index l q (some r) =
      (es : List Log) × (length es ≡ rounds) × ReadsFrom lg l index es × (r ≡ replay_all es q)

  replay_logs-AllRead :
      (rounds index : ℕ) (l : lg.S) (q : Replay st lg env fsm contents)
      → AllRead rounds index l q (replay_logs st lg env fsm contents rounds index l q)
  unfolding replay_logs replay_all
  replay_logs-AllRead zero index l q = ([], refl, tt, refl)
  replay_logs-AllRead (suc rounds) index l q =
      step (lg.get_log l index) refl
        λ e. replay_logs-AllRead rounds (index + 1) l (replay_entry st lg env fsm contents e q)
    where
      more :
          (e : Log)
          → lg.get_log l index ≡ found e
          → (r : Option (Replay st lg env fsm contents))
          → AllRead rounds (index + 1) l (replay_entry st lg env fsm contents e q) r
          → AllRead (suc rounds) index l q r
      more e got none h = tt
      more e got (some r) (es, len, reads, same) = (e ∷ es, ground (arith, len), (got, reads), same)

      step :
          (r : Read Log)
          → lg.get_log l index ≡ r
          → ((e : Log)
              → AllRead rounds (index + 1) l (replay_entry st lg env fsm contents e q) (
                  replay_logs st lg env fsm contents rounds
                    (index + 1)
                    l
                    (replay_entry st lg env fsm contents e q)))
          → AllRead (suc rounds) index l q (elim r [
            | found e ↦
                replay_logs st lg env fsm contents rounds
                  (index + 1)
                  l
                  (replay_entry st lg env fsm contents e q)
            | not_found ↦ none
            | failed ↦ none
          ])
      step (found e) got rest = more e got _ (rest e)
      step not_found got rest = tt
      step failed got rest = tt

  -- What a success means.
  pub record Recovered (configuration : Configuration) (l : lg.S)
      (q : Replay st lg env fsm contents) (r : Recovery lg.S) : Type 0 where
    pub last : ℕ
    pub first : ℕ
    pub entries : List Log
    pub payload : Bytes
    pub last_is : lg.last_index l ≡ some last
    pub first_is : lg.first_index l ≡ some first
    pub all_entries : length entries ≡ last - q.last_index
    pub read : ReadsFrom lg l (q.last_index + 1) entries
    pub taken : fsm.take (replay_all entries q).machine ≡ some payload
    pub sealed_is :
        r.sealed
        ≡ some (record {
          version = 1;
          index = (replay_all entries q).last_index;
          term = (replay_all entries q).last_term;
          configuration = configuration;
          configuration_index = 1;
          payload = payload;
        })
    pub emptied : lg.delete_range l first last ≡ (true, r.logs)

  seal-Recovered :
      (does : Sealing) (configuration : Configuration) (l : lg.S) (last : ℕ)
      (q : Replay st lg env fsm contents) (r : Option (Replay st lg env fsm contents))
      → lg.last_index l ≡ some last
      → AllRead (last - q.last_index) (q.last_index + 1) l q r
      → (replayed st lg env fsm contents does configuration l last r).error ≡ none
      → Recovered configuration l q (replayed st lg env fsm contents does configuration l last r)
  unfolding replayed seal gives_up compact compacted
  seal-Recovered does configuration l last q none at h e = absurd (ground (arith, e))
  seal-Recovered does configuration l last q (some k) at (es, len, reads, same) e =
      elim (Option-cases (fsm.take k.machine)) [
        | inl f ↦ absurd (ground (arith, e, f))
        | inr (payload, f) ↦ elim (Bool-cases (does.created && does.persisted && does.closed)) [
          | inr g ↦ absurd (ground (arith, e, f, g))
          | inl g ↦ elim (Option-cases (lg.first_index l)) [
            | inl d ↦ absurd (ground (arith, e, f, g, d))
            | inr (first, d) ↦
                let sound : (lg.delete_range l first last).0 ≡ true = ground (arith, e, f, g, d) in
                record {
                  last = last;
                  first = first;
                  entries = es;
                  payload = payload;
                  last_is = at;
                  first_is = d;
                  all_entries = len;
                  read = reads;
                  taken = subst (λ j. fsm.take j.machine ≡ some payload) same f;
                  sealed_is = ground (arith, f, g, d, same);
                  emptied = ground (arith, f, g, d, sound);
                }
          ]
        ]
      ]

  pub recover_cluster-Recovered :
      (options_ok : Bool) (snaps : List SnapshotMeta) (does : Sealing)
      (configuration : Configuration) (machine : fsm.S) (s : st.S) (l : lg.S)
      → let r =
          recover_cluster st lg env fsm contents options_ok
            (some snaps)
            does
            configuration
            machine
            s
            l in
        r.error ≡ none
        → Recovered configuration l (restore_newest st lg env fsm contents machine snaps) r
  unfolding recover_cluster on_existing with_snapshots from_snapshot gives_up
  recover_cluster-Recovered options_ok snaps does configuration machine s l e =
      let q = restore_newest st lg env fsm contents machine snaps in
      let facts : (options_ok ≡ true)
          × (check_configuration configuration ≡ none)
          × (has_existing_state st lg env (some snaps) s l ≡ some true)
          × ((not (is_empty snaps) && ((q.last_index == 0) || (q.last_term == 0))) ≡ false) =
        ground (arith, e) in
      elim (Option-cases (lg.last_index l)) [
        | inl f ↦ absurd (ground (arith, e, f))
        | inr (last, f) ↦
            rw (facts.0, facts.1, facts.2, facts.3, f)
              (seal-Recovered does configuration l last q _ f
                (replay_logs-AllRead (last - q.last_index) (q.last_index + 1) l q)
                (rw (facts.0, facts.1, facts.2, facts.3, f) at e))
      ]

-- ===== src/Recover/Rebuilt.antt =====
-- RecoverCluster of api.go: what a success makes of the snapshots and the log.
use perf_raft.Prelude.{
  ℕ, ◌+◌, ◌-◌, ◌≤◌, ◌≡◌, ◌⊎◌, Bool, Option, none, some, List, [], ◌∷◌, length, refl, ap, sym, ◌∙◌,
  subst, arith, Option-cases, inl, inr,
}
use perf_raft.Configuration.{Configuration}
use perf_raft.LogStore.{
  Log, LogType, log_command, log_noop, log_add_peer_deprecated, log_remove_peer_deprecated,
  log_barrier, log_configuration, Bytes, not_found, LogStore, LogStoreLaws, StableStore,
}
use perf_raft.Node.{Env}
use perf_raft.Start.{SnapshotMeta}
use perf_raft.Fsm.{StateMachine}
use perf_raft.Recover.{
  Recovery, Sealing, Replay, is_command, restore_newest, replay_entry, recover_cluster,
}
use perf_raft.Recover.Replayed.{ReadsFrom, replay_all, recover_cluster-Recovered}

module _ (st : StableStore) (lg : LogStore) (env : Env) (fsm : StateMachine)
    (contents : SnapshotMeta → Option Bytes) where
  -- The entries that are commands.
  abbrev keep_command : LogType → Log → List Log → List Log
  keep_command log_command e es = e ∷ es
  keep_command _ e es = es

  abbrev pub commands_of : List Log → List Log
  commands_of [] = []
  commands_of (e ∷ es) = keep_command e.log_type e (commands_of es)

  -- A state machine that applies them, one after the other.
  abbrev pub machine_after : fsm.S → List Log → fsm.S
  machine_after machine [] = machine
  machine_after machine (e ∷ es) = machine_after (fsm.apply_log machine e).1 es

  -- The index and the term of the last entry, if there is one.
  abbrev pub place_after : ℕ × ℕ → List Log → ℕ × ℕ
  place_after place [] = place
  place_after place (e ∷ es) = place_after (e.index, e.term) es

  abbrev RestoresTo : fsm.S → SnapshotMeta → fsm.S → Type 0
  RestoresTo machine snap restored =
      (b : Bytes) × (contents snap ≡ some b) × (fsm.restore_from machine b ≡ some restored)

  -- It cannot be opened, or the state machine cannot be restored from it.
  abbrev Unusable : fsm.S → SnapshotMeta → Type 0
  Unusable machine snap =
      (contents snap ≡ none)
      ⊎ ((b : Bytes) × (contents snap ≡ some b) × (fsm.restore_from machine b ≡ none))

  -- The state machine and the place from which the log is played: those of the first snapshot that is not
  -- unusable, or the state machine as it was and 0.
  abbrev pub StartsFrom : fsm.S → List SnapshotMeta → fsm.S → ℕ × ℕ → Type 0
  StartsFrom machine [] start place = (start ≡ machine) × (place ≡ (0, 0))
  StartsFrom machine (snap ∷ rest) start place =
      (RestoresTo machine snap start × (place ≡ (snap.index, snap.term)))
      ⊎ (Unusable machine snap × StartsFrom machine rest start place)

  restore_newest-StartsFrom :
      (machine : fsm.S) (snaps : List SnapshotMeta)
      → let q = restore_newest st lg env fsm contents machine snaps in
        StartsFrom machine snaps q.machine (q.last_index, q.last_term)
  unfolding restore_newest
  restore_newest-StartsFrom machine [] = (refl, refl)
  restore_newest-StartsFrom machine (snap ∷ rest) =
      let older = restore_newest-StartsFrom machine rest in
      elim (Option-cases (contents snap)) [
        | inl e ↦ rw (e, restore_newest) (inr (inl refl, older))
        | inr (b, e) ↦ elim (Option-cases (fsm.restore_from machine b)) [
          | inl f ↦ rw (e, restore_newest) (rw f (inr (inr (b, refl, f), older)))
          | inr (k, f) ↦ rw (e, restore_newest) (rw f (inl ((b, refl, f), refl)))
        ]
      ]

  replay_entry-machine :
      (t : LogType) (e : Log) (es : List Log) (q : Replay st lg env fsm contents)
      → e.log_type ≡ t
      → machine_after (replay_entry st lg env fsm contents e q).machine (commands_of es)
        ≡ machine_after q.machine (keep_command t e (commands_of es))
  unfolding replay_entry is_command
  replay_entry-machine log_command e es q same = rw same refl
  replay_entry-machine log_noop e es q same = rw same refl
  replay_entry-machine log_add_peer_deprecated e es q same = rw same refl
  replay_entry-machine log_remove_peer_deprecated e es q same = rw same refl
  replay_entry-machine log_barrier e es q same = rw same refl
  replay_entry-machine log_configuration e es q same = rw same refl

  replay_all-machine_after :
      (es : List Log) (q : Replay st lg env fsm contents)
      → (replay_all st lg env fsm contents es q).machine ≡ machine_after q.machine (commands_of es)
  unfolding replay_all
  replay_all-machine_after [] q = refl
  replay_all-machine_after (e ∷ es) q =
      replay_all-machine_after es (replay_entry st lg env fsm contents e q)
      ∙ replay_entry-machine e.log_type e es q refl

  replay_all-place_after :
      (es : List Log) (q : Replay st lg env fsm contents)
      → (
        (replay_all st lg env fsm contents es q).last_index,
        (replay_all st lg env fsm contents es q).last_term,
      )
        ≡ place_after (q.last_index, q.last_term) es
  unfolding replay_all replay_entry
  replay_all-place_after [] q = refl
  replay_all-place_after (e ∷ es) q =
      replay_all-place_after es (replay_entry st lg env fsm contents e q)

  -- What a recovery has made of the snapshots and the log.
  pub record IsRebuilt (configuration : Configuration) (machine : fsm.S) (snaps : List SnapshotMeta)
      (l : lg.S) (r : Recovery lg.S) : Type 0 where
    pub start : fsm.S
    pub place : ℕ × ℕ
    pub starts_from : StartsFrom machine snaps start place
    pub first : ℕ
    pub last : ℕ
    pub first_is : lg.first_index l ≡ some first
    pub last_is : lg.last_index l ≡ some last
    pub entries : List Log
    pub all_entries : length entries ≡ last - place.0
    pub read : ReadsFrom lg l (place.0 + 1) entries
    pub payload : Bytes
    pub taken : fsm.take (machine_after start (commands_of entries)) ≡ some payload
    pub sealed_is :
        r.sealed
        ≡ some (record {
          version = 1;
          index = (place_after place entries).0;
          term = (place_after place entries).1;
          configuration = configuration;
          configuration_index = 1;
          payload = payload;
        })
    pub gone : (i : ℕ) → first ≤ i → i ≤ last → lg.get_log r.logs i ≡ not_found

  -- Over a log store that keeps the laws of reads after writes, a recovery that ends without an error has
  -- started from the first of the listed snapshots that can be opened and restored, or from the state
  -- machine as it was if there is none; it has read every entry of the log past it; the new snapshot has
  -- what the state machine gives once it has applied the commands among these entries, committed or not,
  -- in order and once, at the place of the last of them, and with the given configuration as committed at
  -- index 1; and no entry from the first index of the log to the last can be read any more.
  pub recover_cluster-IsRebuilt :
      LogStoreLaws lg
      → (options_ok : Bool) (snaps : List SnapshotMeta) (does : Sealing)
        (configuration : Configuration) (machine : fsm.S) (s : st.S) (l : lg.S)
      → let r =
          recover_cluster st lg env fsm contents options_ok
            (some snaps)
            does
            configuration
            machine
            s
            l in
        r.error ≡ none → IsRebuilt configuration machine snaps l r
  recover_cluster-IsRebuilt laws options_ok snaps does configuration machine s l e =
      let q = restore_newest st lg env fsm contents machine snaps in
      let k =
        recover_cluster-Recovered st lg env fsm contents options_ok snaps does configuration machine
          s l e in
      let place = replay_all-place_after k.entries q in
      record {
        start = q.machine;
        place = (q.last_index, q.last_term);
        starts_from = restore_newest-StartsFrom machine snaps;
        first = k.first;
        last = k.last;
        first_is = k.first_is;
        last_is = k.last_is;
        entries = k.entries;
        all_entries = k.all_entries;
        read = k.read;
        payload = k.payload;
        taken =
            subst (λ m. fsm.take m ≡ some k.payload) (replay_all-machine_after k.entries q) k.taken;
        sealed_is =
            k.sealed_is
            ∙ ap
                (λ (p : ℕ × ℕ). some (record {
                  version = 1;
                  index = p.0;
                  term = p.1;
                  configuration = configuration;
                  configuration_index = 1;
                  payload = k.payload;
                }))
                place;
        gone = λ i from till.
            ap (λ (p : Bool × lg.S). lg.get_log p.1 i) (sym k.emptied)
            ∙ laws.get_log-delete_range l k.first k.last i (ap (λ (p : Bool × lg.S). p.0) k.emptied)
            ∙ ground (arith, from, till);
      }

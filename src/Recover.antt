-- ===== src/Recover.antt =====
-- RecoverCluster of api.go: a configuration is forced on the stores of a server that does not run, by a
-- snapshot that carries it. Whether the server's options passed ValidateConfig is given.
pub mod Replayed
pub mod Rebuilt
pub mod Restart
mod Tests
use perf_raft.Prelude.{
  ℕ, zero, suc, ◌+◌, ◌-◌, Bool, true, false, not, ◌&&◌, ◌||◌, Option, none, some, List, [], ◌∷◌,
  ◌==◌, if◌then◌else◌,
}
use perf_raft.Configuration.{Configuration, ConfigurationError, check_configuration}
use perf_raft.LogStore.{
  Log, LogType, log_command, Bytes, Read, found, not_found, failed, LogStore, StableStore,
}
use perf_raft.Node.{Env}
use perf_raft.Vote.{is_empty}
use perf_raft.Start.{SnapshotMeta}
use perf_raft.Bootstrap.{has_existing_state}
use perf_raft.Fsm.{StateMachine}

pub data RecoverError : Type 0 where
  bad_options state_unknown no_state list_failed none_restored last_unknown entry_unread :
      RecoverError
  not_snapshotted not_created not_persisted not_closed first_unknown not_compacted : RecoverError
  bad_configuration : ConfigurationError → RecoverError

-- The new snapshot, whose configuration counts as committed at index 1.
pub record Sealed : Type 0 where
  pub version : ℕ
  pub index : ℕ
  pub term : ℕ
  pub configuration : Configuration
  pub configuration_index : ℕ
  pub payload : Bytes

-- How it ends: with an error or not, with the snapshot if it got that far, and with the log store.
pub record Recovery (Lg : Type 0) : Type 0 where
  pub error : Option RecoverError
  pub sealed : Option Sealed
  pub logs : Lg

-- Whether the snapshot store creates a snapshot, takes its content, and closes it.
pub record Sealing : Type 0 where
  pub created : Bool
  pub persisted : Bool
  pub closed : Bool

unfoldable pub is_command : LogType → Bool
is_command log_command = true
is_command _ = false

module _ (st : StableStore) (lg : LogStore) (env : Env) (fsm : StateMachine)
    (contents : SnapshotMeta → Option Bytes) where
  -- The state machine and the last place that is known.
  pub record Replay : Type 0 where
    pub machine : fsm.S
    pub last_index : ℕ
    pub last_term : ℕ

  -- The newest snapshot that can be opened and restored; else the state machine as it was.
  unfoldable pub restore_newest : fsm.S → List SnapshotMeta → Replay
  restore_newest machine [] = record { machine = machine; last_index = 0; last_term = 0 }
  restore_newest machine (snap ∷ rest) =
      let older = restore_newest machine rest in
      elim (contents snap) [
        | none ↦ older
        | some bytes ↦ elim (fsm.restore_from machine bytes) [
          | none ↦ older
          | some restored ↦ record {
            machine = restored;
            last_index = snap.index;
            last_term = snap.term;
          }
        ]
      ]

  unfoldable pub replay_entry : Log → Replay → Replay
  unfolding is_command
  replay_entry e q = record {
    machine = if is_command e.log_type then (fsm.apply_log q.machine e).1 else q.machine;
    last_index = e.index;
    last_term = e.term;
  }

  -- The entries past the snapshot, by the rounds that are left.
  unfoldable pub replay_logs : ℕ → ℕ → lg.S → Replay → Option Replay
  replay_logs zero index l q = some q
  replay_logs (suc rounds) index l q = elim (lg.get_log l index) [
    | found e ↦ replay_logs rounds (index + 1) l (replay_entry e q)
    | not_found ↦ none
    | failed ↦ none
  ]

  unfoldable pub gives_up : lg.S → RecoverError → Recovery lg.S
  gives_up l e = record { error = some e; sealed = none; logs = l }

  unfoldable pub compacted : Sealed → Bool × lg.S → Recovery lg.S
  compacted z (ok, l) = record {
    error = if ok then none else some not_compacted;
    sealed = some z;
    logs = l;
  }

  -- The whole log goes.
  unfoldable pub compact : lg.S → ℕ → Sealed → Recovery lg.S
  unfolding compacted
  compact l last z = elim (lg.first_index l) [
    | none ↦ record { error = some first_unknown; sealed = some z; logs = l }
    | some first ↦ compacted z (lg.delete_range l first last)
  ]

  unfoldable pub seal : Sealing → Configuration → lg.S → ℕ → Replay → Option Bytes → Recovery lg.S
  unfolding gives_up compact
  seal does configuration l last q none = gives_up l not_snapshotted
  seal does configuration l last q (some payload) =
      if not does.created
      then gives_up l not_created
      else if not does.persisted
      then gives_up l not_persisted
      else if not does.closed
      then gives_up l not_closed
      else compact l last (record {
        version = 1;
        index = q.last_index;
        term = q.last_term;
        configuration = configuration;
        configuration_index = 1;
        payload = payload;
      })

  unfoldable pub replayed : Sealing → Configuration → lg.S → ℕ → Option Replay → Recovery lg.S
  unfolding seal gives_up
  replayed does configuration l last none = gives_up l entry_unread
  replayed does configuration l last (some q) =
      seal does configuration l last q (fsm.take q.machine)

  unfoldable pub from_snapshot : Sealing → Configuration → lg.S → Replay → Option ℕ → Recovery lg.S
  unfolding replayed gives_up
  from_snapshot does configuration l q none = gives_up l last_unknown
  from_snapshot does configuration l q (some last) =
      replayed does configuration l last (replay_logs (last - q.last_index) (q.last_index + 1) l q)

  unfoldable pub with_snapshots :
      Sealing → Configuration → fsm.S → lg.S → Option (List SnapshotMeta) → Recovery lg.S
  unfolding from_snapshot gives_up
  with_snapshots does configuration machine l none = gives_up l list_failed
  with_snapshots does configuration machine l (some snaps) =
      let q = restore_newest machine snaps in
      if not (is_empty snaps) && ((q.last_index == 0) || (q.last_term == 0))
      then gives_up l none_restored
      else from_snapshot does configuration l q (lg.last_index l)

  unfoldable pub on_existing :
      Option (List SnapshotMeta)
      → Sealing
      → Configuration
      → fsm.S
      → lg.S
      → Option Bool
      → Recovery lg.S
  unfolding with_snapshots gives_up
  on_existing snaps does configuration machine l none = gives_up l state_unknown
  on_existing snaps does configuration machine l (some false) = gives_up l no_state
  on_existing snaps does configuration machine l (some true) =
      with_snapshots does configuration machine l snaps

  unfoldable pub recover_cluster :
      Bool
      → Option (List SnapshotMeta)
      → Sealing
      → Configuration
      → fsm.S
      → st.S
      → lg.S
      → Recovery lg.S
  unfolding on_existing gives_up
  recover_cluster options_ok snaps does configuration machine s l =
      if not options_ok then gives_up l bad_options else elim (check_configuration configuration) [
        | some e ↦ gives_up l (bad_configuration e)
        | none ↦
            on_existing snaps does configuration machine l (has_existing_state st lg env snaps s l)
      ]

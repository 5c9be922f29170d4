-- ===== src/Start.antt =====
-- NewRaft and restoreSnapshot of api.go: what a server makes of its stores when it starts. The list of
-- snapshots and whether each of them can be restored are given.
pub mod Unvoting
pub mod First
pub mod Snapshotted
use perf_raft.Prelude.{
  ℕ, zero, suc, ◌+◌, ◌-◌, Bool, true, false, Option, none, some, List, [], ◌∷◌, ltb, ◌==◌,
  if◌then◌else◌,
}
use perf_raft.Configuration.{Configuration}
use perf_raft.LogStore.{Log, Bytes, Read, found, not_found, failed, LogStore, StableStore}
use perf_raft.Node.{
  Node, Env, follower, key_current_term, set_last_log, get_last_snapshot, set_last_snapshot,
  set_state, set_current_term, set_latest_configuration, set_committed_configuration,
}
use perf_raft.Process.{Step, next, stop, die, ◌>>=◌, process_configuration_log_entry}
use perf_raft.Vote.{number_or_zero}

pub record SnapshotMeta : Type 0 where
  pub version : ℕ
  pub index : ℕ
  pub term : ℕ
  pub peers : Bytes
  pub configuration : Configuration
  pub configuration_index : ℕ
  pub restores : Bool

module _ (st : StableStore) (lg : LogStore) (env : Env) where
  -- The zero values of the fields, in the state Follower.
  blank : st.S → lg.S → Node st.S lg.S
  blank s l = record {
    state = follower;
    current_term = 0;
    commit_index = 0;
    last_applied = 0;
    last_snapshot_index = 0;
    last_snapshot_term = 0;
    last_log_index = 0;
    last_log_term = 0;
    leader_addr = "";
    leader_id = "";
    last_contact = 0;
    candidate_from_leadership_transfer = false;
    configurations = record {
      committed = record { servers = [] };
      committed_index = 0;
      latest = record { servers = [] };
      latest_index = 0;
    };
    stable = s;
    logs = l;
  }

  adopt_snapshot : Node st.S lg.S → SnapshotMeta → Configuration → ℕ → Node st.S lg.S
  adopt_snapshot n snap conf index =
      set_latest_configuration
        (set_committed_configuration
          (set_last_snapshot (record n { last_applied = snap.index }) snap.index snap.term) conf
          index)
        conf index

  adopt_peers_snapshot : Node st.S lg.S → SnapshotMeta → Option Configuration → Step st.S lg.S
  adopt_peers_snapshot n snap none = stop n true
  adopt_peers_snapshot n snap (some conf) = next (adopt_snapshot n snap conf snap.index)

  -- The newest snapshot that can be restored; it is an error if there are some and none can.
  restore_snapshots : Bool → Node st.S lg.S → List SnapshotMeta → Step st.S lg.S
  restore_snapshots tried n [] = if tried then stop n true else next n
  restore_snapshots tried n (snap ∷ rest) =
      let later = restore_snapshots true n rest in
      if snap.restores
      then (if ltb 0 snap.version
          then next (adopt_snapshot n snap snap.configuration snap.configuration_index)
          else adopt_peers_snapshot n snap (env.decode_peers snap.peers))
      else later

  restore_snapshot : Option (List SnapshotMeta) → Node st.S lg.S → Step st.S lg.S
  restore_snapshot none n = stop n true
  restore_snapshot (some snaps) n = restore_snapshots false n snaps

  -- One entry of the log, and then the rest; an entry that cannot be read is a panic.
  scan_step : Node st.S lg.S → (Node st.S lg.S → Step st.S lg.S) → Read Log → Step st.S lg.S
  scan_step n rest (found l) = process_configuration_log_entry env n l >>= rest
  scan_step n rest not_found = die n
  scan_step n rest failed = die n

  -- The loop over the log, for its configurations.
  scan_log : ℕ → ℕ → Node st.S lg.S → Step st.S lg.S
  scan_log zero index n = next n
  scan_log (suc rounds) index n =
      scan_step n (λ m. scan_log rounds (index + 1) m) (lg.get_log n.logs index)

  abbrev last_entry : Option ℕ → lg.S → Option (ℕ × ℕ)
  last_entry none l = none
  last_entry (some last) l =
      if ltb 0 last
      then elim (lg.get_log l last) [
        | found e ↦ some (e.index, e.term)
        | not_found ↦ none
        | failed ↦ none
      ]
      else some (0, 0)

  -- The term is written back before anything else is restored.
  start_in_term : Option (List SnapshotMeta) → ℕ × ℕ → Bool × Node st.S lg.S → Step st.S lg.S
  start_in_term snaps last (false, n) = die n
  start_in_term snaps last (true, n) =
      restore_snapshot snaps (set_last_log n last.0 last.1) >>= λ m.
      scan_log (last.0 - (get_last_snapshot m).0) ((get_last_snapshot m).0 + 1) m

  start_from : Option (List SnapshotMeta) → st.S → lg.S → Option ℕ → Option (ℕ × ℕ) → Step st.S lg.S
  start_from snaps s l (some term) (some last) =
      start_in_term snaps last (set_current_term st (set_state (blank s l) follower) term)
  start_from snaps s l _ _ = stop (blank s l) true

  -- The server that runs, an error (`stop`), or a panic (`die`).
  pub new_raft : Option (List SnapshotMeta) → st.S → lg.S → Step st.S lg.S
  new_raft snaps s l =
      start_from snaps s l (number_or_zero (st.get_uint64 s key_current_term))
        (last_entry (lg.last_index l) l)

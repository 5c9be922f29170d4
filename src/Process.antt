-- ===== src/Process.antt =====
-- The log entries of raft.go on their way into effect: processConfigurationLogEntry, prepareLog and
-- processLogs. What is sent to the state machine is a list of batches, in the order of sending.
-- The server is not shutting down meanwhile, and a log entry has one of the six types.
pub mod Unvoting
pub mod Batches
pub mod Untouched
mod Tests
use perf_raft.Prelude.{
  ℕ, zero, suc, ◌+◌, ◌-◌, Bool, true, false, Option, none, some, List, [], ◌∷◌, ◌++◌, ltb, leb,
  ◌==◌, if◌then◌else◌, length,
}
use perf_raft.Configuration.{Configuration}
use perf_raft.LogStore.{
  Log, LogType, log_command, log_noop, log_add_peer_deprecated, log_remove_peer_deprecated,
  log_barrier, log_configuration, Read, found, not_found, failed, LogStore,
}
use perf_raft.Node.{Node, Env, set_latest_configuration, set_committed_configuration}

-- The end of one step of a handler: it goes on, it returns early, with or without an error for the
-- RPC, or the process dies in a panic.
pub data Step (St Lg : Type 0) : Type 0 where
  next : Node St Lg → Step St Lg
  stop : Node St Lg → Bool → Step St Lg
  die : Node St Lg → Step St Lg

infixl 5 ◌>>=◌
abbrev pub ◌>>=◌ : {St Lg : Type 0} → Step St Lg → (Node St Lg → Step St Lg) → Step St Lg
next n >>= f = f n
stop n e >>= f = stop n e
die n >>= f = die n

module _ {St Lg : Type 0} (env : Env) where
  -- A configuration that is decoded, or a panic.
  adopt_decoded : Node St Lg → ℕ → Option Configuration → Step St Lg
  adopt_decoded n index none = die n
  adopt_decoded n index (some c) = next (set_latest_configuration n c index)

  -- A list of peers that is decoded, or an error.
  adopt_peers : Node St Lg → ℕ → Option Configuration → Step St Lg
  adopt_peers n index none = stop n true
  adopt_peers n index (some c) = next (set_latest_configuration n c index)

  commit_latest : Node St Lg → Node St Lg
  commit_latest n =
      set_committed_configuration n n.configurations.latest n.configurations.latest_index

  process_by_type : Node St Lg → Log → LogType → Step St Lg
  process_by_type n entry log_configuration =
      adopt_decoded (commit_latest n) entry.index (env.decode_configuration entry.payload)
  process_by_type n entry log_add_peer_deprecated =
      adopt_peers (commit_latest n) entry.index (env.decode_peers entry.payload)
  process_by_type n entry log_remove_peer_deprecated =
      adopt_peers (commit_latest n) entry.index (env.decode_peers entry.payload)
  process_by_type n entry _ = next n

  unfoldable pub process_configuration_log_entry : Node St Lg → Log → Step St Lg
  unfolding process_by_type adopt_decoded adopt_peers commit_latest set_latest_configuration
      set_committed_configuration
  process_configuration_log_entry n entry = process_by_type n entry entry.log_type

-- Which entries go to the state machine; configurations only in the newer protocol.
unfoldable pub is_prepared : Env → LogType → Bool
is_prepared env log_barrier = true
is_prepared env log_command = true
is_prepared env log_configuration = ltb 2 env.protocol_version
is_prepared env _ = false

-- What processLogs sends and answers: the batches for the state machine, and the indexes of the
-- futures that are answered at once.
pub record Sent : Type 0 where
  pub batches : List (List Log)
  pub responded : List ℕ

module _ (lg : LogStore) (env : Env) (max_append_entries : ℕ) (futures : ℕ → Option Log) where
  -- The entry from its future, or from the store; else the process dies.
  unfoldable pub fetch : lg.S → ℕ → Option Log
  fetch logs idx = elim (futures idx) [
    | some l ↦ some l
    | none ↦ elim (lg.get_log logs idx) [ found l ↦ some l | not_found ↦ none | failed ↦ none ]
  ]

  unfoldable pub has_future : ℕ → Bool
  has_future idx = elim (futures idx) [ some l ↦ true | none ↦ false ]

  -- A batch that is full is sent.
  unfoldable pub flush_full : List Log → Sent → List Log × Sent
  flush_full batch sent =
      if leb max_append_entries (length batch)
      then ([], record sent { batches = sent.batches ++ batch ∷ [] })
      else (batch, sent)

  unfoldable pub take_entry : ℕ → Log → List Log → Sent → List Log × Sent
  take_entry idx l batch sent =
      if is_prepared env l.log_type
      then flush_full (batch ++ l ∷ []) sent
      else if has_future idx
      then (batch, record sent { responded = sent.responded ++ idx ∷ [] })
      else (batch, sent)

  -- The loop, by the rounds that are left.
  unfoldable pub process_loop : ℕ → ℕ → lg.S → List Log → Sent → Option (List Log × Sent)
  process_loop zero idx logs batch sent = some (batch, sent)
  process_loop (suc rounds) idx logs batch sent = elim (fetch logs idx) [
    | none ↦ none
    | some l ↦
        process_loop rounds (idx + 1) logs (take_entry idx l batch sent).0
          (take_entry idx l batch sent).1
  ]

  unfoldable pub flush_rest : List Log → Sent → Sent
  flush_rest [] sent = sent
  flush_rest (l ∷ ls) sent = record sent { batches = sent.batches ++ (l ∷ ls) ∷ [] }

  -- processLogs: nothing if the index was applied before; `none` is a panic on an entry that cannot
  -- be read.
  unfoldable pub process_logs : {St : Type 0} → Node St lg.S → ℕ → Option (Node St lg.S × Sent)
  process_logs n index =
      let nothing : Sent = record { batches = []; responded = [] } in
      if leb index n.last_applied
      then some (n, nothing)
      else elim (process_loop (index - n.last_applied) (n.last_applied + 1) n.logs [] nothing) [
        | none ↦ none
        | some (batch, sent) ↦ some (record n { last_applied = index }, flush_rest batch sent)
      ]

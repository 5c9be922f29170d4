-- ===== src/Replication.antt =====
-- replication.go: what the goroutine of a leader that replicates to one peer does. Its surroundings are
-- a parameter: what the transport, the clock, the stop channel and the snapshot store answer. While one
-- call of replicateTo runs, the leader's own state is the same. The waits of a backoff are left out.
pub mod Request
pub mod Progress
pub mod Modes
mod Tests
use perf_raft.Prelude.{
  ℕ, zero, suc, ◌+◌, ◌-◌, String, Bool, true, false, not, Option, none, some, List, [], ◌∷◌, ◌++◌,
  ltb, leb, ◌==◌, if◌then◌else◌, inc64,
}
use perf_raft.Configuration.{Configuration}
use perf_raft.Commitment.{Commitment, match}
use perf_raft.LogStore.{Log, Bytes, Read, found, not_found, failed, LogStore, StableStore}
use perf_raft.Node.{Node, Env, RpcHeader, get_rpc_header}
use perf_raft.Append.{AppendEntriesRequest, AppendEntriesResponse}
use perf_raft.Leader.{Follower}

-- `min` and `max` of util.go.
unfoldable pub min : ℕ → ℕ → ℕ
min a b = if leb a b then a else b

unfoldable pub max : ℕ → ℕ → ℕ
max a b = if leb b a then a else b

-- SnapshotMeta of snapshot.go.
pub record SnapshotMeta : Type 0 where
  pub version : ℕ
  pub id : String
  pub index : ℕ
  pub term : ℕ
  pub peers : Bytes
  pub configuration : Configuration
  pub configuration_index : ℕ
  pub size : ℕ

pub record InstallSnapshotRequest : Type 0 where
  pub header : RpcHeader
  pub snapshot_version : ℕ
  pub term : ℕ
  pub leader : Bytes
  pub last_log_index : ℕ
  pub last_log_term : ℕ
  pub peers : Bytes
  pub configuration : Bytes
  pub configuration_index : ℕ
  pub size : ℕ

pub record InstallSnapshotResponse : Type 0 where
  pub term : ℕ
  pub success : Bool

-- What the goroutine meets. A call of the transport gives nothing when it fails.
pub record Surroundings : Type 1 where
  pub W : Type 0
  pub append_entries : W → AppendEntriesRequest → Option AppendEntriesResponse × W
  pub install_snapshot : W → InstallSnapshotRequest → Option InstallSnapshotResponse × W
  pub stop_requested : W → Bool
  pub now : W → ℕ
  pub list_snapshots : W → Option (List SnapshotMeta)
  pub open_snapshot : W → String → Option SnapshotMeta

-- What the goroutine changes: its own state, the commitment it shares with the leader, the calls of
-- notifyAll, and whether it told the leader to step down.
pub record Replicator : Type 0 where
  pub follower : Follower
  pub commitment : Commitment
  pub notified : List Bool
  pub steps_down : Bool

notify_all : Bool → Replicator → Replicator
notify_all leader s = record s { notified = s.notified ++ leader ∷ [] }

-- A peer is in a newer term.
unfoldable pub handle_stale_term : Replicator → Replicator
unfolding notify_all
handle_stale_term s = record (notify_all false s) { steps_down = true }

unfoldable pub set_last_contact : ℕ → Replicator → Replicator
set_last_contact now s = record s { follower = record s.follower { last_contact = now } }

-- The peer has everything up to `index`; the next index is a 64-bit number.
acknowledge : ℕ → Replicator → Replicator
acknowledge index s = record s {
  follower = record s.follower { next_index = inc64 index };
  commitment = match s.commitment s.follower.peer.id index;
}

-- The index of the last entry, if there are any.
unfoldable pub last_entry : List Log → Option ℕ
last_entry [] = none
last_entry (l ∷ ls) = elim (last_entry ls) [ some i ↦ some i | none ↦ some l.index ]

appended_to : Option ℕ → Replicator → Replicator
unfolding acknowledge
appended_to none s = s
appended_to (some index) s = acknowledge index s

unfoldable pub update_last_appended : Replicator → AppendEntriesRequest → Replicator
unfolding appended_to last_entry notify_all
update_last_appended s req = notify_all true (appended_to (last_entry req.entries) s)

-- The answer to an AppendEntries call of replicateTo: whether to stop, and the new state.
unfoldable pub after_response :
    ℕ → AppendEntriesRequest → AppendEntriesResponse → Replicator → Bool × Replicator
unfolding handle_stale_term set_last_contact update_last_appended min max
after_response now req resp s =
    if ltb req.term resp.term
    then (true, handle_stale_term s)
    else let c = set_last_contact now s in
      if resp.success
      then (let u = update_last_appended c req in
          (
            false,
            record u { follower = record u.follower { failures = 0; allow_pipeline = true } },
          ))
      else (
        false,
        record c {
          follower = record c.follower {
            next_index = max (min (c.follower.next_index - 1) (inc64 resp.last_log)) 1;
            failures = if resp.no_retry_backoff then 0 else c.follower.failures + 1;
          };
        },
      )

unfoldable pub count_failure : Replicator → Replicator
count_failure s = record s { follower = record s.follower { failures = s.follower.failures + 1 } }

-- How sendLatestSnapshot ends: it returned (stop, error).
pub data SnapshotEnd : Type 0 where
  stopped : Replicator → SnapshotEnd
  broken : Replicator → SnapshotEnd
  sent : Replicator → SnapshotEnd

-- The answer to an InstallSnapshot call.
unfoldable pub after_install :
    ℕ → SnapshotMeta → ℕ → Option InstallSnapshotResponse → Replicator → SnapshotEnd
unfolding handle_stale_term set_last_contact count_failure acknowledge notify_all
after_install now meta term none s = broken (count_failure s)
after_install now meta term (some resp) s =
    if ltb term resp.term
    then stopped (handle_stale_term s)
    else let c = set_last_contact now s in
      if resp.success
      then (let a = acknowledge meta.index c in
          sent (notify_all true (record a { follower = record a.follower { failures = 0 } })))
      else sent (count_failure c)

module _ (st : StableStore) (lg : LogStore) (env : Env) (max_append_entries : ℕ)
    (n : Node st.S lg.S) where
  entry_place : Read Log → Read (ℕ × ℕ)
  entry_place (found l) = found (l.index, l.term)
  entry_place not_found = not_found
  entry_place failed = failed

  -- PrevLogEntry and PrevLogTerm.
  unfoldable pub set_previous_log : ℕ → Read (ℕ × ℕ)
  unfolding entry_place
  set_previous_log next_index =
      if next_index == 1
      then found (0, 0)
      else if next_index - 1 == n.last_snapshot_index
      then found (n.last_snapshot_index, n.last_snapshot_term)
      else entry_place (lg.get_log n.logs (next_index - 1))

  prepend_read : Read Log → Read (List Log) → Read (List Log)
  prepend_read (found l) (found ls) = found (l ∷ ls)
  prepend_read (found l) not_found = not_found
  prepend_read (found l) failed = failed
  prepend_read not_found r = not_found
  prepend_read failed r = failed

  -- The entries from `i` on, so many of them; the first read that fails ends it.
  unfoldable pub read_logs : ℕ → ℕ → Read (List Log)
  unfolding prepend_read
  read_logs zero i = found []
  read_logs (suc count) i = prepend_read (lg.get_log n.logs i) (read_logs count (i + 1))

  unfoldable pub set_new_logs : ℕ → ℕ → Read (List Log)
  unfolding min
  set_new_logs next_index last_index =
      read_logs (min (next_index + max_append_entries - 1) last_index + 1 - next_index) next_index

  request_of : ℕ → Read (ℕ × ℕ) → Read (List Log) → Read AppendEntriesRequest
  request_of term (found prev) (found entries) = found (record {
    header = get_rpc_header env;
    term = term;
    leader = env.encode_peer env.local_id env.local_addr;
    prev_log_entry = prev.0;
    prev_log_term = prev.1;
    entries = entries;
    leader_commit_index = n.commit_index;
  })
  request_of term (found prev) not_found = not_found
  request_of term (found prev) failed = failed
  request_of term not_found r = not_found
  request_of term failed r = failed

  -- `term` is the term of the followerReplication.
  unfoldable pub setup_append_entries : ℕ → ℕ → ℕ → Read AppendEntriesRequest
  unfolding request_of
  setup_append_entries term next_index last_index =
      request_of term (set_previous_log next_index) (set_new_logs next_index last_index)

  module _ (around : Surroundings) where
    snapshot_request : ℕ → SnapshotMeta → InstallSnapshotRequest
    snapshot_request term meta = record {
      header = get_rpc_header env;
      snapshot_version = meta.version;
      term = term;
      leader = env.encode_peer env.local_id env.local_addr;
      last_log_index = meta.index;
      last_log_term = meta.term;
      peers = meta.peers;
      configuration = env.encode_configuration meta.configuration;
      configuration_index = meta.configuration_index;
      size = meta.size;
    }

    send_opened : around.W → Replicator → Option SnapshotMeta → SnapshotEnd × around.W
    unfolding snapshot_request
    send_opened w s none = (broken s, w)
    send_opened w s (some meta) =
        let r = around.install_snapshot w (snapshot_request s.follower.current_term meta) in
        (after_install (around.now r.1) meta s.follower.current_term r.0 s, r.1)

    send_listed : around.W → Replicator → Option (List SnapshotMeta) → SnapshotEnd × around.W
    unfolding send_opened
    send_listed w s none = (broken s, w)
    send_listed w s (some []) = (broken s, w)
    send_listed w s (some (meta ∷ rest)) = send_opened w s (around.open_snapshot w meta.id)

    unfoldable pub send_latest_snapshot : around.W → Replicator → SnapshotEnd × around.W
    unfolding send_listed
    send_latest_snapshot w s = send_listed w s (around.list_snapshots w)

    -- How replicateTo ends: shouldStop, the state, the surroundings; `none` is a lack of fuel.
    abbrev pub Replicated : Type 0
    Replicated = Option (Bool × Replicator × around.W)

    -- CHECK_MORE; `again` goes to START.
    check_more : (around.W → Replicator → Replicated) → ℕ → around.W → Replicator → Replicated
    check_more again last_index w s = elim (around.stop_requested w) [
      | true ↦ some (true, s, w)
      | false ↦ elim (leb s.follower.next_index last_index) [
        | true ↦ again w s
        | false ↦ some (false, s, w)
      ]
    ]

    after_call :
        (around.W → Replicator → Replicated)
        → ℕ
        → AppendEntriesRequest
        → Replicator
        → Option AppendEntriesResponse × around.W
        → Replicated
    unfolding check_more
    after_call again last_index req s (none, w) = some (false, count_failure s, w)
    after_call again last_index req s (some resp, w) =
        let r = after_response (around.now w) req resp s in
        elim r.0 [ true ↦ some (true, r.1, w) | false ↦ check_more again last_index w r.1 ]

    -- SEND_SNAP.
    after_snapshot : (around.W → Replicator → Replicated) → ℕ → SnapshotEnd × around.W → Replicated
    unfolding check_more
    after_snapshot again last_index (stopped s, w) = some (true, s, w)
    after_snapshot again last_index (broken s, w) = some (false, s, w)
    after_snapshot again last_index (sent s, w) = check_more again last_index w s

    with_request :
        (around.W → Replicator → Replicated)
        → ℕ
        → around.W
        → Replicator
        → Read AppendEntriesRequest
        → Replicated
    unfolding after_call after_snapshot
    with_request again last_index w s (found req) =
        after_call again last_index req s (around.append_entries w req)
    with_request again last_index w s not_found =
        after_snapshot again last_index (send_latest_snapshot w s)
    with_request again last_index w s failed = some (false, s, w)

    -- One round of fuel is one pass from START.
    pub replicate_to : ℕ → ℕ → around.W → Replicator → Replicated
    unfolding with_request
    replicate_to zero last_index w s = none
    replicate_to (suc fuel) last_index w s =
        with_request (replicate_to fuel last_index) last_index w s
          (setup_append_entries s.follower.current_term s.follower.next_index last_index)

    -- pipelineSend: whether to stop, and the next index to send; the call only says whether it was sent.
    pipelined : ℕ → Read AppendEntriesRequest → (AppendEntriesRequest → Bool) → Bool × ℕ
    unfolding last_entry
    pipelined next_index (found req) sends =
        if sends req
        then (false, elim (last_entry req.entries) [ some i ↦ inc64 i | none ↦ next_index ])
        else (true, next_index)
    pipelined next_index not_found sends = (true, next_index)
    pipelined next_index failed sends = (true, next_index)

    pub pipeline_send : (AppendEntriesRequest → Bool) → Follower → ℕ → ℕ → Bool × ℕ
    unfolding pipelined
    pipeline_send sends f next_index last_index =
        pipelined next_index (setup_append_entries f.current_term next_index last_index) sends

-- One response of pipelineDecode: whether it goes on, and the state.
pub pipeline_decode :
    ℕ → AppendEntriesRequest → AppendEntriesResponse → Replicator → Bool × Replicator
unfolding handle_stale_term set_last_contact update_last_appended
pipeline_decode now req resp s =
    if ltb req.term resp.term
    then (false, handle_stale_term s)
    else let c = set_last_contact now s in
      if not resp.success then (false, c) else (true, update_last_appended c req)

-- One answer in heartbeat, with the failures in a row before it.
pub heartbeat : ℕ → Option AppendEntriesResponse → ℕ → Replicator → ℕ × Replicator
unfolding set_last_contact notify_all
heartbeat now none failures s = (failures + 1, s)
heartbeat now (some resp) failures s = (0, notify_all resp.success (set_last_contact now s))

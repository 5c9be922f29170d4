-- ===== src/Replication/Progress.antt =====
-- replicateTo of replication.go: the next index is an index of the log.
use perf_raft.Prelude.{
  ℕ, zero, suc, ◌+◌, ◌^◌, ◌<◌, ◌≡◌, ◌≤◌, String, refl, subst, Bool, Option, none, some, List, [],
  ◌∷◌, ltb, leb, arith, Bool-cases, Option-cases, inl, inr,
}
use perf_raft.LogStore.{Log, Read, found, not_found, failed, LogStore, StableStore}
use perf_raft.Node.{Node, Env}
use perf_raft.Append.{AppendEntriesRequest, AppendEntriesResponse}
use perf_raft.Replication.{
  max, SnapshotMeta, InstallSnapshotResponse, Surroundings, Replicator, notify_all,
  handle_stale_term, set_last_contact, acknowledge, last_entry, appended_to, update_last_appended,
  after_response, count_failure, SnapshotEnd, stopped, broken, sent, after_install, send_opened,
  send_listed, send_latest_snapshot, check_more, after_call, after_snapshot, with_request,
  replicate_to, prepend_read, read_logs, request_of, set_new_logs, setup_append_entries,
}

-- An index, if there is one, before the last 64-bit number.
abbrev pub IsSmall : Option ℕ → Type 0
IsSmall none = Unit
IsSmall (some i) = i + 1 < 2 ^ 64

-- The entries of a log store have such indexes.
abbrev pub SmallLog : (lg : LogStore) → lg.S → Type 0
SmallLog lg s = (i : ℕ) (l : Log) → lg.get_log s i ≡ found l → l.index + 1 < 2 ^ 64

-- The snapshots that are opened have such indexes.
abbrev pub SmallSnapshots : Surroundings → Type 0
SmallSnapshots around =
    (w : around.W) (id : String) (meta : SnapshotMeta)
    → around.open_snapshot w id ≡ some meta
    → meta.index + 1 < 2 ^ 64

abbrev AllSmall : List Log → Type 0
AllSmall [] = Unit
AllSmall (l ∷ ls) = (l.index + 1 < 2 ^ 64) × AllSmall ls

last_entry-IsSmall : (ls : List Log) → AllSmall ls → IsSmall (last_entry ls)
unfolding last_entry
last_entry-IsSmall [] h = tt
last_entry-IsSmall (l ∷ ls) h = elim (Option-cases (last_entry ls)) [
  | inl e ↦ rw (e, last_entry) h.0
  | inr (i, e) ↦ rw (e, last_entry) (subst IsSmall e (last_entry-IsSmall ls h.1))
]

-- The next index is not 0.
abbrev pub IsPlaced : Replicator → Type 0
IsPlaced s = 1 ≤ s.follower.next_index

after_response-IsPlaced :
    (now : ℕ) (req : AppendEntriesRequest) (resp : AppendEntriesResponse) (s : Replicator)
    → IsSmall (last_entry req.entries)
    → IsPlaced s
    → IsPlaced (after_response now req resp s).1
unfolding after_response handle_stale_term notify_all set_last_contact update_last_appended
    appended_to acknowledge max
after_response-IsPlaced now req resp s small h = elim (Option-cases (last_entry req.entries)) [
  | inl e ↦ ground (arith, e, h)
  | inr (i, e) ↦ ground (arith, e, h, subst IsSmall e small)
]

abbrev EndsPlaced : SnapshotEnd → Type 0
EndsPlaced (stopped s) = IsPlaced s
EndsPlaced (broken s) = IsPlaced s
EndsPlaced (sent s) = IsPlaced s

after_install-EndsPlaced :
    (now : ℕ) (meta : SnapshotMeta) (term : ℕ) (o : Option InstallSnapshotResponse) (s : Replicator)
    → meta.index + 1 < 2 ^ 64
    → IsPlaced s
    → EndsPlaced (after_install now meta term o s)
unfolding after_install handle_stale_term notify_all set_last_contact acknowledge count_failure
after_install-EndsPlaced now meta term none s small h = h
after_install-EndsPlaced now meta term (some resp) s small h =
    elim (Bool-cases (ltb term resp.term)) [
      | inl e ↦ rw e h
      | inr e ↦ elim (Bool-cases resp.success) [
        | inl d ↦ rw e (rw d (omega (arith, small)))
        | inr d ↦ rw e (rw d h)
      ]
    ]

module _ (st : StableStore) (lg : LogStore) (env : Env) (max_append_entries : ℕ)
    (n : Node st.S lg.S) (around : Surroundings) where
  abbrev pub EndsIn : (Replicator → Type 0) → Option (Bool × Replicator × around.W) → Type 0
  EndsIn P none = Unit
  EndsIn P (some (stop, s, w)) = P s

  abbrev Keeps : (around.W → Replicator → Option (Bool × Replicator × around.W)) → Type 0
  Keeps again = (w : around.W) (s : Replicator) → IsPlaced s → EndsIn IsPlaced (again w s)

  abbrev pub RequestSmall : Read AppendEntriesRequest → Type 0
  RequestSmall (found req) = IsSmall (last_entry req.entries)
  RequestSmall not_found = Unit
  RequestSmall failed = Unit

  abbrev ReadSmall : Read (List Log) → Type 0
  ReadSmall (found ls) = AllSmall ls
  ReadSmall not_found = Unit
  ReadSmall failed = Unit

  prepend_read-ReadSmall :
      (a : Read Log) (r : Read (List Log))
      → ((l : Log) → a ≡ found l → l.index + 1 < 2 ^ 64)
      → ReadSmall r
      → ReadSmall (prepend_read st lg env max_append_entries n a r)
  unfolding prepend_read
  prepend_read-ReadSmall (found l) (found ls) h k = (h l refl, k)
  prepend_read-ReadSmall (found l) not_found h k = tt
  prepend_read-ReadSmall (found l) failed h k = tt
  prepend_read-ReadSmall not_found r h k = tt
  prepend_read-ReadSmall failed r h k = tt

  request_of-RequestSmall :
      (term : ℕ) (p : Read (ℕ × ℕ)) (r : Read (List Log))
      → ReadSmall r
      → RequestSmall (request_of st lg env max_append_entries n term p r)
  unfolding request_of
  request_of-RequestSmall term (found p) (found ls) h = last_entry-IsSmall ls h
  request_of-RequestSmall term (found p) not_found h = tt
  request_of-RequestSmall term (found p) failed h = tt
  request_of-RequestSmall term not_found r h = tt
  request_of-RequestSmall term failed r h = tt

  module _ (small_log : SmallLog lg n.logs) where
    read_logs-ReadSmall :
        (count i : ℕ) → ReadSmall (read_logs st lg env max_append_entries n count i)
    unfolding read_logs
    read_logs-ReadSmall zero i = tt
    read_logs-ReadSmall (suc count) i =
        prepend_read-ReadSmall (lg.get_log n.logs i) _ (small_log i)
          (read_logs-ReadSmall count (i + 1))

    pub setup_append_entries-RequestSmall :
        (term next last : ℕ)
        → RequestSmall (setup_append_entries st lg env max_append_entries n term next last)
    unfolding setup_append_entries set_new_logs
    setup_append_entries-RequestSmall term next last =
        request_of-RequestSmall term _ _ (read_logs-ReadSmall _ next)

  module _ (small_log : SmallLog lg n.logs) (small_snapshots : SmallSnapshots around) where
    send_opened-EndsPlaced :
        (w : around.W) (s : Replicator) (o : Option SnapshotMeta)
        → ((meta : SnapshotMeta) → o ≡ some meta → meta.index + 1 < 2 ^ 64)
        → IsPlaced s
        → EndsPlaced (send_opened st lg env max_append_entries n around w s o).0
    unfolding send_opened
    send_opened-EndsPlaced w s none small h = h
    send_opened-EndsPlaced w s (some meta) small h =
        after_install-EndsPlaced _ meta _ _ s (small meta refl) h

    send_listed-EndsPlaced :
        (w : around.W) (s : Replicator) (o : Option (List SnapshotMeta))
        → IsPlaced s
        → EndsPlaced (send_listed st lg env max_append_entries n around w s o).0
    unfolding send_listed
    send_listed-EndsPlaced w s none h = h
    send_listed-EndsPlaced w s (some []) h = h
    send_listed-EndsPlaced w s (some (meta ∷ rest)) h =
        send_opened-EndsPlaced w s _ (small_snapshots w meta.id) h

    check_more-EndsIn :
        (again : around.W → Replicator → Option (Bool × Replicator × around.W))
        → Keeps again
        → (last : ℕ) (w : around.W) (s : Replicator) → IsPlaced s
        → EndsIn IsPlaced (check_more st lg env max_append_entries n around again last w s)
    unfolding check_more
    check_more-EndsIn again k last w s h = elim (Bool-cases (around.stop_requested w)) [
      | inl e ↦ rw (e, EndsIn) h
      | inr e ↦ elim (Bool-cases (leb s.follower.next_index last)) [
        | inl d ↦ rw (e, EndsIn) (rw (d, EndsIn) (k w s h))
        | inr d ↦ rw (e, EndsIn) (rw (d, EndsIn) h)
      ]
    ]

    after_snapshot-EndsIn :
        (again : around.W → Replicator → Option (Bool × Replicator × around.W))
        → Keeps again
        → (last : ℕ) (r : SnapshotEnd × around.W) → EndsPlaced r.0
        → EndsIn IsPlaced (after_snapshot st lg env max_append_entries n around again last r)
    unfolding after_snapshot
    after_snapshot-EndsIn again k last (stopped s, w) h = h
    after_snapshot-EndsIn again k last (broken s, w) h = h
    after_snapshot-EndsIn again k last (sent s, w) h = check_more-EndsIn again k last w s h

    after_call-EndsIn :
        (again : around.W → Replicator → Option (Bool × Replicator × around.W))
        → Keeps again
        → (last : ℕ) (req : AppendEntriesRequest) (s : Replicator)
          (r : Option AppendEntriesResponse × around.W)
        → IsSmall (last_entry req.entries)
        → IsPlaced s
        → EndsIn IsPlaced (after_call st lg env max_append_entries n around again last req s r)
    unfolding after_call count_failure
    after_call-EndsIn again k last req s (none, w) small h = h
    after_call-EndsIn again k last req s (some resp, w) small h =
        let placed = after_response-IsPlaced (around.now w) req resp s small h in
        elim (Bool-cases (after_response (around.now w) req resp s).0) [
          | inl e ↦ rw (e, EndsIn) placed
          | inr e ↦ rw (e, EndsIn) (check_more-EndsIn again k last w _ placed)
        ]

    with_request-EndsIn :
        (again : around.W → Replicator → Option (Bool × Replicator × around.W))
        → Keeps again
        → (last : ℕ) (w : around.W) (s : Replicator) (r : Read AppendEntriesRequest)
        → RequestSmall r
        → IsPlaced s
        → EndsIn IsPlaced (with_request st lg env max_append_entries n around again last w s r)
    unfolding with_request send_latest_snapshot
    with_request-EndsIn again k last w s (found req) small h =
        after_call-EndsIn again k last req s (around.append_entries w req) small h
    with_request-EndsIn again k last w s not_found small h =
        after_snapshot-EndsIn again k last
          (send_latest_snapshot st lg env max_append_entries n around w s)
          (send_listed-EndsPlaced w s (around.list_snapshots w) h)
    with_request-EndsIn again k last w s failed small h = h

    -- With entries and snapshots before the last 64-bit number, whatever the peer and the transport
    -- answer, replicateTo leaves a next index of at least 1 behind if it began with one.
    pub replicate_to-EndsIn :
        (fuel last : ℕ) (w : around.W) (s : Replicator)
        → IsPlaced s
        → EndsIn IsPlaced (replicate_to st lg env max_append_entries n around fuel last w s)
    unfolding replicate_to
    replicate_to-EndsIn zero last w s h = tt
    replicate_to-EndsIn (suc fuel) last w s h =
        with_request-EndsIn _ (replicate_to-EndsIn fuel last) last w s _
          (setup_append_entries-RequestSmall small_log _ _ last) h

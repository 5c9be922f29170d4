-- ===== src/Replication/Request.antt =====
-- setupAppendEntries of replication.go: which entries a request carries.
use perf_raft.Prelude.{
  ℕ, zero, suc, ◌+◌, ◌-◌, ◌≤◌, ◌<◌, ◌≡◌, ◌≢◌, none, some, List, [], ◌∷◌, ◌==◌, if◌then◌else◌,
  length, arith, refl, ap, ◌∙◌, Bool-cases, inl, inr, sym, subst,
}
use perf_raft.LogStore.{Log, Read, found, not_found, failed, LogStore, StableStore}
use perf_raft.Node.{Node, Env, get_rpc_header}
use perf_raft.Append.{AppendEntriesRequest}
use perf_raft.Replication.{
  min, last_entry, entry_place, set_previous_log, prepend_read, read_logs, set_new_logs, request_of,
  setup_append_entries,
}

-- Entries with the indexes from `i` on, one after the other.
abbrev pub ConsecutiveFrom : ℕ → List Log → Type 0
ConsecutiveFrom i [] = Unit
ConsecutiveFrom i (l ∷ ls) = (l.index ≡ i) × ConsecutiveFrom (i + 1) ls

pub last_entry-ConsecutiveFrom :
    (i : ℕ) (es : List Log)
    → ConsecutiveFrom i es
    → last_entry es ≡ (if length es == 0 then none else some (i + length es - 1))
unfolding last_entry
last_entry-ConsecutiveFrom i [] c = refl
last_entry-ConsecutiveFrom i (e ∷ es) c =
    ground (arith, last_entry-ConsecutiveFrom (i + 1) es c.1, c.0)

module _ (st : StableStore) (lg : LogStore) (env : Env) (max_append_entries : ℕ)
    (n : Node st.S lg.S) where
  -- The log has every entry between the two indexes, under its own index.
  abbrev pub Holds : ℕ → ℕ → Type 0
  Holds lo hi =
      (i : ℕ) → lo ≤ i → i ≤ hi → (l : Log) × (lg.get_log n.logs i ≡ found l) × (l.index ≡ i)

  read_logs_found :
      (count i : ℕ)
      → Holds i (i + count - 1)
      → (es : List Log) × (read_logs st lg env max_append_entries n count i ≡ found es)
        × ConsecutiveFrom i es
        × (length es ≡ count)
  unfolding read_logs prepend_read
  read_logs_found zero i h = ([], refl, tt, refl)
  read_logs_found (suc count) i h =
      let (l, got, at) = h i (omega arith) (omega arith) in
      let (es, read, cons, len) =
        read_logs_found count (i + 1)
          (λ j le lt. h j (omega (arith, le)) (omega (arith, le, lt))) in
      (l ∷ es, rw got (rw read refl), (at, cons), ap suc len)

  set_previous_log_found :
      (next last : ℕ)
      → 1 ≤ next
      → next ≤ last + 1
      → Holds 1 last
      → (term : ℕ) × (set_previous_log st lg env max_append_entries n next ≡ found (next - 1, term))
  unfolding set_previous_log entry_place
  set_previous_log_found next last ge le h = elim (Bool-cases (next == 1)) [
    | inl e ↦ (0, ground (arith, e))
    | inr e ↦ elim (Bool-cases (next - 1 == n.last_snapshot_index)) [
      | inl d ↦ (n.last_snapshot_term, ground (arith, e, d))
      | inr d ↦
          let (l, got, at) = h (next - 1) (ground (arith, e, ge)) (omega (arith, le)) in
          (l.term, rw e (rw d (rw got (rw at refl))))
    ]
  ]

  -- What a request says about the part of the log that it carries.
  pub record Carries (term next last : ℕ) (req : AppendEntriesRequest) : Type 0 where
    pub of_term : req.term ≡ term
    pub previous : req.prev_log_entry ≡ next - 1
    pub consecutive : ConsecutiveFrom next req.entries
    pub count : length req.entries ≡ min max_append_entries (last + 1 - next)

  request_with : ℕ → ℕ × ℕ → List Log → AppendEntriesRequest
  request_with term prev entries = record {
    header = get_rpc_header env;
    term = term;
    leader = env.encode_peer env.local_id env.local_addr;
    prev_log_entry = prev.0;
    prev_log_term = prev.1;
    entries = entries;
    leader_commit_index = n.commit_index;
  }

  upper :
      (next last i : ℕ)
      → 1 ≤ next
      → next ≤ last + 1
      → next ≤ i
      → i ≤ next + (min (next + max_append_entries - 1) last + 1 - next) - 1
      → i ≤ last
  unfolding min
  upper next last i ge le lo hi = ground (arith, ge, le, lo, hi)

  counted :
      (next last : ℕ)
      → 1 ≤ next
      → next ≤ last + 1
      → min (next + max_append_entries - 1) last + 1 - next
        ≡ min max_append_entries (last + 1 - next)
  unfolding min
  counted next last ge le = ground (arith, ge, le)

  -- If the log holds the entries from the one before the next index up to the last index, a request is
  -- set up: its previous entry is the one before the next index, its entries have the indexes from there
  -- on without a gap, and there are as many as are left, up to the limit.
  pub setup_append_entries-Carries :
      (term next last : ℕ)
      → 1 ≤ next
      → next ≤ last + 1
      → Holds 1 last
      → (req : AppendEntriesRequest) × (setup_append_entries st lg env max_append_entries n term
            next last
          ≡ found req)
        × Carries term next last req
  unfolding setup_append_entries set_new_logs request_of request_with
  setup_append_entries-Carries term next last ge le holds =
      let (t, prev) = set_previous_log_found next last ge le holds in
      let count = min (next + max_append_entries - 1) last + 1 - next in
      let (es, read, cons, len) =
        read_logs_found count next
          (λ i lo hi. holds i (omega (arith, lo, ge)) (upper next last i ge le lo hi)) in
      (
        request_with term (next - 1, t) es,
        rw prev (rw read refl),
        record {
          of_term = refl;
          previous = refl;
          consecutive = cons;
          count = len ∙ counted next last ge le;
        },
      )

  not_prepended :
      (o : Read Log) (r : Read (List Log))
      → ((es : List Log) → r ≢ found es)
      → (es : List Log) → prepend_read st lg env max_append_entries n o r ≢ found es
  unfolding prepend_read
  not_prepended (found l) (found ls) h es e = h ls refl
  not_prepended (found l) not_found h es e = ground (arith, e)
  not_prepended (found l) failed h es e = ground (arith, e)
  not_prepended not_found r h es e = ground (arith, e)
  not_prepended failed r h es e = ground (arith, e)

  -- A batch that reaches over a missing entry cannot be read.
  read_logs-hole :
      (count i j : ℕ)
      → i ≤ j
      → j < i + count
      → lg.get_log n.logs j ≡ not_found
      → (es : List Log) → read_logs st lg env max_append_entries n count i ≢ found es
  unfolding read_logs prepend_read
  read_logs-hole zero i j le lt h es e = omega (arith, le, lt)
  read_logs-hole (suc count) i j le lt h es e = elim (Bool-cases (i == j)) [
    | inl here ↦
        let at : i ≡ j = ground (arith, here) in
        let missing = subst (λ k. lg.get_log n.logs k ≡ not_found) (sym at) h in
        ground (arith, missing, e)
    | inr other ↦
        let rest =
          read_logs-hole count (i + 1) j (ground (arith, le, other)) (omega (arith, lt)) h in
        not_prepended _ _ rest es e
  ]

  not_carried :
      (term : ℕ) (prev : Read (ℕ × ℕ)) (r : Read (List Log))
      → ((es : List Log) → r ≢ found es)
      → (req : AppendEntriesRequest)
      → request_of st lg env max_append_entries n term prev r ≢ found req
  unfolding request_of
  not_carried term (found p) (found es) h req e = h es refl
  not_carried term (found p) not_found h req e = ground (arith, e)
  not_carried term (found p) failed h req e = ground (arith, e)
  not_carried term not_found r h req e = ground (arith, e)
  not_carried term failed r h req e = ground (arith, e)

  -- No request is set up whose batch would reach over an index that the log does not have.
  pub setup_append_entries-hole :
      (term next last j : ℕ)
      → next ≤ j
      → j ≤ last
      → j < next + max_append_entries
      → lg.get_log n.logs j ≡ not_found
      → (req : AppendEntriesRequest)
      → setup_append_entries st lg env max_append_entries n term next last ≢ found req
  unfolding setup_append_entries set_new_logs min
  setup_append_entries-hole term next last j ge le lt h req =
      not_carried term _ _
        (read_logs-hole (min (next + max_append_entries - 1) last + 1 - next) next j ge
          (ground (arith, ge, le, lt)) h)
        req

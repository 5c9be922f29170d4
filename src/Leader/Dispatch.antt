-- ===== src/Leader/Dispatch.antt =====
-- dispatchLogs of raft.go: new entries go into the leader's log in order, in its term.
use mathlib.Core.Bool.{false≢true}
use perf_raft.Prelude.{
  ℕ, ◌+◌, ◌<◌, ◌≡◌, true, List, [], ◌∷◌, ◌++◌, length, arith, some, refl, ap, ◌∙◌, Bool-cases, inl,
  inr,
}
use perf_raft.Commitment.{match}
use perf_raft.LogStore.{Log, LogStore, LogStoreLaws, StableStore, after_batch, latest, found}
use perf_raft.Node.{Env, get_last_index, set_last_log}
use perf_raft.Append.Entries.{RisingFrom, latest-head, latest-before}
use perf_raft.Leader.{Leader, number_logs, dispatch_logs}

number_logs-RisingFrom :
    (last term now : ℕ) (logs : List Log) → RisingFrom (last + 1) (number_logs last term now logs)
unfolding number_logs
number_logs-RisingFrom last term now [] = tt
number_logs-RisingFrom last term now (l ∷ ls) =
    (omega arith, number_logs-RisingFrom (last + 1) term now ls)

-- Every entry is of the term.
abbrev pub OfTerm : ℕ → List Log → Type 0
OfTerm t [] = Unit
OfTerm t (l ∷ ls) = (l.term ≡ t) × OfTerm t ls

number_logs-OfTerm :
    (last term now : ℕ) (logs : List Log) → OfTerm term (number_logs last term now logs)
unfolding number_logs
number_logs-OfTerm last term now [] = tt
number_logs-OfTerm last term now (l ∷ ls) = (refl, number_logs-OfTerm (last + 1) term now ls)

-- The entries carry, one for each of the logs and in their order, its type, its data and its extensions;
-- their indexes are `i` and those that follow it.
abbrev pub Carry : ℕ → List Log → List Log → Type 0
Carry i [] [] = Unit
Carry i [] (e ∷ es) = ⊥
Carry i (l ∷ ls) [] = ⊥
Carry i (l ∷ ls) (e ∷ es) =
    (e.index ≡ i)
    × (e.log_type ≡ l.log_type)
    × (e.payload ≡ l.payload)
    × (e.extensions ≡ l.extensions)
    × Carry (i + 1) ls es

number_logs-Carry :
    (last term now : ℕ) (logs : List Log) → Carry (last + 1) logs (number_logs last term now logs)
unfolding number_logs
number_logs-Carry last term now [] = tt
number_logs-Carry last term now (l ∷ ls) =
    (refl, refl, refl, refl, number_logs-Carry (last + 1) term now ls)

-- Each of the entries is read back from the store as it is.
abbrev pub ReadBack : (lg : LogStore) → lg.S → List Log → Type 0
ReadBack lg s [] = Unit
ReadBack lg s (e ∷ es) = (lg.get_log s e.index ≡ found e) × ReadBack lg s es

ReadBack-batch :
    (lg : LogStore) (s : lg.S) (i : ℕ) (es : List Log)
    → RisingFrom i es
    → ((j : ℕ) (l : Log) → latest j es ≡ some l → lg.get_log s j ≡ found l)
    → ReadBack lg s es
unfolding latest
ReadBack-batch lg s i [] r h = tt
ReadBack-batch lg s i (e ∷ es) r h = (
  h e.index e (latest-head e es r.1),
  ReadBack-batch lg s (e.index + 1) es r.1 (λ j l k. h j l (rw k refl)),
)

module _ (st : StableStore) (lg : LogStore) (laws : LogStoreLaws lg) (env : Env) where
  -- What a dispatch that succeeded leaves behind.
  pub record Dispatched (l m : Leader st.S lg.S) (logs : List Log) : Type 0 where
    pub entries : List Log
    pub rising : RisingFrom (get_last_index l.node + 1) entries
    pub carry : Carry (get_last_index l.node + 1) logs entries
    pub read_back : ReadBack lg m.node.logs entries
    pub of_term : OfTerm l.node.current_term entries
    pub kept :
        (j : ℕ)
        → j < get_last_index l.node + 1
        → lg.get_log m.node.logs j ≡ lg.get_log l.node.logs j
    pub queued : m.inflight ≡ l.inflight ++ entries
    pub last_index : get_last_index m.node ≡ get_last_index l.node + length logs
    pub acknowledged :
        m.commitment ≡ match l.commitment env.local_id (get_last_index l.node + length logs)

  -- When dispatchLogs can write its entries, there is one for each of the given logs, in their order and
  -- with its type, data and extensions, at the indexes that follow the last one and in the leader's
  -- term; each is read back from the log as it is, and they stand in this order at the end of the queue;
  -- nothing before them has changed; the last index has grown by their number, and is reported as stored
  -- by the leader itself. The log store keeps the laws of reads after writes.
  pub dispatch_logs-Dispatched :
      (l : Leader st.S lg.S) (now : ℕ) (logs : List Log)
      → (dispatch_logs st lg env l now logs).0 ≡ true
      → Dispatched l (dispatch_logs st lg env l now logs).1 logs
  unfolding dispatch_logs set_last_log get_last_index
  dispatch_logs-Dispatched l now logs h = elim (Bool-cases (lg.store_logs l.node.logs entries).0) [
    | inr w ↦ absurd (false≢true (rw w at h))
    | inl w ↦ rw w (record {
      entries = entries;
      rising = rising;
      carry = number_logs-Carry (get_last_index l.node) l.node.current_term now logs;
      of_term = number_logs-OfTerm (get_last_index l.node) l.node.current_term now logs;
      read_back =
          ReadBack-batch lg (lg.store_logs l.node.logs entries).1 (get_last_index l.node + 1)
            entries rising
            (λ j k e.
              laws.get_log-store_logs l.node.logs entries j w
              ∙ ap (λ o. after_batch o (lg.get_log l.node.logs j)) e);
      kept = λ j lt.
          laws.get_log-store_logs l.node.logs entries j w
          ∙ ap (λ o. after_batch o (lg.get_log l.node.logs j))
              (latest-before j (get_last_index l.node + 1) entries lt rising);
      queued = refl;
      last_index = ground arith;
      acknowledged = refl;
    })
  ]
    where
      entries : List Log
      entries = number_logs (get_last_index l.node) l.node.current_term now logs

      rising : RisingFrom (get_last_index l.node + 1) entries
      rising = number_logs-RisingFrom (get_last_index l.node) l.node.current_term now logs

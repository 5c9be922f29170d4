-- ===== src/Append/Entries.antt =====
-- What appendEntries of raft.go does to the log.
use perf_raft.Prelude.{
  ℕ, ◌+◌, ◌<◌, ◌≤◌, ◌≡◌, inl, inr, true, none, some, List, [], ◌∷◌, ltb, leb, ◌==◌, if◌then◌else◌,
  refl, sym, ap, subst, ◌∙◌, arith, Bool-cases,
}
use perf_raft.LogStore.{
  Log, Read, found, not_found, failed, LogStore, LogStoreLaws, StableStore, latest, after_batch,
}
use perf_raft.Node.{Node, Env, set_latest_configuration, set_last_log}
use perf_raft.Process.{Step, next, stop, die, ◌>>=◌, process_configuration_log_entry}
use perf_raft.Process.Untouched.{SameLogs, SameLogs-bind, process_configuration_log_entry-SameLogs}
use perf_raft.Append.{
  AppendEntriesRequest, to_store, gave_up, cut_suffix, scan_entries, adopt_configurations,
  store_entries, take_entries, last_of,
}
use perf_raft.Vote.{is_empty}

-- Entries with rising indexes, all from `i` on.
abbrev pub RisingFrom : ℕ → List Log → Type 0
RisingFrom i [] = Unit
RisingFrom i (e ∷ es) = (i ≤ e.index) × RisingFrom (e.index + 1) es

RisingFrom-le : (i j : ℕ) (es : List Log) → i ≤ j → RisingFrom j es → RisingFrom i es
RisingFrom-le i j [] h r = tt
RisingFrom-le i j (e ∷ es) h r = (omega (arith, r.0), r.1)

-- A store has an entry with this index and term for each of the entries.
abbrev pub Stored : (lg : LogStore) → lg.S → List Log → Type 0
Stored lg s [] = Unit
Stored lg s (e ∷ es) =
    ((l : Log) × (lg.get_log s e.index ≡ found l) × (l.term ≡ e.term)) × Stored lg s es

pub latest-before : (i j : ℕ) (es : List Log) → i < j → RisingFrom j es → latest i es ≡ none
unfolding latest
latest-before i j [] h r = refl
latest-before i j (e ∷ es) h r =
    ground (arith, latest-before i (e.index + 1) es (omega (arith, r.0)) r.1, r.0)

pub latest-head :
    (e : Log) (es : List Log) → RisingFrom (e.index + 1) es → latest e.index (e ∷ es) ≡ some e
unfolding latest
latest-head e es r = ground (arith, latest-before e.index (e.index + 1) es (omega arith) r)

-- A batch that was stored can be read back, if its indexes rise.
pub Stored-batch :
    (lg : LogStore) (s : lg.S) (i : ℕ) (es : List Log)
    → RisingFrom i es
    → ((j : ℕ) → i ≤ j → (l : Log) → latest j es ≡ some l → lg.get_log s j ≡ found l)
    → Stored lg s es
unfolding latest
Stored-batch lg s i [] r h = tt
Stored-batch lg s i (e ∷ es) r h = (
  (e, h e.index r.0 e (latest-head e es r.1), refl),
  Stored-batch lg s (e.index + 1) es r.1 (λ j le l k. h j (omega (arith, r.0)) l (rw k refl)),
)

-- The logs after a step have the entries, and below `i` they are as before; an early return or a panic
-- says nothing.
abbrev pub Appended : (lg : LogStore) {St : Type 0} → lg.S → ℕ → List Log → Step St lg.S → Type 0
Appended lg s i es (stop m e) = Unit
Appended lg s i es (die m) = Unit
Appended lg s i es (next m) =
    Stored lg m.logs es × ((j : ℕ) → j < i → lg.get_log m.logs j ≡ lg.get_log s j)

module _ (st : StableStore) (lg : LogStore) (laws : LogStoreLaws lg) (env : Env) where
  adopt_configurations-SameLogs :
      (n : Node st.S lg.S) (es : List Log) → SameLogs n (adopt_configurations st lg env n es)
  unfolding adopt_configurations
  adopt_configurations-SameLogs n [] = refl
  adopt_configurations-SameLogs n (e ∷ es) =
      SameLogs-bind n (process_configuration_log_entry env n e) _
        (process_configuration_log_entry-SameLogs env n e) (λ m. adopt_configurations-SameLogs m es)

  -- A batch on its own.
  store_entries-Appended :
      (n : Node st.S lg.S) (i : ℕ) (e : Log) (es : List Log)
      → RisingFrom i (e ∷ es)
      → Appended lg n.logs i (e ∷ es) (store_entries st lg env (to_store n (e ∷ es)))
  unfolding store_entries set_last_log
  store_entries-Appended n i e es r = elim (Bool-cases (lg.store_logs n.logs (e ∷ es)).0) [
    | inr w ↦ rw w tt
    | inl w ↦ rw w (
        finished
          (adopt_configurations st lg env (record n { logs = (lg.store_logs n.logs (e ∷ es)).1 })
            (e ∷ es))
          w (adopt_configurations-SameLogs _ (e ∷ es)))
  ]
    where
      finished :
          (q : Step st.S lg.S)
          → (lg.store_logs n.logs (e ∷ es)).0 ≡ true
          → SameLogs (record n { logs = (lg.store_logs n.logs (e ∷ es)).1 }) q
          → Appended lg n.logs i (e ∷ es) (
              q >>= λ k.
              next (set_last_log k (last_of st lg env e es).index (last_of st lg env e es).term))
      finished (stop m b) w same = tt
      finished (die m) w same = tt
      finished (next m) w same =
          subst
            (λ s. Stored lg s (e ∷ es) × ((j : ℕ) → j < i → lg.get_log s j ≡ lg.get_log n.logs j))
            (sym same)
            (
              Stored-batch lg (lg.store_logs n.logs (e ∷ es)).1 i (e ∷ es) r (λ j le l k.
                  laws.get_log-store_logs n.logs (e ∷ es) j w
                  ∙ ap (λ o. after_batch o (lg.get_log n.logs j)) k),
              λ j lt.
                  laws.get_log-store_logs n.logs (e ∷ es) j w
                  ∙ ap (λ o. after_batch o (lg.get_log n.logs j)) (latest-before j i (e ∷ es) lt r),
            )

  -- An entry that the log has already is followed by the rest.
  found-Appended :
      (s : lg.S) (i : ℕ) (e l : Log) (es : List Log) (q : Step st.S lg.S)
      → i ≤ e.index
      → lg.get_log s e.index ≡ found l
      → l.term ≡ e.term
      → Appended lg s (e.index + 1) es q
      → Appended lg s i (e ∷ es) q
  found-Appended s i e l es (stop m b) le at same h = tt
  found-Appended s i e l es (die m) le at same h = tt
  found-Appended s i e l es (next m) le at same h =
      (((l, h.1 e.index (omega arith) ∙ at, same), h.0), λ j lt. h.1 j (omega (arith, le)))

  -- What was below a cut is as it was.
  cut-Appended :
      (s : lg.S) (i last : ℕ) (e : Log) (es : List Log) (q : Step st.S lg.S)
      → i ≤ e.index
      → (lg.delete_range s e.index last).0 ≡ true
      → Appended lg (lg.delete_range s e.index last).1 i (e ∷ es) q
      → Appended lg s i (e ∷ es) q
  cut-Appended s i last e es (stop m b) le w h = tt
  cut-Appended s i last e es (die m) le w h = tt
  cut-Appended s i last e es (next m) le w h =
      (h.0, λ j lt. h.1 j lt ∙ ground (arith, laws.get_log-delete_range s e.index last j w))

  cut_suffix-Appended :
      (n : Node st.S lg.S) (i last : ℕ) (e : Log) (es : List Log)
      → RisingFrom i (e ∷ es)
      → Appended lg n.logs i (e ∷ es) (store_entries st lg env (cut_suffix st lg n last e es))
  unfolding cut_suffix set_latest_configuration
  cut_suffix-Appended n i last e es r = elim (Bool-cases (lg.delete_range n.logs e.index last).0) [
    | inr w ↦ rw w (unfold store_entries in tt)
    | inl w ↦ rw w (elim (Bool-cases (leb e.index n.configurations.latest_index)) [
      | inl f ↦ rw f (cut-Appended n.logs i last e es _ r.0 w (store_entries-Appended _ i e es r))
      | inr f ↦ rw f (cut-Appended n.logs i last e es _ r.0 w (store_entries-Appended _ i e es r))
    ])
  ]

  scan_entries-Appended :
      (n : Node st.S lg.S) (last i : ℕ) (es : List Log)
      → RisingFrom i es
      → Appended lg n.logs i es (store_entries st lg env (scan_entries st lg n last es))
  unfolding scan_entries
  scan_entries-Appended n last i [] r = unfold store_entries in (tt, λ j lt. refl)
  scan_entries-Appended n last i (e ∷ es) r = elim (Bool-cases (ltb last e.index)) [
    | inl w ↦ rw w (store_entries-Appended n i e es r)
    | inr w ↦ rw w (
        compared (lg.get_log n.logs e.index) refl
          (scan_entries-Appended n last (e.index + 1) es r.1))
  ]
    where
      compared :
          (q : Read Log)
          → lg.get_log n.logs e.index ≡ q
          → Appended lg n.logs
              (e.index + 1)
              es
              (store_entries st lg env (scan_entries st lg n last es))
          → Appended lg n.logs i (e ∷ es) (
              store_entries st lg env (elim q [
                | found l ↦
                    if e.term == l.term
                    then scan_entries st lg n last es
                    else cut_suffix st lg n last e es
                | not_found ↦ gave_up n
                | failed ↦ gave_up n
              ]))
      compared (found l) at rest = elim (Bool-cases (e.term == l.term)) [
        | inl f ↦ rw f (found-Appended n.logs i e l es _ r.0 at (ground arith) rest)
        | inr f ↦ rw f (cut_suffix-Appended n i last e es r)
      ]
      compared not_found at rest = unfold store_entries in tt
      compared failed at rest = unfold store_entries in tt

  -- When the stage of the entries goes on, over any log store that keeps its word, then for every
  -- entry of the request, if their indexes rise, the log has one with its index and term; and what the
  -- log had below the first of them, or any index before it, is as it was.
  pub take_entries-Appended :
      (n : Node st.S lg.S) (a : AppendEntriesRequest) (i : ℕ)
      → RisingFrom i a.entries
      → Appended lg n.logs i a.entries (take_entries st lg env n a)
  unfolding take_entries
  take_entries-Appended n a i r = by_entries a.entries r
    where
      by_entries :
          (es : List Log)
          → RisingFrom i es
          → Appended lg n.logs i es (
              if is_empty es
              then next n
              else store_entries st lg env (scan_entries st lg n n.last_log_index es))
      by_entries [] r = (tt, λ j lt. refl)
      by_entries (e ∷ es) r = scan_entries-Appended n n.last_log_index i (e ∷ es) r

-- ===== src/Process/Batches.antt =====
-- processLogs of raft.go sends every entry once and in order.
use mathlib.Core.List.{append_assoc, append-nil}
use perf_raft.Prelude.{
  ℕ, zero, suc, ◌+◌, ◌-◌, ◌<◌, ◌≤◌, ◌≡◌, false, Option, none, some, List, [], ◌∷◌, ◌++◌, leb,
  if◌then◌else◌, length, length-append, arith, refl, sym, ap, ◌∙◌, Bool-cases, Option-cases, inl,
  inr,
}
use perf_raft.LogStore.{Log, LogStore}
use perf_raft.Node.{Node, Env}
use perf_raft.Process.{
  is_prepared, Sent, fetch, has_future, flush_full, take_entry, process_loop, flush_rest,
  process_logs,
}

-- All entries of some batches.
abbrev pub joined : List (List Log) → List Log
joined [] = []
joined (b ∷ bs) = b ++ joined bs

joined-append : (bs : List (List Log)) (b : List Log) → joined (bs ++ b ∷ []) ≡ joined bs ++ b
joined-append [] b = append-nil b
joined-append (c ∷ bs) b =
    ap (λ x. c ++ x) (joined-append bs b) ∙ sym (append_assoc c (joined bs) b)

-- Each batch has an entry, and at most `max` of them.
abbrev pub Fit : ℕ → List (List Log) → Type 0
Fit max [] = Unit
Fit max (b ∷ bs) = (0 < length b) × (length b ≤ max) × Fit max bs

Fit-append :
    (max : ℕ) (bs : List (List Log)) (b : List Log)
    → Fit max bs
    → 0 < length b
    → length b ≤ max
    → Fit max (bs ++ b ∷ [])
Fit-append max [] b f lo hi = (lo, hi, tt)
Fit-append max (c ∷ bs) b f lo hi = (f.0, f.1, Fit-append max bs b f.2 lo hi)

abbrev cons_entry : Log → Option (List Log) → Option (List Log)
cons_entry l none = none
cons_entry l (some ls) = some (l ∷ ls)

module _ (lg : LogStore) (env : Env) (max_append_entries : ℕ) (futures : ℕ → Option Log) where
  -- The entries of a number of indexes, in order; `none` if one of them cannot be read.
  unfoldable pub entries_from : ℕ → ℕ → lg.S → Option (List Log)
  entries_from zero idx logs = some []
  entries_from (suc rounds) idx logs = elim (fetch lg env max_append_entries futures logs idx) [
    | none ↦ none
    | some l ↦ cons_entry l (entries_from rounds (idx + 1) logs)
  ]

-- Those of them that the state machine gets.
pub for_fsm : Env → List Log → List Log
for_fsm env [] = []
for_fsm env (l ∷ ls) = if is_prepared env l.log_type then l ∷ for_fsm env ls else for_fsm env ls

-- The rest of the loop sent what it was to send after `before`.
abbrev LoopSent : Env → ℕ → List Log → Option (List Log × Sent) → Option (List Log) → Type 0
LoopSent env max before none none = Unit
LoopSent env max before (some (batch, sent)) (some es) =
    (joined sent.batches ++ batch ≡ before ++ for_fsm env es)
    × Fit max sent.batches
    × (length batch < max)
LoopSent env max before _ _ = ⊥

for_fsm-cons :
    (env : Env) (l : Log) (ls : List Log)
    → for_fsm env (l ∷ ls) ≡ for_fsm env (l ∷ []) ++ for_fsm env ls
unfolding for_fsm
for_fsm-cons env l ls = elim (Bool-cases (is_prepared env l.log_type)) [
  | inl e ↦ rw e refl
  | inr e ↦ rw e refl
]

LoopSent-cons :
    (env : Env) (max : ℕ) (before : List Log) (l : Log) (o : Option (List Log × Sent))
    (es : Option (List Log))
    → LoopSent env max (before ++ for_fsm env (l ∷ [])) o es
    → LoopSent env max before o (cons_entry l es)
LoopSent-cons env max before l none none h = tt
LoopSent-cons env max before l (some (batch, sent)) (some es) h = (
  h.0
      ∙ append_assoc before (for_fsm env (l ∷ [])) (for_fsm env es)
      ∙ ap (λ x. before ++ x) (sym (for_fsm-cons env l es)),
  h.1,
  h.2,
)
LoopSent-cons env max before l none (some es) h = h
LoopSent-cons env max before l (some (batch, sent)) none h = h

-- What processLogs did, by the entries that it was to handle.
abbrev pub AllSent :
    {St Lg : Type 0}
    → Env
    → ℕ
    → Node St Lg
    → ℕ
    → Option (Node St Lg × Sent)
    → Option (List Log)
    → Type 0
AllSent env max n index none none = Unit
AllSent env max n index (some (m, sent)) (some es) =
    (m ≡ record n { last_applied = index })
    × (joined sent.batches ≡ for_fsm env es)
    × Fit max sent.batches
AllSent env max n index _ _ = ⊥

module _ (lg : LogStore) (env : Env) (max_append_entries : ℕ) (futures : ℕ → Option Log) where
  take_entry-joined :
      (idx : ℕ) (l : Log) (batch : List Log) (sent : Sent)
      → Fit max_append_entries sent.batches
      → length batch < max_append_entries
      → let r = take_entry lg env max_append_entries futures idx l batch sent in
        (joined r.1.batches ++ r.0 ≡ (joined sent.batches ++ batch) ++ for_fsm env (l ∷ []))
        × Fit max_append_entries r.1.batches
        × (length r.0 < max_append_entries)
  unfolding take_entry flush_full for_fsm
  take_entry-joined idx l batch sent fit room = elim (Bool-cases (is_prepared env l.log_type)) [
    | inl e ↦ rw e (elim (Bool-cases (leb max_append_entries (length (batch ++ l ∷ [])))) [
      | inl f ↦ rw f (
        append-nil _
            ∙ joined-append sent.batches (batch ++ l ∷ [])
            ∙ sym (append_assoc (joined sent.batches) batch (l ∷ [])),
        Fit-append max_append_entries sent.batches (batch ++ l ∷ []) fit
            (omega (arith, length-append batch (l ∷ [])))
            (omega (arith, length-append batch (l ∷ []))),
        omega arith,
      )
      | inr f ↦ rw f (sym (append_assoc (joined sent.batches) batch (l ∷ [])), fit, ground arith)
    ])
    | inr e ↦ rw e (elim (Bool-cases (has_future lg env max_append_entries futures idx)) [
      | inl f ↦ rw f (sym (append-nil _), fit, room)
      | inr f ↦ rw f (sym (append-nil _), fit, room)
    ])
  ]

  -- `before` is what was sent or gathered when the loop begins.
  process_loop-LoopSent :
      (rounds idx : ℕ) (logs : lg.S) (batch : List Log) (sent : Sent) (before : List Log)
      → joined sent.batches ++ batch ≡ before
      → Fit max_append_entries sent.batches
      → length batch < max_append_entries
      → LoopSent env max_append_entries before
          (process_loop lg env max_append_entries futures rounds idx logs batch sent)
          (entries_from lg env max_append_entries futures rounds idx logs)
  unfolding process_loop entries_from for_fsm
  process_loop-LoopSent zero idx logs batch sent before e fit room =
      (e ∙ sym (append-nil before), fit, room)
  process_loop-LoopSent (suc rounds) idx logs batch sent before e fit room =
      elim (Option-cases (fetch lg env max_append_entries futures logs idx)) [
        | inl f ↦ rw (f, process_loop, entries_from) tt
        | inr (l, f) ↦
            let k = take_entry-joined idx l batch sent fit room in
            rw (f, process_loop, entries_from)
              (LoopSent-cons env max_append_entries before l _ _ (
                process_loop-LoopSent rounds (idx + 1) logs _ _ (before ++ for_fsm env (l ∷ []))
                  (k.0 ∙ ap (λ x. x ++ for_fsm env (l ∷ [])) e) k.1 k.2))
      ]

  flush_rest-joined :
      (batch : List Log) (sent : Sent)
      → Fit max_append_entries sent.batches
      → length batch < max_append_entries
      → let r = flush_rest lg env max_append_entries futures batch sent in
        (joined r.batches ≡ joined sent.batches ++ batch) × Fit max_append_entries r.batches
  unfolding flush_rest
  flush_rest-joined [] sent fit room = (sym (append-nil _), fit)
  flush_rest-joined (l ∷ ls) sent fit room = (
    joined-append sent.batches (l ∷ ls),
    Fit-append max_append_entries sent.batches (l ∷ ls) fit (omega arith) (omega arith),
  )

  -- When a later index is committed, and every entry up to it can be read, all entries from the last
  -- applied on that are for the state machine are sent once and in order, in batches that are neither
  -- empty nor too long, and the index becomes the last applied; where one cannot be read, it panics.
  pub process_logs-AllSent :
      {St : Type 0} (n : Node St lg.S) (index : ℕ)
      → 0 < max_append_entries
      → n.last_applied < index
      → AllSent env max_append_entries n index
          (process_logs lg env max_append_entries futures n index)
          (entries_from lg env max_append_entries futures
            (index - n.last_applied)
            (n.last_applied + 1)
            n.logs)
  unfolding process_logs
  process_logs-AllSent n index some_room later =
      rw (leb-false n.last_applied index later, process_logs)
        (finish
          (process_loop lg env max_append_entries futures (index - n.last_applied)
            (n.last_applied + 1) n.logs [] (record { batches = []; responded = [] }))
          (entries_from lg env max_append_entries futures (index - n.last_applied)
            (n.last_applied + 1) n.logs)
          (process_loop-LoopSent (index - n.last_applied) (n.last_applied + 1) n.logs []
            (record { batches = []; responded = [] }) [] refl tt some_room))
    where
      leb-false : (a b : ℕ) → a < b → leb b a ≡ false
      leb-false a b h = ground arith

      finish :
          (o : Option (List Log × Sent)) (es : Option (List Log))
          → LoopSent env max_append_entries [] o es
          → AllSent env max_append_entries n index
              (elim o [
                | none ↦ none
                | some (batch, sent) ↦ some (
                  record n { last_applied = index },
                  flush_rest lg env max_append_entries futures batch sent,
                )
              ])
              es
      finish none none h = tt
      finish (some (batch, sent)) (some es) h =
          let r = flush_rest-joined batch sent h.1 h.2 in (refl, r.0 ∙ h.0, r.1)
      finish none (some es) h = h
      finish (some (batch, sent)) none h = h

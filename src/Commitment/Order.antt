-- ===== src/Commitment/Order.antt =====
-- The replication goroutines of replication.go report to the leader in any order: the outcome in
-- commitment.go does not depend on it.
use mathlib.Core.List.{Perm, Permᴰ}
use mathlib.Core.Logic.{∥∥₁_elim}
use native.Mathlib.Nat.{ℕ_set}
use perf_raft.Prelude.{
  ℕ, ◌≤◌, ◌≡◌, inl, inr, String, List, [], ◌∷◌, arith, length, refl, some, none, ltb, Option-cases,
  str_eq, str_eq_iff, if◌then◌else◌, ◌||◌, ap, ap₂, sym, subst, ◌∙◌,
}
use perf_raft.Commitment.{Commitment, Matches, lookup, values, recalculate, match, advance, put}
use perf_raft.Commitment.Sort.{at_least}
use perf_raft.Commitment.Majority.{IsMajority, IsSettled, Advanced, match-Advanced}

abbrev larger : ℕ → ℕ → ℕ
larger a b = if ltb a b then b else a

-- The effect of a report on the map: the entry of a voter is raised.
raised : String → ℕ → Matches → Matches
raised k v [] = []
raised k v ((j, w) ∷ m) =
    let rest = raised k v m in if str_eq j k then (j, larger w v) ∷ m else (j, w) ∷ rest

raised_comm :
    (k : String) (v : ℕ) (l : String) (w : ℕ) (m : Matches)
    → raised l w (raised k v m) ≡ raised k v (raised l w m)
unfolding raised
raised_comm k v l w [] = refl
raised_comm k v l w ((j, x) ∷ m) =
    ground (arith, raised_comm k v l w m, str_eq_iff j k, str_eq_iff j l)

raised_absent : (k : String) (v : ℕ) (m : Matches) → lookup k m ≡ none → raised k v m ≡ m
unfolding raised lookup
raised_absent k v [] h = refl
raised_absent k v ((j, x) ∷ m) h = ground (arith, raised_absent k v m)

raised_present :
    (k : String) (v prev : ℕ) (m : Matches)
    → lookup k m ≡ some prev
    → raised k v m ≡ (if ltb prev v then put k v m else m)
unfolding raised lookup put
raised_present k v prev [] h = cc
raised_present k v prev ((j, x) ∷ m) h = ground (arith, raised_present k v prev m)

-- What a majority stores it still stores after a report.
at_least-raised :
    (i : ℕ) (k : String) (v : ℕ) (m : Matches)
    → at_least i (values m) ≤ at_least i (values (raised k v m))
unfolding raised values at_least
at_least-raised i k v [] = omega arith
at_least-raised i k v ((j, x) ∷ m) = ground (arith, at_least-raised i k v m)

length-raised :
    (k : String) (v : ℕ) (m : Matches) → length (values (raised k v m)) ≡ length (values m)
unfolding raised values
length-raised k v [] = refl
length-raised k v ((j, x) ∷ m) = ground (arith, length-raised k v m)

recalculate-map : (c : Commitment) → (recalculate c).match_indexes ≡ c.match_indexes
unfolding recalculate
recalculate-map c = ground arith

recalculate-notifies :
    (c : Commitment)
    → (recalculate c).commit_ch ≡ (c.commit_ch || ltb c.commit_index (recalculate c).commit_index)
unfolding recalculate
recalculate-notifies c = ground arith

match-map :
    (c : Commitment) (k : String) (v : ℕ) → (match c k v).match_indexes ≡ raised k v c.match_indexes
unfolding match advance
match-map c k v = elim (Option-cases (lookup k c.match_indexes)) [
  | inl e ↦ rw (e, advance) (sym (raised_absent k v c.match_indexes e))
  | inr (prev, e) ↦
      rw (e, advance)
        (ground (
          arith,
          raised_present k v prev c.match_indexes e,
          recalculate-map (record c { match_indexes = put k v c.match_indexes }),
        ))
]

match-notifies :
    (c : Commitment) (k : String) (v : ℕ)
    → (match c k v).commit_ch ≡ (c.commit_ch || ltb c.commit_index (match c k v).commit_index)
unfolding match
match-notifies c k v = elim (Option-cases (lookup k c.match_indexes)) [
  | inl e ↦ rw (e, advance) (ground arith)
  | inr (prev, e) ↦
      rw (e, advance)
        (ground
          (arith, recalculate-notifies (record c { match_indexes = put k v c.match_indexes })))
]

IsMajority-raised :
    (i : ℕ) (k : String) (v : ℕ) (m : Matches) → IsMajority i m → IsMajority i (raised k v m)
IsMajority-raised i k v m h = omega (arith, at_least-raised i k v m, length-raised k v m)

-- Of two reports, what they commit is committed in every settled state with the map that they leave.
two_matches-le :
    (c e : Commitment) (k l : String) (v w : ℕ)
    → IsSettled c
    → IsSettled e
    → e.start_index ≡ c.start_index
    → e.match_indexes ≡ raised l w (raised k v c.match_indexes)
    → c.commit_index ≤ e.commit_index
    → (match (match c k v) l w).commit_index ≤ e.commit_index
two_matches-le c e k l v w s t start same h = elim second.supported [
  | inl unchanged ↦ elim first.supported [
    | inl still ↦ omega arith
    | inr (own, majority, _) ↦ rw unchanged (
        t (match c k v).commit_index (omega (arith, first.start_kept))
          (rw same (IsMajority-raised _ l w _ (rw (match-map c k v) at majority))))
  ]
  | inr (own, majority, _) ↦
      t (match (match c k v) l w).commit_index (omega (arith, first.start_kept, second.start_kept))
        (subst (IsMajority (match (match c k v) l w).commit_index)
          (match-map (match c k v) l w ∙ ap (raised l w) (match-map c k v) ∙ sym same) majority)
]
  where
    first : Advanced c (match c k v)
    first = match-Advanced c k v s

    second : Advanced (match c k v) (match (match c k v) l w)
    second = match-Advanced (match c k v) l w first.settled

-- Two reports have the same effect in either order: on the map, on the commit index and on whether
-- a notification is pending.
pub match_comm :
    (c : Commitment) (k : String) (v : ℕ) (l : String) (w : ℕ)
    → IsSettled c
    → match (match c k v) l w ≡ match (match c l w) k v
match_comm c k v l w s = ground (
  arith,
  map_one,
  map_two,
  raised_comm k v l w c.match_indexes,
  two_matches-le c (match (match c l w) k v) k l v w s d.settled (start_two)
      (map_two ∙ sym (raised_comm k v l w c.match_indexes)) (omega (arith, a.grows, d.grows)),
  two_matches-le c (match (match c k v) l w) l k w v s b.settled (start_one)
      (map_one ∙ raised_comm k v l w c.match_indexes) (omega (arith, f.grows, b.grows)),
  start_one,
  start_two,
  f.grows,
  b.grows,
  a.grows,
  d.grows,
  match-notifies c k v,
  match-notifies (match c k v) l w,
  match-notifies c l w,
  match-notifies (match c l w) k v,
)
  where
    f : Advanced c (match c k v)
    f = match-Advanced c k v s

    b : Advanced (match c k v) (match (match c k v) l w)
    b = match-Advanced (match c k v) l w f.settled

    a : Advanced c (match c l w)
    a = match-Advanced c l w s

    d : Advanced (match c l w) (match (match c l w) k v)
    d = match-Advanced (match c l w) k v a.settled

    start_one : (match (match c k v) l w).start_index ≡ c.start_index
    start_one = omega (arith, f.start_kept, b.start_kept)

    start_two : (match (match c l w) k v).start_index ≡ c.start_index
    start_two = omega (arith, a.start_kept, d.start_kept)

    map_one : (match (match c k v) l w).match_indexes ≡ raised l w (raised k v c.match_indexes)
    map_one = match-map (match c k v) l w ∙ ap (raised l w) (match-map c k v)

    map_two : (match (match c l w) k v).match_indexes ≡ raised k v (raised l w c.match_indexes)
    map_two = match-map (match c l w) k v ∙ ap (raised k v) (match-map c l w)

-- The leader takes the reports in the order in which they come.
pub take_reports : Commitment → List (String × ℕ) → Commitment
take_reports c [] = c
take_reports c ((k, v) ∷ rest) = take_reports (match c k v) rest

take_reports-eq_of_Permᴰ :
    {l m : List (String × ℕ)}
    → Permᴰ l m
    → (c : Commitment) → IsSettled c
    → take_reports c l ≡ take_reports c m
unfolding take_reports
take_reports-eq_of_Permᴰ Permᴰ.nil c s = refl
take_reports-eq_of_Permᴰ (Permᴰ.cons {a} {l₁} e p) c s =
    ap (λ x. take_reports c (x ∷ l₁)) e
    ∙ take_reports-eq_of_Permᴰ p (match c _ _) (match-Advanced c _ _ s).settled
take_reports-eq_of_Permᴰ (Permᴰ.swap {a} {b} {l = rest} e f) c s =
    ap₂ (λ x y. take_reports c (x ∷ y ∷ rest)) e f
    ∙ ap (λ d. take_reports d rest) (match_comm c _ _ _ _ s)
take_reports-eq_of_Permᴰ (Permᴰ.trans p q) c s =
    take_reports-eq_of_Permᴰ p c s ∙ take_reports-eq_of_Permᴰ q c s

-- Whatever the order in which the same reports reach the leader, the commit index is the same.
pub take_reports_perm :
    (c : Commitment) (l m : List (String × ℕ))
    → IsSettled c
    → Perm l m
    → (take_reports c l).commit_index ≡ (take_reports c m).commit_index
take_reports_perm c l m s p =
    ∥∥₁_elim p (ℕ_set _ _) (λ q. ap (λ d. d.commit_index) (take_reports-eq_of_Permᴰ q c s))

-- ===== src/Commitment/Sort.antt =====
-- The sorted slice of recalculate in commitment.go: where it is at least a bound, and how many
-- entries are.
use perf_raft.Prelude.{
  ℕ, zero, suc, ◌+◌, ◌-◌, ◌/◌, ◌<◌, ◌≤◌, ◌≡◌, ◌↔◌, List, [], ◌∷◌, arith, leb, if◌then◌else◌, length,
  refl,
}
use perf_raft.Commitment.{insert, sort, get_or_zero}

-- How many entries are at least `i`.
unfoldable pub at_least : ℕ → List ℕ → ℕ
at_least i [] = 0
at_least i (x ∷ xs) = if leb i x then suc (at_least i xs) else at_least i xs

abbrev Above : ℕ → List ℕ → Type 0
Above x [] = Unit
Above x (y ∷ ys) = (x ≤ y) × Above x ys

abbrev Ascending : List ℕ → Type 0
Ascending [] = Unit
Ascending (x ∷ xs) = Above x xs × Ascending xs

Above-mono : (x y : ℕ) (xs : List ℕ) → x ≤ y → Above y xs → Above x xs
Above-mono x y [] h a = tt
Above-mono x y (z ∷ xs) h a = (omega arith, Above-mono x y xs h a.1)

insert-Above : (b x : ℕ) (xs : List ℕ) → b ≤ x → Above b xs → Above b (insert x xs)
unfolding insert
insert-Above b x [] h a = (h, tt)
insert-Above b x (y ∷ ys) h a = ground (arith, insert-Above b x ys h a.1)

insert-Ascending : (x : ℕ) (xs : List ℕ) → Ascending xs → Ascending (insert x xs)
unfolding insert
insert-Ascending x [] s = (tt, tt)
insert-Ascending x (y ∷ ys) s =
    ground (arith, insert-Ascending x ys s.1, insert-Above y x ys, Above-mono x y ys)

sort-Ascending : (xs : List ℕ) → Ascending (sort xs)
unfolding sort
sort-Ascending [] = tt
sort-Ascending (x ∷ xs) = insert-Ascending x (sort xs) (sort-Ascending xs)

at_least-insert : (i x : ℕ) (xs : List ℕ) → at_least i (insert x xs) ≡ at_least i (x ∷ xs)
unfolding insert at_least
at_least-insert i x [] = refl
at_least-insert i x (y ∷ ys) = ground (arith, at_least-insert i x ys)

pub at_least-sort : (i : ℕ) (xs : List ℕ) → at_least i (sort xs) ≡ at_least i xs
unfolding sort at_least
at_least-sort i [] = refl
at_least-sort i (x ∷ xs) = ground (arith, at_least-sort i xs, at_least-insert i x (sort xs))

length-insert : (x : ℕ) (xs : List ℕ) → length (insert x xs) ≡ suc (length xs)
unfolding insert
length-insert x [] = refl
length-insert x (y ∷ ys) = ground (arith, length-insert x ys)

pub length-sort : (xs : List ℕ) → length (sort xs) ≡ length xs
unfolding sort
length-sort [] = refl
length-sort (x ∷ xs) = omega (arith, length-sort xs, length-insert x (sort xs))

pub at_least-le-length : (i : ℕ) (xs : List ℕ) → at_least i xs ≤ length xs
unfolding at_least
at_least-le-length i [] = omega arith
at_least-le-length i (x ∷ xs) = ground (arith, at_least-le-length i xs)

at_least_all : (i x : ℕ) (xs : List ℕ) → i ≤ x → Above x xs → at_least i xs ≡ length xs
unfolding at_least
at_least_all i x [] h a = refl
at_least_all i x (y ∷ ys) h a = ground (arith, at_least_all i x ys h a.1)

get_or_zero-Above :
    (x : ℕ) (xs : List ℕ) (k : ℕ) → Above x xs → k < length xs → x ≤ get_or_zero xs k
unfolding get_or_zero
get_or_zero-Above x [] k a h = absurd (omega arith)
get_or_zero-Above x (y ∷ ys) zero a h = a.0
get_or_zero-Above x (y ∷ ys) (suc k) a h = get_or_zero-Above x ys k a.1 (omega arith)

-- In an ascending list the entry at `k` reaches a bound exactly if all but `k` entries do.
Ascending-get :
    (i : ℕ) (xs : List ℕ) (k : ℕ)
    → Ascending xs
    → k < length xs
    → (i ≤ get_or_zero xs k) ↔ (length xs ≤ k + at_least i xs)
unfolding get_or_zero at_least
Ascending-get i [] k s h = absurd (omega arith)
Ascending-get i (x ∷ xs) zero s h = ground (arith, at_least_all i x xs, at_least-le-length i xs)
Ascending-get i (x ∷ xs) (suc k) s h =
    ground (arith, Ascending-get i xs k s.1, at_least_all i x xs, get_or_zero-Above x xs k)

-- The median that recalculate picks is the largest bound that a majority of the entries reaches.
pub median_iff :
    (i : ℕ) (xs : List ℕ)
    → 0 < length xs
    → (i ≤ get_or_zero (sort xs) ((length xs - 1) / 2)) ↔ (length xs / 2 + 1 ≤ at_least i xs)
median_iff i xs h =
    let m =
      Ascending-get i (sort xs) ((length xs - 1) / 2) (sort-Ascending xs)
        (omega (arith, length-sort xs)) in
    (
      (λ a. omega (arith, m.0 a, length-sort xs, at_least-sort i xs)),
      (λ a. m.1 (omega (arith, length-sort xs, at_least-sort i xs))),
    )

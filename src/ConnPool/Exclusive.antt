-- ===== src/ConnPool/Exclusive.antt =====
-- The pool of net_transport.go: where a connection is.
use perf_raft.Prelude.{
  ℕ, ◌+◌, ◌≤◌, ◌≡◌, ◌&&◌, String, Bool, not, Option, none, some, List, [], ◌∷◌, ◌++◌, ltb, ◌==◌,
  if◌then◌else◌, str_eq, str_eq_iff, length, refl, subst, sym, arith, Bool-cases, inl, inr,
}
use perf_raft.ConnPool.{
  NetConn, Pool, find_conns, put_conns, split_last, pooled, get_pooled_conn, return_conn, Transport,
  get_conn, take_out, Use, gets, returns, releases, closes_streams, closes, given_back, let_go,
  use_pool, use_all,
}

-- How often a connection occurs.
unfoldable pub count : ℕ → List NetConn → ℕ
count i [] = 0
count i (c ∷ cs) = if c.number == i then count i cs + 1 else count i cs

unfoldable pub count_pool : ℕ → Pool → ℕ
unfolding count
count_pool i [] = 0
count_pool i ((k, cs) ∷ p) = count i cs + count_pool i p

-- The connections under a key go to its address, and there are not too many.
abbrev pub AllTo : String → List NetConn → Type 0
AllTo k [] = Unit
AllTo k (c ∷ cs) = (c.target ≡ k) × AllTo k cs

abbrev pub Filed : ℕ → Pool → Type 0
Filed max_pool [] = Unit
Filed max_pool ((k, cs) ∷ p) = AllTo k cs × (length cs ≤ max_pool) × Filed max_pool p

count-put_conns :
    (i : ℕ) (target : String) (cs : List NetConn) (p : Pool)
    → count_pool i (put_conns target cs p) + count i (find_conns target p)
      ≡ count_pool i p + count i cs
unfolding put_conns find_conns count_pool count
count-put_conns i target cs [] = omega arith
count-put_conns i target cs ((k, ds) ∷ p) = ground (arith, count-put_conns i target cs p)

count-append : (i : ℕ) (cs ds : List NetConn) → count i (cs ++ ds) ≡ count i cs + count i ds
unfolding count
count-append i [] ds = omega arith
count-append i (c ∷ cs) ds = ground (arith, count-append i cs ds)

count-split_last :
    (i : ℕ) (c : NetConn) (cs : List NetConn)
    → count i ((split_last c cs).1 ∷ (split_last c cs).0) ≡ count i (c ∷ cs)
unfolding count split_last
count-split_last i c [] = refl
count-split_last i c (d ∷ cs) = ground (arith, count-split_last i d cs)

-- Each connection is at one place at most, and was dialled.
pub record IsExclusive (max_pool : ℕ) (t : Transport) : Type 0 where
  pub once : (i : ℕ) → count_pool i t.pool + count i t.in_use ≤ 1
  pub old : (i : ℕ) → t.dialled ≤ i → count_pool i t.pool + count i t.in_use ≡ 0
  pub filed : Filed max_pool t.pool

AllTo-split_last :
    (k : String) (c : NetConn) (cs : List NetConn)
    → AllTo k (c ∷ cs)
    → ((split_last c cs).1.target ≡ k)
      × AllTo k (split_last c cs).0
      × (length (split_last c cs).0 ≤ length cs)
unfolding split_last
AllTo-split_last k c [] h = (h.0, tt, omega arith)
AllTo-split_last k c (d ∷ cs) h =
    let r = AllTo-split_last k d cs h.1 in (r.0, (h.0, r.1), omega (arith, r.2))

AllTo-append :
    (k : String) (cs : List NetConn) (c : NetConn)
    → AllTo k cs
    → c.target ≡ k
    → AllTo k (cs ++ c ∷ []) × (length (cs ++ c ∷ []) ≡ length cs + 1)
AllTo-append k [] c h e = ((e, tt), omega arith)
AllTo-append k (d ∷ cs) c h e =
    let r = AllTo-append k cs c h.1 e in ((h.0, r.0), omega (arith, r.1))

Filed-find_conns :
    (max_pool : ℕ) (target : String) (p : Pool)
    → Filed max_pool p
    → AllTo target (find_conns target p) × (length (find_conns target p) ≤ max_pool)
unfolding find_conns
Filed-find_conns max_pool target [] s = (tt, omega arith)
Filed-find_conns max_pool target ((k, cs) ∷ p) s = elim (Bool-cases (str_eq k target)) [
  | inl e ↦ rw e (subst (λ j. AllTo j cs) ((str_eq_iff k target).0 e) s.0, s.1)
  | inr e ↦ rw e (Filed-find_conns max_pool target p s.2)
]

Filed-put_conns :
    (max_pool : ℕ) (target : String) (cs : List NetConn) (p : Pool)
    → Filed max_pool p
    → AllTo target cs
    → length cs ≤ max_pool
    → Filed max_pool (put_conns target cs p)
unfolding put_conns
Filed-put_conns max_pool target cs [] s to le = (to, le, tt)
Filed-put_conns max_pool target cs ((k, ds) ∷ p) s to le = elim (Bool-cases (str_eq k target)) [
  | inl e ↦ rw e (subst (λ j. AllTo j cs) (sym ((str_eq_iff k target).0 e)) to, le, s.2)
  | inr e ↦ rw e (s.0, s.1, Filed-put_conns max_pool target cs p s.2 to le)
]

-- What is taken from the pool was there, and nothing else went.
abbrev Taken : ℕ → Pool → String → Option (NetConn × Pool) → Type 0
Taken max_pool p target none = Unit
Taken max_pool p target (some (c, q)) =
    ((i : ℕ) → count_pool i q + count i (c ∷ []) ≡ count_pool i p) × Filed max_pool q

pooled-Taken :
    (max_pool : ℕ) (target : String) (p : Pool) (cs : List NetConn)
    → find_conns target p ≡ cs
    → Filed max_pool p
    → Taken max_pool p target (pooled target p cs)
unfolding pooled count
pooled-Taken max_pool target p [] e s = tt
pooled-Taken max_pool target p (c ∷ cs) e s =
    let there = Filed-find_conns max_pool target p s in
    let parts = AllTo-split_last target c cs (subst (AllTo target) e there.0) in
    let small : length (c ∷ cs) ≤ max_pool = subst (λ ds. length ds ≤ max_pool) e there.1 in
    (
      λ i.
          ground
            (arith, e, count-put_conns i target (split_last c cs).0 p, count-split_last i c cs),
      Filed-put_conns max_pool target (split_last c cs).0 p s parts.1
          (omega (arith, parts.2, small)),
    )

-- What a call gives up is what it held.
abbrev TakenOut : List NetConn → Option (NetConn × List NetConn) → Type 0
TakenOut cs none = Unit
TakenOut cs (some (c, ds)) = (i : ℕ) → count i (c ∷ ds) ≡ count i cs

take_out-TakenOut : (k : ℕ) (cs : List NetConn) → TakenOut cs (take_out k cs)
unfolding take_out count
take_out-TakenOut k [] = tt
take_out-TakenOut k (c ∷ cs) = elim (Bool-cases (c.number == k)) [
  | inl e ↦ rw e (λ i. refl)
  | inr e ↦ rw e (later (take_out k cs) (take_out-TakenOut k cs))
]
  where
    later :
        (r : Option (NetConn × List NetConn))
        → TakenOut cs r
        → TakenOut (c ∷ cs) (elim r [ none ↦ none | some (d, ds) ↦ some (d, c ∷ ds) ])
    later none h = tt
    later (some (d, ds)) h = λ i. ground (arith, h i)

return_conn-Kept :
    (max_pool : ℕ) (is_shutdown : Bool) (c : NetConn) (p : Pool)
    → Filed max_pool p
    → ((i : ℕ)
        → count_pool i (return_conn max_pool is_shutdown c p) ≤ count_pool i p + count i (c ∷ []))
      × Filed max_pool (return_conn max_pool is_shutdown c p)
unfolding return_conn count
return_conn-Kept max_pool is_shutdown c p s =
    let cs = find_conns c.target p in
    let there = Filed-find_conns max_pool c.target p s in
    let more = AllTo-append c.target cs c there.0 refl in
    elim (Bool-cases (not is_shutdown && ltb (length cs) max_pool)) [
      | inr e ↦ rw e ((λ i. omega arith), s)
      | inl e ↦ rw e (
        λ i.
            ground (arith, count-put_conns i c.target (cs ++ c ∷ []) p, count-append i cs (c ∷ [])),
        Filed-put_conns max_pool c.target (cs ++ c ∷ []) p s more.0 (ground (arith, e, more.1)),
      )
    ]

get_conn-IsExclusive :
    (max_pool : ℕ) (target : String) (dials : Bool) (t : Transport)
    → IsExclusive max_pool t
    → IsExclusive max_pool (get_conn target dials t)
unfolding get_conn get_pooled_conn count
get_conn-IsExclusive max_pool target dials t v =
    step (pooled target t.pool (find_conns target t.pool))
      (pooled-Taken max_pool target t.pool (find_conns target t.pool) refl v.filed)
  where
    step :
        (r : Option (NetConn × Pool))
        → Taken max_pool t.pool target r
        → IsExclusive max_pool (elim r [
          | some (c, p) ↦ record t { pool = p; in_use = c ∷ t.in_use }
          | none ↦
              if dials
              then record t {
                in_use = record { target = target; number = t.dialled } ∷ t.in_use;
                dialled = t.dialled + 1;
              }
              else t
        ])
    step (some (c, p)) h = record {
      once = λ i. ground (arith, h.0 i, v.once i);
      old = λ i le. ground (arith, h.0 i, v.old i le);
      filed = h.1;
    }
    step none h = elim (Bool-cases dials) [
      | inr e ↦ rw e v
      | inl e ↦ rw e (record {
        once = λ i. ground (arith, v.once i, v.old i);
        old = λ i le. ground (arith, v.old i);
        filed = v.filed;
      })
    ]

use_pool-IsExclusive :
    (max_pool : ℕ) (t : Transport) (u : Use)
    → IsExclusive max_pool t
    → IsExclusive max_pool (use_pool max_pool t u)
unfolding use_pool count_pool count given_back let_go
use_pool-IsExclusive max_pool t (gets target dials) v =
    get_conn-IsExclusive max_pool target dials t v
use_pool-IsExclusive max_pool t (returns k) v =
    step (take_out k t.in_use) (take_out-TakenOut k t.in_use)
  where
    step :
        (r : Option (NetConn × List NetConn))
        → TakenOut t.in_use r
        → IsExclusive max_pool (given_back max_pool t r)
    step none h = v
    step (some (c, cs)) h =
        let kept = return_conn-Kept max_pool t.is_shutdown c t.pool v.filed in
        record {
          once = λ i. ground (arith, h i, kept.0 i, v.once i);
          old = λ i le. ground (arith, h i, kept.0 i, v.old i le);
          filed = kept.1;
        }
use_pool-IsExclusive max_pool t (releases k) v =
    step (take_out k t.in_use) (take_out-TakenOut k t.in_use)
  where
    step :
        (r : Option (NetConn × List NetConn))
        → TakenOut t.in_use r
        → IsExclusive max_pool (let_go t r)
    step none h = v
    step (some (c, cs)) h = record {
      once = λ i. ground (arith, h i, v.once i);
      old = λ i le. ground (arith, h i, v.old i le);
      filed = v.filed;
    }
use_pool-IsExclusive max_pool t closes_streams v = record {
  once = λ i. omega (arith, v.once i);
  old = λ i le. omega (arith, v.old i le);
  filed = tt;
}
use_pool-IsExclusive max_pool t closes v = record { once = v.once; old = v.old; filed = v.filed }

-- Over any sequence of calls that get connections, from the pool or by dialling, and give them back or
-- let go of them, of streams that are closed, and of the end of the transport: if it was so before, then
-- each connection is held by at most one call or lies in the pool at one place, a number that was not
-- dialled yet is nowhere, and the connections under each address go to it and are not more than the pool
-- may keep.
pub use_all-IsExclusive :
    (max_pool : ℕ) (t : Transport) (us : List Use)
    → IsExclusive max_pool t
    → IsExclusive max_pool (use_all max_pool t us)
unfolding use_all
use_all-IsExclusive max_pool t [] v = v
use_all-IsExclusive max_pool t (u ∷ us) v =
    use_all-IsExclusive max_pool (use_pool max_pool t u) us (use_pool-IsExclusive max_pool t u v)

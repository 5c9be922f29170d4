-- ===== src/FileSnapshot/Newest.antt =====
-- The order of getSnapshots of file_snapshot.go: from the newest to the oldest.
use perf_raft.Prelude.{
  ℕ, zero, suc, ◌+◌, ◌≤◌, ◌<◌, ◌≡◌, ◌≢◌, inl, inr, String, Bool, true, false, ◌||◌, ◌&&◌, List, [],
  ◌∷◌, map, ltb, ◌==◌, if◌then◌else◌, Elem, Distinct, refl, sym, subst, ◌∙◌, arith, Bool-cases,
}
use perf_raft.FileSnapshot.{FileSnapshotMeta, less, insert_newest, sort_newest, beyond}

-- The first ones of a list.
abbrev pub firsts : ℕ → List FileSnapshotMeta → List FileSnapshotMeta
firsts zero ms = []
firsts (suc k) [] = []
firsts (suc k) (m ∷ ms) = m ∷ firsts k ms

abbrev pub id_of : FileSnapshotMeta → String
id_of m = m.meta.id

module _ (before : String → String → Bool) where
  -- Of a later term; in one term, of a higher index; at one index, with a later name.
  abbrev pub is_newer : FileSnapshotMeta → FileSnapshotMeta → Bool
  is_newer a b =
      ltb b.meta.term a.meta.term
      || ((b.meta.term == a.meta.term)
          && (ltb b.meta.index a.meta.index
              || ((b.meta.index == a.meta.index) && before b.meta.id a.meta.id)))

  -- How many of them are newer than this one.
  unfoldable pub count_newer : FileSnapshotMeta → List FileSnapshotMeta → ℕ
  count_newer x [] = 0
  count_newer x (m ∷ ms) = if is_newer m x then count_newer x ms + 1 else count_newer x ms

  count_newer-insert_newest :
      (x m : FileSnapshotMeta) (ms : List FileSnapshotMeta)
      → count_newer x (insert_newest before m ms) ≡ count_newer x (m ∷ ms)
  unfolding count_newer insert_newest
  count_newer-insert_newest x m [] = refl
  count_newer-insert_newest x m (k ∷ ks) = elim (Bool-cases (less before m k)) [
    | inr e ↦ rw e refl
    | inl e ↦ rw e (elim (Bool-cases (is_newer k x)) [
      | inl d ↦ rw d (elim (Bool-cases (is_newer m x)) [
        | inl f ↦ ground (arith, count_newer-insert_newest x m ks, f)
        | inr f ↦ ground (arith, count_newer-insert_newest x m ks, f)
      ])
      | inr d ↦ rw d (elim (Bool-cases (is_newer m x)) [
        | inl f ↦ ground (arith, count_newer-insert_newest x m ks, f)
        | inr f ↦ ground (arith, count_newer-insert_newest x m ks, f)
      ])
    ])
  ]

  pub count_newer-sort_newest :
      (x : FileSnapshotMeta) (ms : List FileSnapshotMeta)
      → count_newer x (sort_newest before ms) ≡ count_newer x ms
  unfolding count_newer sort_newest
  count_newer-sort_newest x [] = refl
  count_newer-sort_newest x (m ∷ ms) =
      count_newer-insert_newest x m (sort_newest before ms)
      ∙ ground (arith, count_newer-sort_newest x ms)

  -- It is newer than each of them.
  abbrev pub NewerThanAll : FileSnapshotMeta → List FileSnapshotMeta → Type 0
  NewerThanAll m [] = Unit
  NewerThanAll m (k ∷ ks) = (is_newer m k ≡ true) × NewerThanAll m ks

  abbrev pub Sorted : List FileSnapshotMeta → Type 0
  Sorted [] = Unit
  Sorted (m ∷ ms) = NewerThanAll m ms × Sorted ms

  NewerThanAll-Elem :
      (m x : FileSnapshotMeta) (ms : List FileSnapshotMeta)
      → NewerThanAll m ms
      → Elem x ms
      → is_newer m x ≡ true
  NewerThanAll-Elem m x [] h e = absurd e
  NewerThanAll-Elem m x (k ∷ ks) h (inl e) = subst (λ j. is_newer m j ≡ true) e h.0
  NewerThanAll-Elem m x (k ∷ ks) h (inr e) = NewerThanAll-Elem m x ks h.1 e

  -- The first ones of a sorted list are those with few newer ones.
  pub firsts-Sorted :
      (retain : ℕ) (x : FileSnapshotMeta) (ms : List FileSnapshotMeta)
      → Sorted ms
      → Elem x ms
      → count_newer x ms < retain
      → Elem x (firsts retain ms)
  unfolding count_newer
  firsts-Sorted zero x ms s e few = absurd (omega (arith, few))
  firsts-Sorted (suc retain) x [] s e few = absurd e
  firsts-Sorted (suc retain) x (m ∷ ms) s (inl e) few = inl e
  firsts-Sorted (suc retain) x (m ∷ ms) s (inr e) few =
      let newer = NewerThanAll-Elem m x ms s.0 e in
      inr (firsts-Sorted retain x ms s.1 e (ground (arith, few, newer)))

  -- The order of the names.
  pub record IsOrder : Type 0 where
    pub transitive : (a b c : String) → before a b ≡ true → before b c ≡ true → before a c ≡ true
    pub asymmetric : (a b : String) → before a b ≡ true → before b a ≡ false
    pub total : (a b : String) → a ≢ b → before a b ≡ false → before b a ≡ true

  module _ (order : IsOrder) where
    is_newer-less : (m k : FileSnapshotMeta) → less before m k ≡ true → is_newer k m ≡ true
    is_newer-less m k h = ground (arith, h)

    is_newer-not_less :
        (m k : FileSnapshotMeta) → id_of m ≢ id_of k → less before m k ≡ false → is_newer m k ≡ true
    is_newer-not_less m k other h = elim (Bool-cases (before m.meta.id k.meta.id)) [
      | inl e ↦ ground (arith, h, e)
      | inr e ↦ ground (arith, h, e, order.total m.meta.id k.meta.id other e)
    ]

    is_newer_trans :
        (a b c : FileSnapshotMeta) → is_newer a b ≡ true → is_newer b c ≡ true → is_newer a c ≡ true
    is_newer_trans a b c h k = ground (arith, h, k, order.transitive c.meta.id b.meta.id a.meta.id)

    NewerThanAll-trans :
        (m k : FileSnapshotMeta) (ks : List FileSnapshotMeta)
        → is_newer m k ≡ true
        → NewerThanAll k ks
        → NewerThanAll m ks
    NewerThanAll-trans m k [] h n = tt
    NewerThanAll-trans m k (j ∷ ks) h n =
        (is_newer_trans m k j h n.0, NewerThanAll-trans m k ks h n.1)

    NewerThanAll-insert_newest :
        (x m : FileSnapshotMeta) (ms : List FileSnapshotMeta)
        → is_newer x m ≡ true
        → NewerThanAll x ms
        → NewerThanAll x (insert_newest before m ms)
    unfolding insert_newest
    NewerThanAll-insert_newest x m [] h n = (h, tt)
    NewerThanAll-insert_newest x m (k ∷ ks) h n = elim (Bool-cases (less before m k)) [
      | inl e ↦ rw (e, NewerThanAll) (n.0, NewerThanAll-insert_newest x m ks h n.1)
      | inr e ↦ rw (e, NewerThanAll) (h, n)
    ]

    insert_newest-Sorted :
        (m : FileSnapshotMeta) (ms : List FileSnapshotMeta)
        → ¬ Elem (id_of m) (map id_of ms)
        → Sorted ms
        → Sorted (insert_newest before m ms)
    unfolding insert_newest
    insert_newest-Sorted m [] new s = (tt, tt)
    insert_newest-Sorted m (k ∷ ks) new s = elim (Bool-cases (less before m k)) [
      | inl e ↦
          rw (e, Sorted)
            (
              NewerThanAll-insert_newest k m ks (is_newer-less m k e) s.0,
              insert_newest-Sorted m ks (λ j. new (inr j)) s.1,
            )
      | inr e ↦
          let newer = is_newer-not_less m k (λ j. new (inl (sym j))) e in
          rw (e, Sorted) ((newer, NewerThanAll-trans m k ks newer s.0), s)
    ]

    -- None of those that come later is newer.
    count_newer_first :
        (m : FileSnapshotMeta) (ms : List FileSnapshotMeta)
        → NewerThanAll m ms
        → count_newer m ms ≡ 0
    unfolding count_newer
    count_newer_first m [] n = refl
    count_newer_first m (k ∷ ks) n =
        ground (arith, n.0, count_newer_first m ks n.1, order.asymmetric k.meta.id m.meta.id)

    is_newer_self : (m : FileSnapshotMeta) → is_newer m m ≡ false
    is_newer_self m = ground (arith, order.asymmetric m.meta.id m.meta.id)

    pub beyond-Sorted :
        (retain : ℕ) (x : FileSnapshotMeta) (ms : List FileSnapshotMeta)
        → Sorted ms
        → Elem x ms
        → retain ≤ count_newer x ms
        → Elem x (beyond retain ms)
    unfolding beyond count_newer
    beyond-Sorted zero x ms s e many = e
    beyond-Sorted (suc retain) x [] s e many = absurd e
    beyond-Sorted (suc retain) x (m ∷ ms) s (inl e) many =
        let none_newer : count_newer x (m ∷ ms) ≡ 0 =
          subst (λ j. count_newer j (m ∷ ms) ≡ 0) e
            (ground (arith, is_newer_self m, count_newer_first m ms s.0)) in
        absurd (omega (arith, many, none_newer))
    beyond-Sorted (suc retain) x (m ∷ ms) s (inr e) many =
        let newer = NewerThanAll-Elem m x ms s.0 e in
        beyond-Sorted retain x ms s.1 e (ground (arith, many, newer))

  insert_newest-ids :
      (m : FileSnapshotMeta) (ms : List FileSnapshotMeta) (id : String)
      → Elem id (map id_of (insert_newest before m ms))
      → Elem id (map id_of (m ∷ ms))
  unfolding insert_newest
  insert_newest-ids m [] id h = h
  insert_newest-ids m (k ∷ ks) id h = elim (Bool-cases (less before m k)) [
    | inr e ↦ rw e at h
    | inl e ↦ elim (rw e at h) [
      | inl same ↦ inr (inl same)
      | inr later ↦ elim (insert_newest-ids m ks id later) [
        | inl same ↦ inl same
        | inr deep ↦ inr (inr deep)
      ]
    ]
  ]

  insert_newest-Distinct :
      (m : FileSnapshotMeta) (ms : List FileSnapshotMeta)
      → Distinct (map id_of (m ∷ ms))
      → Distinct (map id_of (insert_newest before m ms))
  unfolding insert_newest
  insert_newest-Distinct m [] d = d
  insert_newest-Distinct m (k ∷ ks) d = elim (Bool-cases (less before m k)) [
    | inr e ↦ rw (e, Distinct) d
    | inl e ↦
        rw (e, Distinct)
          (
            λ h. elim (insert_newest-ids m ks (id_of k) h) [
              | inl same ↦ d.0 (inl (sym same))
              | inr later ↦ d.1.0 later
            ],
            insert_newest-Distinct m ks ((λ h. d.0 (inr h)), d.1.1),
          )
  ]

  sort_newest-ids :
      (ms : List FileSnapshotMeta) (id : String)
      → Elem id (map id_of (sort_newest before ms))
      → Elem id (map id_of ms)
  unfolding sort_newest
  sort_newest-ids [] id h = h
  sort_newest-ids (m ∷ ms) id h = elim (insert_newest-ids m (sort_newest before ms) id h) [
    | inl same ↦ inl same
    | inr later ↦ inr (sort_newest-ids ms id later)
  ]

  pub sort_newest-Distinct :
      (ms : List FileSnapshotMeta)
      → Distinct (map id_of ms)
      → Distinct (map id_of (sort_newest before ms))
  unfolding sort_newest
  sort_newest-Distinct [] d = d
  sort_newest-Distinct (m ∷ ms) d =
      insert_newest-Distinct m (sort_newest before ms)
        ((λ h. d.0 (sort_newest-ids ms (id_of m) h)), sort_newest-Distinct ms d.1)

  insert_newest-all :
      (x m : FileSnapshotMeta) (ms : List FileSnapshotMeta)
      → Elem x (m ∷ ms)
      → Elem x (insert_newest before m ms)
  unfolding insert_newest
  insert_newest-all x m [] h = h
  insert_newest-all x m (k ∷ ks) h = elim (Bool-cases (less before m k)) [
    | inr e ↦ rw e h
    | inl e ↦ rw e (elim h [
      | inl same ↦ inr (insert_newest-all x m ks (inl same))
      | inr later ↦ elim later [
        | inl same ↦ inl same
        | inr deep ↦ inr (insert_newest-all x m ks (inr deep))
      ]
    ])
  ]

  pub sort_newest-all :
      (x : FileSnapshotMeta) (ms : List FileSnapshotMeta)
      → Elem x ms
      → Elem x (sort_newest before ms)
  unfolding sort_newest
  sort_newest-all x [] h = h
  sort_newest-all x (m ∷ ms) (inl e) = insert_newest-all x m (sort_newest before ms) (inl e)
  sort_newest-all x (m ∷ ms) (inr e) =
      insert_newest-all x m (sort_newest before ms) (inr (sort_newest-all x ms e))

  pub sort_newest-Sorted :
      IsOrder
      → (ms : List FileSnapshotMeta) → Distinct (map id_of ms)
      → Sorted (sort_newest before ms)
  unfolding sort_newest
  sort_newest-Sorted order [] d = tt
  sort_newest-Sorted order (m ∷ ms) d =
      insert_newest-Sorted order m (sort_newest before ms)
        (λ h. d.0 (sort_newest-ids ms (id_of m) h)) (sort_newest-Sorted order ms d.1)

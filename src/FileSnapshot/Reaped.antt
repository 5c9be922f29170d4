-- ===== src/FileSnapshot/Reaped.antt =====
-- ReapSnapshots of file_snapshot.go: what stays, and what goes.
use mathlib.Core.Bool.{false≢true}
use perf_raft.Prelude.{
  true, ◌≤◌, ◌<◌, ℕ, zero, suc, ◌≡◌, ◌≢◌, inl, inr, String, Bool, not, ◌&&◌, Option, none, some,
  List, [], ◌∷◌, map, if◌then◌else◌, str_eq, str_eq_iff, Elem, Distinct, refl, ap, subst, sym, ◌∙◌,
  arith, Bool-cases,
}
use perf_raft.LogStore.{Bytes}
use perf_raft.FileSnapshot.{
  FileSnapshotMeta, Directory, eligible, get_snapshots, remove_folder, beyond, remove_some,
  reap_snapshots,
}
use perf_raft.FileSnapshot.Newest.{
  firsts, id_of, count_newer, count_newer-sort_newest, IsOrder, firsts-Sorted, beyond-Sorted,
  sort_newest-Distinct, sort_newest-all, sort_newest-Sorted,
}

-- The metadata carries the name of its folder.
abbrev pub Named : Directory → Type 0
Named [] = Unit
Named (f ∷ d) = ((m : FileSnapshotMeta) → f.meta_file ≡ some m → m.meta.id ≡ f.name) × Named d

unfoldable pub without : String → List FileSnapshotMeta → List FileSnapshotMeta
without name [] = []
without name (m ∷ ms) =
    let rest = without name ms in if str_eq m.meta.id name then rest else m ∷ rest

Named-remove_folder : (name : String) (d : Directory) → Named d → Named (remove_folder name d)
unfolding remove_folder
Named-remove_folder name [] n = tt
Named-remove_folder name (f ∷ d) n = elim (Bool-cases (not f.temporary && str_eq f.name name)) [
  | inl e ↦ rw e (Named-remove_folder name d n.1)
  | inr e ↦ rw e (n.0, Named-remove_folder name d n.1)
]

eligible-remove_folder :
    (name : String) (d : Directory)
    → Named d
    → eligible (remove_folder name d) ≡ without name (eligible d)
unfolding eligible remove_folder without
eligible-remove_folder name [] n = refl
eligible-remove_folder name (f ∷ d) n = step f.meta_file refl (eligible-remove_folder name d n.1)
  where
    step :
        (o : Option FileSnapshotMeta)
        → f.meta_file ≡ o
        → eligible (remove_folder name d) ≡ without name (eligible d)
        → eligible (remove_folder name (f ∷ d)) ≡ without name (eligible (f ∷ d))
    step none e ih = ground (arith, e, ih)
    step (some m) e ih = ground (arith, e, ih, ap (λ i. str_eq i name) (n.0 m e))

without_other :
    (name : String) (m : FileSnapshotMeta) (ms : List FileSnapshotMeta)
    → m.meta.id ≢ name
    → Elem m ms
    → Elem m (without name ms)
unfolding without
without_other name m [] other h = absurd h
without_other name m (k ∷ ms) other h = elim (Bool-cases (str_eq k.meta.id name)) [
  | inl e ↦ rw e (elim h [
    | inl same ↦ absurd (other (ap id_of (sym same) ∙ (str_eq_iff k.meta.id name).0 e))
    | inr later ↦ without_other name m ms other later
  ])
  | inr e ↦
      rw e (elim h [ inl same ↦ inl same | inr later ↦ inr (without_other name m ms other later) ])
]

remove_some-other :
    (left : ℕ) (ms : List FileSnapshotMeta) (d : Directory) (m : FileSnapshotMeta)
    → Named d
    → ¬ Elem m.meta.id (map id_of ms)
    → Elem m (eligible d)
    → Elem m (eligible (remove_some left ms d).1)
unfolding remove_some
remove_some-other left [] d m n other h = h
remove_some-other zero (k ∷ ms) d m n other h = h
remove_some-other (suc left) (k ∷ ms) d m n other h =
    remove_some-other left ms (remove_folder k.meta.id d) m (Named-remove_folder k.meta.id d n)
      (λ j. other (inr j))
      (subst (Elem m) (sym (eligible-remove_folder k.meta.id d n))
        (without_other k.meta.id m (eligible d) (λ e. other (inl (sym e))) h))

beyond-id :
    (k : ℕ) (ms : List FileSnapshotMeta) (id : String)
    → Elem id (map id_of (beyond k ms))
    → Elem id (map id_of ms)
unfolding beyond
beyond-id zero ms id h = h
beyond-id (suc k) [] id h = absurd h
beyond-id (suc k) (m ∷ ms) id h = inr (beyond-id k ms id h)

firsts-beyond :
    (k : ℕ) (ms : List FileSnapshotMeta) (m : FileSnapshotMeta)
    → Distinct (map id_of ms)
    → Elem m (firsts k ms)
    → Elem m ms × (¬ Elem m.meta.id (map id_of (beyond k ms)))
unfolding beyond
firsts-beyond zero ms m d h = absurd h
firsts-beyond (suc k) [] m d h = absurd h
firsts-beyond (suc k) (x ∷ ms) m d (inl e) = (
  inl e,
  λ h. d.0 (
      beyond-id k ms x.meta.id
        (subst (λ j. Elem j (map id_of (beyond k ms))) (ap id_of (sym e)) h)),
)
firsts-beyond (suc k) (x ∷ ms) m d (inr h) =
    let rest = firsts-beyond k ms m d.1 h in (inr rest.0, rest.1)

without_shrinks :
    (name : String) (x : FileSnapshotMeta) (ms : List FileSnapshotMeta)
    → Elem x (without name ms)
    → Elem x ms × (x.meta.id ≢ name)
unfolding without
without_shrinks name x [] h = absurd h
without_shrinks name x (k ∷ ms) h = elim (Bool-cases (str_eq k.meta.id name)) [
  | inl e ↦ let rest = without_shrinks name x ms (rw e at h) in (inr rest.0, rest.1)
  | inr e ↦ elim (rw e at h) [
    | inl same ↦ (
      inl same,
      λ named. absurd (false≢true (sym e ∙ (str_eq_iff k.meta.id name).1 (ap id_of same ∙ named))),
    )
    | inr later ↦ let rest = without_shrinks name x ms later in (inr rest.0, rest.1)
  ]
]

remove_some_shrinks :
    (left : ℕ) (ms : List FileSnapshotMeta) (d : Directory) (x : FileSnapshotMeta)
    → Named d
    → Elem x (eligible (remove_some left ms d).1)
    → Elem x (eligible d)
unfolding remove_some
remove_some_shrinks left [] d x n h = h
remove_some_shrinks zero (k ∷ ms) d x n h = h
remove_some_shrinks (suc left) (k ∷ ms) d x n h =
    let rest =
      remove_some_shrinks left ms (remove_folder k.meta.id d) x (Named-remove_folder k.meta.id d n)
        h in
    (without_shrinks k.meta.id x (eligible d)
      (subst (Elem x) (eligible-remove_folder k.meta.id d n) rest)).0

-- When all of them were removed, none is left.
remove_some_gone :
    (left : ℕ) (ms : List FileSnapshotMeta) (d : Directory) (x : FileSnapshotMeta)
    → Named d
    → (remove_some left ms d).0 ≡ true
    → Elem x ms
    → ¬ Elem x (eligible (remove_some left ms d).1)
unfolding remove_some
remove_some_gone left [] d x n all e h = absurd e
remove_some_gone zero (k ∷ ms) d x n all e h = absurd (false≢true all)
remove_some_gone (suc left) (k ∷ ms) d x n all (inl e) h =
    let rest =
      remove_some_shrinks left ms (remove_folder k.meta.id d) x (Named-remove_folder k.meta.id d n)
        h in
    (without_shrinks k.meta.id x (eligible d)
        (subst (Elem x) (eligible-remove_folder k.meta.id d n) rest)).1
      (ap id_of (sym e))
remove_some_gone (suc left) (k ∷ ms) d x n all (inr e) h =
    remove_some_gone left ms (remove_folder k.meta.id d) x (Named-remove_folder k.meta.id d n) all e
      h

-- In a directory where each snapshot's metadata carries the name of its folder and no name occurs twice,
-- and with a strict order of the names: ReapSnapshots keeps every snapshot than which fewer are newer
-- than are to be retained, also when it stops half-way; and when it returns without an error, every
-- snapshot than which as many are newer is gone. A snapshot is newer if its term is later, in one
-- term if its index is higher, and at one index if its name is later.
pub reap_snapshots-count_newer :
    (before : String → String → Bool) (retain : ℕ) (crc : Bytes → Bytes) (removed : ℕ)
    (d : Directory)
    → IsOrder before
    → Named d
    → Distinct (map id_of (eligible d))
    → (x : FileSnapshotMeta) → Elem x (eligible d)
    → let r = reap_snapshots before retain crc removed d in
      (count_newer before x (eligible d) < retain → Elem x (eligible r.1))
      × (r.0 ≡ true → retain ≤ count_newer before x (eligible d) → ¬ Elem x (eligible r.1))
unfolding reap_snapshots get_snapshots
reap_snapshots-count_newer before retain crc removed d order n distinct x h =
    let ms = get_snapshots before d in
    let sorted = sort_newest-Sorted before order (eligible d) distinct in
    let there = sort_newest-all before x (eligible d) h in
    let count = count_newer-sort_newest before x (eligible d) in
    (
      λ few.
          let first = firsts-Sorted before retain x ms sorted there (omega (arith, few, count)) in
          let (among, other) =
            firsts-beyond retain ms x (sort_newest-Distinct before (eligible d) distinct) first in
          remove_some-other removed (beyond retain ms) d x n other h,
      λ all many.
          remove_some_gone removed (beyond retain ms) d x n all
            (beyond-Sorted before order retain x ms sorted there (omega (arith, many, count))),
    )

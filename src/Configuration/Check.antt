-- ===== src/Configuration/Check.antt =====
-- checkConfiguration of configuration.go against what it means for a configuration to be sound.
use perf_raft.Prelude.{
  ℕ, ◌+◌, ◌<◌, ◌≡◌, ◌≢◌, ◌↔◌, String, true, none, List, [], ◌∷◌, map, arith, inl, inr, refl, sym,
  str_eq_iff, if◌then◌else◌, Elem, Distinct,
}
use perf_raft.Configuration.{
  Configuration, Server, contains, check_servers, check_configuration, count_voters, is_voter,
}

-- Every server has an ID and an address, none occurs twice, and someone can vote.
pub record IsValid (configuration : Configuration) : Type 0 where
  pub ids_given : (x : String) → Elem x (map (λ s. s.id) configuration.servers) → x ≢ ""
  pub ids_distinct : Distinct (map (λ s. s.id) configuration.servers)
  pub addresses_given : (x : String) → Elem x (map (λ s. s.address) configuration.servers) → x ≢ ""
  pub addresses_distinct : Distinct (map (λ s. s.address) configuration.servers)
  pub some_voter : 0 < count_voters configuration.servers

contains→Elem : (xs : List String) (k : String) → contains xs k ≡ true → Elem k xs
unfolding contains
contains→Elem [] k h = cc
contains→Elem (x ∷ xs) k h = ground (arith, str_eq_iff x k, contains→Elem xs k)

Elem→contains : (xs : List String) (k : String) → Elem k xs → contains xs k ≡ true
unfolding contains
Elem→contains [] k h = absurd h
Elem→contains (x ∷ xs) k h = ground (arith, str_eq_iff x k, Elem→contains xs k)

-- What one of the two sets of the loop has checked when it ends.
abbrev Fresh : List String → List String → Type 0
Fresh seen [] = Unit
Fresh seen (x ∷ xs) = (x ≢ "") × (¬ Elem x seen) × Fresh (x ∷ seen) xs

Fresh-given :
    (seen xs : List String) → Fresh seen xs → (x : String) → Elem x xs → (x ≢ "") × (¬ Elem x seen)
Fresh-given seen [] f x m = absurd m
Fresh-given seen (y ∷ ys) (given, new, f) x (inl e) = rw (← e) (given, new)
Fresh-given seen (y ∷ ys) (given, new, f) x (inr m) =
    let h = Fresh-given (y ∷ seen) ys f x m in (h.0, λ k. h.1 (inr k))

Fresh-Distinct : (seen xs : List String) → Fresh seen xs → Distinct xs
Fresh-Distinct seen [] f = tt
Fresh-Distinct seen (y ∷ ys) (given, new, f) =
    ((λ m. (Fresh-given (y ∷ seen) ys f y m).1 (inl refl)), Fresh-Distinct (y ∷ seen) ys f)

Fresh-intro :
    (seen xs : List String)
    → ((x : String) → Elem x xs → (x ≢ "") × (¬ Elem x seen))
    → Distinct xs
    → Fresh seen xs
Fresh-intro seen [] h d = tt
Fresh-intro seen (y ∷ ys) h (new, d) = (
  (h y (inl refl)).0,
  (h y (inl refl)).1,
  Fresh-intro (y ∷ seen) ys
      (λ x m. ((h x (inr m)).0, elim [ inl e ↦ new (rw (sym e) at m) | inr k ↦ (h x (inr m)).1 k ]))
      d,
)

abbrev Passed : List String → List String → ℕ → List Server → Type 0
Passed ids addresses voters servers =
    Fresh ids (map (λ s. s.id) servers)
    × Fresh addresses (map (λ s. s.address) servers)
    × (0 < voters + count_voters servers)

check_servers-Passed :
    (ids addresses : List String) (voters : ℕ) (servers : List Server)
    → check_servers ids addresses voters servers ≡ none
    → Passed ids addresses voters servers
unfolding check_servers count_voters
check_servers-Passed ids addresses voters [] h = ground arith
check_servers-Passed ids addresses voters (s ∷ rest) h = ground (
  arith,
  str_eq_iff s.id "",
  str_eq_iff s.address "",
  Elem→contains ids s.id,
  Elem→contains addresses s.address,
  check_servers-Passed (s.id ∷ ids) (s.address ∷ addresses)
      (if is_voter s.suffrage then voters + 1 else voters) rest,
)

Passed-check_servers :
    (ids addresses : List String) (voters : ℕ) (servers : List Server)
    → Passed ids addresses voters servers
    → check_servers ids addresses voters servers ≡ none
unfolding check_servers count_voters
Passed-check_servers ids addresses voters [] h = ground arith
Passed-check_servers ids addresses voters (s ∷ rest) (i, a, v) = ground (
  arith,
  str_eq_iff s.id "",
  str_eq_iff s.address "",
  contains→Elem ids s.id,
  contains→Elem addresses s.address,
  Passed-check_servers (s.id ∷ ids) (s.address ∷ addresses)
      (if is_voter s.suffrage then voters + 1 else voters) rest,
)

-- checkConfiguration accepts exactly the configurations in which every server has an ID and an
-- address, no ID and no address occurs twice, and at least one server is a voter.
pub check_configuration_iff :
    (configuration : Configuration)
    → (check_configuration configuration ≡ none) ↔ IsValid configuration
unfolding check_configuration
check_configuration_iff c = (
  (λ h.
      let p = check_servers-Passed [] [] 0 c.servers h in
      record {
        ids_given = λ x m. (Fresh-given [] _ p.0 x m).0;
        ids_distinct = Fresh-Distinct [] _ p.0;
        addresses_given = λ x m. (Fresh-given [] _ p.1 x m).0;
        addresses_distinct = Fresh-Distinct [] _ p.1;
        some_voter = omega (arith, p.2);
      }),
  (λ v. Passed-check_servers [] [] 0 c.servers (
    Fresh-intro [] _ (λ x m. (v.ids_given x m, λ k. k)) v.ids_distinct,
    Fresh-intro [] _ (λ x m. (v.addresses_given x m, λ k. k)) v.addresses_distinct,
    omega (arith, v.some_voter),
  )),
)

-- ===== src/Commitment/Membership.antt =====
-- Who is counted in commitment.go: the voters of the configuration, each with what it stored before.
use perf_raft.Prelude.{
  ℕ, ◌<◌, ◌≡◌, String, Bool, false, List, [], ◌∷◌, arith, map, refl, some, none, str_eq, str_eq_iff,
  if◌then◌else◌, ◌||◌, ◌&&◌, Elem, Distinct,
}
use perf_raft.Configuration.{Configuration, Server, is_voter, has_vote_in, has_vote}
use perf_raft.Configuration.Check.{IsValid}
use perf_raft.Commitment.{
  Commitment, Matches, lookup, values, put, or_zero, voter_indexes, new_commitment, recalculate,
  set_configuration,
}
use perf_raft.Commitment.Sort.{at_least}
use perf_raft.Commitment.Majority.{IsSettled}

lookup-put :
    (j k : String) (v : ℕ) (m : Matches)
    → lookup j (put k v m) ≡ (if str_eq k j then some v else lookup j m)
unfolding lookup put
lookup-put j k v [] = refl
lookup-put j k v ((i, w) ∷ m) =
    ground (arith, lookup-put j k v m, str_eq_iff i k, str_eq_iff i j, str_eq_iff k j)

-- Some entry of the list makes the server a voter.
votes_somewhere : List Server → String → Bool
votes_somewhere [] id = false
votes_somewhere (s ∷ rest) id = is_voter s.suffrage && str_eq s.id id || votes_somewhere rest id

voter_indexes-lookup :
    (old : Matches) (servers : List Server) (m : Matches) (j : String)
    → lookup j (voter_indexes old servers m)
      ≡ (if votes_somewhere servers j then some (or_zero (lookup j old)) else lookup j m)
unfolding voter_indexes votes_somewhere
voter_indexes-lookup old [] m j = refl
voter_indexes-lookup old (s ∷ rest) m j = ground (
  arith,
  voter_indexes-lookup old rest
      (if is_voter s.suffrage then put s.id (or_zero (lookup s.id old)) m else m) j,
  lookup-put j s.id (or_zero (lookup s.id old)) m,
  str_eq_iff s.id j,
)

votes_somewhere-absent :
    (servers : List Server) (id : String)
    → ¬ Elem id (map (λ s. s.id) servers)
    → votes_somewhere servers id ≡ false
unfolding votes_somewhere
votes_somewhere-absent [] id h = refl
votes_somewhere-absent (s ∷ rest) id h =
    ground (arith, str_eq_iff s.id id, votes_somewhere-absent rest id)

-- With distinct IDs the first entry is the only one.
votes_somewhere-has_vote :
    (servers : List Server) (id : String)
    → Distinct (map (λ s. s.id) servers)
    → votes_somewhere servers id ≡ has_vote_in servers id
unfolding votes_somewhere has_vote
votes_somewhere-has_vote [] id d = refl
votes_somewhere-has_vote (s ∷ rest) id (new, d) =
    ground (
      arith,
      str_eq_iff s.id id,
      votes_somewhere-absent rest id,
      votes_somewhere-has_vote rest id d,
    )

recalculate-match_indexes : (c : Commitment) → (recalculate c).match_indexes ≡ c.match_indexes
unfolding recalculate
recalculate-match_indexes c = ground arith

-- After a change to a sound configuration exactly its voters are counted, each with the index that
-- it had reported before, or 0 if it is new.
pub set_configuration-lookup :
    (c : Commitment) (configuration : Configuration) (j : String)
    → IsValid configuration
    → lookup j (set_configuration c configuration).match_indexes
      ≡ (if has_vote configuration j then some (or_zero (lookup j c.match_indexes)) else none)
unfolding set_configuration has_vote lookup
set_configuration-lookup c configuration j v = ground (
  arith,
  recalculate-match_indexes
      (record c { match_indexes = voter_indexes c.match_indexes configuration.servers [] }),
  voter_indexes-lookup c.match_indexes configuration.servers [] j,
  votes_somewhere-has_vote configuration.servers j v.ids_distinct,
)

abbrev Zeros : Matches → Type 0
Zeros [] = Unit
Zeros ((k, v) ∷ m) = (v ≡ 0) × Zeros m

put-Zeros : (k : String) (m : Matches) → Zeros m → Zeros (put k 0 m)
unfolding put
put-Zeros k [] z = (refl, tt)
put-Zeros k ((j, v) ∷ m) (e, z) = ground (arith, put-Zeros k m z)

voter_indexes-Zeros :
    (servers : List Server) (m : Matches) → Zeros m → Zeros (voter_indexes [] servers m)
unfolding voter_indexes lookup or_zero
voter_indexes-Zeros [] m z = z
voter_indexes-Zeros (s ∷ rest) m z =
    ground (
      arith,
      put-Zeros s.id m z,
      voter_indexes-Zeros rest (put s.id 0 m),
      voter_indexes-Zeros rest m,
    )

at_least-Zeros : (i : ℕ) (m : Matches) → Zeros m → 0 < i → at_least i (values m) ≡ 0
unfolding at_least values
at_least-Zeros i [] z h = refl
at_least-Zeros i ((k, v) ∷ m) (e, z) h = ground (arith, at_least-Zeros i m z)

-- A new leader has committed nothing of its term, and nobody has stored anything of it.
pub new_commitment-IsSettled :
    (ch : Bool) (configuration : Configuration) (start : ℕ)
    → 0 < start
    → IsSettled (new_commitment ch configuration start)
unfolding new_commitment
new_commitment-IsSettled ch configuration start h i own majority = absurd (
    omega (
      arith,
      at_least-Zeros i (voter_indexes [] configuration.servers [])
          (voter_indexes-Zeros configuration.servers [] tt),
    ))

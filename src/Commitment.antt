-- ===== src/Commitment.antt =====
-- commitment.go: the leader's record of how far each voter stores the log, and the commit index
-- that follows from it. A Go map is an association list with one entry for each key, in order of
-- insertion; `commit_ch` says whether the channel of capacity 1 holds a notification.
pub mod Sort
pub mod Majority
pub mod Order
pub mod Membership
mod Tests
use perf_raft.Prelude.{
  ℕ, zero, suc, ◌+◌, ◌-◌, ◌/◌, String, Bool, true, false, ◌&&◌, Option, none, some, List, [], ◌∷◌,
  ltb, leb, ◌==◌, if◌then◌else◌, str_eq, length,
}
use perf_raft.Configuration.{Configuration, Server, is_voter}

abbrev pub Matches : Type 0
Matches = List (String × ℕ)

pub record Commitment : Type 0 where
  pub commit_ch : Bool
  pub match_indexes : Matches
  pub commit_index : ℕ
  pub start_index : ℕ

-- m[k]
unfoldable pub lookup : String → Matches → Option ℕ
lookup k [] = none
lookup k ((j, v) ∷ m) = if str_eq j k then some v else lookup k m

-- m[k] = v
unfoldable pub put : String → ℕ → Matches → Matches
put k v [] = (k, v) ∷ []
put k v ((j, w) ∷ m) = let rest = put k v m in if str_eq j k then (j, v) ∷ m else (j, w) ∷ rest

-- The zero value of a missing key.
unfoldable pub or_zero : Option ℕ → ℕ
or_zero none = 0
or_zero (some v) = v

unfoldable pub values : Matches → List ℕ
values [] = []
values ((k, v) ∷ m) = v ∷ values m

unfoldable pub insert : ℕ → List ℕ → List ℕ
insert x [] = x ∷ []
insert x (y ∷ ys) = let rest = insert x ys in if leb x y then x ∷ y ∷ ys else y ∷ rest

-- sort.Sort(uint64Slice(matched)): the ascending order, whatever the algorithm.
unfoldable pub sort : List ℕ → List ℕ
sort [] = []
sort (x ∷ xs) = insert x (sort xs)

unfoldable pub get_or_zero : List ℕ → ℕ → ℕ
get_or_zero [] i = 0
get_or_zero (x ∷ xs) zero = x
get_or_zero (x ∷ xs) (suc i) = get_or_zero xs i

-- matched[(len(matched)-1)/2]
unfoldable pub quorum_match_index : Matches → ℕ
quorum_match_index m = get_or_zero (sort (values m)) ((length (values m) - 1) / 2)

unfoldable pub recalculate : Commitment → Commitment
recalculate c =
    if length (values c.match_indexes) == 0
    then c
    else if ltb c.commit_index (quorum_match_index c.match_indexes)
        && leb c.start_index (quorum_match_index c.match_indexes)
    then record c { commit_index = quorum_match_index c.match_indexes; commit_ch = true }
    else c

-- The loops of newCommitment and setConfiguration: each voter gets its old entry, or 0.
unfoldable pub voter_indexes : Matches → List Server → Matches → Matches
voter_indexes old [] m = m
voter_indexes old (server ∷ rest) m =
    voter_indexes old rest
      (if is_voter server.suffrage then put server.id (or_zero (lookup server.id old)) m else m)

unfoldable pub new_commitment : Bool → Configuration → ℕ → Commitment
unfolding voter_indexes
new_commitment commit_ch configuration start_index = record {
  commit_ch = commit_ch;
  match_indexes = voter_indexes [] configuration.servers [];
  commit_index = 0;
  start_index = start_index;
}

unfoldable pub set_configuration : Commitment → Configuration → Commitment
unfolding recalculate voter_indexes
set_configuration c configuration =
    recalculate
      (record c { match_indexes = voter_indexes c.match_indexes configuration.servers [] })

unfoldable pub get_commit_index : Commitment → ℕ
get_commit_index c = c.commit_index

unfoldable pub advance : Commitment → String → ℕ → Option ℕ → Commitment
advance c server index none = c
advance c server index (some prev) =
    if ltb prev index
    then recalculate (record c { match_indexes = put server index c.match_indexes })
    else c

unfoldable pub match : Commitment → String → ℕ → Commitment
unfolding advance
match c server index = advance c server index (lookup server c.match_indexes)

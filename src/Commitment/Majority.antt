-- ===== src/Commitment/Majority.antt =====
-- The rule of commitment.go: an index of the leader's own term is committed when a majority of the
-- voters stores it.
use perf_raft.Prelude.{
  ℕ, ◌+◌, ◌/◌, ◌<◌, ◌≤◌, ◌≡◌, ◌≢◌, ◌⊎◌, inl, inr, String, true, List, [], ◌∷◌, arith, length, refl,
  some, none, Option, Bool-cases, ltb,
}
use perf_raft.Configuration.{Configuration}
use perf_raft.Commitment.{
  Commitment, Matches, lookup, values, quorum_match_index, recalculate, match, set_configuration,
  advance, put, voter_indexes,
}
use perf_raft.Commitment.Sort.{at_least, at_least-le-length, median_iff}

-- More than half of the voters store the log through `i`.
abbrev pub IsMajority : ℕ → Matches → Type 0
IsMajority i m = length (values m) / 2 + 1 ≤ at_least i (values m)

-- Whatever a majority stores from the first index of the term on is committed.
abbrev pub IsSettled : Commitment → Type 0
IsSettled c = (i : ℕ) → c.start_index ≤ i → IsMajority i c.match_indexes → i ≤ c.commit_index

-- The commit index has not fallen, and if it has risen, then to an index of the term that a
-- majority stores, and with a notification; nothing that a majority stores is left out.
pub record Advanced (c d : Commitment) : Type 0 where
  pub start_kept : d.start_index ≡ c.start_index
  pub grows : c.commit_index ≤ d.commit_index
  pub supported :
      (d.commit_index ≡ c.commit_index)
      ⊎ ((d.start_index ≤ d.commit_index)
          × IsMajority d.commit_index d.match_indexes
          × (d.commit_ch ≡ true))
  pub settled : IsSettled d

not-IsMajority_empty : (i : ℕ) (m : Matches) → length (values m) ≡ 0 → ¬ IsMajority i m
not-IsMajority_empty i m e h = omega (arith, at_least-le-length i (values m))

length-values_pos : (m : Matches) → m ≢ [] → 0 < length (values m)
unfolding values
length-values_pos [] h = absurd (h refl)
length-values_pos (x ∷ m) h = omega arith

quorum-IsMajority : (m : Matches) → 0 < length (values m) → IsMajority (quorum_match_index m) m
unfolding quorum_match_index
quorum-IsMajority m h = (median_iff (quorum_match_index m) (values m) h).0 (omega arith)

IsMajority-le-quorum :
    (i : ℕ) (m : Matches) → 0 < length (values m) → IsMajority i m → i ≤ quorum_match_index m
unfolding quorum_match_index
IsMajority-le-quorum i m h k = (median_iff i (values m) h).1 k

-- The index that recalculate computes is the largest one that a majority of the voters stores.
pub quorum_match_index_lem :
    (m : Matches)
    → m ≢ []
    → IsMajority (quorum_match_index m) m × ((i : ℕ) → IsMajority i m → i ≤ quorum_match_index m)
quorum_match_index_lem m h = (
  quorum-IsMajority m (length-values_pos m h),
  λ i. IsMajority-le-quorum i m (length-values_pos m h),
)

recalculate-Advanced : (c : Commitment) → Advanced c (recalculate c)
unfolding recalculate
recalculate-Advanced c = record {
  start_kept = ground arith;
  grows = ground arith;
  supported = ground (arith, quorum-IsMajority c.match_indexes);
  settled = λ i h m.
      ground
        (arith, not-IsMajority_empty i c.match_indexes, IsMajority-le-quorum i c.match_indexes);
}

-- A report that the leader ignores keeps what it had.
Advanced-refl : (c : Commitment) → IsSettled c → Advanced c c
Advanced-refl c s = record {
  start_kept = refl;
  grows = omega arith;
  supported = inl refl;
  settled = s;
}

Advanced-recalculate :
    (c : Commitment) (m : Matches) → Advanced c (recalculate (record c { match_indexes = m }))
Advanced-recalculate c m =
    let a = recalculate-Advanced (record c { match_indexes = m }) in
    record {
      start_kept = a.start_kept;
      grows = a.grows;
      supported = a.supported;
      settled = a.settled;
    }

advance-Advanced :
    (c : Commitment) (server : String) (index : ℕ) (old : Option ℕ)
    → IsSettled c
    → Advanced c (advance c server index old)
unfolding advance
advance-Advanced c server index none s = Advanced-refl c s
advance-Advanced c server index (some prev) s = elim (Bool-cases (ltb prev index)) [
  | inl e ↦ rw e (Advanced-recalculate c (put server index c.match_indexes))
  | inr e ↦ rw e (Advanced-refl c s)
]

pub match-Advanced :
    (c : Commitment) (server : String) (index : ℕ) → IsSettled c → Advanced c (match c server index)
unfolding match
match-Advanced c server index s = advance-Advanced c server index (lookup server c.match_indexes) s

-- When the configuration changes, from any state, the commit index never falls; if it rises, then to
-- an index of the leader's term that a majority of the new voters stores, with a notification pending;
-- and no index of the term that a majority of them stores is left uncommitted.
pub set_configuration-Advanced :
    (c : Commitment) (configuration : Configuration)
    → Advanced c (set_configuration c configuration)
unfolding set_configuration
set_configuration-Advanced c configuration =
    Advanced-recalculate c (voter_indexes c.match_indexes configuration.servers [])

-- What happens to a leader's commitment after it was made.
pub data Event : Type 0 where
  reported : String → ℕ → Event
  reconfigured : Configuration → Event

pub handle : Commitment → Event → Commitment
handle c (reported server index) = match c server index
handle c (reconfigured configuration) = set_configuration c configuration

pub run : Commitment → List Event → Commitment
unfolding handle
run c [] = c
run c (e ∷ es) = run (handle c e) es

handle-Advanced : (c : Commitment) (e : Event) → IsSettled c → Advanced c (handle c e)
unfolding handle
handle-Advanced c (reported server index) s = match-Advanced c server index s
handle-Advanced c (reconfigured configuration) s = set_configuration-Advanced c configuration

-- Over any sequence of reports and configurations the commit index never falls, and whatever a
-- majority stores of the leader's term stays committed.
pub run-IsSettled :
    (c : Commitment) (es : List Event)
    → IsSettled c
    → (c.commit_index ≤ (run c es).commit_index) × IsSettled (run c es)
unfolding run
run-IsSettled c [] s = (omega arith, s)
run-IsSettled c (e ∷ es) s =
    let a = handle-Advanced c e s in
    let r = run-IsSettled (handle c e) es a.settled in (omega (arith, a.grows, r.0), r.1)

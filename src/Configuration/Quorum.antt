-- ===== src/Configuration/Quorum.antt =====
-- Why nextConfiguration of configuration.go is safe without joint consensus: with the majority of
-- quorumSize in raft.go, a quorum before a change and a quorum after it share a voter.
use mathlib.Core.List.{Mem, mem-cons_self, mem-cons_of_mem}
use perf_raft.Prelude.{
  ℕ, ◌+◌, ◌/◌, ◌≤◌, ◌≡◌, ◌⊎◌, String, Bool, true, false, List, [], ◌∷◌, ◌++◌, arith, inl, inr, refl,
  str_eq, str_eq_iff, ◌&&◌, Bool-cases,
}
use perf_raft.Configuration.{
  Configuration, Server, ConfigurationChangeCommand, ConfigurationChangeRequest, voter, nonvoter,
  is_voter, add_voter, add_nonvoter, demote_voter, remove_server, promote, ok, update_first,
  remove_first, append_unless, count_voters, quorum_size, change_servers, next_configuration,
  new_server, matches, revote, unvote,
}
use perf_raft.Configuration.Change.{next_configuration-ok}

abbrev bit : Bool → ℕ
bit true = 1
bit false = 0

-- How many of the voters said yes.
unfoldable pub granted : (String → Bool) → List Server → ℕ
granted q [] = 0
granted q (s ∷ rest) = bit (is_voter s.suffrage && q s.id) + granted q rest

-- Two lists of servers whose voters differ in at most one.
data Apart (l m : List Server) : Type 0 where
  same : ((q : String → Bool) → granted q m ≡ granted q l) → Apart l m
  gain : (x : String) → ((q : String → Bool) → granted q m ≡ granted q l + bit (q x)) → Apart l m
  lose : (x : String) → ((q : String → Bool) → granted q l ≡ granted q m + bit (q x)) → Apart l m

Apart-cons : (s : Server) {l m : List Server} → Apart l m → Apart (s ∷ l) (s ∷ m)
unfolding granted
Apart-cons s (same h) = same λ q. omega (arith, h q)
Apart-cons s (gain x h) = gain x λ q. omega (arith, h q)
Apart-cons s (lose x h) = lose x λ q. omega (arith, h q)

Apart-refl : (l : List Server) → Apart l l
Apart-refl l = same λ q. refl

update_first-Apart :
    (test : Server → Bool) (f : Server → Server)
    → ((s : Server) (rest : List Server) → test s ≡ true → Apart (s ∷ rest) (f s ∷ rest))
    → (servers : List Server) → Apart servers (update_first test f servers).0
unfolding update_first
update_first-Apart test f head [] = Apart-refl []
update_first-Apart test f head (s ∷ rest) = elim (Bool-cases (test s)) [
  | inl e ↦ rw e (head s rest e)
  | inr e ↦ rw e (Apart-cons s (update_first-Apart test f head rest))
]

update_first-missed :
    (test : Server → Bool) (f : Server → Server) (servers : List Server)
    → (update_first test f servers).1 ≡ false
    → (update_first test f servers).0 ≡ servers
unfolding update_first
update_first-missed test f [] h = refl
update_first-missed test f (s ∷ rest) h = ground (arith, update_first-missed test f rest)

-- An entry that is rewritten for a server of the same ID.
rewritten-Apart : (s t : Server) (rest : List Server) → s.id ≡ t.id → Apart (s ∷ rest) (t ∷ rest)
unfolding granted
rewritten-Apart s t rest e = elim (Bool-cases (is_voter s.suffrage)) [
  | inl v ↦ elim (Bool-cases (is_voter t.suffrage)) [
    | inl w ↦ same λ q. ground arith
    | inr w ↦ lose s.id λ q. ground arith
  ]
  | inr v ↦ elim (Bool-cases (is_voter t.suffrage)) [
    | inl w ↦ gain s.id λ q. ground arith
    | inr w ↦ same λ q. ground arith
  ]
]

append-Apart : (l : List Server) (s : Server) → Apart l (l ++ s ∷ [])
unfolding granted
append-Apart [] s = elim (Bool-cases (is_voter s.suffrage)) [
  | inl v ↦ gain s.id λ q. ground arith
  | inr v ↦ same λ q. ground arith
]
append-Apart (x ∷ l) s = Apart-cons x (append-Apart l s)

remove_first-Apart : (id : String) (servers : List Server) → Apart servers (remove_first id servers)
unfolding remove_first granted
remove_first-Apart id [] = Apart-refl []
remove_first-Apart id (s ∷ rest) = elim (Bool-cases (str_eq s.id id)) [
  | inl e ↦ rw e (elim (Bool-cases (is_voter s.suffrage)) [
    | inl v ↦ lose s.id λ q. ground arith
    | inr v ↦ same λ q. ground arith
  ])
  | inr e ↦ rw e (Apart-cons s (remove_first-Apart id rest))
]

append_unless-Apart :
    (new : Server) (servers : List Server) (r : List Server × Bool)
    → Apart servers r.0
    → (r.1 ≡ false → r.0 ≡ servers)
    → Apart servers (append_unless new r)
unfolding append_unless
append_unless-Apart new servers (r, true) a missed = a
append_unless-Apart new servers (r, false) a missed = rw (missed refl) (append-Apart servers new)

module _ (c : ConfigurationChangeRequest) where
  revote-Apart :
      (s : Server) (rest : List Server) → matches c s ≡ true → Apart (s ∷ rest) (revote c s ∷ rest)
  unfolding revote
  revote-Apart s rest h =
      rewritten-Apart s (revote c s) rest (ground (arith, str_eq_iff s.id c.server_id))

  unvote-Apart :
      (s : Server) (rest : List Server) → matches c s ≡ true → Apart (s ∷ rest) (unvote c s ∷ rest)
  unfolding unvote
  unvote-Apart s rest h =
      rewritten-Apart s (unvote c s) rest (ground (arith, str_eq_iff s.id c.server_id))

  change_servers-Apart :
      (command : ConfigurationChangeCommand) (servers : List Server)
      → Apart servers (change_servers command c servers)
  unfolding change_servers
  change_servers-Apart add_voter servers =
      append_unless-Apart (new_server voter c) servers (update_first (matches c) (revote c) servers)
        (update_first-Apart (matches c) (revote c) revote-Apart servers)
        (update_first-missed (matches c) (revote c) servers)
  change_servers-Apart add_nonvoter servers =
      append_unless-Apart (new_server nonvoter c) servers
        (update_first (matches c) (unvote c) servers)
        (update_first-Apart (matches c) (unvote c) unvote-Apart servers)
        (update_first-missed (matches c) (unvote c) servers)
  change_servers-Apart demote_voter servers =
      update_first-Apart _ _ (λ s rest h. rewritten-Apart s _ rest refl) servers
  change_servers-Apart remove_server servers = remove_first-Apart c.server_id servers
  change_servers-Apart promote servers =
      update_first-Apart _ _ (λ s rest h. rewritten-Apart s _ rest refl) servers

-- Every voter is counted once.
abbrev everyone : String → Bool
everyone x = true

count_voters-granted : (l : List Server) → count_voters l ≡ granted everyone l
unfolding count_voters granted
count_voters-granted [] = refl
count_voters-granted (s ∷ rest) = ground (arith, count_voters-granted rest)

-- A voter of the list that said yes both times.
abbrev pub Common : (String → Bool) → (String → Bool) → List Server → Type 0
Common q r l =
    (s : Server) × Mem s l × (is_voter s.suffrage ≡ true) × (q s.id ≡ true) × (r s.id ≡ true)

Common-cons :
    (q r : String → Bool) (s : Server) (l : List Server) → Common q r l → Common q r (s ∷ l)
Common-cons q r s l (t, m, v, a, b) = (t, mem-cons_of_mem s m, v, a, b)

-- Either some voter said yes both times, or the yeses are no more than the voters.
find-Common :
    (q r : String → Bool) (l : List Server)
    → Common q r l ⊎ (granted q l + granted r l ≤ granted everyone l)
unfolding granted
find-Common q r [] = inr (omega arith)
find-Common q r (s ∷ rest) = elim (find-Common q r rest) [
  | inl c ↦ inl (Common-cons q r s rest c)
  | inr h ↦ elim (Bool-cases (is_voter s.suffrage && (q s.id && r s.id))) [
    | inl e ↦ inl (s, mem-cons_self, ground arith, ground arith, ground arith)
    | inr e ↦ inr (ground arith)
  ]
]

bit-le : (b : Bool) → bit b ≤ 1
bit-le true = omega arith
bit-le false = omega arith

meet :
    (q r : String → Bool) (l m : List Server)
    → Apart l m
    → count_voters l / 2 + 1 ≤ granted q l
    → count_voters m / 2 + 1 ≤ granted r m
    → ¬ (granted q l + granted r l ≤ granted everyone l)
meet q r l m (same h) a b k =
    omega (arith, h r, h everyone, count_voters-granted l, count_voters-granted m)
meet q r l m (gain x h) a b k =
    omega (arith, h r, h everyone, bit-le (r x), count_voters-granted l, count_voters-granted m)
meet q r l m (lose x h) a b k =
    omega (arith, h r, h everyone, count_voters-granted l, count_voters-granted m)

-- A quorum of one configuration and a quorum of the configuration that any single change makes of
-- it have a server in common, which is a voter of the first.
pub next_configuration-quorums_meet :
    (current : Configuration) (index : ℕ) (change : ConfigurationChangeRequest)
    → {next : Configuration} → next_configuration current index change ≡ ok next
    → (q r : String → Bool) → quorum_size current ≤ granted q current.servers
    → quorum_size next ≤ granted r next.servers
    → Common q r current.servers
unfolding quorum_size
next_configuration-quorums_meet current index change {next} h q r a b =
    let made = (next_configuration-ok current index change h).1 in
    elim (find-Common q r current.servers) [
      | inl c ↦ c
      | inr k ↦ absurd (
          meet q r current.servers next.servers
            (rw made (change_servers-Apart change change.command current.servers)) a b k)
    ]

-- Two quorums of one configuration have a voter in common.
pub quorum_size-meet :
    (configuration : Configuration) (q r : String → Bool)
    → quorum_size configuration ≤ granted q configuration.servers
    → quorum_size configuration ≤ granted r configuration.servers
    → Common q r configuration.servers
unfolding quorum_size
quorum_size-meet configuration q r a b =
    let l = configuration.servers in
    elim (find-Common q r l) [ inl c ↦ c | inr k ↦ absurd (meet q r l l (Apart-refl l) a b k) ]

-- ===== src/Leading/Choice.antt =====
-- pickServer of raft.go: the voter that is the furthest along.
use perf_raft.Prelude.{
  ℕ, ◌≤◌, ◌≡◌, ◌⊎◌, inl, inr, false, not, ◌||◌, Option, none, some, List, [], ◌∷◌, ltb, str_eq,
  Elem, arith, refl, subst, Bool-cases, Option-cases,
}
use perf_raft.Configuration.{Server, is_voter}
use perf_raft.Node.{Env}
use perf_raft.Leader.{Leader, Follower, Replicas, find_replica}
use perf_raft.Leading.{pick_best, pick_server}

-- Can this server be picked?
abbrev pub IsEligible : Env → Server → Type 0
IsEligible env s = (str_eq s.id env.local_id || not (is_voter s.suffrage)) ≡ false

-- The pick, by the next index of its replication; 0 stands for none.
abbrev pub Reaches : Replicas → Option Server → ℕ → Type 0
Reaches m none i = i ≡ 0
Reaches m (some s) i = (f : Follower) × (find_replica s.id m ≡ some f) × (f.next_index ≡ i)

-- Whoever of the servers can be picked is not past `i`.
abbrev pub NoneBeyond : Env → Replicas → List Server → ℕ → Type 0
NoneBeyond env m [] i = Unit
NoneBeyond env m (s ∷ rest) i =
    (IsEligible env s → (f : Follower) → find_replica s.id m ≡ some f → f.next_index ≤ i)
    × NoneBeyond env m rest i

pick_best-NoneBeyond :
    (env : Env) (m : Replicas) (pick : Option Server) (i : ℕ) (servers : List Server)
    → Reaches m pick i
    → (j : ℕ) × Reaches m (pick_best env m pick i servers) j × (i ≤ j) × NoneBeyond env m servers j
unfolding pick_best
pick_best-NoneBeyond env m pick i [] r = (i, r, omega arith, tt)
pick_best-NoneBeyond env m pick i (s ∷ rest) r =
    elim (Bool-cases (str_eq s.id env.local_id || not (is_voter s.suffrage))) [
      | inl e ↦
          let (j, a, b, c) = pick_best-NoneBeyond env m pick i rest r in
          rw e (j, a, b, ((λ h. ground (arith, h)), c))
      | inr e ↦ rw e (elim (Option-cases (find_replica s.id m)) [
        | inl f ↦
            let (j, a, b, c) = pick_best-NoneBeyond env m pick i rest r in
            rw f (j, a, b, ((λ h g k. cc), c))
        | inr (g, f) ↦ rw f (elim (Bool-cases (ltb i g.next_index)) [
          | inl k ↦
              let (j, a, b, c) =
                pick_best-NoneBeyond env m (some s) g.next_index rest (g, f, refl) in
              rw k (j, a, ground arith, ((λ h q p. ground (arith, p)), c))
          | inr k ↦
              let (j, a, b, c) = pick_best-NoneBeyond env m pick i rest r in
              rw k (j, a, b, ((λ h q p. ground (arith, p)), c))
        ])
      ])
    ]

pick_best-IsEligible :
    (env : Env) (m : Replicas) (pick : Option Server) (i : ℕ) (servers : List Server) {s : Server}
    → pick_best env m pick i servers ≡ some s
    → (pick ≡ some s) ⊎ (Elem s servers × IsEligible env s)
unfolding pick_best
pick_best-IsEligible env m pick i [] h = inl h
pick_best-IsEligible env m pick i (t ∷ rest) {s} h =
    elim (Bool-cases (str_eq t.id env.local_id || not (is_voter t.suffrage))) [
      | inl e ↦ further (pick_best-IsEligible env m pick i rest (rw e at h))
      | inr e ↦ elim (Option-cases (find_replica t.id m)) [
        | inl f ↦ further (pick_best-IsEligible env m pick i rest (rw (e, f) at h))
        | inr (g, f) ↦ elim (Bool-cases (ltb i g.next_index)) [
          | inr k ↦ further (pick_best-IsEligible env m pick i rest (rw (e, f, k) at h))
          | inl k ↦
              elim (pick_best-IsEligible env m (some t) g.next_index rest (rw (e, f, k) at h)) [
                | inl p ↦ let q : t ≡ s = some-inj p in inr (inl q, subst (IsEligible env) q e)
                | inr (el, p) ↦ inr (inr el, p)
              ]
        ]
      ]
    ]
  where
    some-inj : {a b : Server} → some a ≡ some b → a ≡ b
    some-inj e = cc

    further :
        (pick ≡ some s) ⊎ (Elem s rest × IsEligible env s)
        → (pick ≡ some s) ⊎ (Elem s (t ∷ rest) × IsEligible env s)
    further (inl e) = inl e
    further (inr (el, p)) = inr (inr el, p)

-- The server that pickServer picks is a voter of the latest configuration other than the leader,
-- with the largest next index among those; if it picks none, no such server has been sent anything.
pub pick_server_lem :
    {St Lg : Type 0} (env : Env) (l : Leader St Lg)
    → (i : ℕ) × Reaches l.replicas (pick_server env l) i
      × NoneBeyond env l.replicas l.node.configurations.latest.servers i
      × ((s : Server)
          → pick_server env l ≡ some s
          → Elem s l.node.configurations.latest.servers × IsEligible env s)
unfolding pick_server
pick_server_lem env l =
    let servers = l.node.configurations.latest.servers in
    let (i, a, b, c) = pick_best-NoneBeyond env l.replicas none 0 servers refl in
    (i, a, c, λ s h. ground (arith, pick_best-IsEligible env l.replicas none 0 servers {s = s} h))

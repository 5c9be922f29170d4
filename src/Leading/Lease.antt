-- ===== src/Leading/Lease.antt =====
-- checkLeaderLease of raft.go: a leader without a quorum in contact steps down.
use perf_raft.Prelude.{
  ℕ, ◌-◌, ◌<◌, ◌≤◌, ◌≡◌, ◌⊎◌, inl, inr, String, Bool, false, ◌||◌, none, some, List, [], ◌∷◌, leb,
  str_eq, arith, Option-cases,
}
use perf_raft.Configuration.{Server, quorum_size}
use perf_raft.Configuration.Quorum.{granted}
use perf_raft.Node.{Env, follower, set_state}
use perf_raft.Leader.{Leader, Replicas, find_replica}
use perf_raft.Leading.{count_contacts, check_leader_lease}

-- Is this server the leader itself, or did it answer within the lease?
pub in_contact : Env → ℕ → ℕ → Replicas → String → Bool
in_contact env lease now m id =
    str_eq id env.local_id
    || elim (find_replica id m) [ none ↦ false | some f ↦ leb (now - f.last_contact) lease ]

count_contacts-granted :
    (env : Env) (lease now : ℕ) (m : Replicas) (servers : List Server) (k d : ℕ)
    → count_contacts env lease now m servers ≡ some (k, d)
    → (k ≡ granted (in_contact env lease now m) servers) × (d ≤ lease)
unfolding count_contacts granted in_contact
count_contacts-granted env lease now m [] k d h = ground arith
count_contacts-granted env lease now m (s ∷ rest) k d h =
    elim (Option-cases (count_contacts env lease now m rest)) [
      | inl e ↦ ground (arith, e, count_contacts-granted env lease now m rest k d)
      | inr ((k', d'), e) ↦
          let ih = count_contacts-granted env lease now m rest k' d' e in ground (arith, e, ih)
    ]

-- checkLeaderLease either keeps the leader as it is, with a quorum of the latest configuration made of
-- itself and the voters that answered within the lease, or makes it a follower, without one; and the
-- longest time that it gives back is within the lease.
pub check_leader_lease_lem :
    {St Lg : Type 0} (env : Env) (lease now : ℕ) (l : Leader St Lg) {m : Leader St Lg} {d : ℕ}
    → check_leader_lease env lease now l ≡ some (m, d)
    → (d ≤ lease)
      × (((m ≡ l)
            × (quorum_size l.node.configurations.latest
                ≤ granted
                    (in_contact env lease now l.replicas)
                    l.node.configurations.latest.servers))
          ⊎ ((m ≡ record l { node = set_state l.node follower })
              × (granted (in_contact env lease now l.replicas) l.node.configurations.latest.servers
                  < quorum_size l.node.configurations.latest)))
unfolding check_leader_lease
check_leader_lease_lem env lease now l {m} {d} h =
    elim (Option-cases
      (count_contacts env lease now l.replicas l.node.configurations.latest.servers)) [
        | inl e ↦ ground (arith, e, h)
        | inr ((k, d'), e) ↦
            let c =
              count_contacts-granted env lease now l.replicas l.node.configurations.latest.servers k
                d' e in
            ground (arith, e, c, h)
      ]

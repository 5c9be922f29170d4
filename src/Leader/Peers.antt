-- ===== src/Leader/Peers.antt =====
-- startStopReplication of raft.go: a leader replicates to exactly the other servers.
use perf_raft.Prelude.{
  ℕ, ◌+◌, ◌≡◌, String, Option, none, some, List, [], ◌∷◌, if◌then◌else◌, str_eq, str_eq_iff, arith,
  refl, ap, Bool-cases, inl, inr,
}
use perf_raft.Configuration.{Server}
use perf_raft.LogStore.{LogStore, StableStore}
use perf_raft.Node.{Env, get_last_index}
use perf_raft.Leader.{
  Leader, Follower, Replicas, find_replica, put_replica, start_replica, start_replicas,
  stop_replicas, in_config, start_stop_replication,
}

find_replica-put_replica :
    (j k : String) (f : Follower) (m : Replicas)
    → find_replica j (put_replica k f m) ≡ (if str_eq k j then some f else find_replica j m)
unfolding find_replica put_replica
find_replica-put_replica j k f [] = ground arith
find_replica-put_replica j k f ((i, g) ∷ m) =
    ground (arith, find_replica-put_replica j k f m, str_eq_iff i k, str_eq_iff i j, str_eq_iff k j)

abbrev pub next_of : Option Follower → Option ℕ
next_of none = none
next_of (some f) = some f.next_index

-- The next index of a peer that replication goes on or begins with.
abbrev pub next_or : ℕ → Option Follower → ℕ
next_or i none = i
next_or i (some f) = f.next_index

module _ (st : StableStore) (lg : LogStore) (env : Env) where
  stop_replicas_lem :
      (servers : List Server) (m : Replicas) (j : String)
      → find_replica j (stop_replicas st lg env servers m)
        ≡ (if in_config st lg env servers j then find_replica j m else none)
  unfolding find_replica stop_replicas
  stop_replicas_lem servers [] j = ground arith
  stop_replicas_lem servers ((i, f) ∷ m) j = elim (Bool-cases (str_eq i j)) [
    | inl e ↦
        let p = (str_eq_iff i j).0 e in
        ground (arith, stop_replicas_lem servers m j, ap (in_config st lg env servers) p, e)
    | inr e ↦ ground (arith, stop_replicas_lem servers m j, e)
  ]

  next_index-start_replica :
      (last term now : ℕ) (s : Server) (o : Option Follower)
      → (start_replica st lg env last term now s o).next_index ≡ next_or (last + 1) o
  unfolding start_replica
  next_index-start_replica last term now s none = refl
  next_index-start_replica last term now s (some f) =
      elim (Bool-cases (str_eq f.peer.address s.address)) [ inl e ↦ rw e refl | inr e ↦ rw e refl ]

  -- What a put of the started peer leaves under a key.
  start_put :
      (last term now : ℕ) (s : Server) (m : Replicas) (j : String)
      → find_replica j
          (put_replica s.id (start_replica st lg env last term now s (find_replica s.id m)) m)
        ≡ (if str_eq s.id j
            then some (start_replica st lg env last term now s (find_replica s.id m))
            else find_replica j m)
  start_put last term now s m j =
      find_replica-put_replica j s.id
        (start_replica st lg env last term now s (find_replica s.id m)) m

  start_replicas_lem :
      (last term now : ℕ) (servers : List Server) (m : Replicas) (j : String)
      → next_of (find_replica j (start_replicas st lg env last term now servers m)) ≡ (
          if in_config st lg env servers j
          then some (next_or (last + 1) (find_replica j m))
          else next_of (find_replica j m))
  unfolding start_replicas in_config
  start_replicas_lem last term now [] m j = refl
  start_replicas_lem last term now (s ∷ rest) m j = elim (Bool-cases (str_eq s.id env.local_id)) [
    | inl e ↦ rw e (start_replicas_lem last term now rest m j)
    | inr e ↦
        let f = start_replica st lg env last term now s (find_replica s.id m) in
        let whole = start_replicas_lem last term now rest (put_replica s.id f m) j in
        let put = start_put last term now s m j in
        let starts = next_index-start_replica last term now s (find_replica s.id m) in
        rw e (elim (Bool-cases (str_eq s.id j)) [
          | inl same ↦
              let key = ap (λ i. find_replica i m) ((str_eq_iff s.id j).0 same) in
              ground (arith, whole, put, same, starts, key)
          | inr other ↦ ground (arith, whole, put, other)
        ])
  ]

  -- After startStopReplication the peers that are replicated to are the other servers of the latest
  -- configuration, and no others: one that was replicated to already keeps its next index, and a new one
  -- starts right after the last entry of the leader.
  pub start_stop_replication_lem :
      (l : Leader st.S lg.S) (now : ℕ) (id : String)
      → next_of (find_replica id (start_stop_replication st lg env l now).replicas) ≡ (
          if in_config st lg env l.node.configurations.latest.servers id
          then some (next_or (get_last_index l.node + 1) (find_replica id l.replicas))
          else none)
  unfolding start_stop_replication
  start_stop_replication_lem l now id =
      let servers = l.node.configurations.latest.servers in
      let last = get_last_index l.node in
      let started = start_replicas st lg env last l.node.current_term now servers l.replicas in
      ground (
        arith,
        stop_replicas_lem servers started id,
        start_replicas_lem last l.node.current_term now servers l.replicas id,
      )

-- ===== src/Leading.antt =====
-- Branches of leaderLoop of raft.go: entries that were committed, the lease, the choice of a server to
-- hand leadership to, and the verification of leadership with verifyFuture of future.go.
pub mod Lease
pub mod Commits
pub mod Choice
pub mod Verified
pub mod Serving
mod Tests
use perf_raft.Prelude.{
  ℕ, suc, ◌+◌, ◌-◌, ◌*◌, String, Bool, true, false, not, ◌&&◌, ◌||◌, Option, none, some, List, [],
  ◌∷◌, ◌++◌, ltb, leb, ◌==◌, if◌then◌else◌, str_eq,
}
use perf_raft.Configuration.{Configuration, Server, has_vote, is_voter, quorum_size}
use perf_raft.Commitment.{get_commit_index}
use perf_raft.LogStore.{Log, LogStore, StableStore}
use perf_raft.Node.{
  Node, Env, Outcome, returned, panicked, follower, set_state, set_committed_configuration,
}
use perf_raft.Process.{Sent, process_logs}
use perf_raft.Leader.{Leader, Follower, Replicas, find_replica}

-- The entry of a group with this index, the last one if there are several.
pub in_group : List Log → ℕ → Option Log
in_group [] idx = none
in_group (l ∷ ls) idx = elim (in_group ls idx) [
  | some k ↦ some k
  | none ↦ if l.index == idx then some l else none
]

-- The inflight entries at the front that are committed, and the rest.
unfoldable pub take_ready : ℕ → List Log → List Log × List Log
take_ready commit_index [] = ([], [])
take_ready commit_index (l ∷ ls) =
    let later = take_ready commit_index ls in
    if ltb commit_index l.index then ([], l ∷ ls) else (l ∷ later.0, later.1)

abbrev pub last_index_of : ℕ → List Log → ℕ
last_index_of i [] = i
last_index_of i (l ∷ ls) = last_index_of l.index ls

-- What a commit leaves: the leader, what was sent, and whether the server is to shut down.
pub record Committed (St Lg : Type 0) : Type 0 where
  pub after : Leader St Lg
  pub sent : Sent
  pub shuts_down : Bool

module _ (st : StableStore) (lg : LogStore) (env : Env) (max_append_entries : ℕ)
    (shutdown_on_remove : Bool) where
  -- The new commit index, and with it the configuration that it commits.
  unfoldable pub raise_commit : Leader st.S lg.S → Leader st.S lg.S
  raise_commit l =
      let idx = get_commit_index l.commitment in
      let n = record l.node { commit_index = idx } in
      let latest_index = l.node.configurations.latest_index in
      if ltb l.node.commit_index latest_index && leb latest_index idx
      then record l {
        node = set_committed_configuration n n.configurations.latest n.configurations.latest_index;
      }
      else record l { node = n }

  -- Was the configuration without us committed now?
  unfoldable pub removes_us : Leader st.S lg.S → Bool
  removes_us l =
      let latest_index = l.node.configurations.latest_index in
      (ltb l.node.commit_index latest_index && leb latest_index (get_commit_index l.commitment))
      && not (has_vote l.node.configurations.latest env.local_id)

  -- The inflight entries that are left once a group was applied.
  applied :
      Leader st.S lg.S
      → List Log
      → Option (Node st.S lg.S × Sent)
      → Option (Leader st.S lg.S × Sent)
  applied l rest none = none
  applied l rest (some (n, sent)) = some (record l { node = n; inflight = rest }, sent)

  -- Pull the inflight entries that are committed off the queue, and process them; `none` is a panic.
  apply_ready : Leader st.S lg.S → List Log × List Log → Option (Leader st.S lg.S × Sent)
  unfolding applied
  apply_ready l ([], rest) =
      some (record l { inflight = rest }, record { batches = []; responded = [] })
  apply_ready l (e ∷ es, rest) =
      applied l rest (
        process_logs lg env max_append_entries (in_group (e ∷ es)) l.node
          (last_index_of e.index es))

  leave : Bool → Option (Leader st.S lg.S × Sent) → Option (Committed st.S lg.S)
  leave steps_down none = none
  leave steps_down (some (l, sent)) = some (record {
    after =
        if steps_down && not shutdown_on_remove
        then record l { node = set_state l.node follower }
        else l;
    sent = sent;
    shuts_down = steps_down && shutdown_on_remove;
  })

  -- `stepping_down` is the variable of leaderLoop, from an earlier round.
  unfoldable pub take_commits : Bool → Leader st.S lg.S → Option (Committed st.S lg.S)
  unfolding raise_commit removes_us apply_ready leave
  take_commits stepping_down l =
      let m = raise_commit l in
      leave (stepping_down || removes_us l)
        (apply_ready m (take_ready m.node.commit_index m.inflight))

module _ (env : Env) where
  -- The loop of checkLeaderLease: how many voters were contacted, and the longest time since among
  -- them; `none` is a panic for a voter without replication.
  unfoldable pub count_contacts : ℕ → ℕ → Replicas → List Server → Option (ℕ × ℕ)
  count_contacts lease now m [] = some (0, 0)
  count_contacts lease now m (server ∷ rest) =
      if not (is_voter server.suffrage)
      then count_contacts lease now m rest
      else elim (count_contacts lease now m rest) [
        | none ↦ none
        | some (contacted, max_diff) ↦
            if str_eq server.id env.local_id
            then some (contacted + 1, max_diff)
            else elim (find_replica server.id m) [
              | none ↦ none
              | some f ↦
                  if leb (now - f.last_contact) lease
                  then some (
                    contacted + 1,
                    (if ltb max_diff (now - f.last_contact)
                        then now - f.last_contact
                        else max_diff),
                  )
                  else some (contacted, max_diff)
            ]
      ]

  unfoldable pub check_leader_lease :
      {St Lg : Type 0} → ℕ → ℕ → Leader St Lg → Option (Leader St Lg × ℕ)
  unfolding count_contacts quorum_size
  check_leader_lease lease now l =
      elim (count_contacts lease now l.replicas l.node.configurations.latest.servers) [
        | none ↦ none
        | some (contacted, max_diff) ↦
            if ltb contacted (quorum_size l.node.configurations.latest)
            then some (record l { node = set_state l.node follower }, max_diff)
            else some (l, max_diff)
      ]

  -- The loop of pickServer, with the best so far.
  pick_best : Replicas → Option Server → ℕ → List Server → Option Server
  pick_best m pick current [] = pick
  pick_best m pick current (server ∷ rest) =
      if str_eq server.id env.local_id || not (is_voter server.suffrage)
      then pick_best m pick current rest
      else elim (find_replica server.id m) [
        | none ↦ pick_best m pick current rest
        | some f ↦
            if ltb current f.next_index
            then pick_best m (some server) f.next_index rest
            else pick_best m pick current rest
      ]

  unfoldable pub pick_server : {St Lg : Type 0} → Leader St Lg → Option Server
  unfolding pick_best
  pick_server l = pick_best l.replicas none 0 l.node.configurations.latest.servers

-- verifyFuture: `notified` says that notifyCh is nil again.
pub record VerifyFuture : Type 0 where
  pub quorum : ℕ
  pub votes : ℕ
  pub notified : Bool

-- verifyLeader: one vote is our own; a quorum of one needs no other.
unfoldable pub verify_leader : Configuration → VerifyFuture
unfolding quorum_size
verify_leader configuration = record {
  quorum = quorum_size configuration;
  votes = 1;
  notified = quorum_size configuration == 1;
}

-- `vote` of future.go.
unfoldable pub vote : VerifyFuture → Bool → VerifyFuture
vote v true =
    if v.notified
    then v
    else record v { votes = v.votes + 1; notified = leb v.quorum (v.votes + 1) }
vote v false = if v.notified then v else record v { notified = true }

unfoldable pub vote_all : VerifyFuture → List Bool → VerifyFuture
vote_all v [] = v
vote_all v (b ∷ bs) = vote_all (vote v b) bs

-- The branch of leaderLoop: still the leader?
unfoldable pub is_verified : VerifyFuture → Bool
is_verified v = v.notified && leb v.quorum v.votes

-- ===== src/Cluster/Election.antt =====
-- At most one leader in a term, across the servers of a cluster.
use perf_raft.Prelude.{
  ℕ, ◌≤◌, ◌≡◌, String, Bool, true, List, [], Elem, str_eq, str_eq_iff, map, Distinct, sym, subst,
  Bool-cases, inl, inr,
}
use perf_raft.Configuration.{
  Configuration, ConfigurationChangeRequest, next_configuration, ok, quorum_size,
}
use perf_raft.Configuration.Quorum.{
  granted, Common, quorum_size-meet, next_configuration-quorums_meet,
}
use perf_raft.LogStore.{Bytes, StableStore, StableStoreLaws, LogStore}
use perf_raft.Node.{Node, Env, leader}
use perf_raft.Server.Safety.{Accounts, Accounts-one, handle-Accounts}
use perf_raft.Server.{HasRoom}
use perf_raft.Candidate.{Campaign, Response, is_over, hear_votes}
use perf_raft.Candidate.Tally.{said_yes, FromVoters, hear_votes-quorum}
use perf_raft.Cluster.{Cluster, step, Reaches, here, then_event}

module _ (st : StableStore) (laws : StableStoreLaws st) (lg : LogStore) (env : String → Env)
    (max_append_entries : ℕ) where
  -- Every disk accounts for the votes that its server gave away.
  abbrev pub Honest : Cluster st.S lg.S → Type 0
  Honest c = (id : String) → Accounts st (c id).server (c id).grants

  Reaches-Honest :
      (c d : Cluster st.S lg.S) → Reaches st lg env max_append_entries c d → Honest c → Honest d
  unfolding step
  Reaches-Honest c d (here _) h = h
  Reaches-Honest c d (then_event {d = b} id e r room) h = λ j. elim (Bool-cases (str_eq id j)) [
    | inr n ↦ rw n (Reaches-Honest c b r h j)
    | inl y ↦ rw y (
        handle-Accounts st laws lg (env j) max_append_entries (b j).server e (b j).grants
          (subst (λ k. HasRoom st lg (env k) max_append_entries (b k).server e)
            ((str_eq_iff id j).0 y) room)
          (Reaches-Honest c b r h j))
  ]

  -- The responses are those of the cluster: who said yes gave its vote to the candidate in the term.
  abbrev pub Truthful : Cluster st.S lg.S → ℕ → Bytes → List Response → Type 0
  Truthful c term candidate_addr rs =
      (id : String) → said_yes rs id ≡ true → Elem (term, candidate_addr) (c id).grants

  Common-vote :
      (c : Cluster st.S lg.S) (t : ℕ) (a b : Bytes) (rs qs : List Response)
      (configuration : Configuration)
      → Honest c
      → Truthful c t a rs
      → Truthful c t b qs
      → Common (said_yes rs) (said_yes qs) configuration.servers
      → a ≡ b
  Common-vote c t a b rs qs configuration h x y (s, _, _, first, also) =
      Accounts-one st laws lg (env s.id) max_append_entries (c s.id).server (c s.id).grants (h s.id)
        t a b (x s.id first) (y s.id also)

  -- The two ways in which the configurations of two elections are related: the same, or one change on.
  pub data Follows (configuration : Configuration) : Configuration → Type 0 where
    unchanged : Follows configuration configuration
    changed :
        (index : ℕ) (change : ConfigurationChangeRequest) {next : Configuration}
        → next_configuration configuration index change ≡ ok next
        → Follows configuration next

  quorums_meet :
      (configuration next : Configuration) (q r : String → Bool)
      → Follows configuration next
      → quorum_size configuration ≤ granted q configuration.servers
      → quorum_size next ≤ granted r next.servers
      → Common q r configuration.servers
  quorums_meet configuration _ q r unchanged a b = quorum_size-meet configuration q r a b
  quorums_meet configuration _ q r (changed index change e) a b =
      next_configuration-quorums_meet configuration index change e q r a b

  -- An election that was won: a campaign that began to count in the term with the quorum of the
  -- configuration, heard different voters of it, and ended as leader. The candidate is known by the
  -- address in its vote requests.
  pub record Elected (c : Cluster st.S lg.S) (configuration : Configuration) (term : ℕ)
      (candidate_addr : Bytes) : Type 0 where
    pub id : String
    pub campaign : Campaign st.S lg.S
    pub responses : List Response
    pub winner : Node st.S lg.S
    pub in_term : campaign.node.current_term ≡ term
    pub needs_quorum : campaign.votes_needed ≡ quorum_size configuration
    pub begins_at_zero : campaign.granted_votes ≡ 0
    pub once_each : Distinct (map (λ r. r.voter_id) responses)
    pub from_voters : FromVoters configuration responses
    pub truthful : Truthful c term candidate_addr responses
    pub ends : hear_votes st (env id) campaign responses ≡ is_over winner
    pub leads : winner.state ≡ leader

  -- Of servers that gave no vote yet and whose disks have their terms, and after any events at any of
  -- them in any order, crashes, restarts and failed writes included: two elections that are won in
  -- one term, by the votes that the servers gave away, with the same configuration or with one that a
  -- single change made of it, have candidates of the same address.
  pub Elected-unique :
      (b c : Cluster st.S lg.S)
      → ((id : String) → Accounts st (b id).server [])
      → ((id : String) → (b id).grants ≡ [])
      → Reaches st lg env max_append_entries b c
      → {configuration next : Configuration} {term : ℕ} {addr other_addr : Bytes}
      → Follows configuration next
      → Elected c configuration term addr
      → Elected c next term other_addr
      → addr ≡ other_addr
  Elected-unique b c fresh silent r {configuration} {next} {term} {addr} {other_addr} f x y =
      let h =
        Reaches-Honest b c r
          (λ id. subst (Accounts st (b id).server) (sym (silent id)) (fresh id)) in
      let q =
        hear_votes-quorum st (env x.id) x.campaign configuration x.responses x.needs_quorum
          x.begins_at_zero x.once_each x.from_voters x.ends x.leads in
      let p =
        hear_votes-quorum st (env y.id) y.campaign next y.responses y.needs_quorum y.begins_at_zero
          y.once_each y.from_voters y.ends y.leads in
      Common-vote c term addr other_addr x.responses y.responses configuration h x.truthful
        y.truthful
        (quorums_meet configuration next (said_yes x.responses) (said_yes y.responses) f q.0 p.0)

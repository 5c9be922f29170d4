-- ===== src/Replication/Modes.antt =====
-- `replicate` and `pipelineReplicate` of replication.go: what one select of their loops does, and the two
-- modes between which the goroutine goes to and fro.
use perf_raft.Prelude.{
  ℕ, ◌≤◌, subst, Bool, true, false, Option, none, some, List, [], ◌∷◌, ltb, if◌then◌else◌, arith,
  Bool-cases, Option-cases, inl, inr,
}
use perf_raft.LogStore.{Read, found, not_found, failed, LogStore, StableStore}
use perf_raft.Node.{Node, Env}
use perf_raft.Append.{AppendEntriesRequest, AppendEntriesResponse}
use perf_raft.Replication.{
  Surroundings, Replicator, last_entry, notify_all, handle_stale_term, set_last_contact,
  acknowledge, appended_to, update_last_appended, replicate_to, pipelined, pipeline_send,
  pipeline_decode,
}
use perf_raft.Replication.Progress.{
  IsSmall, SmallLog, SmallSnapshots, RequestSmall, setup_append_entries-RequestSmall, IsPlaced,
  EndsIn, replicate_to-EndsIn,
}

-- One RPC at a time; a pipeline with the next index to send; or the goroutine has returned.
pub data Mode : Type 0 where
  one_by_one : Mode
  pipelining : ℕ → Mode
  ended : Mode

-- What a select takes: the value of stopCh, which is 0 once it is closed; triggerCh, triggerDeferErrorCh
-- or the commit timeout (the answer on the second is left out); a response to a pipelined request.
pub data Signal : Type 0 where
  stop_at : ℕ → Signal
  triggered : Signal
  answered : AppendEntriesRequest → AppendEntriesResponse → Signal

-- The goroutine between two selects.
pub record Routine (W : Type 0) : Type 0 where
  pub mode : Mode
  pub replicator : Replicator
  pub surroundings : W

pipeline_decode-IsPlaced :
    (now : ℕ) (req : AppendEntriesRequest) (resp : AppendEntriesResponse) (s : Replicator)
    → IsSmall (last_entry req.entries)
    → IsPlaced s
    → IsPlaced (pipeline_decode now req resp s).1
unfolding pipeline_decode handle_stale_term notify_all set_last_contact update_last_appended
    appended_to acknowledge
pipeline_decode-IsPlaced now req resp s small h = elim (Option-cases (last_entry req.entries)) [
  | inl e ↦ ground (arith, e, h)
  | inr (i, e) ↦ ground (arith, e, h, subst IsSmall e small)
]

module _ (st : StableStore) (lg : LogStore) (env : Env) (max_append_entries : ℕ)
    (around : Surroundings) where
  -- The first lines at PIPELINE: a pipeline that cannot be opened leads back to RPC.
  enter_pipeline : Bool → Replicator → around.W → Routine around.W
  enter_pipeline opens s w =
      let t = record s { follower = record s.follower { allow_pipeline = false } } in
      record {
        mode = if opens then pipelining s.follower.next_index else one_by_one;
        replicator = t;
        surroundings = w;
      }

  -- After a call of replicateTo.
  after_round : Bool → Option (Bool × Replicator × around.W) → Option (Routine around.W)
  unfolding enter_pipeline
  after_round opens none = none
  after_round opens (some (true, s, w)) =
      some (record { mode = ended; replicator = s; surroundings = w })
  after_round opens (some (false, s, w)) = some (
      if s.follower.allow_pipeline
      then enter_pipeline opens s w
      else record { mode = one_by_one; replicator = s; surroundings = w })

  -- A best effort, whatever comes of it.
  after_stop : Option (Bool × Replicator × around.W) → Option (Routine around.W)
  after_stop none = none
  after_stop (some (b, s, w)) = some (record { mode = ended; replicator = s; surroundings = w })

  -- After pipelineSend: on a failure back to RPC.
  after_send : Replicator → around.W → Bool × ℕ → Routine around.W
  after_send s w (true, next) = record { mode = one_by_one; replicator = s; surroundings = w }
  after_send s w (false, next) = record { mode = pipelining next; replicator = s; surroundings = w }

  after_answer : ℕ → around.W → Bool × Replicator → Routine around.W
  after_answer next w (true, s) = record {
    mode = pipelining next;
    replicator = s;
    surroundings = w;
  }
  after_answer next w (false, s) = record { mode = one_by_one; replicator = s; surroundings = w }

  -- One select: `last_log` is the last log index, `opens` and `sends` are what the transport's pipeline
  -- answers, `n` is the leader's state; `none` is a lack of fuel.
  pub select_in :
      ℕ
      → Node st.S lg.S
      → ℕ
      → Bool
      → (AppendEntriesRequest → Bool)
      → Signal
      → Mode
      → Replicator
      → around.W
      → Option (Routine around.W)
  unfolding after_round after_stop after_send after_answer
  select_in fuel n last_log opens sends (stop_at i) one_by_one s w =
      if ltb 0 i
      then after_stop (replicate_to st lg env max_append_entries n around fuel i w s)
      else some (record { mode = ended; replicator = s; surroundings = w })
  select_in fuel n last_log opens sends triggered one_by_one s w =
      after_round opens (replicate_to st lg env max_append_entries n around fuel last_log w s)
  select_in fuel n last_log opens sends (answered req resp) one_by_one s w =
      some (record { mode = one_by_one; replicator = s; surroundings = w })
  select_in fuel n last_log opens sends (stop_at i) (pipelining next) s w =
      some (record { mode = one_by_one; replicator = s; surroundings = w })
  select_in fuel n last_log opens sends triggered (pipelining next) s w = some (
      after_send s w
        (pipeline_send st lg env max_append_entries n around sends s.follower next last_log))
  select_in fuel n last_log opens sends (answered req resp) (pipelining next) s w =
      some (after_answer next w (pipeline_decode (around.now w) req resp s))
  select_in fuel n last_log opens sends signal ended s w =
      some (record { mode = ended; replicator = s; surroundings = w })

  -- One select after the other, each with its own state of the leader and answers.
  pub record Select : Type 0 where
    pub fuel : ℕ
    pub node : Node st.S lg.S
    pub last_log : ℕ
    pub opens : Bool
    pub sends : AppendEntriesRequest → Bool
    pub signal : Signal

  pub replicate : List Select → Routine around.W → Option (Routine around.W)
  unfolding select_in
  replicate [] r = some r
  replicate (x ∷ xs) r =
      elim (select_in x.fuel x.node x.last_log x.opens x.sends x.signal r.mode r.replicator
        r.surroundings) [ none ↦ none | some q ↦ replicate xs q ]

  -- Every next index is an index.
  abbrev pub IsSound : Routine around.W → Type 0
  IsSound r =
      IsPlaced r.replicator
      × (elim r.mode [ one_by_one ↦ Unit | pipelining next ↦ 1 ≤ next | ended ↦ Unit ])

  abbrev pub AllSound : Option (Routine around.W) → Type 0
  AllSound none = Unit
  AllSound (some r) = IsSound r

  after_round-AllSound :
      (n : Node st.S lg.S) (opens : Bool) (o : Option (Bool × Replicator × around.W))
      → EndsIn st lg env max_append_entries n around IsPlaced o
      → AllSound (after_round opens o)
  unfolding after_round enter_pipeline
  after_round-AllSound n opens none h = tt
  after_round-AllSound n opens (some (true, s, w)) h = (h, tt)
  after_round-AllSound n opens (some (false, s, w)) h =
      elim (Bool-cases s.follower.allow_pipeline) [
        | inr e ↦ rw (e, AllSound) (h, tt)
        | inl e ↦ elim (Bool-cases opens) [
          | inl d ↦ rw (e, AllSound) (rw (d, AllSound) (h, h))
          | inr d ↦ rw (e, AllSound) (rw (d, AllSound) (h, tt))
        ]
      ]

  after_stop-AllSound :
      (n : Node st.S lg.S) (o : Option (Bool × Replicator × around.W))
      → EndsIn st lg env max_append_entries n around IsPlaced o
      → AllSound (after_stop o)
  unfolding after_stop
  after_stop-AllSound n none h = tt
  after_stop-AllSound n (some (b, s, w)) h = (h, tt)

  pipelined-next :
      (n : Node st.S lg.S) (next : ℕ) (r : Read AppendEntriesRequest)
      (sends : AppendEntriesRequest → Bool)
      → RequestSmall st lg env max_append_entries n around r
      → 1 ≤ next
      → 1 ≤ (pipelined st lg env max_append_entries n around next r sends).1
  unfolding pipelined
  pipelined-next n next (found req) sends small h = elim (Option-cases (last_entry req.entries)) [
    | inl e ↦ ground (arith, e, h)
    | inr (i, e) ↦ ground (arith, e, h, subst IsSmall e small)
  ]
  pipelined-next n next not_found sends small h = h
  pipelined-next n next failed sends small h = h

  after_send-AllSound :
      (s : Replicator) (w : around.W) (r : Bool × ℕ)
      → IsPlaced s
      → 1 ≤ r.1
      → IsSound (after_send s w r)
  unfolding after_send
  after_send-AllSound s w (true, next) h k = (h, tt)
  after_send-AllSound s w (false, next) h k = (h, k)

  after_answer-AllSound :
      (next : ℕ) (w : around.W) (r : Bool × Replicator)
      → IsPlaced r.1
      → 1 ≤ next
      → IsSound (after_answer next w r)
  unfolding after_answer
  after_answer-AllSound next w (true, s) h k = (h, k)
  after_answer-AllSound next w (false, s) h k = (h, tt)

  -- The indexes of the entries that were sent.
  abbrev SignalSmall : Signal → Type 0
  SignalSmall (answered req resp) = IsSmall (last_entry req.entries)
  SignalSmall _ = Unit

  abbrev pub SelectsSmall : List Select → Type 0
  SelectsSmall [] = Unit
  SelectsSmall (x ∷ xs) = SmallLog lg x.node.logs × SignalSmall x.signal × SelectsSmall xs

  select_in-AllSound :
      (snaps : SmallSnapshots around) (x : Select) (logs : SmallLog lg x.node.logs) (sig : Signal)
      (small : SignalSmall sig) (m : Mode) (s : Replicator) (w : around.W)
      → IsSound (record { mode = m; replicator = s; surroundings = w })
      → AllSound (select_in x.fuel x.node x.last_log x.opens x.sends sig m s w)
  unfolding select_in pipeline_send
  select_in-AllSound snaps x logs (stop_at i) small one_by_one s w h = elim (Bool-cases (ltb 0 i)) [
    | inl e ↦
        rw (e, AllSound)
          (after_stop-AllSound x.node _ (
            replicate_to-EndsIn st lg env max_append_entries x.node around logs snaps x.fuel i w s
              h.0))
    | inr e ↦ rw (e, AllSound) (h.0, tt)
  ]
  select_in-AllSound snaps x logs triggered small one_by_one s w h =
      after_round-AllSound x.node x.opens _ (
        replicate_to-EndsIn st lg env max_append_entries x.node around logs snaps x.fuel x.last_log
          w s h.0)
  select_in-AllSound snaps x logs (answered req resp) small one_by_one s w h = h
  select_in-AllSound snaps x logs (stop_at i) small (pipelining next) s w h = (h.0, tt)
  select_in-AllSound snaps x logs triggered small (pipelining next) s w h =
      after_send-AllSound s w _ h.0 (
        pipelined-next x.node next _ x.sends
          (setup_append_entries-RequestSmall st lg env max_append_entries x.node around logs _ next
            _)
          h.1)
  select_in-AllSound snaps x logs (answered req resp) small (pipelining next) s w h =
      after_answer-AllSound next w _ (pipeline_decode-IsPlaced (around.now w) req resp s small h.0)
        h.1
  select_in-AllSound snaps x logs (stop_at i) small ended s w h = h
  select_in-AllSound snaps x logs triggered small ended s w h = h
  select_in-AllSound snaps x logs (answered req resp) small ended s w h = h

  -- Over the whole life of the goroutine, whatever its peer and the transport answer and however the
  -- leader's state changes between two selects, if every index in the leader's log, of a snapshot that is
  -- opened and of a request that is answered is before the last 64-bit number: the next index of the
  -- peer, and the next index of a pipeline, are at least 1 if they were so in the beginning.
  pub replicate-AllSound :
      SmallSnapshots around
      → (xs : List Select) → SelectsSmall xs
      → (r : Routine around.W) → IsSound r
      → AllSound (replicate xs r)
  unfolding replicate
  replicate-AllSound snaps [] small r h = h
  replicate-AllSound snaps (x ∷ xs) small r h =
      let first =
        select_in-AllSound snaps x small.0 x.signal small.1 r.mode r.replicator r.surroundings h in
      elim (Option-cases (
        select_in x.fuel x.node x.last_log x.opens x.sends x.signal r.mode r.replicator
          r.surroundings)) [
            | inl e ↦ rw (e, AllSound) tt
            | inr (q, e) ↦
                rw (e, AllSound) (replicate-AllSound snaps xs small.2 q (rw (e, AllSound) at first))
          ]

-- ===== src/Replication/Tests.antt =====
-- A leader with two entries replicates them to an empty peer, which it takes for one that has both.
use perf_raft.Prelude.{
  ℕ, ◌+◌, ◌≡◌, true, false, none, some, List, [], ◌∷◌, leb, ◌==◌, Bool-cases, inl, inr, sym, subst,
  if◌then◌else◌, length, refl, arith,
}
use perf_raft.LogStore.{Log, found}
use perf_raft.InmemStore.{as_log_store, as_stable_store, find_log, get_log}
use perf_raft.Append.{AppendEntriesRequest, AppendEntriesResponse}
use perf_raft.Replication.{Surroundings, Replicator, setup_append_entries}
use perf_raft.Replication.Request.{Holds, Carries, setup_append_entries-Carries}
use perf_raft.Replication.Progress.{SmallLog}
use perf_raft.Replication.Modes.{
  one_by_one, triggered, Routine, Select, replicate, AllSound, replicate-AllSound,
}
use perf_raft.Samples.{command_at, header_of, sample_env, sample_node, sample_store, server_of}

holds : Holds as_stable_store as_log_store sample_env 64 sample_node 1 2
unfolding get_log find_log
holds i lo hi = elim (Bool-cases (i == 1)) [
  | inl e ↦
      let one : i ≡ 1 = ground (arith, e) in
      subst (λ k. (l : Log) × (get_log sample_store k ≡ found l) × (l.index ≡ k)) (sym one)
        (command_at 1, refl, refl)
  | inr e ↦
      let two : i ≡ 2 = ground (arith, e, lo, hi) in
      subst (λ k. (l : Log) × (get_log sample_store k ≡ found l) × (l.index ≡ k)) (sym two)
        (command_at 2, refl, refl)
]

setup_append_entries-Carries_example :
    (req : AppendEntriesRequest) × (setup_append_entries as_stable_store as_log_store sample_env 64
        sample_node 1 2 2
      ≡ found req)
    × Carries as_stable_store as_log_store sample_env 64 sample_node 1 2 2 req
setup_append_entries-Carries_example =
    setup_append_entries-Carries as_stable_store as_log_store sample_env 64 sample_node 1 2 2
      (omega arith) (omega arith) holds

-- The peer as the number of entries that it has.
abbrev answer_of : ℕ → AppendEntriesRequest → AppendEntriesResponse
answer_of have req = record {
  header = header_of "b" 2;
  term = req.term;
  last_log = have;
  success = leb req.prev_log_entry have;
  no_retry_backoff = true;
}

abbrev peer : Surroundings
peer = record {
  W = ℕ;
  append_entries = λ have req. (
    some (answer_of have req),
    if leb req.prev_log_entry have then req.prev_log_entry + length req.entries else have,
  );
  install_snapshot = λ have req. (none, have);
  stop_requested = λ have. false;
  now = λ have. 0;
  list_snapshots = λ have. some [];
  open_snapshot = λ have id. none;
}

abbrev replicator : Replicator
replicator = record {
  follower = record {
    peer = server_of "b";
    current_term = 1;
    next_index = 3;
    last_contact = 0;
    failures = 0;
    allow_pipeline = false;
  };
  commitment = record { commit_ch = false; match_indexes = []; commit_index = 0; start_index = 1 };
  notified = [];
  steps_down = false;
}

abbrev routine : Routine ℕ
routine = record { mode = one_by_one; replicator = replicator; surroundings = 0 }

abbrev selects : List (Select as_stable_store as_log_store sample_env 64 peer)
selects =
    record {
      fuel = 7;
      node = sample_node;
      last_log = 2;
      opens = true;
      sends = λ req. true;
      signal = triggered;
    }
    ∷ []

small_log : SmallLog as_log_store sample_store
unfolding get_log find_log
small_log i l e = elim (Bool-cases (i == 1)) [
  | inl k ↦ ground (arith, e, k)
  | inr k ↦ elim (Bool-cases (i == 2)) [
    | inl d ↦ ground (arith, e, k, d)
    | inr d ↦ ground (arith, e, k, d)
  ]
]

replicate-AllSound_example :
    AllSound as_stable_store as_log_store sample_env 64 peer
      (replicate as_stable_store as_log_store sample_env 64 peer selects routine)
replicate-AllSound_example =
    replicate-AllSound as_stable_store as_log_store sample_env 64 peer (λ w id meta e. cc) selects
      (small_log, tt, tt) routine (omega arith, tt)

-- ===== src/Leading/Tests.antt =====
-- A leader that no peer has answered, and one with a committed entry.
use perf_raft.Prelude.{none, false, leb, ◌+◌, ◌<◌, ◌≤◌, true, false, some, ◌≡◌, ◌⊎◌, [], ◌∷◌, refl}
use perf_raft.Configuration.{quorum_size, count_voters}
use perf_raft.Configuration.Quorum.{granted}
use perf_raft.Commitment.{get_commit_index}
use perf_raft.InmemStore.{InmemStore, as_log_store, as_stable_store, find_log, get_log}
use perf_raft.Node.{leader, follower, set_state}
use perf_raft.Leader.{Leader, Follower, find_replica}
use perf_raft.Leading.{
  Committed, count_contacts, check_leader_lease, take_commits, removes_us, apply_ready, applied,
  leave, take_ready, in_group, raise_commit, verify_leader, vote_all, is_verified,
}
use perf_raft.Process.{
  process_logs, process_loop, fetch, take_entry, flush_full, flush_rest, is_prepared,
}
use perf_raft.Leading.Verified.{leading_yes, verify_leader_lem}
use perf_raft.Leading.Serving.{apply, Answer, Serving, serve}
use perf_raft.Leading.Serving.Guarded.{serve-Guarded}
use perf_raft.Leading.Lease.{in_contact, check_leader_lease_lem}
use perf_raft.Leading.Commits.{Cleared, take_commits-Cleared}
use perf_raft.Samples.{command_at, sample_env, sample_node, server_of, three}

abbrev silent : Follower
silent = record {
  peer = server_of "b";
  current_term = 1;
  next_index = 3;
  last_contact = 0;
  failures = 4;
  allow_pipeline = false;
}

abbrev lonely : Leader InmemStore InmemStore
lonely = record {
  node = record sample_node { state = leader };
  commitment = record { commit_ch = true; match_indexes = []; commit_index = 2; start_index = 1 };
  inflight = [];
  replicas = ("b", silent) ∷ ("c", silent) ∷ [];
}

lost :
    check_leader_lease sample_env 5 100 lonely
    ≡ some (record lonely { node = set_state lonely.node follower }, 0)
unfolding check_leader_lease count_contacts find_replica quorum_size count_voters
lost = refl

check_leader_lease_lem_example :
    let m = record lonely { node = set_state lonely.node follower } in
    (0 ≤ 5)
    × (((m ≡ lonely)
          × (quorum_size three
              ≤ granted (in_contact sample_env 5 100 lonely.replicas) three.servers))
        ⊎ ((m ≡ record lonely { node = set_state lonely.node follower })
            × (granted (in_contact sample_env 5 100 lonely.replicas) three.servers
                < quorum_size three)))
check_leader_lease_lem_example =
    check_leader_lease_lem sample_env 5 100 lonely
      {m = record lonely { node = set_state lonely.node follower }} lost

abbrev queued : Leader InmemStore InmemStore
queued = record lonely { inflight = command_at 2 ∷ command_at 3 ∷ [] }

abbrev applied_two : Committed InmemStore InmemStore
applied_two = record {
  after = record queued {
    node = record queued.node { commit_index = 2; last_applied = 2 };
    inflight = command_at 3 ∷ [];
  };
  sent = record { batches = (command_at 1 ∷ command_at 2 ∷ []) ∷ []; responded = [] };
  shuts_down = false;
}

committed :
    take_commits as_stable_store as_log_store sample_env 64 true false queued ≡ some applied_two
unfolding take_commits apply_ready applied leave take_ready in_group raise_commit removes_us
    get_commit_index process_logs process_loop fetch take_entry flush_full flush_rest is_prepared
    get_log find_log
committed = refl

take_commits-Cleared_example :
    Cleared as_stable_store as_log_store sample_env 64 true false queued applied_two
take_commits-Cleared_example =
    take_commits-Cleared as_stable_store as_log_store sample_env 64 true false queued
      {c = applied_two} committed

verify_leader_lem_example :
    is_verified (vote_all (verify_leader three) (true ∷ false ∷ []))
    ≡ leb (quorum_size three) (leading_yes (true ∷ false ∷ []) + 1)
verify_leader_lem_example = verify_leader_lem three (true ∷ false ∷ [])

-- A leader that hands its leadership over.
abbrev handing : Serving InmemStore InmemStore
handing = record { leader = lonely; transferring = true; stepping_down = false }

serve-Guarded_example :
    ((t : Serving InmemStore InmemStore) (a : Answer)
      → serve as_stable_store as_log_store sample_env 64 false 9 handing (apply (command_at 3) [])
        ≡ some (t, a)
      → (t.leader ≡ lonely) ⊎ ((true ≡ false) × (false ≡ false)))
    × (serve as_stable_store as_log_store sample_env 64 false 9 handing (apply (command_at 3) [])
          ≡ none
        → true ≡ false)
serve-Guarded_example =
    serve-Guarded as_stable_store as_log_store sample_env 64 false 9 handing
      (apply (command_at 3) [])

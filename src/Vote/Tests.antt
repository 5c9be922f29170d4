-- ===== src/Vote/Tests.antt =====
-- The vote handlers of raft.go on a follower of three.
use perf_raft.InmemStore.{as_stable_store}
use perf_raft.InmemStore.Kv.{inmem_stable_laws}
use perf_raft.Vote.{request_vote}
use perf_raft.Vote.UpToDate.{GrantedFairly, request_vote-GrantedFairly}
use perf_raft.Samples.{sample_env, sample_node, vote_for}

request_vote-GrantedFairly_example :
    GrantedFairly as_stable_store sample_env sample_node
      (vote_for "b" 2 3)
      (request_vote as_stable_store sample_env sample_node (vote_for "b" 2 3) 9)
request_vote-GrantedFairly_example =
    request_vote-GrantedFairly as_stable_store inmem_stable_laws sample_env sample_node
      (vote_for "b" 2 3) 9

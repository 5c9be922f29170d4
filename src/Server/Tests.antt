-- ===== src/Server/Tests.antt =====
-- A server of raft.go that votes, crashes, starts again and is asked for another vote in the term.
use perf_raft.Prelude.{true, some, List, [], ◌∷◌, ap}
use perf_raft.InmemStore.{new_inmem_store, as_log_store, as_stable_store}
use perf_raft.InmemStore.Kv.{inmem_stable_laws, get_uint64-new_inmem_store}
use perf_raft.Node.{key_current_term}
use perf_raft.Vote.{number_or_zero}
use perf_raft.Vote.Casting.{OnePerTerm}
use perf_raft.Server.{
  down, Event, vote_asked, crashes, starts, stands, run, HasRoomAlong, response_heard, bootstraps,
}
use perf_raft.Server.Safety.{run-OnePerTerm}
use perf_raft.Samples.{sample_env, sample_store, three, vote_for}

abbrev events : List Event
events =
    stands
    ∷ starts (some [])
    ∷ vote_asked (vote_for "b" 2 1) 3
    ∷ crashes
    ∷ starts (some [])
    ∷ vote_asked (vote_for "c" 3 1) 5
    ∷ response_heard 4
    ∷ bootstraps true (some []) three
    ∷ []

events_have_room :
    HasRoomAlong as_stable_store as_log_store sample_env 64
      (down new_inmem_store sample_store)
      events
unfolding HasRoomAlong
events_have_room = (tt, (tt, (tt, (tt, (tt, (tt, (tt, (tt, tt))))))))

run-OnePerTerm_example :
    OnePerTerm
      (run as_stable_store as_log_store sample_env 64
        (down new_inmem_store sample_store)
        []
        events).1
run-OnePerTerm_example =
    run-OnePerTerm as_stable_store inmem_stable_laws as_log_store sample_env 64 new_inmem_store
      sample_store 0 events (ap number_or_zero (get_uint64-new_inmem_store key_current_term))
      events_have_room

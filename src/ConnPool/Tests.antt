-- ===== src/ConnPool/Tests.antt =====
-- Two calls to one address, of which one gives its connection back and the other one breaks.
use perf_raft.Prelude.{◌≡◌, true, false, List, [], ◌∷◌, refl, arith}
use perf_raft.ConnPool.{
  Transport, Use, gets, returns, releases, closes, use_pool, use_all, get_conn, get_pooled_conn,
  pooled, find_conns, take_out, return_conn,
}
use perf_raft.ConnPool.Exclusive.{IsExclusive, count, count_pool, use_all-IsExclusive}

abbrev idle : Transport
idle = record { pool = []; in_use = []; dialled = 0; is_shutdown = false }

idle-IsExclusive : IsExclusive 2 idle
unfolding count count_pool
idle-IsExclusive = record { once = λ i. omega arith; old = λ i le. refl; filed = tt }

abbrev calls : List Use
calls =
    gets "b" true
    ∷ gets "b" true
    ∷ returns 0
    ∷ releases 1
    ∷ gets "b" false
    ∷ closes
    ∷ returns 0
    ∷ []

use_all-IsExclusive_example : IsExclusive 2 (use_all 2 idle calls)
use_all-IsExclusive_example = use_all-IsExclusive 2 idle calls idle-IsExclusive

-- The connection that was given back is taken again.
reused : use_all 2 idle (gets "b" true ∷ returns 0 ∷ gets "b" true ∷ []) ≡ record {
  pool = ("b", []) ∷ [];
  in_use = record { target = "b"; number = 0 } ∷ [];
  dialled = 1;
  is_shutdown = false;
}
unfolding use_all use_pool get_conn get_pooled_conn pooled find_conns take_out return_conn
reused = refl

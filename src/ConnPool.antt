-- ===== src/ConnPool.antt =====
-- The pool of connections of net_transport.go. A connection is known by the number of its dialling; what it
-- carries is left out. Each operation holds the lock of the pool from its beginning to its end.
pub mod Exclusive
mod Tests
use perf_raft.Prelude.{
  ℕ, ◌+◌, String, Bool, true, false, not, ◌&&◌, Option, none, some, List, [], ◌∷◌, ◌++◌, ltb, ◌==◌,
  if◌then◌else◌, str_eq, length,
}

pub record NetConn : Type 0 where
  pub target : String
  pub number : ℕ

abbrev pub Pool : Type 0
Pool = List (String × List NetConn)

-- connPool[target], and the assignment to it.
unfoldable pub find_conns : String → Pool → List NetConn
find_conns target [] = []
find_conns target ((k, cs) ∷ p) = if str_eq k target then cs else find_conns target p

unfoldable pub put_conns : String → List NetConn → Pool → Pool
put_conns target cs [] = (target, cs) ∷ []
put_conns target cs ((k, ds) ∷ p) =
    let rest = put_conns target cs p in if str_eq k target then (k, cs) ∷ p else (k, ds) ∷ rest

-- All but the last one, and the last one.
unfoldable pub split_last : NetConn → List NetConn → List NetConn × NetConn
split_last c [] = ([], c)
split_last c (d ∷ cs) = let rest = split_last d cs in (c ∷ rest.0, rest.1)

unfoldable pub pooled : String → Pool → List NetConn → Option (NetConn × Pool)
unfolding split_last put_conns
pooled target p [] = none
pooled target p (c ∷ cs) = some ((split_last c cs).1, put_conns target (split_last c cs).0 p)

unfoldable pub get_pooled_conn : String → Pool → Option (NetConn × Pool)
unfolding pooled find_conns
get_pooled_conn target p = pooled target p (find_conns target p)

-- Back to the pool, or released.
unfoldable pub return_conn : ℕ → Bool → NetConn → Pool → Pool
unfolding find_conns put_conns
return_conn max_pool is_shutdown c p =
    if not is_shutdown && ltb (length (find_conns c.target p)) max_pool
    then put_conns c.target (find_conns c.target p ++ c ∷ []) p
    else p

-- The address that a provider knows, or else the one that was given.
pub get_provider_address_or_fallback : Option (String → Option String) → String → String → String
get_provider_address_or_fallback none id target = target
get_provider_address_or_fallback (some server_addr) id target = elim (server_addr id) [
  | none ↦ target
  | some address ↦ address
]

-- The transport: its pool, the connections that calls hold, and how many were dialled.
pub record Transport : Type 0 where
  pub pool : Pool
  pub in_use : List NetConn
  pub dialled : ℕ
  pub is_shutdown : Bool

-- getConn; without a connection if it cannot be dialled.
unfoldable pub get_conn : String → Bool → Transport → Transport
get_conn target dials t = elim (get_pooled_conn target t.pool) [
  | some (c, p) ↦ record t { pool = p; in_use = c ∷ t.in_use }
  | none ↦
      if dials
      then record t {
        in_use = record { target = target; number = t.dialled } ∷ t.in_use;
        dialled = t.dialled + 1;
      }
      else t
]

-- The connection of this number, and the others.
unfoldable pub take_out : ℕ → List NetConn → Option (NetConn × List NetConn)
take_out i [] = none
take_out i (c ∷ cs) =
    let rest = take_out i cs in
    if c.number == i
    then some (c, cs)
    else elim rest [ none ↦ none | some (d, ds) ↦ some (d, c ∷ ds) ]

-- What a call does when it is done, in time or not, and what the transport is told.
pub data Use : Type 0 where
  gets : String → Bool → Use
  returns : ℕ → Use
  releases : ℕ → Use
  closes_streams : Use
  closes : Use

given_back : ℕ → Transport → Option (NetConn × List NetConn) → Transport
given_back max_pool t none = t
given_back max_pool t (some (c, cs)) = record t {
  pool = return_conn max_pool t.is_shutdown c t.pool;
  in_use = cs;
}

let_go : Transport → Option (NetConn × List NetConn) → Transport
let_go t none = t
let_go t (some (c, cs)) = record t { in_use = cs }

unfoldable pub use_pool : ℕ → Transport → Use → Transport
unfolding given_back let_go
use_pool max_pool t (gets target dials) = get_conn target dials t
use_pool max_pool t (returns i) = given_back max_pool t (take_out i t.in_use)
use_pool max_pool t (releases i) = let_go t (take_out i t.in_use)
use_pool max_pool t closes_streams = record t { pool = [] }
use_pool max_pool t closes = record t { is_shutdown = true }

unfoldable pub use_all : ℕ → Transport → List Use → Transport
use_all max_pool t [] = t
use_all max_pool t (u ∷ us) = use_all max_pool (use_pool max_pool t u) us

-- ===== src/Cluster.antt =====
-- A cluster of servers of raft.go under any interleaving of events, each with the votes it gave away.
pub mod Election
mod Tests
use perf_raft.Prelude.{ℕ, String, List, [], ◌∷◌, ◌++◌, if◌then◌else◌, str_eq}
use perf_raft.LogStore.{LogStore, StableStore}
use perf_raft.Node.{Env}
use perf_raft.Vote.Casting.{Grant}
use perf_raft.Server.{Server, Event, handle, HasRoom}

-- One server and all votes that it gave away.
pub record Member (St Lg : Type 0) : Type 0 where
  pub server : Server St Lg
  pub grants : List Grant

-- The servers by their IDs.
abbrev pub Cluster : Type 0 → Type 0 → Type 0
Cluster St Lg = String → Member St Lg

module _ (st : StableStore) (lg : LogStore) (env : String → Env) (max_append_entries : ℕ) where
  -- One event at one server.
  abbrev pub tell : String → Member st.S lg.S → Event → Member st.S lg.S
  tell id m e =
      let r = handle st lg (env id) max_append_entries m.server e in
      record { server = r.0; grants = r.1 ++ m.grants }

  unfoldable pub step : Cluster st.S lg.S → String → Event → Cluster st.S lg.S
  step c id e j = if str_eq id j then tell j (c j) e else c j

  -- Events at the servers, in any order; a server that stands for election has a next term.
  pub data Reaches : Cluster st.S lg.S → Cluster st.S lg.S → Type 0 where
    here : (c : Cluster st.S lg.S) → Reaches c c
    then_event :
        {c d : Cluster st.S lg.S} (id : String) (e : Event)
        → Reaches c d
        → HasRoom st lg (env id) max_append_entries (d id).server e
        → Reaches c (step d id e)

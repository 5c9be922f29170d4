-- ===== src/Configuration.antt =====
-- configuration.go: servers and their suffrage, the checks on a configuration, and the changes
-- that a leader makes to one. A suffrage outside the three constants is not modelled.
pub mod Check
pub mod Change
pub mod Quorum
mod Tests
use perf_raft.Prelude.{
  ℕ, zero, ◌+◌, ◌/◌, String, Bool, true, false, not, ◌&&◌, Option, none, some, List, [], ◌∷◌, ◌++◌,
  ltb, ◌==◌, if◌then◌else◌, str_eq,
}

pub data ServerSuffrage : Type 0 where
  voter nonvoter staging : ServerSuffrage

abbrev pub is_voter : ServerSuffrage → Bool
is_voter voter = true
is_voter _ = false

abbrev pub is_nonvoter : ServerSuffrage → Bool
is_nonvoter nonvoter = true
is_nonvoter _ = false

abbrev pub is_staging : ServerSuffrage → Bool
is_staging staging = true
is_staging _ = false

pub record Server : Type 0 where
  pub suffrage : ServerSuffrage
  pub id : String
  pub address : String

pub record Configuration : Type 0 where
  pub servers : List Server

pub data ConfigurationChangeCommand : Type 0 where
  add_voter add_nonvoter demote_voter remove_server promote : ConfigurationChangeCommand

pub record ConfigurationChangeRequest : Type 0 where
  pub command : ConfigurationChangeCommand
  pub server_id : String
  pub server_address : String
  pub prev_index : ℕ

pub data ConfigurationError : Type 0 where
  empty_id empty_address duplicate_id duplicate_address no_voters : ConfigurationError
  configuration_changed : ConfigurationError

pub data Result {ℓ} (A : Type ℓ) : Type ℓ where
  ok : A → Result A
  err : ConfigurationError → Result A

-- hasVote: the first server with this ID decides.
unfoldable pub has_vote_in : List Server → String → Bool
has_vote_in [] id = false
has_vote_in (server ∷ rest) id =
    if str_eq server.id id then is_voter server.suffrage else has_vote_in rest id

unfoldable pub has_vote : Configuration → String → Bool
unfolding has_vote_in
has_vote configuration id = has_vote_in configuration.servers id

in_servers : List Server → String → Bool
in_servers [] id = false
in_servers (server ∷ rest) id = if str_eq server.id id then true else in_servers rest id

unfoldable pub in_configuration : Configuration → String → Bool
unfolding in_servers
in_configuration configuration id = in_servers configuration.servers id

-- The keys of a Go `map[string]bool` whose values are all true.
unfoldable pub contains : List String → String → Bool
contains [] k = false
contains (x ∷ xs) k = if str_eq x k then true else contains xs k

-- The loop of checkConfiguration with its two sets and its counter.
unfoldable pub check_servers :
    List String → List String → ℕ → List Server → Option ConfigurationError
check_servers ids addresses voters [] = if voters == 0 then some no_voters else none
check_servers ids addresses voters (server ∷ rest) =
    let next =
      check_servers (server.id ∷ ids) (server.address ∷ addresses)
        (if is_voter server.suffrage then voters + 1 else voters) rest in
    if str_eq server.id ""
    then some empty_id
    else if str_eq server.address ""
    then some empty_address
    else if contains ids server.id
    then some duplicate_id
    else if contains addresses server.address
    then some duplicate_address
    else next

unfoldable pub check_configuration : Configuration → Option ConfigurationError
check_configuration configuration = check_servers [] [] 0 configuration.servers

-- A loop that rewrites the first server which passes a test and breaks: the servers after it, and
-- whether one was found.
pub update_first : (Server → Bool) → (Server → Server) → List Server → List Server × Bool
update_first test f [] = ([], false)
update_first test f (server ∷ rest) =
    let later = update_first test f rest in
    if test server then (f server ∷ rest, true) else (server ∷ later.0, later.1)

-- `append(servers[:i], servers[i+1:]...)` at the first server with the ID.
unfoldable pub remove_first : String → List Server → List Server
remove_first id [] = []
remove_first id (server ∷ rest) =
    let later = remove_first id rest in if str_eq server.id id then rest else server ∷ later

pub append_unless : Server → List Server × Bool → List Server
append_unless new (servers, found) = if found then servers else servers ++ new ∷ []

abbrev new_server : ServerSuffrage → ConfigurationChangeRequest → Server
new_server suffrage change = record {
  suffrage = suffrage;
  id = change.server_id;
  address = change.server_address;
}

abbrev matches : ConfigurationChangeRequest → Server → Bool
matches change server = str_eq server.id change.server_id

-- AddVoter on a server that is there: a voter only moves.
pub revote : ConfigurationChangeRequest → Server → Server
revote change server =
    if is_voter server.suffrage
    then record server { address = change.server_address }
    else new_server voter change

-- AddNonvoter on a server that is there: one that is no Nonvoter only moves.
pub unvote : ConfigurationChangeRequest → Server → Server
unvote change server =
    if not (is_nonvoter server.suffrage)
    then record server { address = change.server_address }
    else new_server nonvoter change

-- The switch of nextConfiguration.
unfoldable pub change_servers :
    ConfigurationChangeCommand → ConfigurationChangeRequest → List Server → List Server
unfolding append_unless revote unvote
change_servers add_voter change servers =
    append_unless (new_server voter change) (update_first (matches change) (revote change) servers)
change_servers add_nonvoter change servers =
    append_unless (new_server nonvoter change)
      (update_first (matches change) (unvote change) servers)
change_servers demote_voter change servers =
    (update_first (matches change) (λ server. record server { suffrage = nonvoter }) servers).0
change_servers remove_server change servers = remove_first change.server_id servers
change_servers promote change servers =
    (update_first (λ server. matches change server && is_staging server.suffrage)
      (λ server. record server { suffrage = voter }) servers).0

unfoldable pub checked : Configuration → Option ConfigurationError → Result Configuration
checked configuration none = ok configuration
checked configuration (some e) = err e

unfoldable pub next_configuration :
    Configuration → ℕ → ConfigurationChangeRequest → Result Configuration
unfolding checked
next_configuration current current_index change =
    if ltb 0 change.prev_index && not (change.prev_index == current_index)
    then err configuration_changed
    else let next : Configuration = record {
      servers = change_servers change.command change current.servers;
    } in
      checked next (check_configuration next)

-- quorumSize of raft.go, on the configuration that it reads.
unfoldable pub count_voters : List Server → ℕ
count_voters [] = 0
count_voters (server ∷ rest) =
    if is_voter server.suffrage then count_voters rest + 1 else count_voters rest

unfoldable pub quorum_size : Configuration → ℕ
unfolding count_voters
quorum_size configuration = count_voters configuration.servers / 2 + 1

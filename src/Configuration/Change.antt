-- ===== src/Configuration/Change.antt =====
-- nextConfiguration of configuration.go against what each command means for the membership, seen as
-- a map from IDs to servers.
use perf_raft.Prelude.{
  ℕ, ◌≡◌, ◌≢◌, String, Bool, true, false, none, some, List, [], ◌∷◌, ◌++◌, map, arith, refl, ◌⊎◌,
  str_eq, str_eq_iff, if◌then◌else◌, Elem, Distinct, Option,
}
use perf_raft.Configuration.{
  Configuration, Server, ConfigurationChangeCommand, ConfigurationChangeRequest, voter, nonvoter,
  is_staging, add_voter, add_nonvoter, demote_voter, remove_server, promote, ok, err,
  configuration_changed, update_first, remove_first, change_servers, next_configuration,
  check_configuration, new_server, matches, revote, unvote,
}
use perf_raft.Configuration.Check.{IsValid, check_configuration_iff}

-- The server with an ID, as a client of the membership sees it.
pub find_server : String → List Server → Option Server
find_server id [] = none
find_server id (server ∷ rest) = if str_eq server.id id then some server else find_server id rest

-- What a command makes of the entry for the server that it names.
abbrev pub changed_entry :
    ConfigurationChangeCommand → ConfigurationChangeRequest → Option Server → Option Server
changed_entry add_voter change old = some (new_server voter change)
changed_entry add_nonvoter change none = some (new_server nonvoter change)
changed_entry add_nonvoter change (some old) =
    some (record old { address = change.server_address; id = change.server_id })
changed_entry demote_voter change none = none
changed_entry demote_voter change (some old) = some (record old { suffrage = nonvoter })
changed_entry remove_server change old = none
changed_entry promote change none = none
changed_entry promote change (some old) =
    some (record old { suffrage = if is_staging old.suffrage then voter else old.suffrage })

abbrev updated : (Server → Server) → Option Server → Option Server
updated f none = none
updated f (some s) = some (f s)

abbrev is_found : Option Server → Bool
is_found none = false
is_found (some s) = true

abbrev or_else : Option Server → Option Server → Option Server
or_else none new = new
or_else (some s) new = some s

find_server-append :
    (j : String) (servers : List Server) (new : Server)
    → find_server j (servers ++ new ∷ [])
      ≡ or_else (find_server j servers) (if str_eq new.id j then some new else none)
unfolding find_server
find_server-append j [] new = refl
find_server-append j (s ∷ rest) new = ground (arith, find_server-append j rest new)

abbrev Named : String → Option Server → Type 0
Named id none = Unit
Named id (some s) = s.id ≡ id

find_server-Named : (id : String) (servers : List Server) → Named id (find_server id servers)
unfolding find_server
find_server-Named id [] = tt
find_server-Named id (x ∷ rest) = ground (arith, str_eq_iff x.id id, find_server-Named id rest)

module _ (c : ConfigurationChangeRequest) where
  update_first-found :
      (f : Server → Server) (servers : List Server)
      → (update_first (matches c) f servers).1 ≡ is_found (find_server c.server_id servers)
  unfolding find_server update_first
  update_first-found f [] = refl
  update_first-found f (s ∷ rest) = ground (arith, update_first-found f rest)

module _ (c : ConfigurationChangeRequest) (j : String) where
  update_first-find :
      (f : Server → Server)
      → ((s : Server) → s.id ≡ c.server_id → (f s).id ≡ c.server_id)
      → (servers : List Server)
      → find_server j (update_first (matches c) f servers).0 ≡ (
          if str_eq c.server_id j
          then updated f (find_server c.server_id servers)
          else find_server j servers)
  unfolding find_server update_first
  update_first-find f keeps [] = ground arith
  update_first-find f keeps (s ∷ rest) = ground (
    arith,
    keeps s,
    str_eq_iff s.id c.server_id,
    str_eq_iff s.id j,
    str_eq_iff c.server_id j,
    str_eq_iff (f s).id j,
    update_first-find f keeps rest,
  )

  revote-id : (s : Server) → s.id ≡ c.server_id → (revote c s).id ≡ c.server_id
  unfolding revote
  revote-id s h = ground arith

  unvote-id : (s : Server) → s.id ≡ c.server_id → (unvote c s).id ≡ c.server_id
  unfolding unvote
  unvote-id s h = ground arith

  add_voter-find :
      (servers : List Server)
      → find_server j (change_servers add_voter c servers) ≡ (
          if str_eq c.server_id j
          then changed_entry add_voter c (find_server c.server_id servers)
          else find_server j servers)
  unfolding change_servers revote
  add_voter-find servers = ground (
    arith,
    str_eq_iff c.server_id j,
    update_first-find (revote c) revote-id servers,
    update_first-found c (revote c) servers,
    find_server-append j (update_first (matches c) (revote c) servers).0 (new_server voter c),
    find_server-Named c.server_id servers,
  )

  add_nonvoter-find :
      (servers : List Server)
      → find_server j (change_servers add_nonvoter c servers) ≡ (
          if str_eq c.server_id j
          then changed_entry add_nonvoter c (find_server c.server_id servers)
          else find_server j servers)
  unfolding change_servers unvote
  add_nonvoter-find servers = ground (
    arith,
    str_eq_iff c.server_id j,
    update_first-find (unvote c) unvote-id servers,
    update_first-found c (unvote c) servers,
    find_server-append j (update_first (matches c) (unvote c) servers).0 (new_server nonvoter c),
    find_server-Named c.server_id servers,
  )

  demote_voter-find :
      (servers : List Server)
      → find_server j (change_servers demote_voter c servers) ≡ (
          if str_eq c.server_id j
          then changed_entry demote_voter c (find_server c.server_id servers)
          else find_server j servers)
  unfolding change_servers
  demote_voter-find servers = ground (
    arith,
    update_first-find (λ (s : Server). record s { suffrage = nonvoter }) (λ s h. h) servers,
  )

  -- An ID that is not there is not found, before and after a promotion.
  find_server-absent :
      (id : String) (servers : List Server)
      → ¬ Elem id (map (λ s. s.id) servers)
      → find_server id servers ≡ none
  unfolding find_server
  find_server-absent id [] h = refl
  find_server-absent id (s ∷ rest) h =
      ground (arith, str_eq_iff s.id id, find_server-absent id rest)

  promote_absent :
      (servers : List Server)
      → ¬ Elem c.server_id (map (λ s. s.id) servers)
      → change_servers promote c servers ≡ servers
  unfolding change_servers update_first
  promote_absent [] h = refl
  promote_absent (s ∷ rest) h = ground (arith, str_eq_iff s.id c.server_id, promote_absent rest)

  promote-find :
      (servers : List Server)
      → Distinct (map (λ s. s.id) servers)
      → find_server j (change_servers promote c servers) ≡ (
          if str_eq c.server_id j
          then changed_entry promote c (find_server c.server_id servers)
          else find_server j servers)
  unfolding find_server change_servers update_first
  promote-find [] d = ground arith
  promote-find (s ∷ rest) (new, d) = ground (
    arith,
    str_eq_iff s.id c.server_id,
    str_eq_iff s.id j,
    str_eq_iff c.server_id j,
    promote-find rest d,
    find_server-absent c.server_id rest,
    promote_absent rest,
  )

  remove_server-find :
      (servers : List Server)
      → Distinct (map (λ s. s.id) servers)
      → find_server j (change_servers remove_server c servers)
        ≡ (if str_eq c.server_id j then none else find_server j servers)
  unfolding find_server change_servers remove_first
  remove_server-find [] d = ground arith
  remove_server-find (s ∷ rest) (new, d) = ground (
    arith,
    str_eq_iff s.id c.server_id,
    str_eq_iff s.id j,
    str_eq_iff c.server_id j,
    remove_server-find rest d,
    find_server-absent c.server_id rest,
  )

  change_servers-find :
      (command : ConfigurationChangeCommand) (servers : List Server)
      → Distinct (map (λ s. s.id) servers)
      → find_server j (change_servers command c servers) ≡ (
          if str_eq c.server_id j
          then changed_entry command c (find_server c.server_id servers)
          else find_server j servers)
  change_servers-find add_voter servers d = add_voter-find servers
  change_servers-find add_nonvoter servers d = add_nonvoter-find servers
  change_servers-find demote_voter servers d = demote_voter-find servers
  change_servers-find remove_server servers d = remove_server-find servers d
  change_servers-find promote servers d = promote-find servers d

-- A change that goes through was asked of the latest configuration, and its servers are the
-- changed ones.
pub next_configuration-ok :
    (current : Configuration) (index : ℕ) (change : ConfigurationChangeRequest)
    → {next : Configuration} → next_configuration current index change ≡ ok next
    → ((change.prev_index ≡ 0) ⊎ (change.prev_index ≡ index))
      × (next.servers ≡ change_servers change.command change current.servers)
      × (check_configuration next ≡ none)
unfolding next_configuration
next_configuration-ok current index change h = ground arith

-- When a change of a sound configuration succeeds, the request was made without a previous index or
-- with the index of that configuration, the new configuration is sound, the entry of the server
-- that the request names is what the command makes of its old one, and every other server keeps
-- its entry.
pub next_configuration_lem :
    (current : Configuration) (index : ℕ) (change : ConfigurationChangeRequest)
    → {next : Configuration} → IsValid current
    → next_configuration current index change ≡ ok next
    → ((change.prev_index ≡ 0) ⊎ (change.prev_index ≡ index))
      × IsValid next
      × ((j : String)
          → find_server j next.servers ≡ (
              if str_eq change.server_id j
              then changed_entry change.command change
                  (find_server change.server_id current.servers)
              else find_server j current.servers))
next_configuration_lem current index change {next} v h =
    let (fresh, made, sound) = next_configuration-ok current index change h in
    (
      fresh,
      (check_configuration_iff next).0 sound,
      λ j. rw made (change_servers-find change j change.command current.servers v.ids_distinct),
    )

-- A request with a previous index that is not the index of the latest configuration is refused.
pub next_configuration_stale :
    (current : Configuration) (index : ℕ) (change : ConfigurationChangeRequest)
    → change.prev_index ≢ 0
    → change.prev_index ≢ index
    → next_configuration current index change ≡ err configuration_changed
unfolding next_configuration
next_configuration_stale current index change h k = ground arith

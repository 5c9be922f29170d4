-- ===== src/Configuration/Tests.antt =====
-- configuration.go on three voters.
use perf_raft.Prelude.{
  ◌≡◌, ◌≤◌, ◌⊎◌, ◌↔◌, String, Bool, true, none, str_eq, if◌then◌else◌, refl, arith,
}
use perf_raft.Configuration.{
  ConfigurationChangeRequest, remove_server, ok, check_configuration, change_servers,
  next_configuration, quorum_size, checked, check_servers, contains, remove_first, count_voters,
}
use perf_raft.Samples.{three, two}
use perf_raft.Configuration.Check.{IsValid, check_configuration_iff}
use perf_raft.Configuration.Change.{find_server, changed_entry, next_configuration_lem}
use perf_raft.Configuration.Quorum.{granted, Common, next_configuration-quorums_meet}

abbrev removal : ConfigurationChangeRequest
removal = record { command = remove_server; server_id = "b"; server_address = ""; prev_index = 7 }

checked_three : check_configuration three ≡ none
unfolding check_configuration check_servers contains
checked_three = refl

removed : next_configuration three 7 removal ≡ ok two
unfolding next_configuration change_servers remove_first checked check_configuration check_servers
    contains
removed = refl

check_configuration_iff_example : (check_configuration three ≡ none) ↔ IsValid three
check_configuration_iff_example = check_configuration_iff three

next_configuration_lem_example :
    ((removal.prev_index ≡ 0) ⊎ (removal.prev_index ≡ 7))
    × IsValid two
    × ((j : String)
        → find_server j two.servers ≡ (
            if str_eq removal.server_id j
            then changed_entry removal.command removal (find_server removal.server_id three.servers)
            else find_server j three.servers))
next_configuration_lem_example =
    next_configuration_lem three 7 removal (check_configuration_iff_example.0 checked_three) removed

abbrev a_and_b : String → Bool
a_and_b id = if str_eq id "a" then true else str_eq id "b"

abbrev a_and_c : String → Bool
a_and_c id = if str_eq id "a" then true else str_eq id "c"

quorum_of_three : quorum_size three ≤ granted a_and_b three.servers
unfolding quorum_size count_voters granted
quorum_of_three = omega arith

quorum_of_three_too : quorum_size three ≤ granted a_and_c three.servers
unfolding quorum_size count_voters granted
quorum_of_three_too = omega arith

quorum_of_two : quorum_size two ≤ granted a_and_c two.servers
unfolding quorum_size count_voters granted
quorum_of_two = omega arith

next_configuration-quorums_meet_example : Common a_and_b a_and_c three.servers
next_configuration-quorums_meet_example =
    next_configuration-quorums_meet three 7 removal removed a_and_b a_and_c quorum_of_three
      quorum_of_two

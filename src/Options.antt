-- ===== src/Options.antt =====
-- config.go, with ReloadConfig of api.go and checkRPCHeader of raft.go: the options of a server, which of
-- them are sane, how some change at runtime, and whose RPCs are answered. Times are in nanoseconds; a
-- time or a size below 0 counts as 0, which every check treats alike. Channels and loggers are left out.
pub mod Sane
pub mod Reload
mod Tests
use perf_raft.Prelude.{
  ℕ, ◌-◌, String, Bool, true, false, ◌||◌, Option, none, some, ltb, leb, ◌==◌, if◌then◌else◌,
  str_eq,
}
use perf_raft.Node.{RpcHeader}

abbrev pub protocol_version_min : ℕ
protocol_version_min = 0

abbrev pub protocol_version_max : ℕ
protocol_version_max = 3

pub record Config : Type 0 where
  pub protocol_version : ℕ
  pub heartbeat_timeout : ℕ
  pub election_timeout : ℕ
  pub commit_timeout : ℕ
  pub max_append_entries : ℕ
  pub batch_apply_ch : Bool
  pub shutdown_on_remove : Bool
  pub trailing_logs : ℕ
  pub snapshot_interval : ℕ
  pub snapshot_threshold : ℕ
  pub leader_lease_timeout : ℕ
  pub local_id : String
  pub log_level : String
  pub no_snapshot_restore_on_start : Bool
  pub pre_vote_disabled : Bool
  pub no_legacy_telemetry : Bool
  pub skip_startup : Bool

pub record ReloadableConfig : Type 0 where
  pub trailing_logs : ℕ
  pub snapshot_interval : ℕ
  pub snapshot_threshold : ℕ
  pub heartbeat_timeout : ℕ
  pub election_timeout : ℕ

unfoldable pub apply : ReloadableConfig → Config → Config
apply rc to = record to {
  trailing_logs = rc.trailing_logs;
  snapshot_interval = rc.snapshot_interval;
  snapshot_threshold = rc.snapshot_threshold;
  heartbeat_timeout = rc.heartbeat_timeout;
  election_timeout = rc.election_timeout;
}

unfoldable pub from_config : Config → ReloadableConfig
from_config from = record {
  trailing_logs = from.trailing_logs;
  snapshot_interval = from.snapshot_interval;
  snapshot_threshold = from.snapshot_threshold;
  heartbeat_timeout = from.heartbeat_timeout;
  election_timeout = from.election_timeout;
}

unfoldable pub default_config : Config
default_config = record {
  protocol_version = protocol_version_max;
  heartbeat_timeout = 1000000000;
  election_timeout = 1000000000;
  commit_timeout = 50000000;
  max_append_entries = 64;
  batch_apply_ch = false;
  shutdown_on_remove = true;
  trailing_logs = 10240;
  snapshot_interval = 120000000000;
  snapshot_threshold = 8192;
  leader_lease_timeout = 500000000;
  local_id = "";
  log_level = "DEBUG";
  no_snapshot_restore_on_start = false;
  pre_vote_disabled = false;
  no_legacy_telemetry = false;
  skip_startup = false;
}

-- Which check of ValidateConfig failed.
pub data ConfigFault : Type 0 where
  bad_protocol_version empty_local_id low_heartbeat_timeout low_election_timeout : ConfigFault
  low_commit_timeout no_append_entries many_append_entries low_snapshot_interval : ConfigFault
  low_lease_timeout lease_above_heartbeat election_below_heartbeat : ConfigFault

-- ProtocolVersionMin is 0, so the least version that is supported is 1.
unfoldable pub validate_config : Config → Option ConfigFault
validate_config c =
    if ltb c.protocol_version 1 || ltb protocol_version_max c.protocol_version
    then some bad_protocol_version
    else if str_eq c.local_id ""
    then some empty_local_id
    else if ltb c.heartbeat_timeout 5000000
    then some low_heartbeat_timeout
    else if ltb c.election_timeout 5000000
    then some low_election_timeout
    else if ltb c.commit_timeout 1000000
    then some low_commit_timeout
    else if c.max_append_entries == 0
    then some no_append_entries
    else if ltb 1024 c.max_append_entries
    then some many_append_entries
    else if ltb c.snapshot_interval 5000000
    then some low_snapshot_interval
    else if ltb c.leader_lease_timeout 5000000
    then some low_lease_timeout
    else if ltb c.heartbeat_timeout c.leader_lease_timeout
    then some lease_above_heartbeat
    else if ltb c.election_timeout c.heartbeat_timeout
    then some election_below_heartbeat
    else none

-- What ReloadConfig leaves: an error or not, the options that are stored, and whether the leader's
-- replication and the follower's timer are told.
pub record Reloaded : Type 0 where
  pub fault : Option ConfigFault
  pub stored : Config
  pub notifies : Bool

reload_checked : ReloadableConfig → Config → Option ConfigFault → Reloaded
unfolding apply
reload_checked rc old (some e) = record { fault = some e; stored = old; notifies = false }
reload_checked rc old none = record {
  fault = none;
  stored = apply rc old;
  notifies = ltb rc.heartbeat_timeout old.heartbeat_timeout;
}

pub reload_config : ReloadableConfig → Config → Reloaded
unfolding reload_checked apply validate_config
reload_config rc old = reload_checked rc old (validate_config (apply rc old))

-- checkRPCHeader: is the RPC answered? Below version 1 of our own, nothing is too old.
unfoldable pub check_rpc_header : Config → RpcHeader → Bool
check_rpc_header c header =
    if ltb header.protocol_version protocol_version_min
      || ltb protocol_version_max header.protocol_version
    then false
    else if ltb header.protocol_version (c.protocol_version - 1)
    then false
    else true

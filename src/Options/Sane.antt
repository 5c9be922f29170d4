-- ===== src/Options/Sane.antt =====
-- ValidateConfig of config.go: which options are accepted.
use perf_raft.Prelude.{◌≤◌, ◌+◌, ◌≡◌, ◌↔◌, true, false, none, str_eq, arith}
use perf_raft.Node.{Env, get_rpc_header}
use perf_raft.Options.{Config, validate_config, check_rpc_header}

-- What the comments of Config ask for.
pub record IsSane (c : Config) : Type 0 where
  pub version : (1 ≤ c.protocol_version) × (c.protocol_version ≤ 3)
  pub named : str_eq c.local_id "" ≡ false
  pub heartbeats : 5000000 ≤ c.heartbeat_timeout
  pub elections : c.heartbeat_timeout ≤ c.election_timeout
  pub commits : 1000000 ≤ c.commit_timeout
  pub batches : (1 ≤ c.max_append_entries) × (c.max_append_entries ≤ 1024)
  pub snapshots : 5000000 ≤ c.snapshot_interval
  pub lease : (5000000 ≤ c.leader_lease_timeout) × (c.leader_lease_timeout ≤ c.heartbeat_timeout)

-- ValidateConfig accepts exactly the options that are sane: a supported version, a name, timeouts that
-- are long enough, a lease no longer than the heartbeat timeout and that no longer than the election
-- timeout, and between 1 and 1024 entries in a request.
pub validate_config_iff : (c : Config) → (validate_config c ≡ none) ↔ IsSane c
unfolding validate_config
validate_config_iff c = (to, from)
  where
    to : validate_config c ≡ none → IsSane c
    to h = record {
      version = ground (arith, h);
      named = ground (arith, h);
      heartbeats = ground (arith, h);
      elections = ground (arith, h);
      commits = ground (arith, h);
      batches = ground (arith, h);
      snapshots = ground (arith, h);
      lease = ground (arith, h);
    }

    from : IsSane c → validate_config c ≡ none
    from s = ground (
      arith, s.version, s.named, s.heartbeats, s.elections, s.commits, s.batches, s.snapshots,
      s.lease,
    )

-- A server with sane options answers the RPCs of another one with sane options, if its own protocol
-- version is at most one above the other's.
pub check_rpc_header-Neighbours :
    (c d : Config) (env : Env)
    → validate_config c ≡ none
    → validate_config d ≡ none
    → env.protocol_version ≡ c.protocol_version
    → d.protocol_version ≤ c.protocol_version + 1
    → check_rpc_header d (get_rpc_header env) ≡ true
unfolding check_rpc_header get_rpc_header
check_rpc_header-Neighbours c d env sane_c sane_d same near =
    let versions = ((validate_config_iff c).0 sane_c).version in
    ground (arith, versions, same, near)

-- ===== src/Options/Tests.antt =====
-- The default options with a name are accepted.
use perf_raft.Prelude.{none, ◌≡◌, refl}
use perf_raft.Options.{Config, default_config, validate_config}

abbrev named : Config
named = record default_config { local_id = "a" }

accepted : validate_config named ≡ none
unfolding validate_config default_config
accepted = refl

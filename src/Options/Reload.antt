-- ===== src/Options/Reload.antt =====
-- ReloadConfig of api.go, with apply and fromConfig of config.go.
use perf_raft.Prelude.{◌≡◌, ◌≢◌, ◌⊎◌, none, ltb, refl, arith, Option-cases, inl, inr}
use perf_raft.Options.{
  Config, ReloadableConfig, apply, from_config, validate_config, reload_checked, reload_config,
}

-- What is applied is read back, and applying what was read changes nothing.
pub from_config-apply :
    (rc : ReloadableConfig) (c : Config)
    → (from_config (apply rc c) ≡ rc) × (apply (from_config c) c ≡ c)
unfolding from_config apply
from_config-apply rc c = (refl, refl)

-- ReloadConfig never makes sane options insane. When it gives no error, the reloadable options are the
-- new ones, and replication is told if the heartbeat timeout has become shorter; when it gives one, the
-- options are the old ones. Applying the old reloadable options again gives the old options back.
pub reload_config-Sane :
    (rc : ReloadableConfig) (old : Config)
    → validate_config old ≡ none
    → let r = reload_config rc old in
      (validate_config r.stored ≡ none)
      × (((r.fault ≡ none)
            × (from_config r.stored ≡ rc)
            × (r.notifies ≡ ltb rc.heartbeat_timeout old.heartbeat_timeout))
          ⊎ ((r.fault ≢ none) × (r.stored ≡ old)))
      × (apply (from_config old) r.stored ≡ old)
unfolding reload_config reload_checked apply from_config
reload_config-Sane rc old h = elim (Option-cases (validate_config (apply rc old))) [
  | inl e ↦ rw (e, reload_checked) (e, inl (refl, refl, refl), refl)
  | inr (f, e) ↦ rw (e, reload_checked) (h, inr ((λ k. ground (arith, k)), refl), refl)
]

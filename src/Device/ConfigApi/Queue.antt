-- ===== src/Device/ConfigApi/Queue.antt =====
-- src/web_config_api.cpp, enqueue and pollConfigApply: what becomes of a queued action.
use homekit_rf_ir_blaster.Base.{◌≡◌, ◌≢◌, refl, ap, ◌∙◌, sym, Bool, true, false, if◌then◌else◌}
use homekit_rf_ir_blaster.Config.Store.{BlobStore}
use homekit_rf_ir_blaster.Config.Model.{Config}
use homekit_rf_ir_blaster.Config.Codec.{ConfigJson}
use homekit_rf_ir_blaster.Config.Changes.{classify_change}
use homekit_rf_ir_blaster.Device.ConfigApi.{
  restart, apply, ConfigApi, Effect, restarts, applies, needs_restart, Request, accepted,
  handle_factory_reset, handle_post_config, erases_and_restarts, effect_of, poll_config_apply,
}
use homekit_rf_ir_blaster.Device.ConfigApi.Posts.{is_saved, handle_post_config-IsPosted}

-- What a write that was saved makes the loop's task do.
abbrev pub write_effect : Bool → Config → Effect
write_effect restart_needed cfg = if restart_needed then restarts else applies cfg

effect_of-write :
    (restart_needed : Bool) (cfg : Config)
    → effect_of (if restart_needed then restart else apply cfg) ≡ write_effect restart_needed cfg
effect_of-write true cfg = refl
effect_of-write false cfg = refl

write_effect_keeps :
    (restart_needed : Bool) (cfg : Config) → write_effect restart_needed cfg ≢ erases_and_restarts
write_effect_keeps true cfg = λ h. cc h
write_effect_keeps false cfg = λ h. cc h

-- A factory reset that was accepted is lost if a write succeeds before the loop's task looks at the
-- queue: the loop's task then restarts, or applies the configuration that was written, as
-- classifyChange says, and it does not erase.
pub handle_factory_reset-overwritten :
    {S : Type 0} (ops : BlobStore S) (json : ConfigJson) (reset write : Request) (a : ConfigApi S)
    → (handle_factory_reset reset a).0 ≡ accepted
    → let queued = (handle_factory_reset reset a).1 in
      let written = (handle_post_config ops json write queued).1 in
      is_saved (handle_post_config ops json write queued).0 ≡ true
      → ((poll_config_apply written).0
          ≡ write_effect
              (needs_restart (classify_change queued.config.settings written.config.settings))
              written.config)
        × ((poll_config_apply written).0 ≢ erases_and_restarts)
unfolding poll_config_apply
handle_factory_reset-overwritten ops json reset write a ok saved =
    let queued = (handle_factory_reset reset a).1 in
    let written = (handle_post_config ops json write queued).1 in
    let needed = needs_restart (classify_change queued.config.settings written.config.settings) in
    let taken = (handle_post_config-IsPosted ops json write queued).0.taken saved in
    let effect = ap effect_of taken.3 ∙ effect_of-write needed written.config in
    (effect, λ h. write_effect_keeps needed written.config (sym effect ∙ h))

-- ===== src/Device/ConfigApi.antt =====
-- src/web_config_api.cpp, the configuration's part: handlePostConfig, handleFactoryReset,
-- handleRegenOtaPassword, enqueue and pollConfigApply. A request carries what the server's library
-- and the session check answer about it; the replies are named, not printed.
pub mod Posts
pub mod Queue
use homekit_rf_ir_blaster.Base.{
  ℕ, ◌+◌, ◌-◌, ◌%◌, ◌^◌, ◌≡◌, refl, Bool, true, false, not, Option, none, some, ◌==◌, if◌then◌else◌,
  Bytes,
}
use homekit_rf_ir_blaster.Config.Model.{Config}
use homekit_rf_ir_blaster.Config.Validate.{validate}
use homekit_rf_ir_blaster.Config.Changes.{ApplyKind, live, requires_restart, classify_change}
use homekit_rf_ir_blaster.Config.Store.{BlobStore}
use homekit_rf_ir_blaster.Config.Codec.{ConfigJson, is_fine, save}

pub data Pending : Type 0 where
  nothing restart factory : Pending
  apply : Config → Pending

-- `pending` holds g_pendingCfg where it is valid.
pub record ConfigApi (S : Type 0) : Type 0 where
  pub config : Config
  pub rev : ℕ
  pub store : S
  pub ota_password : Bytes
  pub pending : Pending

-- The session's and the CSRF token's validity, the body where it could be read, and the value of the
-- query's `rev` as strtoul reads it.
pub record Request : Type 0 where
  pub session : Bool
  pub csrf : Bool
  pub body : Option Bytes
  pub rev : Option ℕ

pub data ApiReply : Type 0 where
  unauthorized forbidden bad_size bad_json bad_config store_failed accepted : ApiReply
  conflict : ℕ → ApiReply
  saved : ℕ → Bool → Config → ApiReply

unfoldable pub query_rev : Request → ℕ
query_rev q = elim q.rev [ none ↦ 2 ^ 32 - 1 | some n ↦ n % 2 ^ 32 ]

unfoldable pub enqueue : {S : Type 0} → Pending → ConfigApi S → ConfigApi S
enqueue action a = record a { pending = action }

abbrev pub needs_restart : ApplyKind → Bool
needs_restart live = false
needs_restart requires_restart = true

-- The write, once parsed: validated, stored, taken over, and queued.
unfoldable pub put_config :
    {S : Type 0} → BlobStore S → ConfigJson → Option Config → ConfigApi S → ApiReply × ConfigApi S
unfolding enqueue
put_config ops json none a = (bad_json, a)
put_config ops json (some incoming) a =
    let stored = save ops json a.store incoming in
    let restarts = needs_restart (classify_change a.config.settings incoming.settings) in
    let rev = (a.rev + 1) % 2 ^ 32 in
    if not (is_fine (validate incoming))
    then (bad_config, a)
    else if not stored.0
    then (store_failed, record a { store = stored.1 })
    else (
      saved rev restarts incoming,
      enqueue (if restarts then restart else apply incoming)
          (record a { config = incoming; rev = rev; store = stored.1 }),
    )

unfoldable pub post_body :
    {S : Type 0}
    → BlobStore S
    → ConfigJson
    → Option Bytes
    → Request
    → ConfigApi S
    → ApiReply × ConfigApi S
unfolding query_rev put_config
post_body ops json none q a = (bad_size, a)
post_body ops json (some body) q a =
    if not q.csrf
    then (forbidden, a)
    else if not (query_rev q == a.rev)
    then (conflict a.rev, a)
    else put_config ops json (json.from_json body) a

unfoldable pub handle_post_config :
    {S : Type 0} → BlobStore S → ConfigJson → Request → ConfigApi S → ApiReply × ConfigApi S
unfolding post_body
handle_post_config ops json q a =
    if not q.session then (unauthorized, a) else post_body ops json q.body q a

unfoldable pub handle_factory_reset : {S : Type 0} → Request → ConfigApi S → ApiReply × ConfigApi S
unfolding enqueue
handle_factory_reset q a =
    if not q.session
    then (unauthorized, a)
    else if not q.csrf
    then (forbidden, a)
    else (accepted, enqueue factory a)

-- Whether the credential store takes the new password is an argument.
unfoldable pub handle_regen_ota_password :
    {S : Type 0} → Bool → Bytes → Request → ConfigApi S → ApiReply × ConfigApi S
unfolding enqueue
handle_regen_ota_password taken password q a =
    if not q.session
    then (unauthorized, a)
    else if not q.csrf
    then (forbidden, a)
    else if not taken
    then (store_failed, a)
    else (accepted, enqueue restart (record a { ota_password = password }))

-- What the loop's task does with the queued action.
pub data Effect : Type 0 where
  idles restarts erases_and_restarts : Effect
  applies : Config → Effect

abbrev pub effect_of : Pending → Effect
effect_of nothing = idles
effect_of restart = restarts
effect_of factory = erases_and_restarts
effect_of (apply cfg) = applies cfg

unfoldable pub poll_config_apply : {S : Type 0} → ConfigApi S → Effect × ConfigApi S
poll_config_apply a = (effect_of a.pending, record a { pending = nothing })

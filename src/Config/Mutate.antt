-- ===== src/Config/Mutate.antt =====
-- lib/config/config_mutate.h and config_mutate.cpp: changes of the configuration that are kept only
-- when they validate and are stored.
pub mod Atomic
pub mod Lookup
use homekit_rf_ir_blaster.Base.{
  ℕ, ◌+◌, ◌%◌, ◌^◌, ◌≡◌, refl, Bool, true, false, ◌||◌, not, List, [], ◌∷◌, ◌++◌, Option, none,
  some, ltb, leb, ◌==◌, if◌then◌else◌, length, null, Bytes, bytes_eq,
}
use homekit_rf_ir_blaster.Config.Model.{
  StoredCode, CommandSlot, VirtualDevice, Config, max_devices, max_name_len,
}
use homekit_rf_ir_blaster.Config.Validate.{validate}
use homekit_rf_ir_blaster.Config.Store.{BlobStore}
use homekit_rf_ir_blaster.Config.Codec.{ConfigJson, is_fine, save}
use homekit_rf_ir_blaster.Config.Plan.{unknown, same_type, service_type_from_string}

pub data MutateError : Type 0 where
  done bad_name bad_service device_not_found device_limit failed_validation store_rejected :
      MutateError

unfoldable pub is_bad_name : Bytes → Bool
is_bad_name s = null s || ltb max_name_len (length s)

-- The result, with the store and the configuration that the call leaves.
pub record Outcome (S : Type 0) : Type 0 where
  pub error : MutateError
  pub store : S
  pub config : Config

unfoldable pub commit : {S : Type 0} → BlobStore S → ConfigJson → S → Config → Config → Outcome S
commit ops json store cfg next =
    let saved = save ops json store next in
    if not (is_fine (validate next))
    then record { error = failed_validation; store = store; config = cfg }
    else if not saved.0
    then record { error = store_rejected; store = saved.1; config = cfg }
    else record { error = done; store = saved.1; config = next }

abbrev pub new_slot : Bytes → StoredCode → CommandSlot
new_slot name code = record { name = name; code = code; repeat_count = 1; repeat_delay_ms = 0 }

-- The first slot of the name takes the code; without one, a slot is added at the end.
unfoldable pub upsert_slot : Bytes → StoredCode → List CommandSlot → List CommandSlot
upsert_slot name code [] = new_slot name code ∷ []
upsert_slot name code (s ∷ ss) =
    let rest = upsert_slot name code ss in
    if bytes_eq s.name name then record s { code = code } ∷ ss else s ∷ rest

-- The first device of the id; none where there is none.
unfoldable pub upsert_device :
    ℕ → Bytes → StoredCode → List VirtualDevice → Option (List VirtualDevice)
unfolding upsert_slot
upsert_device id name code [] = none
upsert_device id name code (d ∷ ds) =
    let rest = upsert_device id name code ds in
    if d.id == id
    then some (record d { commands = upsert_slot name code d.commands } ∷ ds)
    else elim rest [ none ↦ none | some ds' ↦ some (d ∷ ds') ]

abbrev commit_devices :
    {S : Type 0} → BlobStore S → ConfigJson → S → Config → Option (List VirtualDevice) → Outcome S
commit_devices ops json store cfg none = record {
  error = device_not_found;
  store = store;
  config = cfg;
}
commit_devices ops json store cfg (some ds) =
    commit ops json store cfg (record cfg { devices = ds })

unfoldable pub upsert_command :
    {S : Type 0} → BlobStore S → ConfigJson → S → Config → ℕ → Bytes → StoredCode → Outcome S
unfolding is_bad_name upsert_device
upsert_command ops json store cfg device_id name code =
    if is_bad_name name
    then record { error = bad_name; store = store; config = cfg }
    else commit_devices ops json store cfg (upsert_device device_id name code cfg.devices)

-- The device that is added, with its one command.
abbrev pub new_device : ℕ → Bytes → Bytes → Bytes → StoredCode → VirtualDevice
new_device id device_name service command_name code = record {
  id = id;
  service = service;
  name = device_name;
  commands = new_slot command_name code ∷ [];
}

unfoldable pub with_device : Config → Bytes → Bytes → Bytes → StoredCode → Config
with_device cfg device_name service command_name code = record cfg {
  next_device_id = (cfg.next_device_id + 1) % 2 ^ 16;
  devices =
      cfg.devices ++ (new_device cfg.next_device_id device_name service command_name code ∷ []);
}

abbrev pub is_done : MutateError → Bool
is_done done = true
is_done bad_name = false
is_done bad_service = false
is_done device_not_found = false
is_done device_limit = false
is_done failed_validation = false
is_done store_rejected = false

-- The id that the result carries: that of the device added, 0 on any error.
pub record Added (S : Type 0) : Type 0 where
  pub outcome : Outcome S
  pub id : ℕ

abbrev pub added : {S : Type 0} → ℕ → Outcome S → Added S
added id o = record { outcome = o; id = if is_done o.error then id else 0 }

abbrev refused : {S : Type 0} → MutateError → S → Config → Added S
refused e store cfg = record { outcome = record { error = e; store = store; config = cfg }; id = 0 }

unfoldable pub add_device :
    {S : Type 0}
    → BlobStore S
    → ConfigJson
    → S
    → Config
    → Bytes
    → Bytes
    → Bytes
    → StoredCode
    → Added S
unfolding is_bad_name with_device
add_device ops json store cfg device_name service command_name code =
    if is_bad_name device_name || is_bad_name command_name
    then refused bad_name store cfg
    else if same_type (service_type_from_string service) unknown
    then refused bad_service store cfg
    else if leb max_devices (length cfg.devices)
    then refused device_limit store cfg
    else added cfg.next_device_id
        (commit ops json store cfg (with_device cfg device_name service command_name code))

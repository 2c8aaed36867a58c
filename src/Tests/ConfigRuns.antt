-- ===== src/Tests/ConfigRuns.antt =====
-- Runs of lib/config on a store in memory.
use homekit_rf_ir_blaster.Base.{
  ◌||◌, ◌&&◌, not, is_some, ◌≡◌, ◌↔◌, refl, true, false, [], ◌∷◌, some, Bytes, bytes_eq, codes,
  arith,
}
use homekit_rf_ir_blaster.Config.Model.{Config, StoredCode, ir, empty_code, default_config}
use homekit_rf_ir_blaster.Config.Validate.{
  validate, fine, check_port, check_domain, check_devices, check_device, check_slots, check_slot,
  check_code, check_learned, check_kind, seen,
}
use homekit_rf_ir_blaster.Config.Plan.{
  service_type_from_string, PlannedAccessory, outlet, fan, diff_plans, by_aid,
}
use homekit_rf_ir_blaster.Config.Plan.Removals.{retyped, diff_plans-seen}
use homekit_rf_ir_blaster.Config.Validate.Sound.{IsValid, validate_iff}
use homekit_rf_ir_blaster.Config.Store.{MemoryBlobStore, memory_store, memory_put}
use homekit_rf_ir_blaster.Config.Crc.{crc32}
use homekit_rf_ir_blaster.Config.Codec.{ConfigJson, loaded, accept, decode, envelope, load, save}
use homekit_rf_ir_blaster.Config.Codec.Envelope.{decode-envelope}
use homekit_rf_ir_blaster.Config.Codec.Loading.{IsDecoded, IsStored, load-IsDecoded}
use homekit_rf_ir_blaster.Config.Mutate.{upsert_command, add_device, done, commit, new_device}
use homekit_rf_ir_blaster.Config.Mutate.Atomic.{
  IsAtomic, IsAdded, upsert_command-IsAtomic, add_device-IsAdded,
}

-- A text form for the runs: one byte, read back as the default configuration.
abbrev short_json : ConfigJson
short_json = record { to_json = λ c. some (b'{' ∷ []); from_json = λ text. some default_config }

abbrev empty_store : MemoryBlobStore
empty_store = record { capacity = 64; present = false; blob = [] }

abbrev ir_code : StoredCode
ir_code = record empty_code { kind = ir; pulses = 9000 ∷ 4500 ∷ []; carrier_hz = 38000 }

-- The run does reach the branch where the device is stored.
add_device_stores :
    (add_device memory_store short_json empty_store default_config
      (codes "Lamp")
      (codes "Switch")
      (codes "on")
      ir_code).outcome.error
    ≡ done
unfolding add_device commit validate check_port check_domain check_devices check_device check_slots
    check_slot check_code check_learned check_kind service_type_from_string bytes_eq save memory_put
    crc32 seen
add_device_stores = refl

add_device-IsAdded_example :
    IsAdded memory_store short_json empty_store default_config
      (new_device 2 (codes "Lamp") (codes "Switch") (codes "on") ir_code)
      (add_device memory_store short_json empty_store default_config
        (codes "Lamp")
        (codes "Switch")
        (codes "on")
        ir_code)
add_device-IsAdded_example =
    add_device-IsAdded memory_store short_json empty_store default_config (codes "Lamp")
      (codes "Switch") (codes "on") ir_code (omega arith)

upsert_command-IsAtomic_example :
    IsAtomic memory_store short_json empty_store default_config
      (upsert_command memory_store short_json empty_store default_config 2 (codes "on") ir_code)
upsert_command-IsAtomic_example =
    upsert_command-IsAtomic memory_store short_json empty_store default_config 2 (codes "on")
      ir_code

validate_iff_example : (validate default_config ≡ fine) ↔ IsValid default_config
validate_iff_example = validate_iff default_config

abbrev filled_store : MemoryBlobStore
filled_store = record { capacity = 64; present = true; blob = envelope 1 (codes "{}") }

load-IsDecoded_example :
    let result = (load memory_store short_json filled_store).0 in
    IsDecoded result
    × (result.status ≡ loaded
        → (blob : Bytes) × (memory_store.get filled_store ≡ some blob)
          × IsStored short_json blob result.config)
load-IsDecoded_example = load-IsDecoded memory_store short_json filled_store

decode-envelope_example :
    decode short_json (envelope 1 (codes "{}")) ≡ accept 1 (some default_config)
decode-envelope_example =
    decode-envelope short_json 1 (codes "{}") (omega arith) (omega arith) (ground arith)

abbrev lamp_config : Config
lamp_config = record default_config {
  next_device_id = 3;
  devices = new_device 2 (codes "Lamp") (codes "Switch") (codes "on") ir_code ∷ [];
}

upsert_stores :
    (upsert_command memory_store short_json empty_store lamp_config 2 (codes "off") ir_code).error
    ≡ done
unfolding upsert_command commit validate check_port check_domain check_devices check_device
    check_slots check_slot check_code check_learned check_kind bytes_eq save memory_put crc32 seen
upsert_stores = refl

abbrev lamp : PlannedAccessory
lamp = record { aid = 2; kind = outlet; name = codes "Lamp"; commands = [] }

diff_plans-seen_example :
    seen 2 (diff_plans (lamp ∷ []) (record lamp { kind = fan } ∷ [])).to_remove ≡ (
      retyped 2 (lamp ∷ []) (record lamp { kind = fan } ∷ [])
      || (is_some (by_aid 2 (lamp ∷ []))
          && not (is_some (by_aid 2 (record lamp { kind = fan } ∷ [])))))
diff_plans-seen_example = diff_plans-seen 2 (lamp ∷ []) (record lamp { kind = fan } ∷ [])

-- ===== src/Config/Mutate/Lookup.antt =====
-- lib/config/config_mutate.cpp, upsertCommand: commands looked up after a change.
use homekit_rf_ir_blaster.Base.{
  ℕ, ◌≡◌, ◌≢◌, ◌⊎◌, ◌∙◌, sym, List, [], ◌∷◌, Option, none, some, ◌==◌, if◌then◌else◌, Bytes,
  bytes_eq, bytes_eq_iff, bytes_eq_refl, ==_iff, arith, Bool-cases, Option-cases, inl, inr, ◌>>=◌,
}
use homekit_rf_ir_blaster.Config.Model.{StoredCode, CommandSlot, VirtualDevice, Config}
use homekit_rf_ir_blaster.Config.Store.{BlobStore}
use homekit_rf_ir_blaster.Config.Codec.{ConfigJson}
use homekit_rf_ir_blaster.Config.Mutate.{
  done, is_bad_name, upsert_slot, upsert_device, upsert_command,
}
use homekit_rf_ir_blaster.Config.Mutate.Atomic.{commit-config}

-- The code of the first slot of a name.
unfoldable pub slot_code : Bytes → List CommandSlot → Option StoredCode
slot_code name [] = none
slot_code name (s ∷ ss) = if bytes_eq s.name name then some s.code else slot_code name ss

-- The commands of the first device of an id.
unfoldable pub device_commands : ℕ → List VirtualDevice → Option (List CommandSlot)
device_commands id [] = none
device_commands id (d ∷ ds) = if d.id == id then some d.commands else device_commands id ds

unfoldable pub code_at : ℕ → Bytes → List VirtualDevice → Option StoredCode
unfolding slot_code device_commands
code_at id name ds = device_commands id ds >>= slot_code name

slot_code-upsert_slot :
    (name : Bytes) (code : StoredCode) (ss : List CommandSlot)
    → slot_code name (upsert_slot name code ss) ≡ some code
unfolding slot_code upsert_slot
slot_code-upsert_slot name code [] = ground (arith, bytes_eq_refl name)
slot_code-upsert_slot name code (s ∷ ss) = ground (arith, slot_code-upsert_slot name code ss)

slot_code-upsert_slot_other :
    (name other : Bytes) (code : StoredCode) (ss : List CommandSlot)
    → other ≢ name
    → slot_code other (upsert_slot name code ss) ≡ slot_code other ss
unfolding slot_code upsert_slot
slot_code-upsert_slot_other name other code [] ne = elim (Bool-cases (bytes_eq name other)) [
  | inl e ↦ absurd (ne (sym ((bytes_eq_iff name other).0 e)))
  | inr e ↦ rw e
]
slot_code-upsert_slot_other name other code (s ∷ ss) ne = elim (Bool-cases (bytes_eq s.name name)) [
  | inr e ↦ rw e (ground (arith, slot_code-upsert_slot_other name other code ss ne))
  | inl e ↦ elim (Bool-cases (bytes_eq s.name other)) [
    | inl e' ↦ absurd (ne (sym ((bytes_eq_iff s.name other).0 e') ∙ (bytes_eq_iff s.name name).0 e))
    | inr e' ↦ rw (e, e')
  ]
]

upsert_device-code_at :
    (id : ℕ) (name : Bytes) (code : StoredCode) (ds ds' : List VirtualDevice)
    → upsert_device id name code ds ≡ some ds'
    → code_at id name ds' ≡ some code
unfolding upsert_device code_at
upsert_device-code_at id name code [] ds' h = absurd cc
upsert_device-code_at id name code (d ∷ ds) ds' h = elim (Bool-cases (d.id == id)) [
  | inl e ↦ ground (arith, slot_code-upsert_slot name code d.commands)
  | inr e ↦ elim (Option-cases (upsert_device id name code ds)) [
    | inl missing ↦ let h' = rw (e, missing) at h in absurd cc
    | inr (rest, found) ↦ ground (arith, upsert_device-code_at id name code ds rest found)
  ]
]

other_code :
    (id other_id : ℕ) (name other : Bytes) (code : StoredCode) (d : VirtualDevice)
    → d.id ≡ id
    → (other_id ≢ id) ⊎ (other ≢ name)
    → d.id ≡ other_id
    → slot_code other (upsert_slot name code d.commands) ≡ slot_code other d.commands
other_code id other_id name other code d e (inl ne) e' = absurd (ne (sym e' ∙ e))
other_code id other_id name other code d e (inr ne) e' =
    slot_code-upsert_slot_other name other code d.commands ne

upsert_device-code_at_other :
    (id other_id : ℕ) (name other : Bytes) (code : StoredCode) (ds ds' : List VirtualDevice)
    → (other_id ≢ id) ⊎ (other ≢ name)
    → upsert_device id name code ds ≡ some ds'
    → code_at other_id other ds' ≡ code_at other_id other ds
unfolding upsert_device code_at
upsert_device-code_at_other id other_id name other code [] ds' ne h = absurd cc
upsert_device-code_at_other id other_id name other code (d ∷ ds) ds' ne h =
    elim (Bool-cases (d.id == id)) [
      | inl e ↦ ground (arith, other_code id other_id name other code d ((==_iff d.id id).0 e) ne)
      | inr e ↦ elim (Option-cases (upsert_device id name code ds)) [
        | inl missing ↦ let h' = rw (e, missing) at h in absurd cc
        | inr (rest, found) ↦
            ground (arith, upsert_device-code_at_other id other_id name other code ds rest ne found)
      ]
    ]

upserted :
    {S : Type 0} (ops : BlobStore S) (json : ConfigJson) (store : S) (cfg : Config) (id : ℕ)
    (name : Bytes) (code : StoredCode)
    → (upsert_command ops json store cfg id name code).error ≡ done
    → upsert_device id name code cfg.devices
      ≡ some (upsert_command ops json store cfg id name code).config.devices
unfolding upsert_command
upserted ops json store cfg id name code h = elim (Bool-cases (is_bad_name name)) [
  | inl bad ↦ let h' = rw bad at h in absurd cc
  | inr ok ↦ elim (Option-cases (upsert_device id name code cfg.devices)) [
    | inl e ↦ let h' = rw (ok, e) at h in absurd cc
    | inr (ds, e) ↦
        let h' = rw (ok, e) at h in
        let (is, valid) = commit-config ops json store cfg (record cfg { devices = ds }) h' in
        rw (ok, e, is)
  ]
]

-- After a command was added or replaced with success, looking it up gives the new code.
pub upsert_command-code_at :
    {S : Type 0} (ops : BlobStore S) (json : ConfigJson) (store : S) (cfg : Config) (id : ℕ)
    (name : Bytes) (code : StoredCode)
    → (upsert_command ops json store cfg id name code).error ≡ done
    → code_at id name (upsert_command ops json store cfg id name code).config.devices ≡ some code
upsert_command-code_at ops json store cfg id name code h =
    upsert_device-code_at id name code cfg.devices _ (upserted ops json store cfg id name code h)

-- After a command was added or replaced with success, every other command, of that device or
-- another, has the code it had.
pub upsert_command-code_at_other :
    {S : Type 0} (ops : BlobStore S) (json : ConfigJson) (store : S) (cfg : Config)
    (id other_id : ℕ) (name other : Bytes) (code : StoredCode)
    → (other_id ≢ id) ⊎ (other ≢ name)
    → (upsert_command ops json store cfg id name code).error ≡ done
    → code_at other_id other (upsert_command ops json store cfg id name code).config.devices
      ≡ code_at other_id other cfg.devices
upsert_command-code_at_other ops json store cfg id other_id name other code ne h =
    upsert_device-code_at_other id other_id name other code cfg.devices _ ne
      (upserted ops json store cfg id name code h)

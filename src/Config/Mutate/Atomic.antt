-- ===== src/Config/Mutate/Atomic.antt =====
-- lib/config/config_mutate.cpp: what a change leaves, on success and on an error.
use homekit_rf_ir_blaster.Base.{
  ℕ, ◌+◌, ◌^◌, ◌<◌, ◌≡◌, ◌≢◌, refl, Bool, true, false, ◌||◌, List, [], ◌∷◌, ◌++◌, leb,
  if◌then◌else◌, length, Bytes, All, arith, Bool-cases, Option-cases, inl, inr,
}
use homekit_rf_ir_blaster.Config.Model.{StoredCode, VirtualDevice, Config, max_devices}
use homekit_rf_ir_blaster.Config.Validate.{ValidateError, fine, validate}
use homekit_rf_ir_blaster.Config.Validate.Sound.{IsDevice, validate_iff}
use homekit_rf_ir_blaster.Config.Store.{BlobStore}
use homekit_rf_ir_blaster.Config.Codec.{ConfigJson, is_fine, encode, save}
use homekit_rf_ir_blaster.Config.Plan.{unknown, same_type, service_type_from_string}
use homekit_rf_ir_blaster.Config.Mutate.{
  MutateError, done, failed_validation, Outcome, is_bad_name, commit, new_device, upsert_device,
  upsert_command, with_device, Added, added, add_device,
}

-- An error leaves the configuration and the stored blob as they were; success gives a
-- configuration that validates, and whose encoding is what the store now holds.
pub record IsAtomic {S : Type 0} (ops : BlobStore S) (json : ConfigJson) (store : S) (cfg : Config)
    (o : Outcome S) : Type 0 where
  pub kept : o.error ≢ done → (o.config ≡ cfg) × (ops.get o.store ≡ ops.get store)
  pub changed :
      o.error ≡ done → (validate o.config ≡ fine) × (ops.get o.store ≡ encode json o.config)

pub is_fine_sound : (e : ValidateError) → is_fine e ≡ true → e ≡ fine
is_fine_sound e h = ground arith

unchanged :
    {S : Type 0} (ops : BlobStore S) (json : ConfigJson) (store : S) (cfg : Config)
    (e : MutateError)
    → e ≢ done
    → IsAtomic ops json store cfg (record { error = e; store = store; config = cfg })
unchanged ops json store cfg e ne = record {
  kept = λ h. (refl, refl);
  changed = λ h. absurd (ne h);
}

pub save_refused :
    {S : Type 0} (ops : BlobStore S) (json : ConfigJson) (store : S) (cfg : Config)
    → (save ops json store cfg).0 ≡ false
    → ops.get (save ops json store cfg).1 ≡ ops.get store
unfolding save
save_refused ops json store cfg h = elim (Option-cases (encode json cfg)) [
  | inl e ↦ rw e
  | inr (blob, e) ↦ rw e (ops.put_refused store blob (rw e at h))
]

pub save_stored :
    {S : Type 0} (ops : BlobStore S) (json : ConfigJson) (store : S) (cfg : Config)
    → (save ops json store cfg).0 ≡ true
    → ops.get (save ops json store cfg).1 ≡ encode json cfg
unfolding save
save_stored ops json store cfg h = elim (Option-cases (encode json cfg)) [
  | inl e ↦ let none_put = rw e at h in absurd (cc none_put)
  | inr (blob, e) ↦ rw e (ops.put_stored store blob (rw e at h))
]

commit-IsAtomic :
    {S : Type 0} (ops : BlobStore S) (json : ConfigJson) (store : S) (cfg next : Config)
    → IsAtomic ops json store cfg (commit ops json store cfg next)
unfolding commit
commit-IsAtomic ops json store cfg next = elim (Bool-cases (is_fine (validate next))) [
  | inr bad ↦ rw bad (unchanged ops json store cfg failed_validation (λ h. cc))
  | inl good ↦ elim (Bool-cases (save ops json store next).0) [
    | inr full ↦
        rw (good, full)
          (record {
            kept = λ h. (refl, save_refused ops json store next full);
            changed = λ h. absurd cc;
          })
    | inl put ↦
        rw (good, put)
          (record {
            kept = λ h. absurd (h refl);
            changed =
                λ h. (is_fine_sound (validate next) good, save_stored ops json store next put);
          })
  ]
]

-- Adding or replacing a command is atomic, whatever the store and the JSON text: an error leaves
-- the configuration and the stored blob as they were, and success gives a configuration that
-- validates and whose encoding is what the store holds.
pub upsert_command-IsAtomic :
    {S : Type 0} (ops : BlobStore S) (json : ConfigJson) (store : S) (cfg : Config) (id : ℕ)
    (name : Bytes) (code : StoredCode)
    → IsAtomic ops json store cfg (upsert_command ops json store cfg id name code)
unfolding upsert_command
upsert_command-IsAtomic ops json store cfg id name code = elim (Bool-cases (is_bad_name name)) [
  | inl bad ↦ rw bad (unchanged ops json store cfg MutateError.bad_name (λ h. cc))
  | inr ok ↦ rw ok (elim (Option-cases (upsert_device id name code cfg.devices)) [
    | inl e ↦ rw e (unchanged ops json store cfg MutateError.device_not_found (λ h. cc))
    | inr (ds, e) ↦ rw e (commit-IsAtomic ops json store cfg (record cfg { devices = ds }))
  ])
]

pub commit-config :
    {S : Type 0} (ops : BlobStore S) (json : ConfigJson) (store : S) (cfg next : Config)
    → (commit ops json store cfg next).error ≡ done
    → ((commit ops json store cfg next).config ≡ next) × (validate next ≡ fine)
unfolding commit
commit-config ops json store cfg next h = elim (Bool-cases (is_fine (validate next))) [
  | inr bad ↦ let h' = rw bad at h in absurd (cc h')
  | inl good ↦ elim (Bool-cases (save ops json store next).0) [
    | inr full ↦ let h' = rw (good, full) at h in absurd (cc h')
    | inl put ↦ (rw (good, put), is_fine_sound (validate next) good)
  ]
]

-- What a call that adds the device `d` leaves.
pub record IsAdded {S : Type 0} (ops : BlobStore S) (json : ConfigJson) (store : S) (cfg : Config)
    (d : VirtualDevice) (r : Added S) : Type 0 where
  pub atomic : IsAtomic ops json store cfg r.outcome
  pub named : r.outcome.error ≡ done → r.id ≡ cfg.next_device_id
  pub next : r.outcome.error ≡ done → r.outcome.config.next_device_id ≡ r.id + 1
  pub devices : r.outcome.error ≡ done → r.outcome.config.devices ≡ cfg.devices ++ (d ∷ [])

All-last :
    (next_id : ℕ) (ds : List VirtualDevice) (d : VirtualDevice)
    → All (IsDevice next_id) (ds ++ (d ∷ []))
    → d.id < next_id
All-last next_id [] d h = h.0.allocated.1
All-last next_id (x ∷ xs) d h = All-last next_id xs d h.1

with_device-next :
    (cfg : Config) (device_name service command_name : Bytes) (code : StoredCode)
    → cfg.next_device_id < 2 ^ 16
    → validate (with_device cfg device_name service command_name code) ≡ fine
    → (with_device cfg device_name service command_name code).next_device_id
      ≡ cfg.next_device_id + 1
unfolding with_device
with_device-next cfg device_name service command_name code fits h =
    let valid = (validate_iff _).0 h in
    let below = All-last _ cfg.devices _ valid.devices in omega arith

with_device-devices :
    (cfg : Config) (device_name service command_name : Bytes) (code : StoredCode)
    → (with_device cfg device_name service command_name code).devices
      ≡ cfg.devices ++ (new_device cfg.next_device_id device_name service command_name code ∷ [])
unfolding with_device
with_device-devices cfg device_name service command_name code = refl

refused-IsAdded :
    {S : Type 0} (ops : BlobStore S) (json : ConfigJson) (store : S) (cfg : Config)
    (d : VirtualDevice) (e : MutateError)
    → e ≢ done
    → IsAdded ops json store cfg d
        (record { outcome = record { error = e; store = store; config = cfg }; id = 0 })
refused-IsAdded ops json store cfg d e ne = record {
  atomic = unchanged ops json store cfg e ne;
  named = λ h. absurd (ne h);
  next = λ h. absurd (ne h);
  devices = λ h. absurd (ne h);
}

committed-IsAdded :
    {S : Type 0} (ops : BlobStore S) (json : ConfigJson) (store : S) (cfg : Config)
    (device_name service command_name : Bytes) (code : StoredCode)
    → cfg.next_device_id < 2 ^ 16
    → IsAdded ops json store cfg
        (new_device cfg.next_device_id device_name service command_name code)
        (added cfg.next_device_id
          (commit ops json store cfg (with_device cfg device_name service command_name code)))
committed-IsAdded ops json store cfg device_name service command_name code fits =
    let next = with_device cfg device_name service command_name code in
    let o = commit ops json store cfg next in
    record {
      atomic = commit-IsAtomic ops json store cfg next;
      named = λ h. rw h refl;
      next = λ h.
          let (is, valid) = commit-config ops json store cfg next h in
          let one = with_device-next cfg device_name service command_name code fits valid in
          rw h (rw is one);
      devices = λ h.
          let (is, valid) = commit-config ops json store cfg next h in
          rw is (with_device-devices cfg device_name service command_name code);
    }

-- Where the next id is a uint16_t, adding a device is atomic, and when it succeeds the device, with
-- its names, service and one command, stands at the end under the old next id, which the result names, and the next id is one more: it has not wrapped round its 16 bits.
pub add_device-IsAdded :
    {S : Type 0} (ops : BlobStore S) (json : ConfigJson) (store : S) (cfg : Config)
    (device_name service command_name : Bytes) (code : StoredCode)
    → cfg.next_device_id < 2 ^ 16
    → IsAdded ops json store cfg
        (new_device cfg.next_device_id device_name service command_name code)
        (add_device ops json store cfg device_name service command_name code)
unfolding add_device
add_device-IsAdded {S = S} ops json store cfg device_name service command_name code fits =
    let d = new_device cfg.next_device_id device_name service command_name code in
    choose (is_bad_name device_name || is_bad_name command_name) _ _
      (refused-IsAdded ops json store cfg d MutateError.bad_name (λ h. cc))
      (choose (same_type (service_type_from_string service) unknown) _ _
        (refused-IsAdded ops json store cfg d MutateError.bad_service (λ h. cc))
        (choose (leb max_devices (length cfg.devices)) _ _
          (refused-IsAdded ops json store cfg d MutateError.device_limit (λ h. cc))
          (committed-IsAdded ops json store cfg device_name service command_name code fits)))
  where
    choose :
        (b : Bool) (r s : Added S)
        → IsAdded ops json store cfg
            (new_device cfg.next_device_id device_name service command_name code)
            r
        → IsAdded ops json store cfg
            (new_device cfg.next_device_id device_name service command_name code)
            s
        → IsAdded ops json store cfg
            (new_device cfg.next_device_id device_name service command_name code)
            (if b then r else s)
    choose true r s k l = k
    choose false r s k l = l

-- ===== src/Tests/RecoveryRuns.antt =====
-- Runs of src/recovery.cpp: a long press, and a third boot in a row.
use homekit_rf_ir_blaster.Base.{
  ℕ, ◌≡◌, ◌≢◌, refl, true, false, Option, none, some, is_some, [], if◌then◌else◌, Bytes, bytes_eq,
  bytes_eq_sound, bytes_eq_refl, Bool-cases, inl, inr, arith,
}
use homekit_rf_ir_blaster.Config.Model.{default_settings}
use homekit_rf_ir_blaster.Device.Recovery.{
  NvsBytes, Recovery, key_count, begin, poll_button, held_ms, safe_mode_reboots, normal,
}
use homekit_rf_ir_blaster.Device.Recovery.SafeMode.{
  IsWritable, poll_button-begin_safe, begin-consumed,
}

-- A namespace in memory.
abbrev Cells : Type 0
Cells = Bytes → Option ℕ

abbrev put : Bytes → Option ℕ → Cells → Cells
put key v n = λ (k : Bytes). if bytes_eq k key then v else n k

put_self : (key : Bytes) (v : Option ℕ) (n : Cells) → put key v n key ≡ v
put_self key v n = rw (bytes_eq_refl key) refl

put_other : (key other : Bytes) (v : Option ℕ) (n : Cells) → key ≢ other → put other v n key ≡ n key
put_other key other v n apart = elim (Bool-cases (bytes_eq key other)) [
  | inl e ↦ absurd (apart (bytes_eq_sound key other e))
  | inr e ↦ rw e refl
]

abbrev memory_bytes : NvsBytes Cells
memory_bytes = record {
  get_u8 = λ key n. n key;
  set_u8 = λ key v n. (true, put key (some v) n);
  erase_key = λ key n. (is_some (n key), put key none n);
  commit = λ n. (true, n);
  get_set = λ key v n set. put_self key (some v) n;
  get_set_other = λ key other v n apart. put_other key other (some v) n apart;
  get_erase = λ key n erased. put_self key none n;
  get_commit = λ key n committed. refl;
}

some_there : (o : Option ℕ) → o ≢ none → is_some o ≡ true
some_there none there = absurd (there refl)
some_there (some v) there = refl

memory_bytes-IsWritable : IsWritable memory_bytes
memory_bytes-IsWritable = record {
  sets = λ key v n. refl;
  erases = λ key n there. some_there (n key) there;
  commits = λ n. refl;
}

-- Pressed shortly before the clock wraps, and released six seconds later.
abbrev held : Recovery Cells
held = record {
  ok = true;
  nvs = λ k. none;
  in_safe_mode = false;
  clear_at_ms = 10000;
  cleared = true;
  pressed = true;
  press_start = 4294966296;
  shown = normal;
}

six_seconds : held_ms 5000 held ≡ 6000
unfolding held_ms
six_seconds = refl

poll_button-begin_safe_example :
    let (effect, released) = poll_button memory_bytes 5000 false held in
    let (booted, used) = begin memory_bytes true true 300 released.nvs default_settings in
    (effect ≡ safe_mode_reboots)
    × (booted.in_safe_mode ≡ true)
    × (used ≡ record default_settings {
      https = false;
      listen_port = 80;
      trusted_proxy = false;
      canonical_domain = [];
    })
poll_button-begin_safe_example =
    poll_button-begin_safe memory_bytes 5000 300 held default_settings refl refl
      (omega (arith, six_seconds)) (omega (arith, six_seconds)) refl refl

abbrev two_boots : Cells
two_boots = put key_count (some 2) (λ k. none)

begin-consumed_example :
    let booted = (begin memory_bytes true false 200 two_boots default_settings).0 in
    let restarted = begin memory_bytes true true 300 booted.nvs default_settings in
    let rebooted = begin memory_bytes true false 300 booted.nvs default_settings in
    (restarted.0.in_safe_mode ≡ false)
    × (restarted.1 ≡ default_settings)
    × (booted.in_safe_mode ≡ true
        → (memory_bytes.get_u8 key_count booted.nvs ≡ some 0)
          × (rebooted.0.in_safe_mode ≡ false)
          × (rebooted.1 ≡ default_settings))
begin-consumed_example =
    begin-consumed memory_bytes false false 200 300 two_boots default_settings default_settings
      memory_bytes-IsWritable

-- ===== src/Device/Recovery.antt =====
-- src/recovery.cpp: safe mode, the counter of boots, and the BOOT button. The stored bytes are those
-- of NVS; the reset's reason, the button's level and `millis()` are arguments.
pub mod SafeMode
use homekit_rf_ir_blaster.Base.{
  ℕ, ◌+◌, ◌-◌, ◌%◌, ◌^◌, ◌≡◌, ◌≢◌, refl, Bool, true, false, ◌&&◌, ◌||◌, not, [], Option, none, some,
  leb, ◌==◌, if◌then◌else◌, Bytes, codes,
}
use homekit_rf_ir_blaster.Config.Model.{Settings}
use homekit_rf_ir_blaster.Runtime.Boot.{
  BootDecision, evaluate_boot, should_clear_counter, stable_run_ms,
}

-- The bytes of a namespace, with what the documentation of NVS says of them: a write, an erasure or
-- a commit may fail, and nothing is said of what a commit that fails leaves.
pub record NvsBytes (N : Type 0) : Type 0 where
  pub get_u8 : Bytes → N → Option ℕ
  pub set_u8 : Bytes → ℕ → N → Bool × N
  pub erase_key : Bytes → N → Bool × N
  pub commit : N → Bool × N
  pub get_set :
      (key : Bytes) (v : ℕ) (n : N)
      → (set_u8 key v n).0 ≡ true
      → get_u8 key (set_u8 key v n).1 ≡ some v
  pub get_set_other :
      (key other : Bytes) (v : ℕ) (n : N)
      → key ≢ other
      → get_u8 key (set_u8 other v n).1 ≡ get_u8 key n
  pub get_erase :
      (key : Bytes) (n : N) → (erase_key key n).0 ≡ true → get_u8 key (erase_key key n).1 ≡ none
  pub get_commit :
      (key : Bytes) (n : N) → (commit n).0 ≡ true → get_u8 key (commit n).1 ≡ get_u8 key n

abbrev pub key_count : Bytes
key_count = codes "count"

abbrev pub key_safereq : Bytes
key_safereq = codes "safereq"

abbrev pub safe_hold_ms : ℕ
safe_hold_ms = 5000

abbrev pub factory_hold_ms : ℕ
factory_hold_ms = 10000

pub data UiState : Type 0 where
  normal safe_mode_armed factory_armed safe_mode : UiState

-- The variables of recovery.cpp, with the statics of pollButton and the shown state.
pub record Recovery (N : Type 0) : Type 0 where
  pub ok : Bool
  pub nvs : N
  pub in_safe_mode : Bool
  pub clear_at_ms : ℕ
  pub cleared : Bool
  pub pressed : Bool
  pub press_start : ℕ
  pub shown : UiState

abbrev pub or_else : ℕ → Option ℕ → ℕ
or_else fallback none = fallback
or_else fallback (some v) = v

unfoldable pub read_u8 : {N : Type 0} → NvsBytes N → Bytes → ℕ → Bool → N → ℕ
read_u8 ops key fallback ok n = if ok then or_else fallback (ops.get_u8 key n) else fallback

-- A failure of the write or of the commit is ignored, and so below.
unfoldable pub write_u8 : {N : Type 0} → NvsBytes N → Bytes → ℕ → Bool → N → N
write_u8 ops key v ok n = if ok then (ops.commit (ops.set_u8 key v n).1).1 else n

unfoldable pub erase_key : {N : Type 0} → NvsBytes N → Bytes → Bool → N → N
erase_key ops key ok n = if ok then (ops.commit (ops.erase_key key n).1).1 else n

unfoldable pub apply_safe_defaults : Settings → Settings
apply_safe_defaults s = record s {
  https = false;
  listen_port = 80;
  trusted_proxy = false;
  canonical_domain = [];
}

-- The counter's part: a software restart is not counted.
pub record Counted (N : Type 0) : Type 0 where
  pub nvs : N
  pub clear_at_ms : ℕ
  pub counter_safe : Bool

unfoldable pub count_boot : {N : Type 0} → NvsBytes N → Bool → Bool → ℕ → N → Counted N
unfolding read_u8 write_u8 evaluate_boot
count_boot ops ok software now n =
    let d = evaluate_boot (read_u8 ops key_count 0 ok n) now in
    if software
    then record { nvs = n; clear_at_ms = (now + stable_run_ms) % 2 ^ 32; counter_safe = false }
    else record {
      nvs = write_u8 ops key_count d.new_count ok n;
      clear_at_ms = d.clear_at_ms;
      counter_safe = d.enter_safe_mode;
    }

-- begin: whether the namespace opened, whether the reset was by software, the time, the stored
-- bytes and the settings.
unfoldable pub begin :
    {N : Type 0} → NvsBytes N → Bool → Bool → ℕ → N → Settings → Recovery N × Settings
unfolding read_u8 write_u8 erase_key count_boot apply_safe_defaults
begin ops ok software now n settings =
    let requested = not (read_u8 ops key_safereq 0 ok n == 0) in
    let counted = count_boot ops ok software now n in
    let safe = counted.counter_safe || requested in
    let consumed = if requested then erase_key ops key_safereq ok counted.nvs else counted.nvs in
    (
      record {
        ok = ok;
        nvs = if safe then write_u8 ops key_count 0 ok consumed else consumed;
        in_safe_mode = safe;
        clear_at_ms = counted.clear_at_ms;
        cleared = false;
        pressed = false;
        press_start = 0;
        shown = if safe then safe_mode else normal;
      },
      if safe then apply_safe_defaults settings else settings,
    )

-- What pollButton does to the device.
pub data ButtonEffect : Type 0 where
  stays factory_resets safe_mode_reboots : ButtonEffect

unfoldable pub held_ms : {N : Type 0} → ℕ → Recovery N → ℕ
held_ms now r = (now + (2 ^ 32 - r.press_start)) % 2 ^ 32

unfoldable pub poll_button :
    {N : Type 0} → NvsBytes N → ℕ → Bool → Recovery N → ButtonEffect × Recovery N
unfolding held_ms write_u8
poll_button ops now down r =
    let held = held_ms now r in
    if down && not r.pressed
    then (stays, record r { pressed = true; press_start = now })
    else if down
    then (
      stays,
      record r {
        shown =
            if leb factory_hold_ms held
            then factory_armed
            else if leb safe_hold_ms held
            then safe_mode_armed
            else r.shown;
      },
    )
    else if not r.pressed
    then (stays, r)
    else if leb factory_hold_ms held
    then (factory_resets, record r { pressed = false })
    else if leb safe_hold_ms held
    then (
      safe_mode_reboots,
      record r { pressed = false; nvs = write_u8 ops key_safereq 1 r.ok r.nvs },
    )
    else (stays, record r { pressed = false; shown = if r.in_safe_mode then safe_mode else normal })

unfoldable pub poll : {N : Type 0} → NvsBytes N → ℕ → Bool → Recovery N → ButtonEffect × Recovery N
unfolding write_u8 should_clear_counter poll_button
poll ops now down r =
    let due = not r.cleared && should_clear_counter now r.clear_at_ms in
    poll_button ops now down
      (if due then record r { nvs = write_u8 ops key_count 0 r.ok r.nvs; cleared = true } else r)

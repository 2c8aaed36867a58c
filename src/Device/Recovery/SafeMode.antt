-- ===== src/Device/Recovery/SafeMode.antt =====
-- src/recovery.cpp: the way into safe mode and out of it.
use homekit_rf_ir_blaster.Base.{
  ◌≤◌, ◌<◌, ◌≡◌, ◌≢◌, refl, ap, ◌∙◌, Bool, true, false, ◌||◌, not, some, leb, ◌==◌, if◌then◌else◌,
  Bool-cases, inl, inr, arith, length, ℕ, [], Bytes, Option, none,
}
use homekit_rf_ir_blaster.Config.Model.{Settings}
use homekit_rf_ir_blaster.Runtime.Boot.{evaluate_boot}
use homekit_rf_ir_blaster.Device.Recovery.{
  NvsBytes, Recovery, key_count, key_safereq, or_else, read_u8, write_u8, erase_key,
  apply_safe_defaults, count_boot, begin, safe_mode_reboots, held_ms, poll_button, safe_hold_ms,
  factory_hold_ms,
}

or_true : (b : Bool) → (b || true) ≡ true
or_true true = refl
or_true false = refl

-- Of a namespace that no write fails in: values are set, keys that are there are erased, and commits
-- succeed.
pub record IsWritable {N : Type 0} (ops : NvsBytes N) : Type 0 where
  pub sets : (key : Bytes) (v : ℕ) (n : N) → (ops.set_u8 key v n).0 ≡ true
  pub erases : (key : Bytes) (n : N) → ops.get_u8 key n ≢ none → (ops.erase_key key n).0 ≡ true
  pub commits : (n : N) → (ops.commit n).0 ≡ true

-- A request that is stored takes the next boot into safe mode, whatever the reset's reason.
begin_requested :
    {N : Type 0} (ops : NvsBytes N) (software : Bool) (now : ℕ) (n : N) (settings : Settings)
    → ops.get_u8 key_safereq n ≡ some 1
    → ((begin ops true software now n settings).0.in_safe_mode ≡ true)
      × ((begin ops true software now n settings).1 ≡ apply_safe_defaults settings)
unfolding begin read_u8
begin_requested ops software now n settings asked =
    let safe = or_true (count_boot ops true software now n).counter_safe in
    simp (asked, safe) (refl, refl)

poll_button_released :
    {N : Type 0} (ops : NvsBytes N) (now : ℕ) (r : Recovery N)
    → r.ok ≡ true
    → r.pressed ≡ true
    → safe_hold_ms ≤ held_ms now r
    → held_ms now r < factory_hold_ms
    → poll_button ops now false r ≡ (
      safe_mode_reboots,
      record r { pressed = false; nvs = write_u8 ops key_safereq 1 true r.nvs },
    )
unfolding poll_button
poll_button_released ops now r ok pressed long short =
    let held : leb safe_hold_ms (held_ms now r) ≡ true = ground arith in
    let not_longer : leb factory_hold_ms (held_ms now r) ≡ false = ground arith in
    let down : not r.pressed ≡ false = simp pressed refl in simp (down, held, not_longer, ok) refl

module _ {N : Type 0} (ops : NvsBytes N) where
  write_u8-stored :
      (key : Bytes) (v : ℕ) (n : N)
      → (ops.set_u8 key v n).0 ≡ true
      → (ops.commit (ops.set_u8 key v n).1).0 ≡ true
      → ops.get_u8 key (write_u8 ops key v true n) ≡ some v
  unfolding write_u8
  write_u8-stored key v n set committed =
      ops.get_commit key (ops.set_u8 key v n).1 committed ∙ ops.get_set key v n set

  write_u8-other :
      (key other : Bytes) (v : ℕ) (n : N)
      → IsWritable ops
      → key ≢ other
      → ops.get_u8 key (write_u8 ops other v true n) ≡ ops.get_u8 key n
  unfolding write_u8
  write_u8-other key other v n k apart =
      ops.get_commit key (ops.set_u8 other v n).1 (k.commits (ops.set_u8 other v n).1)
      ∙ ops.get_set_other key other v n apart

  erase_key-erased :
      (key : Bytes) (n : N)
      → IsWritable ops
      → ops.get_u8 key n ≢ none
      → ops.get_u8 key (erase_key ops key true n) ≡ none
  unfolding erase_key
  erase_key-erased key n k there =
      ops.get_commit key (ops.erase_key key n).1 (k.commits (ops.erase_key key n).1)
      ∙ ops.get_erase key n (k.erases key n there)

-- A press of five to ten seconds, released, takes the device into safe mode: the button asks for a
-- reboot, and the boot that follows is in safe mode, with plain HTTP on port 80, no proxy, no domain
-- and the other settings as they are, if the namespace of the bytes is open and the write of the
-- request and its commit succeed.
pub poll_button-begin_safe :
    {N : Type 0} (ops : NvsBytes N) (now later : ℕ) (r : Recovery N) (settings : Settings)
    → r.ok ≡ true
    → r.pressed ≡ true
    → safe_hold_ms ≤ held_ms now r
    → held_ms now r < factory_hold_ms
    → (ops.set_u8 key_safereq 1 r.nvs).0 ≡ true
    → (ops.commit (ops.set_u8 key_safereq 1 r.nvs).1).0 ≡ true
    → let (effect, released) = poll_button ops now false r in
      let (booted, used) = begin ops true true later released.nvs settings in
      (effect ≡ safe_mode_reboots)
      × (booted.in_safe_mode ≡ true)
      × (used ≡ record settings {
        https = false;
        listen_port = 80;
        trusted_proxy = false;
        canonical_domain = [];
      })
poll_button-begin_safe ops now later r settings ok pressed long short set committed =
    let released = poll_button_released ops now r ok pressed long short in
    let (safe, used) =
      begin_requested ops true later (write_u8 ops key_safereq 1 true r.nvs) settings
        (write_u8-stored ops key_safereq 1 r.nvs set committed) in
    simp released (refl, safe, used ∙ (unfold apply_safe_defaults in refl))

keys_apart : key_safereq ≢ key_count
keys_apart e = let sizes : 7 ≡ 5 = ap (length {A = ℕ}) e in omega (arith, sizes)

module _ {N : Type 0} (ops : NvsBytes N) (k : IsWritable ops) where
  count_boot-safereq :
      (software : Bool) (now : ℕ) (n : N)
      → ops.get_u8 key_safereq (count_boot ops true software now n).nvs ≡ ops.get_u8 key_safereq n
  unfolding count_boot
  count_boot-safereq true now n = refl
  count_boot-safereq false now n = write_u8-other ops key_safereq key_count _ n k keys_apart

  safe_nvs :
      (safe : Bool) (n : N)
      → ops.get_u8 key_safereq (if safe then write_u8 ops key_count 0 true n else n)
        ≡ ops.get_u8 key_safereq n
  safe_nvs true n = write_u8-other ops key_safereq key_count 0 n k keys_apart
  safe_nvs false n = refl

  asked_there : (o : Option ℕ) → not (or_else 0 o == 0) ≡ true → o ≢ none
  asked_there none h = absurd cc
  asked_there (some v) h = λ e. cc e

  -- What is stored of the request after a boot is no request.
  begin-safereq :
      (software : Bool) (now : ℕ) (n : N) (settings : Settings)
      → or_else 0 (ops.get_u8 key_safereq (begin ops true software now n settings).0.nvs) ≡ 0
  unfolding begin read_u8
  begin-safereq software now n settings =
      let asked = not (or_else 0 (ops.get_u8 key_safereq n) == 0) in
      let counted = count_boot ops true software now n in
      let kept_request = count_boot-safereq software now n in
      elim (Bool-cases asked) [
        | inl yes_asked ↦
            let there : ops.get_u8 key_safereq counted.nvs ≢ none =
              rw kept_request (asked_there (ops.get_u8 key_safereq n) yes_asked) in
            let consumed =
              write_u8-other ops key_safereq key_count 0
                (erase_key ops key_safereq true counted.nvs) k keys_apart
              ∙ erase_key-erased ops key_safereq counted.nvs k there in
            simp (yes_asked, or_true counted.counter_safe) (simp consumed refl)
        | inr none_asked ↦
            let none_left : or_else 0 (ops.get_u8 key_safereq n) ≡ 0 = ground (arith, none_asked) in
            let kept = safe_nvs (counted.counter_safe || false) counted.nvs ∙ kept_request in
            simp none_asked (simp kept none_left)
      ]

  -- A boot in safe mode leaves a cleared counter.
  begin-count :
      (software : Bool) (now : ℕ) (n : N) (settings : Settings)
      → (begin ops true software now n settings).0.in_safe_mode ≡ true
      → ops.get_u8 key_count (begin ops true software now n settings).0.nvs ≡ some 0
  unfolding begin
  begin-count software now n settings safe = simp safe (
      write_u8-stored ops key_count 0 _ (k.sets key_count 0 _)
        (k.commits (ops.set_u8 key_count 0 _).1))

begin_unasked :
    {N : Type 0} (ops : NvsBytes N) (now : ℕ) (n : N) (settings : Settings)
    → or_else 0 (ops.get_u8 key_safereq n) ≡ 0
    → ((begin ops true true now n settings).0.in_safe_mode ≡ false)
      × ((begin ops true true now n settings).1 ≡ settings)
unfolding begin count_boot read_u8
begin_unasked ops now n settings unasked = simp unasked (refl, refl)

begin_cleared :
    {N : Type 0} (ops : NvsBytes N) (software : Bool) (now : ℕ) (n : N) (settings : Settings)
    → or_else 0 (ops.get_u8 key_safereq n) ≡ 0
    → ops.get_u8 key_count n ≡ some 0
    → ((begin ops true software now n settings).0.in_safe_mode ≡ false)
      × ((begin ops true software now n settings).1 ≡ settings)
unfolding begin count_boot read_u8 evaluate_boot
begin_cleared ops true now n settings unasked cleared = simp unasked (refl, refl)
begin_cleared ops false now n settings unasked cleared = simp (unasked, cleared) (refl, refl)

-- A boot uses up what leads into safe mode, if the namespace of the bytes is open and no write in it
-- fails: after any boot, in safe mode or not and for whatever reason, a software restart boots
-- normally and with the settings as they are; and after a boot in safe mode the stored counter is 0,
-- and the next boot does the same for whatever reason, a power cycle or a crash included.
pub begin-consumed :
    {N : Type 0} (ops : NvsBytes N) (software again : Bool) (now later : ℕ) (n : N)
    (settings next : Settings)
    → IsWritable ops
    → let booted = (begin ops true software now n settings).0 in
      let restarted = begin ops true true later booted.nvs next in
      let rebooted = begin ops true again later booted.nvs next in
      (restarted.0.in_safe_mode ≡ false)
      × (restarted.1 ≡ next)
      × (booted.in_safe_mode ≡ true
          → (ops.get_u8 key_count booted.nvs ≡ some 0)
            × (rebooted.0.in_safe_mode ≡ false)
            × (rebooted.1 ≡ next))
begin-consumed ops software again now later n settings next k =
    let booted = (begin ops true software now n settings).0 in
    let unasked = begin-safereq ops k software now n settings in
    let (normally, same) = begin_unasked ops later booted.nvs next unasked in
    (
      normally,
      same,
      λ safe.
          let cleared = begin-count ops k software now n settings safe in
          let (again_normally, again_same) =
            begin_cleared ops again later booted.nvs next unasked cleared in
          (cleared, again_normally, again_same),
    )

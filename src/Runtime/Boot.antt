-- ===== src/Runtime/Boot.antt =====
-- lib/runtime/boot_recovery.h and boot_recovery.cpp: the count of boots without a stable run.
use homekit_rf_ir_blaster.Base.{
  ℕ, ◌+◌, ◌%◌, ◌^◌, ◌≤◌, ◌≡◌, ◌↔◌, Bool, true, ltb, leb, if◌then◌else◌, arith, min, List, [], ◌∷◌,
  length,
}

abbrev pub safe_mode_boot_threshold : ℕ
safe_mode_boot_threshold = 3

abbrev pub stable_run_ms : ℕ
stable_run_ms = 10000

abbrev pub max_boot_count : ℕ
max_boot_count = 250

pub record BootDecision : Type 0 where
  pub new_count : ℕ
  pub enter_safe_mode : Bool
  pub clear_at_ms : ℕ

unfoldable pub evaluate_boot : ℕ → ℕ → BootDecision
evaluate_boot count now =
    let n = if ltb count max_boot_count then count + 1 else max_boot_count in
    record {
      new_count = n;
      enter_safe_mode = leb safe_mode_boot_threshold n;
      clear_at_ms = (now + stable_run_ms) % 2 ^ 32;
    }

unfoldable pub should_clear_counter : ℕ → ℕ → Bool
should_clear_counter now clear_at = leb clear_at now

-- Boots in a row, none of which ran long enough to clear the counter: the count after them.
unfoldable pub boot_count : List ℕ → ℕ → ℕ
unfolding evaluate_boot
boot_count [] count = count
boot_count (now ∷ times) count = boot_count times (evaluate_boot count now).new_count

boot_count_lem :
    (times : List ℕ) (count : ℕ)
    → count ≤ max_boot_count
    → boot_count times count ≡ min (count + length times) max_boot_count
unfolding boot_count
boot_count_lem [] count h = omega arith
boot_count_lem (now ∷ times) count h =
    ground (arith, boot_count_lem times (evaluate_boot count now).new_count)

-- From a cleared counter, after any number of boots in a row, the count is their number, saturating
-- at 250, and the next boot enters safe mode exactly if it is the third or a later one.
pub boot_count-evaluate_boot :
    (times : List ℕ) (now : ℕ)
    → (boot_count times 0 ≡ min (length times) 250)
      × ((evaluate_boot (boot_count times 0) now).enter_safe_mode ≡ true ↔ 2 ≤ length times)
unfolding evaluate_boot
boot_count-evaluate_boot times now =
    let e = boot_count_lem times 0 (omega arith) in
    (omega arith, (λ h. ground arith, λ h. ground arith))

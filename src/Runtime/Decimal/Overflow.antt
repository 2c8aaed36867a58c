-- ===== src/Runtime/Decimal/Overflow.antt =====
-- lib/runtime/session.cpp, parseUint64: numerals of up to 20 digits.
use homekit_rf_ir_blaster.Base.{
  ℕ, ◌+◌, ◌/◌, ◌%◌, ◌^◌, ◌<◌, ◌≡◌, ◌∙◌, [], ◌∷◌, Option, none, some, ltb, leb, if◌then◌else◌, arith,
  Bool-cases, inl, inr,
}
use homekit_rf_ir_blaster.Runtime.Decimal.{
  decimal, to_string, parse_digits, parse_uint64, parse_digits-decimal, length-decimal,
  decimal_nonempty,
}

-- Accepted with its value modulo 2 ^ 64, where that is not below the first digits' value.
abbrev pub wrapped : ℕ → Option ℕ
wrapped n = if leb (n / 10) (n % 2 ^ 64) then some (n % 2 ^ 64) else none

last_digit : (n : ℕ) → n < 10 ^ 20 → parse_digits (n / 10) ((b'0' + n % 10) ∷ []) ≡ wrapped n
unfolding parse_digits
last_digit n fits = ground arith

all_digits : (n : ℕ) → n < 10 ^ 20 → parse_digits 0 (decimal 20 n) ≡ wrapped n
all_digits n fits = elim (Bool-cases (ltb n 10)) [
  | inl s ↦ unfold decimal in rw s (unfold parse_digits in ground arith)
  | inr l ↦
      unfold decimal in
      rw l (
        parse_digits-decimal 18 (n / 10) ((b'0' + n % 10) ∷ []) (omega arith) (omega arith)
        ∙ last_digit n fits)
]

-- A numeral of at most 20 digits is accepted exactly where its value modulo 2 ^ 64 is at least the
-- value of the digits before the last, and is read as that remainder: so not every number that
-- overflows is refused.
pub parse_uint64-decimal :
    (n : ℕ)
    → n < 10 ^ 20
    → parse_uint64 (to_string n) ≡ (if leb (n / 10) (n % 2 ^ 64) then some (n % 2 ^ 64) else none)
unfolding parse_uint64 to_string
parse_uint64-decimal n fits =
    let whole = all_digits n fits in
    let size = length-decimal 20 n in let filled = decimal_nonempty 19 n in ground arith

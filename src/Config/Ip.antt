-- ===== src/Config/Ip.antt =====
-- lib/config/ip_util.h: the strict dotted-quad parser. Text is a list of bytes; the rest of the
-- text stands for the index `i`.
use homekit_rf_ir_blaster.Base.{
  ℕ, zero, suc, ◌+◌, ◌-◌, ◌*◌, ◌%◌, ◌^◌, ◌≡◌, refl, Bool, true, false, ◌&&◌, Option, none, some, [],
  ◌∷◌, ltb, leb, ◌==◌, if◌then◌else◌, length, Bytes, codes,
}

unfoldable pub is_digit : ℕ → Bool
is_digit c = leb b'0' c && leb c b'9'

-- What the digit loop leaves: the value, the number of digits, the rest of the text.
pub record Octet : Type 0 where
  pub val : ℕ
  pub digits : ℕ
  pub rest : Bytes

-- The inner loop. A fourth digit makes the parser return false.
unfoldable pub scan_octet : ℕ → ℕ → Bytes → Option Octet
unfolding is_digit
scan_octet val digits [] = some (record { val = val; digits = digits; rest = [] })
scan_octet val digits (c ∷ cs) =
    let more = scan_octet (val * 10 + (c - b'0')) (digits + 1) cs in
    if is_digit c
    then (if ltb 3 (digits + 1) then none else more)
    else some (record { val = val; digits = digits; rest = c ∷ cs })

-- What follows an octet: the end, or a dot with more text behind it.
unfoldable pub after_octet : Bytes → Option Bytes
after_octet [] = some []
after_octet (c ∷ []) = none
after_octet (c ∷ d ∷ cs) = if c == b'.' then some (d ∷ cs) else none

-- `(acc << 8) | val`, for val at most 255.
abbrev pub shift_in : ℕ → ℕ → ℕ
shift_in acc val = (acc * 256 + val) % 2 ^ 32

-- The outer loop, on fuel: each round takes a digit at least.
unfoldable pub parse_octets : ℕ → Bytes → ℕ → ℕ → Option ℕ
unfolding scan_octet after_octet
parse_octets fuel [] acc parts = if parts == 4 then some acc else none
parse_octets zero (c ∷ cs) acc parts = none
parse_octets (suc fuel) (c ∷ cs) acc parts = elim (scan_octet 0 0 (c ∷ cs)) [
  | none ↦ none
  | some o ↦
      if o.digits == 0 then none else if ltb 255 o.val then none else elim (after_octet o.rest) [
        | none ↦ none
        | some rest ↦ parse_octets fuel rest (shift_in acc o.val) (parts + 1)
      ]
]

unfoldable pub parse_ipv4 : Bytes → Option ℕ
unfolding parse_octets
parse_ipv4 s = parse_octets (length s) s 0 0

unfoldable pub is_ipv4 : Bytes → Bool
unfolding parse_ipv4
is_ipv4 s = elim (parse_ipv4 s) [ none ↦ false | some ip ↦ true ]

loopback_parses : parse_ipv4 (codes "127.0.0.1") ≡ some 2130706433
unfolding parse_ipv4
loopback_parses = refl

trailing_dot_refused : is_ipv4 (codes "1.2.3.4.") ≡ false
unfolding is_ipv4
trailing_dot_refused = refl

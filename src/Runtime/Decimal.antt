-- ===== src/Runtime/Decimal.antt =====
-- `std::to_string` of an unsigned number, and lib/runtime/session.cpp, parseUint64.
pub mod Overflow
use mathlib.Core.List.{append_assoc, append-nil}
use native.Mathlib.Nat.{pow-suc}
use homekit_rf_ir_blaster.Base.{
  ℕ, zero, suc, ◌+◌, ◌-◌, ◌*◌, ◌/◌, ◌%◌, ◌^◌, ◌≤◌, ◌<◌, ◌≡◌, ◌⊎◌, ◌∙◌, refl, Bool, false, ◌&&◌,
  ◌||◌, not, [], ◌∷◌, ◌++◌, Option, none, some, ltb, leb, if◌then◌else◌, length, length-append,
  null, Bytes, IsByte, All, All-append, arith, Bool-cases, inl, inr,
}
use homekit_rf_ir_blaster.Runtime.Fields.{has, has-append}

-- At most 20 digits, which is enough below 10 ^ 20.
unfoldable pub decimal : ℕ → ℕ → Bytes
decimal zero n = []
decimal (suc k) n =
    let front = decimal k (n / 10) in
    if ltb n 10 then (b'0' + n) ∷ [] else front ++ ((b'0' + n % 10) ∷ [])

unfoldable pub to_string : ℕ → Bytes
to_string n = decimal 20 n

abbrev pub is_digit : ℕ → Bool
is_digit c = leb b'0' c && leb c b'9'

-- `v * 10 + (c - '0')` in a uint64_t; a result below v counts as an overflow.
unfoldable pub parse_digits : ℕ → Bytes → Option ℕ
parse_digits v [] = some v
parse_digits v (c ∷ cs) =
    let nv = (v * 10 + (c - b'0')) % 2 ^ 64 in
    let rest = parse_digits nv cs in
    if not (is_digit c) then none else if ltb nv v then none else rest

unfoldable pub parse_uint64 : Bytes → Option ℕ
parse_uint64 s = if null s || ltb 20 (length s) then none else parse_digits 0 s

pub length-decimal : (k n : ℕ) → length (decimal k n) ≤ k
unfolding decimal
length-decimal zero n = omega arith
length-decimal (suc k) n =
    ground
      (arith, length-decimal k (n / 10), length-append (decimal k (n / 10)) ((b'0' + n % 10) ∷ []))

pub decimal_nonempty : (k n : ℕ) → null (decimal (suc k) n) ≡ false
unfolding decimal
decimal_nonempty k n = elim (Bool-cases (ltb n 10)) [
  | inl s ↦ rw s
  | inr l ↦ rw l (null-append (decimal k (n / 10)) (b'0' + n % 10))
]
  where
    null-append : (xs : Bytes) (y : ℕ) → null (xs ++ (y ∷ [])) ≡ false
    null-append [] y = refl
    null-append (x ∷ xs) y = refl

pub parse_digits-decimal :
    (k n : ℕ) (rest : Bytes)
    → n < 10 ^ suc k
    → n < 2 ^ 64
    → parse_digits 0 (decimal (suc k) n ++ rest) ≡ parse_digits n rest
unfolding decimal
parse_digits-decimal zero n rest lt fits = unfold parse_digits in ground arith
parse_digits-decimal (suc k) n rest lt fits = elim (Bool-cases (ltb n 10)) [
  | inl s ↦ rw s (unfold parse_digits in ground arith)
  | inr l ↦
      let last = (b'0' + n % 10) ∷ [] in
      rw (l, append_assoc (decimal (suc k) (n / 10)) last rest)
        (parse_digits-decimal k (n / 10) (last ++ rest) (shrink k n lt) (omega arith)
          ∙ (unfold parse_digits in ground arith))
]
  where
    shrink : (j m : ℕ) → m < 10 ^ suc (suc j) → m / 10 < 10 ^ suc j
    shrink j m h = ground (arith, pow-suc 10 (suc j))

parse_digits-decimal_all : (n : ℕ) → n < 2 ^ 64 → parse_digits 0 (decimal 20 n) ≡ some n
parse_digits-decimal_all n fits =
    let whole = parse_digits-decimal 19 n [] (omega arith) fits in
    let whole' : parse_digits 0 (decimal 20 n) ≡ parse_digits n [] = rw append-nil at whole in
    let last : parse_digits n [] ≡ some n = unfold parse_digits in refl in whole' ∙ last

-- A uint64_t that was printed is parsed back.
pub parse_uint64-to_string : (n : ℕ) → n < 2 ^ 64 → parse_uint64 (to_string n) ≡ some n
unfolding parse_uint64 to_string
parse_uint64-to_string n fits =
    let whole = parse_digits-decimal_all n fits in
    let size = length-decimal 20 n in let filled = decimal_nonempty 19 n in ground arith

-- The digits hold no other character, so none of the separators.
has-decimal : (c k n : ℕ) → (c < b'0') ⊎ (b'9' < c) → has c (decimal k n) ≡ false
unfolding decimal has
has-decimal c zero n other = refl
has-decimal c (suc k) n other = elim (Bool-cases (ltb n 10)) [
  | inl s ↦ rw s (ground arith)
  | inr l ↦ rw l (
      has-append c (decimal k (n / 10)) ((b'0' + n % 10) ∷ [])
      ∙ rw (has-decimal c k (n / 10) other) (ground arith))
]

pub has-to_string : (c n : ℕ) → (c < b'0') ⊎ (b'9' < c) → has c (to_string n) ≡ false
unfolding to_string
has-to_string c n other = has-decimal c 20 n other

decimal-IsByte : (k n : ℕ) → All IsByte (decimal k n)
unfolding decimal
decimal-IsByte zero n = tt
decimal-IsByte (suc k) n = elim (Bool-cases (ltb n 10)) [
  | inl s ↦ rw s (ground arith)
  | inr l ↦ rw l (
      All-append IsByte (decimal k (n / 10)) ((b'0' + n % 10) ∷ []) (decimal-IsByte k (n / 10))
        (omega arith))
]

pub to_string-IsByte : (n : ℕ) → All IsByte (to_string n)
unfolding to_string
to_string-IsByte n = decimal-IsByte 20 n

length-decimal_lt : (k j n : ℕ) → n < 10 ^ suc j → length (decimal k n) ≤ suc j
unfolding decimal
length-decimal_lt zero j n lt = omega arith
length-decimal_lt (suc k) zero n lt = ground arith
length-decimal_lt (suc k) (suc j) n lt =
    let shrunk : n / 10 < 10 ^ suc j = ground (arith, pow-suc 10 (suc j)) in
    let ih = length-decimal_lt k j (n / 10) shrunk in
    ground (arith, length-append (decimal k (n / 10)) ((b'0' + n % 10) ∷ []))

-- A number below 2 ^ 32 has at most ten digits.
pub length-to_string : (n : ℕ) → n < 2 ^ 32 → length (to_string n) ≤ 10
unfolding to_string
length-to_string n lt = length-decimal_lt 20 9 n (omega arith)

pub to_string_nonempty : (n : ℕ) → null (to_string n) ≡ false
unfolding to_string
to_string_nonempty n = decimal_nonempty 19 n

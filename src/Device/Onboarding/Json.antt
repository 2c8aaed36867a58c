-- ===== src/Device/Onboarding/Json.antt =====
-- src/onboarding.cpp, appendJsonString, against a reader of JSON strings.
use mathlib.Core.List.{append_assoc}
use homekit_rf_ir_blaster.Base.{
  ℕ, ◌+◌, ◌-◌, ◌*◌, ◌/◌, ◌%◌, ◌<◌, ◌≡◌, refl, ap, ◌∙◌, false, ◌&&◌, ◌||◌, [], ◌∷◌, ◌++◌, Option,
  none, some, ltb, leb, ◌==◌, if◌then◌else◌, Bytes, IsByte, All, arith, Bool-cases, inl, inr, zero,
  suc,
}
use homekit_rf_ir_blaster.Device.Onboarding.{hex_digit, escape, escape_all, json_string}

-- Where a reader of a JSON string stands (RFC 8259): in the text, after a backslash, within the
-- four digits of \u, or after the closing quote.
pub data Place : Type 0 where
  text slash closed : Place
  digits : ℕ → ℕ → Place

unfoldable pub hex_value : ℕ → Option ℕ
hex_value c =
    if leb b'0' c && leb c b'9'
    then some (c - b'0')
    else if leb b'a' c && leb c b'f'
    then some (c - 87)
    else if leb b'A' c && leb c b'F'
    then some (c - 55)
    else none

abbrev pub plain : ℕ → Option (Place × Option ℕ)
plain c =
    if c == b'"'
    then some (closed, none)
    else if c == 92
    then some (slash, none)
    else if ltb c 32
    then none
    else some (text, some c)

abbrev pub escaped : ℕ → Option (Place × Option ℕ)
escaped c =
    if c == b'"' || (c == 92 || c == b'/')
    then some (text, some c)
    else if c == b'n'
    then some (text, some 10)
    else if c == b'r'
    then some (text, some 13)
    else if c == b't'
    then some (text, some 9)
    else if c == b'b'
    then some (text, some 8)
    else if c == b'f'
    then some (text, some 12)
    else if c == b'u'
    then some (digits 3 0, none)
    else none

abbrev pub digit : ℕ → ℕ → Option ℕ → Option (Place × Option ℕ)
digit left acc none = none
digit zero acc (some d) = some (text, some (acc * 16 + d))
digit (suc left) acc (some d) = some (digits left (acc * 16 + d), none)

abbrev pub read_byte : Place → ℕ → Option (Place × Option ℕ)
read_byte text c = plain c
read_byte slash c = escaped c
read_byte closed c = none
read_byte (digits left acc) c = digit left acc (hex_value c)

abbrev pub emit : Option ℕ → Option Bytes → Option Bytes
emit none rest = rest
emit (some c) none = none
emit (some c) (some cs) = some (c ∷ cs)

abbrev pub at_end : Place → Option Bytes
at_end closed = some []
at_end text = none
at_end slash = none
at_end (digits left acc) = none

-- The bytes that the text after the opening quote stands for, if it is a whole JSON string.
unfoldable pub read_from : Place → Bytes → Option Bytes
read_from p [] = at_end p
read_from p (c ∷ cs) = elim (read_byte p c) [ none ↦ none | some (q, e) ↦ emit e (read_from q cs) ]

unfoldable pub read_json_string : Bytes → Option Bytes
unfolding read_from
read_json_string [] = none
read_json_string (c ∷ cs) = if c == b'"' then read_from text cs else none

hex_value-hex_digit : (n : ℕ) → n < 16 → hex_value (hex_digit n) ≡ some n
unfolding hex_value hex_digit
hex_value-hex_digit n h = ground arith

hex_value_zero : hex_value b'0' ≡ some 0
unfolding hex_value
hex_value_zero = refl

read_digit :
    (left acc c d : ℕ) (cs : Bytes)
    → hex_value c ≡ some d
    → read_from (digits (suc left) acc) (c ∷ cs) ≡ read_from (digits left (acc * 16 + d)) cs
unfolding read_from
read_digit left acc c d cs h = rw (h, read_from) refl

read_last_digit :
    (acc c d : ℕ) (cs : Bytes)
    → hex_value c ≡ some d
    → read_from (digits 0 acc) (c ∷ cs) ≡ emit (some (acc * 16 + d)) (read_from text cs)
unfolding read_from
read_last_digit acc c d cs h = rw (h, read_from) refl

read_plain :
    (c : ℕ) (rest : Bytes)
    → (c == b'"') ≡ false
    → (c == 92) ≡ false
    → ltb c 32 ≡ false
    → read_from text (c ∷ rest) ≡ emit (some c) (read_from text rest)
unfolding read_from
read_plain c rest n1 n2 n3 = rw (n1, n2, n3, read_from) refl

-- The four digits of a control character are read as its number.
read_from-digits :
    (c : ℕ) (rest : Bytes)
    → c < 256
    → read_from (digits 3 0) (b'0' ∷ b'0' ∷ hex_digit (c / 16) ∷ hex_digit (c % 16) ∷ rest)
      ≡ emit (some c) (read_from text rest)
read_from-digits c rest h =
    let high = hex_value-hex_digit (c / 16) (omega (arith, h)) in
    let low = hex_value-hex_digit (c % 16) (omega arith) in
    let whole : (0 * 16 + c / 16) * 16 + c % 16 ≡ c = omega arith in
    read_digit 2 0 b'0' 0 (b'0' ∷ hex_digit (c / 16) ∷ hex_digit (c % 16) ∷ rest) hex_value_zero
    ∙ read_digit 1 0 b'0' 0 (hex_digit (c / 16) ∷ hex_digit (c % 16) ∷ rest) hex_value_zero
    ∙ read_digit 0 0 (hex_digit (c / 16)) (c / 16) (hex_digit (c % 16) ∷ rest) high
    ∙ read_last_digit (0 * 16 + c / 16) (hex_digit (c % 16)) (c % 16) rest low
    ∙ ap (λ (n : ℕ). emit (some n) (read_from text rest)) whole

read_from-escape :
    (c : ℕ) (rest : Bytes)
    → c < 256
    → read_from text (escape c ++ rest) ≡ emit (some c) (read_from text rest)
unfolding read_from escape
read_from-escape c rest h = elim (Bool-cases (c == b'"')) [
  | inl e ↦ let e' : c ≡ b'"' = ground arith in rw e' refl
  | inr n1 ↦ elim (Bool-cases (c == 92)) [
    | inl e ↦ let e' : c ≡ 92 = ground arith in rw e' refl
    | inr n2 ↦ elim (Bool-cases (c == 10)) [
      | inl e ↦ let e' : c ≡ 10 = ground arith in rw e' refl
      | inr n3 ↦ elim (Bool-cases (c == 13)) [
        | inl e ↦ let e' : c ≡ 13 = ground arith in rw e' refl
        | inr n4 ↦ elim (Bool-cases (c == 9)) [
          | inl e ↦ let e' : c ≡ 9 = ground arith in rw e' refl
          | inr n5 ↦ elim (Bool-cases (ltb c 32)) [
            | inl e ↦ simp (n1, n2, n3, n4, n5, e) (read_from-digits c rest h)
            | inr n6 ↦ simp (n1, n2, n3, n4, n5, n6) (read_plain c rest n1 n2 n6)
          ]
        ]
      ]
    ]
  ]
]

read_from-escape_all :
    (s : Bytes) → All IsByte s → read_from text (escape_all s ++ (b'"' ∷ [])) ≡ some s
unfolding escape_all
read_from-escape_all [] h = unfold read_from in refl
read_from-escape_all (c ∷ s) (byte, h) =
    let rest = escape_all s ++ (b'"' ∷ []) in
    ap (λ (w : Bytes). read_from text w) (append_assoc (escape c) (escape_all s) (b'"' ∷ []))
    ∙ read_from-escape c rest byte
    ∙ ap (emit (some c)) (read_from-escape_all s h)

-- The JSON string that is printed for any bytes, whatever quotes, backslashes and control characters
-- they hold, is read back as those bytes: no name of a network breaks out of its string.
pub read_json_string-json_string :
    (s : Bytes) → All IsByte s → read_json_string (json_string s) ≡ some s
unfolding read_json_string json_string
read_json_string-json_string s h = read_from-escape_all s h

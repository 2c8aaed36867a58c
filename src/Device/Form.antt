-- ===== src/Device/Form.antt =====
-- src/web_auth.cpp, hexVal, urlDecode and formField: fields of a posted form. A field that is absent
-- is none.
pub mod Percent
use homekit_rf_ir_blaster.Base.{
  ℕ, ◌+◌, ◌-◌, ◌*◌, ◌≡◌, refl, Bool, true, false, ◌&&◌, List, [], ◌∷◌, Option, none, some, leb,
  ◌==◌, if◌then◌else◌, null, Bytes, bytes_eq, codes, is_some,
}
use homekit_rf_ir_blaster.Runtime.Fields.{cut, split_on}

unfoldable pub hex_val : ℕ → Option ℕ
hex_val c =
    if leb b'0' c && leb c b'9'
    then some (c - b'0')
    else if leb b'a' c && leb c b'f'
    then some (c - b'a' + 10)
    else if leb b'A' c && leb c b'F'
    then some (c - b'A' + 10)
    else none

-- The byte of two hexadecimal digits.
abbrev pub hex_pair : Option ℕ → Option ℕ → Option ℕ
hex_pair none lo = none
hex_pair (some h) none = none
hex_pair (some h) (some l) = some (h * 16 + l)

abbrev pub plus_space : ℕ → ℕ
plus_space c = if c == b'+' then 32 else c

unfoldable pub url_decode : Bytes → Bytes
unfolding hex_val
url_decode [] = []
url_decode (c ∷ []) = plus_space c ∷ []
url_decode (c ∷ h ∷ []) = plus_space c ∷ plus_space h ∷ []
url_decode (c ∷ h ∷ l ∷ rest) =
    let behind = url_decode rest in
    let next = url_decode (h ∷ l ∷ rest) in
    if c == b'%'
    then elim (hex_pair (hex_val h) (hex_val l)) [ none ↦ c ∷ next | some b ↦ b ∷ behind ]
    else plus_space c ∷ next

-- The name and the value of one part; without `=` the value is empty.
unfoldable pub name_value : Bytes → Bytes × Bytes
name_value part = elim (cut b'=' part) [ none ↦ (part, []) | some (k, v) ↦ (k, v) ]

abbrev pub part_value : Bytes → Bytes × Bytes → Option Bytes → Option Bytes
part_value key (k, v) others = if bytes_eq (url_decode k) key then some (url_decode v) else others

-- The loop stops at the end of the text, so an empty last part is not looked at.
unfoldable pub find_field : Bytes → List Bytes → Option Bytes
unfolding url_decode name_value
find_field key [] = none
find_field key (part ∷ []) = if null part then none else part_value key (name_value part) none
find_field key (part ∷ other ∷ parts) =
    part_value key (name_value part) (find_field key (other ∷ parts))

unfoldable pub form_field : Bytes → Bytes → Option Bytes
unfolding find_field
form_field body key = find_field key (split_on b'&' [] body)

two_fields :
    form_field (codes "user=admin&password=a%2Bb+c") (codes "password") ≡ some (codes "a+b c")
unfolding form_field split_on cut bytes_eq
two_fields = refl

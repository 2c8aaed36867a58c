-- ===== src/Device/Onboarding.antt =====
-- src/onboarding.cpp: the pairing codes that are accepted, the inputs of the portal, and the JSON
-- list of the networks. The scan's results are an argument.
pub mod Json
use homekit_rf_ir_blaster.Base.{
  ℕ, ◌+◌, ◌/◌, ◌%◌, ◌≡◌, refl, Bool, true, false, ◌&&◌, ◌||◌, not, List, [], ◌∷◌, ◌++◌, Option,
  none, some, ltb, leb, ◌==◌, if◌then◌else◌, length, null, all, Bytes, bytes_eq, codes, map,
}

unfoldable pub eight_digits : Bytes → Bool
eight_digits c = length c == 8 && all (λ (ch : ℕ). leb b'0' ch && leb ch b'9') c

abbrev pub forbidden_codes : List Bytes
forbidden_codes =
    codes "00000000"
    ∷ codes "11111111"
    ∷ codes "22222222"
    ∷ codes "33333333"
    ∷ codes "44444444"
    ∷ codes "55555555"
    ∷ codes "66666666"
    ∷ codes "77777777"
    ∷ codes "88888888"
    ∷ codes "99999999"
    ∷ codes "12345678"
    ∷ codes "87654321"
    ∷ []

unfoldable pub is_among : Bytes → List Bytes → Bool
is_among c [] = false
is_among c (b ∷ bs) = bytes_eq c b || is_among c bs

unfoldable pub is_trivial_code : Bytes → Bool
unfolding is_among
is_trivial_code c = is_among c forbidden_codes

unfoldable pub valid_code : Bytes → Bool
unfolding eight_digits is_trivial_code
valid_code c = eight_digits c && not (is_trivial_code c)

-- The checks that handleVerify and handleFinish make of their inputs.
pub data InputError : Type 0 where
  fine bad_ssid bad_password bad_code : InputError

unfoldable pub check_wifi : Bytes → Bytes → InputError
check_wifi ssid pwd =
    if null ssid || ltb 32 (length ssid)
    then bad_ssid
    else if not (null pwd) && (ltb (length pwd) 8 || ltb 63 (length pwd))
    then bad_password
    else fine

unfoldable pub check_finish : Bytes → Bytes → Bytes → InputError
unfolding valid_code
check_finish ssid pwd code =
    if null ssid || ltb 32 (length ssid)
    then bad_ssid
    else if not (null pwd) && (ltb (length pwd) 8 || ltb 63 (length pwd))
    then bad_password
    else if not (valid_code code)
    then bad_code
    else fine

unfoldable pub hex_digit : ℕ → ℕ
hex_digit n = if ltb n 10 then b'0' + n else 87 + n

-- One byte of a JSON string.
unfoldable pub escape : ℕ → Bytes
escape c =
    if c == b'"'
    then 92 ∷ b'"' ∷ []
    else if c == 92
    then 92 ∷ 92 ∷ []
    else if c == 10
    then 92 ∷ b'n' ∷ []
    else if c == 13
    then 92 ∷ b'r' ∷ []
    else if c == 9
    then 92 ∷ b't' ∷ []
    else if ltb c 32
    then 92 ∷ b'u' ∷ b'0' ∷ b'0' ∷ hex_digit (c / 16) ∷ hex_digit (c % 16) ∷ []
    else c ∷ []

unfoldable pub escape_all : Bytes → Bytes
unfolding escape
escape_all [] = []
escape_all (c ∷ cs) = escape c ++ escape_all cs

-- What appendJsonString appends.
unfoldable pub json_string : Bytes → Bytes
unfolding escape_all
json_string s = b'"' ∷ (escape_all s ++ (b'"' ∷ []))

-- The names that scanNetworks keeps: the first of each, of 1 to 32 bytes, at most 24.
unfoldable pub keep_names : List Bytes → List Bytes → List Bytes
unfolding is_among
keep_names seen [] = seen
keep_names seen (raw ∷ rest) =
    keep_names
      (if not (ltb (length seen) 24) || null raw || ltb 32 (length raw) || is_among raw seen
        then seen
        else seen ++ (raw ∷ []))
      rest

unfoldable pub join : List Bytes → Bytes
unfolding json_string
join [] = []
join (s ∷ []) = json_string s
join (s ∷ t ∷ rest) = json_string s ++ (b',' ∷ join (t ∷ rest))

unfoldable pub networks_json : List Bytes → Bytes
unfolding keep_names join
networks_json found = b'[' ∷ (join (keep_names [] found) ++ (b']' ∷ []))

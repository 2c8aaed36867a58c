-- ===== src/Tests/OnboardingRuns.antt =====
-- Runs of src/onboarding.cpp: a network's name with a quote, a backslash and a control character.
use homekit_rf_ir_blaster.Base.{◌≡◌, refl, false, [], ◌∷◌, some, Bytes, bytes_eq, codes, arith}
use homekit_rf_ir_blaster.Device.Onboarding.{json_string, networks_json, valid_code, hex_digit}
use homekit_rf_ir_blaster.Device.Onboarding.Json.{read_json_string, read_json_string-json_string}

abbrev odd_name : Bytes
odd_name = b'a' ∷ 34 ∷ 92 ∷ 31 ∷ 200 ∷ []

read_json_string-json_string_example : read_json_string (json_string odd_name) ≡ some odd_name
read_json_string-json_string_example = read_json_string-json_string odd_name (ground arith)

two_networks :
    networks_json (codes "Home" ∷ [] ∷ codes "Home" ∷ codes "Cafe" ∷ [])
    ≡ codes "[\"Home\",\"Cafe\"]"
unfolding networks_json bytes_eq
two_networks = refl

control_character : json_string (31 ∷ []) ≡ codes "\"\\u001f\""
unfolding json_string hex_digit
control_character = refl

simple_code_refused : valid_code (codes "12345678") ≡ false
unfolding valid_code bytes_eq
simple_code_refused = refl

-- ===== src/Runtime/Password.antt =====
-- lib/runtime/password.cpp: the password record pbkdf2_sha256$<iterations>$<salt>$<key>.
pub mod Records
use homekit_rf_ir_blaster.Base.{
  ℕ, ◌+◌, ◌-◌, ◌*◌, ◌^◌, ◌≡◌, refl, Bool, true, false, ◌||◌, not, List, [], ◌∷◌, ◌++◌, Option, none,
  some, ltb, ◌==◌, if◌then◌else◌, length, null, Bytes, bytes_eq, codes, ◌>>=◌, ◌>>◌, guard, is_some,
}
use homekit_rf_ir_blaster.Runtime.Crypto.{Crypto, buffers_equal}
use homekit_rf_ir_blaster.Runtime.Encoding.{encode, decode}
use homekit_rf_ir_blaster.Runtime.Decimal.{to_string, is_digit}
use homekit_rf_ir_blaster.Runtime.Fields.{split_on}

abbrev pub derived_key_len : ℕ
derived_key_len = 32

abbrev pub record_prefix : Bytes
record_prefix = codes "pbkdf2_sha256"

unfoldable pub derive_credential : Crypto → Bytes → Bytes → ℕ → Bytes
derive_credential crypto password salt iterations =
    record_prefix
    ++ (b'$'
        ∷ (to_string iterations
            ++ (b'$'
                ∷ (encode salt
                    ++ (b'$' ∷ encode (crypto.pbkdf2 password salt iterations derived_key_len))))))

-- The digit loop. The bound is checked at each digit, so the uint64_t never wraps.
unfoldable pub iteration_digits : ℕ → Bytes → Option ℕ
iteration_digits v [] = if v == 0 then none else some v
iteration_digits v (c ∷ cs) =
    let nv = v * 10 + (c - b'0') in
    let rest = iteration_digits nv cs in
    if not (is_digit c) then none else if ltb 0xffffffff nv then none else rest

unfoldable pub parse_iterations : Bytes → Option ℕ
parse_iterations s = if null s || ltb 10 (length s) then none else iteration_digits 0 s

unfoldable pub verify_fields : Crypto → Bytes → List Bytes → Option (Unit {0})
verify_fields crypto password [] = none
verify_fields crypto password (a ∷ []) = none
verify_fields crypto password (a ∷ b ∷ []) = none
verify_fields crypto password (a ∷ b ∷ c ∷ []) = none
verify_fields crypto password (a ∷ b ∷ c ∷ d ∷ []) = do
  guard (bytes_eq a record_prefix)
  iterations ← parse_iterations b
  salt ← decode c
  guard (not (null salt))
  dk ← decode d
  guard (length dk == derived_key_len)
  guard (buffers_equal (crypto.pbkdf2 password salt iterations derived_key_len) dk)
verify_fields crypto password (a ∷ b ∷ c ∷ d ∷ e ∷ rest) = none

unfoldable pub verify_password : Crypto → Bytes → Bytes → Bool
unfolding verify_fields
verify_password crypto password stored =
    is_some (verify_fields crypto password (split_on b'$' [] stored))

-- ===== src/Runtime/Password/Records.antt =====
-- lib/runtime/password.cpp: records that were derived, and records that verify.
use mathlib.Core.List.{append_assoc, append-nil}
use native.Mathlib.Nat.{pow-suc}
use homekit_rf_ir_blaster.Base.{
  ℕ, zero, suc, ◌+◌, ◌/◌, ◌%◌, ◌^◌, ◌<◌, ◌≡◌, ◌∙◌, ap, refl, Bool, true, false, not, List, [], ◌∷◌,
  ◌++◌, Option, none, some, ◌==◌, ltb, length, null, Bytes, IsByte, All, bytes_eq, bytes_eq_iff,
  guard, guard_sound, >>=-eq-some, is_some, arith, Bool-cases, inl, inr,
}
use homekit_rf_ir_blaster.Runtime.Crypto.{Crypto, buffers_equal_refl, buffers_equal_sound}
use homekit_rf_ir_blaster.Runtime.Encoding.{encode, decode}
use homekit_rf_ir_blaster.Runtime.Encoding.RoundTrip.{decode-encode, has-encode, dollar_IsSeparator}
use homekit_rf_ir_blaster.Runtime.Decimal.{
  to_string, decimal, has-to_string, length-to_string, to_string_nonempty,
}
use homekit_rf_ir_blaster.Runtime.Fields.{has, split_on, split_on-append, split_on_last}
use homekit_rf_ir_blaster.Runtime.Password.{
  derived_key_len, record_prefix, derive_credential, iteration_digits, parse_iterations,
  verify_fields, verify_password,
}

iteration_digits-decimal :
    (k n : ℕ) (rest : Bytes)
    → n < 10 ^ suc k
    → n < 2 ^ 32
    → iteration_digits 0 (decimal (suc k) n ++ rest) ≡ iteration_digits n rest
unfolding decimal
iteration_digits-decimal zero n rest lt fits = unfold iteration_digits in ground arith
iteration_digits-decimal (suc k) n rest lt fits = elim (Bool-cases (ltb n 10)) [
  | inl s ↦ rw s (unfold iteration_digits in ground arith)
  | inr l ↦
      let last = (b'0' + n % 10) ∷ [] in
      rw (l, append_assoc (decimal (suc k) (n / 10)) last rest)
        (iteration_digits-decimal k (n / 10) (last ++ rest) (shrink k n lt) (omega arith)
          ∙ (unfold iteration_digits in ground arith))
]
  where
    shrink : (j m : ℕ) → m < 10 ^ suc (suc j) → m / 10 < 10 ^ suc j
    shrink j m h = ground (arith, pow-suc 10 (suc j))

iteration_digits-to_string :
    (n : ℕ) → 0 < n → n < 2 ^ 32 → iteration_digits 0 (to_string n) ≡ some n
unfolding to_string
iteration_digits-to_string n pos fits =
    let whole = iteration_digits-decimal 19 n [] (omega arith) fits in
    let whole' : iteration_digits 0 (decimal 20 n) ≡ iteration_digits n [] =
      rw append-nil at whole in
    let last : iteration_digits n [] ≡ some n = unfold iteration_digits in ground arith in
    whole' ∙ last

parse_iterations-to_string : (n : ℕ) → 0 < n → n < 2 ^ 32 → parse_iterations (to_string n) ≡ some n
unfolding parse_iterations
parse_iterations-to_string n pos fits =
    let whole = iteration_digits-to_string n pos fits in
    let size = length-to_string n fits in let filled = to_string_nonempty n in ground arith

split_record :
    (crypto : Crypto) (password salt : Bytes) (n : ℕ)
    → split_on b'$' [] (derive_credential crypto password salt n)
      ≡ record_prefix
        ∷ to_string n
        ∷ encode salt
        ∷ encode (crypto.pbkdf2 password salt n derived_key_len)
        ∷ []
unfolding derive_credential has
split_record crypto password salt n =
    split_on-append b'$' [] record_prefix _ refl
    ∙ ap (◌∷◌ record_prefix) (
        split_on-append b'$' [] (to_string n) _ (has-to_string b'$' n (inl (omega arith)))
        ∙ ap (◌∷◌ (to_string n)) (
            split_on-append b'$' [] (encode salt) _ (has-encode b'$' salt dollar_IsSeparator)
            ∙ ap (◌∷◌ (encode salt)) (
                split_on_last b'$' [] (encode (crypto.pbkdf2 password salt n derived_key_len)) (
                  has-encode b'$' (crypto.pbkdf2 password salt n derived_key_len)
                    dollar_IsSeparator))))

-- A password verifies against the record derived from it, with any salt of bytes that is not
-- empty and any positive count of iterations below 2 ^ 32.
pub verify_password-derive_credential :
    (crypto : Crypto) (password salt : Bytes) (n : ℕ)
    → null salt ≡ false
    → All IsByte salt
    → 0 < n
    → n < 2 ^ 32
    → verify_password crypto password (derive_credential crypto password salt n) ≡ true
unfolding verify_password verify_fields
verify_password-derive_credential crypto password salt n filled k pos fits =
    let key = crypto.pbkdf2 password salt n derived_key_len in
    rw (
      split_record crypto password salt n,
      (bytes_eq_iff record_prefix record_prefix).1 refl,
      parse_iterations-to_string n pos fits,
      decode-encode salt k,
      filled,
      decode-encode key (crypto.pbkdf2_bytes password salt n derived_key_len),
      crypto.length_pbkdf2 password salt n derived_key_len,
      buffers_equal_refl key,
    )

-- What it takes for a password to verify: the record has four fields, and the fourth encodes the
-- key derived from this password with the count and the salt of the second and third.
pub record IsAccepted (crypto : Crypto) (password stored : Bytes) : Type 0 where
  pub count : Bytes
  pub salt_text : Bytes
  pub key_text : Bytes
  pub iterations : ℕ
  pub salt : Bytes
  pub fields : split_on b'$' [] stored ≡ record_prefix ∷ count ∷ salt_text ∷ key_text ∷ []
  pub counted : parse_iterations count ≡ some iterations
  pub salted : (decode salt_text ≡ some salt) × (null salt ≡ false)
  pub derived : decode key_text ≡ some (crypto.pbkdf2 password salt iterations derived_key_len)

verify_fields_sound :
    (crypto : Crypto) (password stored : Bytes) (fields : List Bytes)
    → split_on b'$' [] stored ≡ fields
    → verify_fields crypto password fields ≡ some tt
    → IsAccepted crypto password stored
unfolding verify_fields
verify_fields_sound crypto password stored [] e h = absurd cc
verify_fields_sound crypto password stored (a ∷ []) e h = absurd cc
verify_fields_sound crypto password stored (a ∷ b ∷ []) e h = absurd cc
verify_fields_sound crypto password stored (a ∷ b ∷ c ∷ []) e h = absurd cc
verify_fields_sound crypto password stored (a ∷ b ∷ c ∷ d ∷ e' ∷ rest) e h = absurd cc
verify_fields_sound crypto password stored (a ∷ b ∷ c ∷ d ∷ []) e h =
    let (u, prefix, h1) = >>=-eq-some (guard (bytes_eq a record_prefix)) _ h in
    let (n, counted, h2) = >>=-eq-some (parse_iterations b) _ h1 in
    let (salt, salted, h3) = >>=-eq-some (decode c) _ h2 in
    let (v, filled, h4) = >>=-eq-some (guard (not (null salt))) _ h3 in
    let (dk, keyed, h5) = >>=-eq-some (decode d) _ h4 in
    let (w, size, equal) = >>=-eq-some (guard (length dk == derived_key_len)) _ h5 in
    let key = crypto.pbkdf2 password salt n derived_key_len in
    let same =
      buffers_equal_sound key dk
        (crypto.length_pbkdf2 password salt n derived_key_len
          ∙ sized (length dk) (guard_sound _ size))
        (guard_sound _ equal) in
    let is_prefix : a ≡ record_prefix = (bytes_eq_iff a record_prefix).0 (guard_sound _ prefix) in
    record {
      count = b;
      salt_text = c;
      key_text = d;
      iterations = n;
      salt = salt;
      fields = e ∙ ap (λ x. x ∷ b ∷ c ∷ d ∷ []) is_prefix;
      counted = counted;
      salted = (salted, negated (null salt) (guard_sound _ filled));
      derived = rw same keyed;
    }
  where
    sized : (m : ℕ) → (m == derived_key_len) ≡ true → derived_key_len ≡ m
    sized m h' = ground arith

    negated : (b' : Bool) → not b' ≡ true → b' ≡ false
    negated b' h' = ground arith

-- A password is accepted only against a record of four fields that starts with the scheme's name,
-- whose count is a number in range, whose salt is not empty, and whose last field encodes the key
-- derived from the password with them.
pub verify_password-IsAccepted :
    (crypto : Crypto) (password stored : Bytes)
    → verify_password crypto password stored ≡ true
    → IsAccepted crypto password stored
unfolding verify_password
verify_password-IsAccepted crypto password stored h =
    verify_fields_sound crypto password stored (split_on b'$' [] stored) refl
      (present (verify_fields crypto password (split_on b'$' [] stored)) h)
  where
    present : (o : Option (Unit {0})) → is_some o ≡ true → o ≡ some tt
    present none h' = cc
    present (some u) h' = refl

-- ===== src/Runtime/Crypto.antt =====
-- lib/runtime/crypto.h: the interface to the primitives, and the constant-time comparison.
use homekit_rf_ir_blaster.Base.{
  ℕ, ◌≡◌, ◌↔◌, refl, Bool, true, false, [], ◌∷◌, ◌==◌, if◌then◌else◌, length, arith, All, Bytes,
  IsByte, bit_or, bit_xor, replicate, length-replicate, All-replicate, Bool-cases, inl, inr,
}
use homekit_rf_ir_blaster.Base.Bits.{bit_or-zero_inv, bit_xor-zero_inv, bit_xor_self}

-- The primitives are bound by the device to mbedTLS. Each fills a buffer of the size it is given.
pub record Crypto : Type 0 where
  pub hmac : Bytes → Bytes → Bytes
  pub pbkdf2 : Bytes → Bytes → ℕ → ℕ → Bytes
  pub length_hmac : (key message : Bytes) → length (hmac key message) ≡ 32
  pub hmac_bytes : (key message : Bytes) → All IsByte (hmac key message)
  pub length_pbkdf2 : (password salt : Bytes) (n k : ℕ) → length (pbkdf2 password salt n k) ≡ k
  pub pbkdf2_bytes : (password salt : Bytes) (n k : ℕ) → All IsByte (pbkdf2 password salt n k)

-- `diff |= a[i] ^ b[i]` over two buffers of one length.
unfoldable pub diff_loop : ℕ → Bytes → Bytes → ℕ
diff_loop diff [] bs = diff
diff_loop diff (a ∷ as') [] = diff
diff_loop diff (a ∷ as') (b ∷ bs) = diff_loop (bit_or diff (bit_xor a b)) as' bs

-- The comparison of two buffers of the same size.
unfoldable pub buffers_equal : Bytes → Bytes → Bool
unfolding diff_loop
buffers_equal a b = diff_loop 0 a b == 0

-- The comparison of two strings.
unfoldable pub constant_time_equal : Bytes → Bytes → Bool
unfolding buffers_equal
constant_time_equal a b = if length a == length b then buffers_equal a b else false

diff_loop_sound :
    (diff : ℕ) (a b : Bytes) → length a ≡ length b → diff_loop diff a b ≡ 0 → (diff ≡ 0) × (a ≡ b)
unfolding diff_loop
diff_loop_sound diff [] [] e h = (h, refl)
diff_loop_sound diff [] (b ∷ bs) e h = absurd (omega arith)
diff_loop_sound diff (a ∷ as') [] e h = absurd (omega arith)
diff_loop_sound diff (a ∷ as') (b ∷ bs) e h =
    let (d, rest) = diff_loop_sound (bit_or diff (bit_xor a b)) as' bs (omega arith) h in
    let (d', x) = bit_or-zero_inv diff (bit_xor a b) d in
    let head = bit_xor-zero_inv a b x in (d', cc)

diff_loop_self : (a : Bytes) → diff_loop 0 a a ≡ 0
unfolding diff_loop
diff_loop_self [] = refl
diff_loop_self (a ∷ as') = rw (bit_xor_self a) (diff_loop_self as')

pub buffers_equal_sound : (a b : Bytes) → length a ≡ length b → buffers_equal a b ≡ true → a ≡ b
unfolding buffers_equal
buffers_equal_sound a b e h = (diff_loop_sound 0 a b e (ground arith)).1

pub buffers_equal_refl : (a : Bytes) → buffers_equal a a ≡ true
unfolding buffers_equal
buffers_equal_refl a = rw (diff_loop_self a)

-- The loop without an early exit decides equality of strings.
pub constant_time_equal_iff : (a b : Bytes) → (constant_time_equal a b ≡ true) ↔ (a ≡ b)
unfolding constant_time_equal
constant_time_equal_iff a b = (
  λ h. elim (Bool-cases (length a == length b)) [
    | inl e ↦ buffers_equal_sound a b (ground arith) (ground arith)
    | inr n ↦ absurd (ground arith)
  ],
  λ e. rw (← e) (ground (arith, buffers_equal_refl a)),
)

-- Primitives that meet the interface.
abbrev pub zero_crypto : Crypto
zero_crypto = record {
  hmac = λ key message. replicate 32 0;
  pbkdf2 = λ password salt n k. replicate k 0;
  length_hmac = λ key message. refl;
  hmac_bytes = λ key message. All-replicate IsByte 32 0 (omega arith);
  length_pbkdf2 = λ password salt n k. length-replicate k 0;
  pbkdf2_bytes = λ password salt n k. All-replicate IsByte k 0 (omega arith);
}

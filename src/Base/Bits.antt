-- ===== src/Base/Bits.antt =====
-- The bit operations `|` and `^`, from the digit recursion that the native operations mean.
use Prim.Native.Nat.{
  ℕ, zero, suc, ◌/◌, ◌%◌, ◌≤◌, ◌<◌, ◌^◌, max, bit_or, bit_xor, digits, differ, bit_or-bitwise,
  bit_xor-bitwise,
}
use mathlib.Core.Path.{◌≡◌, refl, ◌∙◌, sym, subst}
use native.Mathlib.Nat.{le_refl, pow-suc}
use native.Mathlib.Omega.{arith}

or_digits-zero : (n a b : ℕ) → a ≤ n → digits (λ y. y) max n a b ≡ 0 → (a ≡ 0) × (b ≡ 0)
or_digits-zero zero zero b le h = (refl, h)
or_digits-zero zero (suc a) b le h = absurd (omega arith)
or_digits-zero (suc n) zero b le h = (refl, h)
or_digits-zero (suc n) (suc a) b le h =
    let (p, q) = or_digits-zero n (suc a / 2) (b / 2) (omega arith) (omega arith) in omega arith

-- No bit is set in either.
pub bit_or-zero_inv : (a b : ℕ) → bit_or a b ≡ 0 → (a ≡ 0) × (b ≡ 0)
bit_or-zero_inv a b h = or_digits-zero a a b (le_refl a) (sym (bit_or-bitwise a b) ∙ h)

differ-zero : (x y : ℕ) → x ≤ 1 → y ≤ 1 → differ x y ≡ 0 → x ≡ y
differ-zero zero zero p q h = refl
differ-zero zero (suc y) p q h = absurd (ground arith)
differ-zero (suc x) zero p q h = absurd (ground arith)
differ-zero (suc x) (suc y) p q h = omega arith

xor_digits-zero : (n a b : ℕ) → a ≤ n → digits (λ y. y) differ n a b ≡ 0 → a ≡ b
xor_digits-zero zero zero b le h = sym h
xor_digits-zero zero (suc a) b le h = absurd (omega arith)
xor_digits-zero (suc n) zero b le h = sym h
xor_digits-zero (suc n) (suc a) b le h =
    let half = xor_digits-zero n (suc a / 2) (b / 2) (omega arith) (omega arith) in
    let low = differ-zero (suc a % 2) (b % 2) (omega arith) (omega arith) (omega arith) in
    omega arith

pub bit_xor-zero_inv : (a b : ℕ) → bit_xor a b ≡ 0 → a ≡ b
bit_xor-zero_inv a b h = xor_digits-zero a a b (le_refl a) (sym (bit_xor-bitwise a b) ∙ h)

differ_self : (x : ℕ) → differ x x ≡ 0
differ_self zero = refl
differ_self (suc x) = differ_self x

xor_digits_self : (n a : ℕ) → a ≤ n → digits (λ y. y) differ n a a ≡ 0
xor_digits_self zero zero le = refl
xor_digits_self zero (suc a) le = absurd (omega arith)
xor_digits_self (suc n) zero le = refl
xor_digits_self (suc n) (suc a) le =
    omega (arith, xor_digits_self n (suc a / 2) (omega arith), differ_self (suc a % 2))

pub bit_xor_self : (a : ℕ) → bit_xor a a ≡ 0
bit_xor_self a = bit_xor-bitwise a a ∙ xor_digits_self a a (le_refl a)

differ_small : (x y : ℕ) → x ≤ 1 → y ≤ 1 → differ x y ≤ 1
differ_small zero zero p q = omega arith
differ_small zero (suc y) p q = ground arith
differ_small (suc x) zero p q = ground arith
differ_small (suc x) (suc y) p q = ground arith

xor_digits-lt : (n k a b : ℕ) → a ≤ n → a < 2 ^ k → b < 2 ^ k → digits (λ y. y) differ n a b < 2 ^ k
xor_digits-lt zero k zero b le p q = q
xor_digits-lt zero k (suc a) b le p q = absurd (omega arith)
xor_digits-lt (suc n) k zero b le p q = q
xor_digits-lt (suc n) zero (suc a) b le p q = absurd (omega arith)
xor_digits-lt (suc n) (suc k) (suc a) b le p q =
    let half : suc a / 2 < 2 ^ k = omega (arith, pow-suc 2 k) in
    let half' : b / 2 < 2 ^ k = omega (arith, pow-suc 2 k) in
    omega (
      arith,
      pow-suc 2 k,
      xor_digits-lt n k (suc a / 2) (b / 2) (omega arith) half half',
      differ_small (suc a % 2) (b % 2) (omega arith) (omega arith),
    )

-- `^` needs no more bits than its arguments.
pub bit_xor-lt : (k a b : ℕ) → a < 2 ^ k → b < 2 ^ k → bit_xor a b < 2 ^ k
bit_xor-lt k a b p q =
    subst (λ n. n < 2 ^ k) (sym (bit_xor-bitwise a b)) (xor_digits-lt a k a b (le_refl a) p q)

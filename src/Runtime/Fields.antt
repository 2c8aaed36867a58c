-- ===== src/Runtime/Fields.antt =====
-- Text with separators, as the record and token parsers of lib/runtime read it: password.cpp,
-- session.cpp and csrf.cpp.
use mathlib.Core.List.{append_assoc, append-nil}
use homekit_rf_ir_blaster.Base.{
  ℕ, ◌≡◌, refl, Bool, false, ◌||◌, List, [], ◌∷◌, ◌++◌, Option, none, some, ◌==◌, if◌then◌else◌,
  arith, Bytes, Bool-cases, inl, inr,
}

-- `s.find(c) != npos`.
unfoldable pub has : ℕ → Bytes → Bool
has c [] = false
has c (x ∷ xs) = x == c || has c xs

abbrev pub cons_before : ℕ → Option (Bytes × Bytes) → Option (Bytes × Bytes)
cons_before x none = none
cons_before x (some (a, b)) = some (x ∷ a, b)

-- `find(c)` and the two `substr` around it.
unfoldable pub cut : ℕ → Bytes → Option (Bytes × Bytes)
cut c [] = none
cut c (x ∷ xs) = if x == c then some ([], xs) else cons_before x (cut c xs)

-- The loop that pushes each byte to the current field and moves on at a separator.
unfoldable pub split_on : ℕ → Bytes → Bytes → List Bytes
split_on c field [] = field ∷ []
split_on c field (x ∷ xs) =
    let next = split_on c [] xs in
    let more = split_on c (field ++ (x ∷ [])) xs in if x == c then field ∷ next else more

pub has-append : (c : ℕ) (a b : Bytes) → has c (a ++ b) ≡ (has c a || has c b)
unfolding has
has-append c [] b = refl
has-append c (x ∷ xs) b = ground (arith, has-append c xs b)

pub cut-append : (c : ℕ) (a b : Bytes) → has c a ≡ false → cut c (a ++ (c ∷ b)) ≡ some (a, b)
unfolding has cut
cut-append c [] b h = ground arith
cut-append c (x ∷ xs) b h = ground (arith, cut-append c xs b)

pub cut_sound :
    (c : ℕ) (s a b : Bytes) → cut c s ≡ some (a, b) → (s ≡ a ++ (c ∷ b)) × (has c a ≡ false)
unfolding has cut
cut_sound c [] a b e = cc
cut_sound c (x ∷ xs) a b e = elim (Bool-cases (x == c)) [
  | inl m ↦ ground arith
  | inr n ↦ later (cut c xs) refl n (cut_sound c xs)
]
  where
    later :
        (o : Option (Bytes × Bytes))
        → cut c xs ≡ o
        → (x == c) ≡ false
        → ((a' b' : Bytes) → cut c xs ≡ some (a', b') → (xs ≡ a' ++ (c ∷ b')) × (has c a' ≡ false))
        → (x ∷ xs ≡ a ++ (c ∷ b)) × (has c a ≡ false)
    later none eo n ih = absurd (ground arith)
    later (some (a', b')) eo n ih = let (whole, clean) = ih a' b' eo in ground arith

pub split_on-append :
    (c : ℕ) (field a rest : Bytes)
    → has c a ≡ false
    → split_on c field (a ++ (c ∷ rest)) ≡ (field ++ a) ∷ split_on c [] rest
unfolding has split_on
split_on-append c field [] rest h = ground (arith, append-nil field)
split_on-append c field (x ∷ xs) rest h =
    ground (arith, split_on-append c (field ++ (x ∷ [])) xs rest, append_assoc field (x ∷ []) xs)

pub split_on_last :
    (c : ℕ) (field a : Bytes) → has c a ≡ false → split_on c field a ≡ (field ++ a) ∷ []
unfolding has split_on
split_on_last c field [] h = ground (arith, append-nil field)
split_on_last c field (x ∷ xs) h =
    ground (arith, split_on_last c (field ++ (x ∷ [])) xs, append_assoc field (x ∷ []) xs)

-- ===== src/Learn/Match/Symmetry.antt =====
-- lib/learn/signal_match.cpp: the order of what is compared.
use homekit_rf_ir_blaster.Base.{ℕ, ◌≡◌, refl, ◌&&◌, List, [], ◌∷◌, ◌==◌, length, arith}
use homekit_rf_ir_blaster.Learn.Match.{
  durations_match, entries_match, bursts_match, min_element, structurally_alike,
}

durations_match_comm : (a b : ℕ) → durations_match a b ≡ durations_match b a
unfolding durations_match
durations_match_comm a b = ground arith

entries_match_comm : (a b : List ℕ) → entries_match a b ≡ entries_match b a
unfolding entries_match
entries_match_comm [] [] = refl
entries_match_comm [] (y ∷ ys) = refl
entries_match_comm (x ∷ xs) [] = refl
entries_match_comm (x ∷ xs) (y ∷ ys) = rw (durations_match_comm x y, entries_match_comm xs ys) refl

eq_comm : (m n : ℕ) → (m == n) ≡ (n == m)
eq_comm m n = ground arith

-- Whether two bursts match, or are alike in structure, does not depend on which comes first.
pub bursts_match_comm :
    (a b : List ℕ)
    → (bursts_match a b ≡ bursts_match b a) × (structurally_alike a b ≡ structurally_alike b a)
unfolding bursts_match structurally_alike
bursts_match_comm a b = (both a b, alike a b)
  where
    both :
        (xs ys : List ℕ)
        → (length xs == length ys && entries_match xs ys)
          ≡ (length ys == length xs && entries_match ys xs)
    both xs ys = rw (eq_comm (length xs) (length ys), entries_match_comm xs ys) refl

    alike : (xs ys : List ℕ) → structurally_alike xs ys ≡ structurally_alike ys xs
    alike [] [] = refl
    alike [] (y ∷ ys) = refl
    alike (x ∷ xs) [] = refl
    alike (x ∷ xs) (y ∷ ys) =
        rw
          (
            eq_comm (length (x ∷ xs)) (length (y ∷ ys)),
            durations_match_comm (min_element x xs) (min_element y ys),
          )
          refl

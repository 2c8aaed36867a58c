-- ===== src/Config/Plan/Removals.antt =====
-- lib/config/accessory_plan.cpp, diffPlans: the accessories to remove.
use homekit_rf_ir_blaster.Base.{
  ℕ, ◌≡◌, ◌∙◌, refl, ap, Bool, false, ◌&&◌, ◌||◌, not, List, [], ◌∷◌, Option, none, some, ◌==◌,
  is_some, ==_iff, arith, Bool-cases, Option-cases, inl, inr,
}
use homekit_rf_ir_blaster.Config.Validate.{seen}
use homekit_rf_ir_blaster.Config.Plan.{
  PlannedAccessory, PlanDiff, same_type, by_aid, diff_one, gone, diff_loop, diff_plans,
}

abbrev pub other_type : PlannedAccessory → Option PlannedAccessory → Bool
other_type n none = false
other_type n (some o) = not (same_type o.kind n.kind)

-- Some accessory of the new plan has this aid, and the old one of the aid is of another type.
unfoldable pub retyped : ℕ → List PlannedAccessory → List PlannedAccessory → Bool
retyped x old [] = false
retyped x old (n ∷ ns) = (n.aid == x && other_type n (by_aid n.aid old)) || retyped x old ns

by_aid-aid :
    (x : ℕ) (as' : List PlannedAccessory) (o : PlannedAccessory) → by_aid x as' ≡ some o → o.aid ≡ x
unfolding by_aid
by_aid-aid x [] o h = cc
by_aid-aid x (a ∷ as') o h = elim (Option-cases (by_aid x as')) [
  | inr (b, e) ↦ ground (arith, by_aid-aid x as' b e)
  | inl e ↦ ground arith
]

-- Whether some accessory of the plan has the aid.
is_some-by_aid :
    (x : ℕ) (a : PlannedAccessory) (as' : List PlannedAccessory)
    → is_some (by_aid x (a ∷ as')) ≡ (a.aid == x || is_some (by_aid x as'))
unfolding by_aid
is_some-by_aid x a as' = elim (Option-cases (by_aid x as')) [
  | inr (b, e) ↦ ground arith
  | inl e ↦ ground arith
]

seen-gone :
    (x : ℕ) (new old : List PlannedAccessory)
    → seen x (gone new old) ≡ (is_some (by_aid x old) && not (is_some (by_aid x new)))
unfolding seen gone
seen-gone x new [] = refl
seen-gone x new (o ∷ os) = elim (Bool-cases (o.aid == x)) [
  | inl e ↦
      let same : o.aid ≡ x = (==_iff o.aid x).0 e in
      rw (is_some-by_aid x o os)
        (ground (arith, seen-gone x new os, ap (λ y. is_some (by_aid y new)) same))
  | inr e ↦ rw (is_some-by_aid x o os) (ground (arith, seen-gone x new os))
]

seen-diff_one :
    (x : ℕ) (n : PlannedAccessory) (o : Option PlannedAccessory) (rest : PlanDiff)
    → ((p : PlannedAccessory) → o ≡ some p → p.aid ≡ n.aid)
    → seen x (diff_one n o rest).to_remove
      ≡ ((n.aid == x && other_type n o) || seen x rest.to_remove)
unfolding seen diff_one
seen-diff_one x n none rest h = ground arith
seen-diff_one x n (some p) rest h = ground (arith, h p refl)

seen-diff_loop :
    (x : ℕ) (old new : List PlannedAccessory) (last : PlanDiff)
    → seen x (diff_loop old new last).to_remove ≡ (retyped x old new || seen x last.to_remove)
unfolding diff_loop retyped
seen-diff_loop x old [] last = refl
seen-diff_loop x old (n ∷ ns) last =
    seen-diff_one x n (by_aid n.aid old) (diff_loop old ns last) (by_aid-aid n.aid old)
    ∙ shift (n.aid == x && other_type n (by_aid n.aid old)) (retyped x old ns)
        (seen x last.to_remove) _ (seen-diff_loop x old ns last)
  where
    shift : (a b c d : Bool) → d ≡ (b || c) → (a || d) ≡ ((a || b) || c)
    shift a b c d e = ground arith

-- The aids that a difference removes are those of the old plan that the new plan lacks, and those
-- whose accessory changes its type; it names no other.
pub diff_plans-seen :
    (x : ℕ) (old new : List PlannedAccessory)
    → seen x (diff_plans old new).to_remove
      ≡ (retyped x old new || (is_some (by_aid x old) && not (is_some (by_aid x new))))
unfolding diff_plans
diff_plans-seen x old new =
    seen-diff_loop x old new (record { to_add = []; to_remove = gone new old; to_update = [] })
    ∙ ap (λ b. retyped x old new || b) (seen-gone x new old)

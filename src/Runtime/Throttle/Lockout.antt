-- ===== src/Runtime/Throttle/Lockout.antt =====
-- lib/runtime/login_throttle.cpp: lookups after one record.
use homekit_rf_ir_blaster.Base.{
  ℕ, zero, suc, ◌<◌, ◌≡◌, ◌≢◌, ◌⊎◌, inl, inr, refl, true, false, List, [], ◌∷◌, Option, none, some,
  length, modify, arith, get_elem?, Bool-cases, Option-cases, sym, subst,
}
use homekit_rf_ir_blaster.Runtime.Throttle.{
  Entry, is_for, find, find_slot, is_active, choose_slot, claim, claimed, fail_entry, clear_entry,
  modify_at, record_failure, record_success, fresh_entry,
}
use homekit_rf_ir_blaster.Runtime.Throttle.Table.{
  IsSpare, find_slot-shift, find_slot-none, find_slot-find-none, choose_slot-in_range,
  choose_slot-spare, modify-modify,
}

-- The entry that a failure counts on: the client's, or a fresh one.
abbrev known : ℕ → ℕ → Option Entry → Entry
known key now none = fresh_entry key now
known key now (some e) = e

fail_entry-is_for : (key now : ℕ) (e : Entry) → is_for key (fail_entry now e) ≡ is_for key e
unfolding fail_entry
fail_entry-is_for key now e = ground arith

pub clear_entry-is_for : (key now : ℕ) (e : Entry) → is_for key (clear_entry now e) ≡ is_for key e
unfolding clear_entry
clear_entry-is_for key now e = ground arith

fresh_entry-is_for : (key now : ℕ) → is_for key (fresh_entry key now) ≡ true
fresh_entry-is_for key now = ground arith

choice_in_range :
    (now : ℕ) (es : List Entry)
    → 0 < length es
    → (j : ℕ) × (choose_slot now 0 es none none ≡ some j) × (j < length es)
choice_in_range now es h =
    choose_slot-in_range (λ k. k < length es) now 0 es none none (λ k lt. omega arith) tt tt (inr h)

-- A failure of the client: its entry, or a fresh one, is counted on.
pub record_failure-find_self :
    (key now : ℕ) (es : List Entry)
    → 0 < length es
    → find key (record_failure key now es) ≡ some (fail_entry now (known key now (find key es)))
unfolding record_failure
record_failure-find_self key now es h = elim (Option-cases (find_slot key 0 es)) [
  | inr (i, found) ↦
      let (k, at, rest) = find_slot-shift key 0 es i found in
      let (e, was, mine, here, is) =
        rest (fail_entry now) (λ e m. rw (fail_entry-is_for key now e) m) in
      let same : i ≡ k = omega arith in rw (found, was, same, claim) is
  | inl missing ↦
      let (j, choice, lt) = choice_in_range now es h in
      let fresh : Entry → Entry = λ _. fail_entry now (fresh_entry key now) in
      let (e, here, is) =
        find_slot-none key 0 es j fresh missing lt (λ e.
          rw (fail_entry-is_for key now (fresh_entry key now)) (fresh_entry-is_for key now)) in
      rw (missing, choice, find_slot-find-none key 0 es missing, claim)
        (rw (modify-modify es j (λ _. fresh_entry key now) (fail_entry now)) is)
]

-- A success of the client touches its own entry, if there is one.
pub record_success-find_self :
    (key now : ℕ) (es : List Entry) (e : Entry)
    → find key es ≡ some e
    → find key (record_success key now es) ≡ some (clear_entry now e)
unfolding record_success
record_success-find_self key now es e f = elim (Option-cases (find_slot key 0 es)) [
  | inr (i, found) ↦
      let (k, at, rest) = find_slot-shift key 0 es i found in
      let (e', was, mine, here, is) =
        rest (clear_entry now) (λ x m. rw (clear_entry-is_for key now x) m) in
      let same : i ≡ k = omega arith in
      let e'-e : e' ≡ e = cc in
      rw (found, same)
        (subst (λ (x : Entry). find key (modify es k (clear_entry now)) ≡ some (clear_entry now x))
          e'-e is)
  | inl missing ↦ absurd (cc (f, find_slot-find-none key 0 es missing))
]

-- A locked client's entry is found again after an update of a spare slot or of another's.
find-modify_locked :
    (key now : ℕ) (es : List Entry) (j : ℕ) (f : Entry → Entry) (v : Entry)
    → find key es ≡ some v
    → is_active now v ≡ true
    → ((e : Entry)
        → get_elem? es j ≡ some e
        → (IsSpare now e ⊎ (is_for key e ≡ false)) × (is_for key (f e) ≡ false))
    → find key (modify es j f) ≡ some v
unfolding find
find-modify_locked key now [] j f v e a other = cc
find-modify_locked key now (x ∷ xs) zero f v e a other = ground (arith, other x refl)
find-modify_locked key now (x ∷ xs) (suc j) f v e a other = elim (Bool-cases (is_for key x)) [
  | inl m ↦ rw m (rw m at e)
  | inr n ↦ rw n (find-modify_locked key now xs j f v (ground arith) a other)
]

pub other_key :
    (key other : ℕ) (e : Entry) → other ≢ key → is_for other e ≡ true → is_for key e ≡ false
other_key key other e ne m = ground arith

-- A slot that is free or not locked.
abbrev pub HasSpare : ℕ → List Entry → Type 0
HasSpare now es = (k : ℕ) × (e : Entry) × (get_elem? es k ≡ some e) × IsSpare now e

length_of_get : (es : List Entry) (k : ℕ) (e : Entry) → get_elem? es k ≡ some e → 0 < length es
length_of_get [] k e at = cc
length_of_get (x ∷ xs) k e at = omega arith

-- A failure of another client leaves a locked client's entry alone, as long as some slot is spare or
-- the other client has its own.
pub record_failure-find_other :
    (key other now : ℕ) (es : List Entry) (v : Entry)
    → other ≢ key
    → find key es ≡ some v
    → is_active now v ≡ true
    → HasSpare now es ⊎ (find other es ≢ none)
    → find key (record_failure other now es) ≡ some v
unfolding record_failure
record_failure-find_other key other now es v ne f a room =
    elim (Option-cases (find_slot other 0 es)) [
      | inr (i, found) ↦
          let (k, at, rest) = find_slot-shift other 0 es i found in
          let (e, was, mine, here, is) =
            rest (fail_entry now) (λ x m. rw (fail_entry-is_for other now x) m) in
          let same : i ≡ k = omega arith in
          rw (found, same, claim)
            (find-modify_locked key now es k (fail_entry now) v f a λ x at'.
              let x-e : x ≡ e = cc in
              let not_key : is_for key x ≡ false =
                subst (λ (y : Entry). is_for key y ≡ false) (sym x-e)
                  (other_key key other e ne mine) in
              (inr not_key, rw (fail_entry-is_for key now x) not_key))
      | inl missing ↦ spared missing room
    ]
  where
    fresh_other : is_for key (fail_entry now (fresh_entry other now)) ≡ false
    fresh_other =
        rw (fail_entry-is_for key now (fresh_entry other now))
          (other_key key other (fresh_entry other now) ne (fresh_entry-is_for other now))

    spared :
        find_slot other 0 es ≡ none
        → HasSpare now es ⊎ (find other es ≢ none)
        → find key (
            modify_at
              (claim other now es (find_slot other 0 es) (choose_slot now 0 es none none))
              (claimed (find_slot other 0 es) (choose_slot now 0 es none none))
              (fail_entry now))
          ≡ some v
    spared missing (inr tracked) = absurd (tracked (find_slot-find-none other 0 es missing))
    spared missing (inl (k, e, at, spare)) =
        let (j, choice, lt) = choice_in_range now es (length_of_get es k e at) in
        let P : ℕ → Type 0 = λ i. (x : Entry) × (get_elem? es i ≡ some x) × IsSpare now x in
        let (x, here, free) : P j =
          choose_slot-spare P now 0 es none none j
            (λ i y y_at y_spare.
              (y, subst (λ n. get_elem? es n ≡ some y) (omega arith) y_at, y_spare))
            tt (inr (k, e, at, spare)) choice in
        let g : Entry → Entry = λ _. fail_entry now (fresh_entry other now) in
        rw (missing, choice, claim)
          (rw (modify-modify es j (λ _. fresh_entry other now) (fail_entry now)) (
            find-modify_locked key now es j g v f a λ y y_at.
              let y-x : y ≡ x = cc in (inl (subst (IsSpare now) (sym y-x) free), fresh_other)))

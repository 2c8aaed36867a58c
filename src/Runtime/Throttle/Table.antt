-- ===== src/Runtime/Throttle/Table.antt =====
-- lib/runtime/login_throttle.cpp: the table as a map from clients to entries.
use homekit_rf_ir_blaster.Base.{
  ℕ, zero, suc, ◌+◌, ◌<◌, ◌≡◌, ◌⊎◌, inl, inr, refl, Bool, true, false, ◌&&◌, List, [], ◌∷◌, Option,
  none, some, ltb, if◌then◌else◌, length, modify, arith, get_elem?, Bool-cases, ap, sym, subst,
}
use homekit_rf_ir_blaster.Runtime.Throttle.{
  Entry, is_for, find, find_slot, is_active, Oldest, older, choose_slot,
}

-- What stands in a slot.
abbrev pub Stands : List Entry → ℕ → (Entry → Type 0) → Type 0
Stands es i P = (e : Entry) → get_elem? es i ≡ some e → P e

-- Of a chosen slot: free, or not locked.
abbrev pub IsSpare : ℕ → Entry → Type 0
IsSpare now e = (e.used && is_active now e) ≡ false

-- An update of a slot that concerns other clients only is not seen by a lookup.
pub find-modify_ne :
    (key : ℕ) (es : List Entry) (i : ℕ) (f : Entry → Entry)
    → Stands es i (λ e. (is_for key e ≡ false) × (is_for key (f e) ≡ false))
    → find key (modify es i f) ≡ find key es
unfolding find
find-modify_ne key [] i f h = refl
find-modify_ne key (e ∷ es) zero f h = let (old, new) = h e refl in rw (old, new)
find-modify_ne key (e ∷ es) (suc i) f h = elim (Bool-cases (is_for key e)) [
  | inl m ↦ rw m
  | inr n ↦ rw n (find-modify_ne key es i f h)
]

-- An update of the client's own slot shows in the lookup.
pub find_slot-shift :
    (key i : ℕ) (es : List Entry) (j : ℕ)
    → find_slot key i es ≡ some j
    → (k : ℕ) × (j ≡ i + k)
      × ((f : Entry → Entry)
          → ((e : Entry) → is_for key e ≡ true → is_for key (f e) ≡ true)
          → (e : Entry) × (find key es ≡ some e)
            × (is_for key e ≡ true)
            × (get_elem? es k ≡ some e)
            × (find key (modify es k f) ≡ some (f e)))
unfolding find_slot find
find_slot-shift key i [] j e = cc
find_slot-shift key i (x ∷ xs) j e = elim (Bool-cases (is_for key x)) [
  | inl m ↦ (0, ground arith, λ f keep. (x, rw m, m, refl, rw (keep x m)))
  | inr n ↦
      let (k, at, rest) = find_slot-shift key (i + 1) xs j (ground arith) in
      (
        suc k,
        omega arith,
        λ f keep. let (e', a, b, c, d) = rest f keep in (e', rw n a, b, c, rw n d),
      )
]

pub modify-modify :
    (es : List Entry) (i : ℕ) (f g : Entry → Entry)
    → modify (modify es i f) i g ≡ modify es i (λ e. g (f e))
modify-modify [] i f g = refl
modify-modify (e ∷ es) zero f g = refl
modify-modify (e ∷ es) (suc i) f g = ap (◌∷◌ e) (modify-modify es i f g)

-- With no slot for the client, a slot made the client's is the one that a lookup finds.
pub find_slot-none :
    (key i : ℕ) (es : List Entry) (j : ℕ) (f : Entry → Entry)
    → find_slot key i es ≡ none
    → j < length es
    → ((e : Entry) → is_for key (f e) ≡ true)
    → (e : Entry) × (get_elem? es j ≡ some e) × (find key (modify es j f) ≡ some (f e))
unfolding find_slot find
find_slot-none key i [] j f n lt mine = absurd (omega arith)
find_slot-none key i (e ∷ es) zero f n lt mine = (e, refl, rw (mine e))
find_slot-none key i (e ∷ es) (suc j) f n lt mine = elim (Bool-cases (is_for key e)) [
  | inl m ↦ absurd (ground arith)
  | inr m ↦
      let (e', at, found) = find_slot-none key (i + 1) es j f (ground arith) (omega arith) mine in
      (e', at, rw m found)
]

pub find_slot-find-none :
    (key i : ℕ) (es : List Entry) → find_slot key i es ≡ none → find key es ≡ none
unfolding find_slot find
find_slot-find-none key i [] n = refl
find_slot-find-none key i (e ∷ es) n = ground (arith, find_slot-find-none key (i + 1) es)

abbrev pub OldestIn : (ℕ → Type 0) → Option Oldest → Type 0
OldestIn P none = Unit {0}
OldestIn P (some o) = P o.slot

older-In :
    (P : ℕ → Type 0) (i : ℕ) (e : Entry) (o : Option Oldest)
    → P i
    → OldestIn P o
    → (o' : Oldest) × (older i e o ≡ some o') × P o'.slot
unfolding older
older-In P i e none p q = (record { slot = i; seen_ms = e.last_seen_ms }, refl, p)
older-In P i e (some o) p q = elim (Bool-cases (ltb e.last_seen_ms o.seen_ms)) [
  | inl y ↦ (record { slot = i; seen_ms = e.last_seen_ms }, rw y, p)
  | inr n ↦ (o, rw n, q)
]

-- Some slot is always chosen, and it is one of the table's.
pub choose_slot-in_range :
    (P : ℕ → Type 0) (now i : ℕ) (es : List Entry) (u a : Option Oldest)
    → ((k : ℕ) → k < length es → P (i + k))
    → OldestIn P u
    → OldestIn P a
    → ((o : Oldest) × (a ≡ some o)) ⊎ (0 < length es)
    → (j : ℕ) × (choose_slot now i es u a ≡ some j) × P j
unfolding choose_slot
choose_slot-in_range P now i [] none none p pu pa (inl (o, e)) = cc
choose_slot-in_range P now i [] none (some x) p pu pa s = (x.slot, refl, pa)
choose_slot-in_range P now i [] (some x) a p pu pa s = (x.slot, refl, pu)
choose_slot-in_range P now i [] none none p pu pa (inr h) = absurd (omega arith)
choose_slot-in_range P now i (e ∷ es) u a p pu pa s =
    let here : P i = subst P (omega arith) (p 0 (omega arith)) in
    let (oa, ea, qa) = older-In P i e a here pa in
    let (ou, eu, qu) = older-In P i e u here pu in
    let u' = if is_active now e then u else older i e u in
    let pu' : OldestIn P u' = kept (is_active now e) in
    let (j, at, q) =
      choose_slot-in_range P now (i + 1) es u' (older i e a)
        (λ k lt. subst P (omega arith) (p (suc k) (omega arith))) pu' (rw ea qa) (inl (oa, ea)) in
    elim (Bool-cases e.used) [ inl y ↦ (j, simp y at, q) | inr n ↦ (i, simp n, here) ]
  where
    kept : (b : Bool) → OldestIn P (if b then u else older i e u)
    kept true = pu
    kept false =
        let here : P i = subst P (omega arith) (p 0 (omega arith)) in
        let (ou, eu, qu) = older-In P i e u here pu in rw eu qu

-- A spare slot is chosen, where the table has one.
pub choose_slot-spare :
    (P : ℕ → Type 0) (now i : ℕ) (es : List Entry) (u a : Option Oldest) (j : ℕ)
    → ((k : ℕ) (e : Entry) → get_elem? es k ≡ some e → IsSpare now e → P (i + k))
    → OldestIn P u
    → ((o : Oldest) × (u ≡ some o))
      ⊎ ((k : ℕ) × (e : Entry) × (get_elem? es k ≡ some e) × IsSpare now e)
    → choose_slot now i es u a ≡ some j
    → P j
unfolding choose_slot
choose_slot-spare P now i [] none a j p pu (inl (o, e)) c = cc
choose_slot-spare P now i [] u a j p pu (inr (k, e, at, s)) c = cc
choose_slot-spare P now i [] (some x) a j p pu (inl s) c = let e : x.slot ≡ j = cc in subst P e pu
choose_slot-spare P now i (x ∷ xs) u a j p pu s c = elim (Bool-cases x.used) [
  | inr n ↦
      let e : i ≡ j = ground arith in subst P e (subst P (omega arith) (p 0 x refl (ground arith)))
  | inl y ↦
      choose_slot-spare P now (i + 1) xs (if is_active now x then u else older i x u) (older i x a)
        j (λ k e at h. subst P (omega arith) (p (suc k) e at h)) (kept y (is_active now x) refl)
        (known y (is_active now x) refl s) (ground arith)
]
  where
    here :
        x.used ≡ true
        → is_active now x ≡ false
        → (o' : Oldest) × (older i x u ≡ some o') × P o'.slot
    here y n = older-In P i x u (subst P (omega arith) (p 0 x refl (ground arith))) pu

    kept :
        x.used ≡ true → (b : Bool) → is_active now x ≡ b → OldestIn P (if b then u else older i x u)
    kept y true e = pu
    kept y false e = let (o', eq, q) = here y e in rw eq q

    known :
        x.used ≡ true
        → (b : Bool) → is_active now x ≡ b
        → ((o : Oldest) × (u ≡ some o))
          ⊎ ((k : ℕ) × (e : Entry) × (get_elem? (x ∷ xs) k ≡ some e) × IsSpare now e)
        → ((o : Oldest) × ((if b then u else older i x u) ≡ some o))
          ⊎ ((k : ℕ) × (e : Entry) × (get_elem? xs k ≡ some e) × IsSpare now e)
    known y false e s = let (o', eq, q) = here y e in inl (o', eq)
    known y true e (inl s) = inl s
    known y true e (inr (zero, x', at, sp)) =
        let same : x ≡ x' = cc in absurd (ground (arith, subst (IsSpare now) (sym same) sp))
    known y true e (inr (suc k, x', at, sp)) = inr (k, x', at, sp)

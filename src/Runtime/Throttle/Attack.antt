-- ===== src/Runtime/Throttle/Attack.antt =====
-- lib/runtime/login_throttle.cpp: a locked client under histories of logins.
use native.Mathlib.Decide.{ℕ_discrete}
use homekit_rf_ir_blaster.Base.{
  ℕ, ◌-◌, ◌<◌, ◌≡◌, ◌≢◌, ◌⊎◌, inl, inr, true, false, List, [], ◌∷◌, none, some, length, arith,
  Option-cases, sym, subst, ◌∙◌, ap,
}
use homekit_rf_ir_blaster.Runtime.Throttle.{
  Entry, is_for, find, find_slot, is_active, fail_entry, clear_entry, record_failure,
  record_success, is_locked, time_remaining_ms, Call, fails, succeeds, record_call, record_all,
}
use homekit_rf_ir_blaster.Runtime.Throttle.Table.{find_slot-shift, find-modify_ne}
use homekit_rf_ir_blaster.Runtime.Throttle.Lockout.{
  HasSpare, record_failure-find_self, record_success-find_self, record_failure-find_other,
  other_key, clear_entry-is_for,
}

-- The client is locked out until `d`.
abbrev pub LockedUntil : ℕ → ℕ → List Entry → Type 0
LockedUntil key d es = (e : Entry) × (find key es ≡ some e) × (e.locked_until ≡ d)

-- A record made before `d` that cannot evict the client: its own, a success, or a failure of
-- another client that finds a spare slot or has its own.
abbrev pub IsHarmless : ℕ → ℕ → Call → List Entry → Type 0
IsHarmless key d (succeeds other now) es = now < d
IsHarmless key d (fails other now) es =
    (now < d) × ((other ≡ key) ⊎ HasSpare now es ⊎ (find other es ≢ none))

abbrev pub AllHarmless : ℕ → ℕ → List Call → List Entry → Type 0
AllHarmless key d [] es = Unit {0}
AllHarmless key d (c ∷ cs) es = IsHarmless key d c es × AllHarmless key d cs (record_call c es)

length_of_find : (key : ℕ) (es : List Entry) (e : Entry) → find key es ≡ some e → 0 < length es
unfolding find
length_of_find key [] e f = cc
length_of_find key (x ∷ xs) e f = omega arith

fail_entry_locked :
    (now d : ℕ) (e : Entry)
    → d ≢ 0
    → now < d
    → e.locked_until ≡ d
    → (fail_entry now e).locked_until ≡ d
unfolding fail_entry
fail_entry_locked now d e nz lt at = ground arith

clear_entry_locked :
    (now d : ℕ) (e : Entry)
    → d ≢ 0
    → now < d
    → e.locked_until ≡ d
    → (clear_entry now e).locked_until ≡ d
unfolding clear_entry
clear_entry_locked now d e nz lt at = ground arith

record_success-find_other :
    (key other now : ℕ) (es : List Entry)
    → other ≢ key
    → find key (record_success other now es) ≡ find key es
unfolding record_success
record_success-find_other key other now es ne = elim (Option-cases (find_slot other 0 es)) [
  | inl missing ↦ rw missing
  | inr (i, found) ↦
      let (k, at, rest) = find_slot-shift other 0 es i found in
      let (e, was, mine, here, is) =
        rest (clear_entry now) (λ x m. rw (clear_entry-is_for other now x) m) in
      let same : i ≡ k = omega arith in
      rw (found, same)
        (find-modify_ne key es k (clear_entry now) λ x x_at.
          let x-e : x ≡ e = cc in
          let not_key : is_for key x ≡ false =
            subst (λ (y : Entry). is_for key y ≡ false) (sym x-e) (other_key key other e ne mine) in
          (not_key, rw (clear_entry-is_for key now x) not_key))
]

active_until :
    (now d : ℕ) (e : Entry) → d ≢ 0 → now < d → e.locked_until ≡ d → is_active now e ≡ true
active_until now d e nz lt at = ground arith

own_failure-LockedUntil :
    (key now d : ℕ) (es : List Entry)
    → d ≢ 0
    → now < d
    → LockedUntil key d es
    → LockedUntil key d (record_failure key now es)
own_failure-LockedUntil key now d es nz lt (e, f, at) =
    let is = record_failure-find_self key now es (length_of_find key es e f) in
    (fail_entry now e, rw f at is, fail_entry_locked now d e nz lt at)

failure-LockedUntil :
    (key other now d : ℕ) (es : List Entry)
    → d ≢ 0
    → IsHarmless key d (fails other now) es
    → LockedUntil key d es
    → LockedUntil key d (record_failure other now es)
failure-LockedUntil key other now d es nz (lt, inl same) h =
    subst (λ k. LockedUntil key d (record_failure k now es)) (sym same)
      (own_failure-LockedUntil key now d es nz lt h)
failure-LockedUntil key other now d es nz (lt, inr room) h = elim (ℕ_discrete other key) [
  | yes same ↦
      subst (λ k. LockedUntil key d (record_failure k now es)) (sym same)
        (own_failure-LockedUntil key now d es nz lt h)
  | no ne ↦
      let (e, f, at) = h in
      (
        e,
        record_failure-find_other key other now es e ne f (active_until now d e nz lt at) room,
        at,
      )
]

success-LockedUntil :
    (key other now d : ℕ) (es : List Entry)
    → d ≢ 0
    → now < d
    → LockedUntil key d es
    → LockedUntil key d (record_success other now es)
success-LockedUntil key other now d es nz lt (e, f, at) = elim (ℕ_discrete other key) [
  | yes same ↦
      subst (λ k. LockedUntil key d (record_success k now es)) (sym same)
        (
          clear_entry now e,
          record_success-find_self key now es e f,
          clear_entry_locked now d e nz lt at,
        )
  | no ne ↦ (e, record_success-find_other key other now es ne ∙ f, at)
]

record_all-LockedUntil :
    (key d : ℕ) (cs : List Call) (es : List Entry)
    → d ≢ 0
    → AllHarmless key d cs es
    → LockedUntil key d es
    → LockedUntil key d (record_all cs es)
unfolding record_all record_call
record_all-LockedUntil key d [] es nz h l = l
record_all-LockedUntil key d (fails other now ∷ cs) es nz (a, as') l =
    record_all-LockedUntil key d cs (record_failure other now es) nz as'
      (failure-LockedUntil key other now d es nz a l)
record_all-LockedUntil key d (succeeds other now ∷ cs) es nz (a, as') l =
    record_all-LockedUntil key d cs (record_success other now es) nz as'
      (success-LockedUntil key other now d es nz a l)

-- A lockout until `d` stands for its whole time: after any records made before `d`, of any clients
-- and of either kind, none of which evicts the client (each failure of another client finds a spare
-- slot or its own), the client is still locked at every time before `d`, and the remaining time is
-- exactly what is left until `d`.
pub record_all-is_locked :
    (key d now : ℕ) (cs : List Call) (es : List Entry)
    → d ≢ 0
    → LockedUntil key d es
    → AllHarmless key d cs es
    → now < d
    → (is_locked key now (record_all cs es) ≡ true)
      × (time_remaining_ms key now (record_all cs es) ≡ d - now)
unfolding is_locked time_remaining_ms
record_all-is_locked key d now cs es nz l h lt =
    let (e, f, at) = record_all-LockedUntil key d cs es nz h l in
    let active = active_until now d e nz lt at in rw f (active, rw active (ap (λ n. n - now) at))

-- ===== src/Runtime/Throttle/FiveFailures.antt =====
-- lib/runtime/login_throttle.cpp: an unknown client that fails five times.
use homekit_rf_ir_blaster.Base.{
  ℕ, ◌+◌, ◌%◌, ◌^◌, ◌≤◌, ◌<◌, ◌≡◌, refl, true, false, List, [], ◌∷◌, Option, none, some, length,
  length-modify, arith,
}
use homekit_rf_ir_blaster.Runtime.Throttle.{
  Entry, find, find_slot, choose_slot, claim, claimed, modify_at, lockout_ms, fail_entry,
  record_failure, fresh_entry, is_locked, fails, record_call, record_all,
}
use homekit_rf_ir_blaster.Runtime.Throttle.Lockout.{record_failure-find_self}

length-record_failure :
    (key now : ℕ) (es : List Entry) → length (record_failure key now es) ≡ length es
unfolding record_failure
length-record_failure key now es =
    let found = find_slot key 0 es in
    let choice = choose_slot now 0 es none none in length-claimed found choice
  where
    length-claimed :
        (found choice : Option ℕ)
        → length (modify_at (claim key now es found choice) (claimed found choice) (fail_entry now))
          ≡ length es
    length-claimed (some i) choice = unfold claim in length-modify es i _
    length-claimed none none = unfold claim in refl
    length-claimed none (some i) =
        unfold claim in
        omega (
          arith,
          length-modify es i (λ _. fresh_entry key now),
          length-modify (claim key now es none (some i)) i (fail_entry now),
        )

-- `n` failures of the client are counted, and it is not locked out.
record Counted (key n : ℕ) (es : List Entry) : Type 0 where
  room : 0 < length es
  entry : Entry
  found : find key es ≡ some entry
  counted : entry.failures ≡ n
  unlocked : entry.locked_until ≡ 0

first_failure :
    (key now : ℕ) (es : List Entry)
    → 0 < length es
    → find key es ≡ none
    → Counted key 1 (record_failure key now es)
unfolding fail_entry
first_failure key now es h f = record {
  room = omega (arith, length-record_failure key now es);
  entry = fail_entry now (fresh_entry key now);
  found = rw f at (record_failure-find_self key now es h);
  counted = ground arith;
  unlocked = ground arith;
}

next_failure :
    (key now n : ℕ) (es : List Entry)
    → n < 4
    → Counted key n es
    → Counted key (n + 1) (record_failure key now es)
unfolding fail_entry
next_failure key now n es lt c = record {
  room = omega (arith, length-record_failure key now es, c.room);
  entry = fail_entry now c.entry;
  found = rw c.found at (record_failure-find_self key now es c.room);
  counted = ground (arith, c.counted, c.unlocked);
  unlocked = ground (arith, c.counted, c.unlocked);
}

Counted-unlocked :
    (key n now : ℕ) (es : List Entry) → Counted key n es → is_locked key now es ≡ false
unfolding is_locked
Counted-unlocked key n now es c = rw c.found (ground (arith, c.unlocked))

fifth_entry :
    (now : ℕ) (e : Entry)
    → e.failures ≡ 4
    → e.locked_until ≡ 0
    → (fail_entry now e).locked_until ≡ (now + lockout_ms) % 2 ^ 32
unfolding fail_entry
fifth_entry now e n u = ground arith

-- Four failures of a client that the throttle does not know leave it unlocked at every time; the
-- fifth, at t5, locks it out at every time before t5 + 15 minutes and not from then on, where that
-- deadline does not wrap round the 32-bit clock. Where it does wrap, the client is not locked at t5.
pub record_all-five_failures :
    (key t1 t2 t3 t4 t5 now : ℕ) (es : List Entry)
    → 0 < length es
    → find key es ≡ none
    → t5 < 2 ^ 32
    → let four = record_all (fails key t1 ∷ fails key t2 ∷ fails key t3 ∷ fails key t4 ∷ []) es in
      let five = record_failure key t5 four in
      (is_locked key now four ≡ false)
      × (t5 + lockout_ms < 2 ^ 32 → now < t5 + lockout_ms → is_locked key now five ≡ true)
      × (t5 + lockout_ms < 2 ^ 32 → t5 + lockout_ms ≤ now → is_locked key now five ≡ false)
      × (2 ^ 32 ≤ t5 + lockout_ms → is_locked key t5 five ≡ false)
unfolding record_all record_call
record_all-five_failures key t1 t2 t3 t4 t5 now es h f u =
    let one = first_failure key t1 es h f in
    let two = next_failure key t2 1 _ (omega arith) one in
    let three = next_failure key t3 2 _ (omega arith) two in
    let c = next_failure key t4 3 _ (omega arith) three in
    let five = record_failure-find_self key t5 _ c.room in
    let is = rw c.found at five in
    let until = fifth_entry t5 c.entry c.counted c.unlocked in
    (
      Counted-unlocked key 4 now _ c,
      λ w lt. unfold is_locked in rw is (ground (arith, until)),
      λ w le. unfold is_locked in rw is (ground (arith, until)),
      λ w. unfold is_locked in rw is (ground (arith, until)),
    )

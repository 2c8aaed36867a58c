-- ===== src/Runtime/Throttle.antt =====
-- lib/runtime/login_throttle.h and login_throttle.cpp. The table is a list of entries; a pointer
-- into it is an index. `now` is a uint32_t count of ms, and deadlines wrap with it.
pub mod Table
pub mod Lockout
pub mod Attack
pub mod FiveFailures
use homekit_rf_ir_blaster.Base.{
  ℕ, zero, suc, ◌+◌, ◌-◌, ◌*◌, ◌%◌, ◌^◌, ◌≡◌, refl, Bool, true, false, ◌&&◌, ◌||◌, not, List, [],
  ◌∷◌, Option, none, some, ltb, leb, ◌==◌, if◌then◌else◌, length, modify, replicate,
}

abbrev pub max_failures : ℕ
max_failures = 5

abbrev pub lockout_ms : ℕ
lockout_ms = 15 * 60 * 1000

abbrev pub max_tracked_clients : ℕ
max_tracked_clients = 16

pub record Entry : Type 0 where
  pub client_key : ℕ
  pub failures : ℕ
  pub locked_until : ℕ
  pub last_seen_ms : ℕ
  pub used : Bool

abbrev pub unused_entry : Entry
unused_entry = record {
  client_key = 0;
  failures = 0;
  locked_until = 0;
  last_seen_ms = 0;
  used = false;
}

abbrev pub empty_table : List Entry
empty_table = replicate max_tracked_clients unused_entry

abbrev pub fresh_entry : ℕ → ℕ → Entry
fresh_entry key now = record unused_entry { client_key = key; used = true; last_seen_ms = now }

abbrev pub is_for : ℕ → Entry → Bool
is_for key e = e.used && e.client_key == key

-- The const overload of find.
unfoldable pub find : ℕ → List Entry → Option Entry
find key [] = none
find key (e ∷ es) = if is_for key e then some e else find key es

-- The other overload: where the entry stands.
unfoldable pub find_slot : ℕ → ℕ → List Entry → Option ℕ
find_slot key i [] = none
find_slot key i (e ∷ es) = if is_for key e then some i else find_slot key (i + 1) es

-- A lockout that has not run out.
abbrev pub is_active : ℕ → Entry → Bool
is_active now e = not (e.locked_until == 0) && ltb now e.locked_until

-- The oldest slot so far: where it stands and when it was last seen.
pub record Oldest : Type 0 where
  pub slot : ℕ
  pub seen_ms : ℕ

unfoldable pub older : ℕ → Entry → Option Oldest → Option Oldest
older i e none = some (record { slot = i; seen_ms = e.last_seen_ms })
older i e (some o) =
    if ltb e.last_seen_ms o.seen_ms
    then some (record { slot = i; seen_ms = e.last_seen_ms })
    else some o

abbrev pub victim : Option Oldest → Option Oldest → Option ℕ
victim (some o) any = some o.slot
victim none (some o) = some o.slot
victim none none = none

-- allocate: a free slot, else the oldest that is not locked, else the oldest of all.
unfoldable pub choose_slot : ℕ → ℕ → List Entry → Option Oldest → Option Oldest → Option ℕ
unfolding older
choose_slot now i [] unlocked any = victim unlocked any
choose_slot now i (e ∷ es) unlocked any =
    let rest =
      choose_slot now (i + 1) es (if is_active now e then unlocked else older i e unlocked)
        (older i e any) in
    if not e.used then some i else rest

-- A slot for the client, and the table with the client in it.
unfoldable pub claim : ℕ → ℕ → List Entry → Option ℕ → Option ℕ → List Entry
claim key now es (some i) choice = es
claim key now es none none = es
claim key now es none (some i) = modify es i (λ _. fresh_entry key now)

abbrev pub claimed : Option ℕ → Option ℕ → Option ℕ
claimed (some i) choice = some i
claimed none choice = choice

-- One more failure, and the lockout at the fifth.
unfoldable pub count_failure : ℕ → Entry → Entry
count_failure now e =
    let n = if ltb e.failures 255 then e.failures + 1 else e.failures in
    record e {
      failures = n;
      locked_until = if leb max_failures n then (now + lockout_ms) % 2 ^ 32 else e.locked_until;
      last_seen_ms = now;
    }

-- recordFailure on the client's entry. An active lockout is neither extended nor shortened.
unfoldable pub fail_entry : ℕ → Entry → Entry
unfolding count_failure
fail_entry now e =
    if e.locked_until == 0
    then count_failure now e
    else if ltb now e.locked_until
    then record e { last_seen_ms = now }
    else count_failure now (record e { failures = 0; locked_until = 0 })

-- recordSuccess on the client's entry.
unfoldable pub clear_entry : ℕ → Entry → Entry
clear_entry now e =
    if is_active now e
    then record e { last_seen_ms = now }
    else record e { failures = 0; locked_until = 0; last_seen_ms = now }

abbrev pub modify_at : List Entry → Option ℕ → (Entry → Entry) → List Entry
modify_at es none f = es
modify_at es (some i) f = modify es i f

unfoldable pub record_failure : ℕ → ℕ → List Entry → List Entry
unfolding find_slot choose_slot claim fail_entry
record_failure key now es =
    let found = find_slot key 0 es in
    let choice = choose_slot now 0 es none none in
    modify_at (claim key now es found choice) (claimed found choice) (fail_entry now)

unfoldable pub record_success : ℕ → ℕ → List Entry → List Entry
unfolding find_slot clear_entry
record_success key now es = modify_at es (find_slot key 0 es) (clear_entry now)

abbrev pub locked_entry : ℕ → Option Entry → Bool
locked_entry now none = false
locked_entry now (some e) = is_active now e

unfoldable pub is_locked : ℕ → ℕ → List Entry → Bool
unfolding find
is_locked key now es = locked_entry now (find key es)

abbrev pub remaining_ms : ℕ → Option Entry → ℕ
remaining_ms now none = 0
remaining_ms now (some e) = if is_active now e then e.locked_until - now else 0

unfoldable pub time_remaining_ms : ℕ → ℕ → List Entry → ℕ
unfolding find
time_remaining_ms key now es = remaining_ms now (find key es)

-- What the login handler records.
pub data Call : Type 0 where
  fails succeeds : ℕ → ℕ → Call

unfoldable pub record_call : Call → List Entry → List Entry
record_call (fails key now) es = record_failure key now es
record_call (succeeds key now) es = record_success key now es

unfoldable pub record_all : List Call → List Entry → List Entry
unfolding record_call
record_all [] es = es
record_all (c ∷ cs) es = record_all cs (record_call c es)

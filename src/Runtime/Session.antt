-- ===== src/Runtime/Session.antt =====
-- lib/runtime/session.h, session.cpp and auth_config.h: signed session tokens. A failure is none,
-- where the source returns false or an empty string.
pub mod Tokens
pub mod Expiry
use homekit_rf_ir_blaster.Base.{
  ℕ, ◌+◌, ◌%◌, ◌^◌, ◌≡◌, refl, Bool, true, false, ◌&&◌, ◌||◌, not, List, [], ◌∷◌, ◌++◌, Option,
  none, some, leb, ◌==◌, if◌then◌else◌, length, null, Bytes, codes, ◌>>=◌, ◌>>◌, guard,
}
use homekit_rf_ir_blaster.Runtime.Crypto.{Crypto, buffers_equal}
use homekit_rf_ir_blaster.Runtime.Encoding.{encode, decode}
use homekit_rf_ir_blaster.Runtime.Decimal.{to_string, parse_uint64}
use homekit_rf_ir_blaster.Runtime.Fields.{has, cut, split_on}

abbrev pub idle_timeout_ms : ℕ
idle_timeout_ms = 900000

abbrev pub absolute_timeout_ms : ℕ
absolute_timeout_ms = 28800000

pub record Token : Type 0 where
  pub user : Bytes
  pub iat : ℕ
  pub abs_expiry : ℕ
  pub idle_deadline : ℕ

-- user|iat|absExpiry|idleDeadline.
unfoldable pub payload : Token → Bytes
payload t =
    t.user
    ++ (b'|'
        ∷ (to_string t.iat
            ++ (b'|' ∷ (to_string t.abs_expiry ++ (b'|' ∷ to_string t.idle_deadline)))))

unfoldable pub mint_raw : Crypto → Bytes → Token → Bytes
unfolding payload
mint_raw crypto secret t =
    let part1 = encode (payload t) in part1 ++ (b'.' ∷ encode (crypto.hmac secret part1))

-- The fields of an authenticated payload.
unfoldable pub read_fields : List Bytes → Option Token
read_fields [] = none
read_fields (a ∷ []) = none
read_fields (a ∷ b ∷ []) = none
read_fields (a ∷ b ∷ c ∷ []) = none
read_fields (a ∷ b ∷ c ∷ d ∷ []) = do
  guard (not (null a))
  iat ← parse_uint64 b
  abs_expiry ← parse_uint64 c
  idle_deadline ← parse_uint64 d
  some (record { user = a; iat = iat; abs_expiry = abs_expiry; idle_deadline = idle_deadline })
read_fields (a ∷ b ∷ c ∷ d ∷ e ∷ rest) = none

-- The signature of a token: 32 bytes that equal the MAC of the first part.
unfoldable pub check_mac : Crypto → Bytes → Bytes → Bytes → Option (Unit {0})
check_mac crypto secret part1 part2 = do
  sig ← decode part2
  guard (length sig == 32)
  guard (buffers_equal (crypto.hmac secret part1) sig)

unfoldable pub parse_parts : Crypto → Bytes → Bytes × Bytes → Option Token
unfolding check_mac read_fields
parse_parts crypto secret (part1, part2) = do
  guard (not (has b'.' part2))
  check_mac crypto secret part1 part2
  raw ← decode part1
  read_fields (split_on b'|' [] raw)

unfoldable pub parse_token : Crypto → Bytes → Bytes → Option Token
unfolding parse_parts
parse_token crypto secret token = do parts ← cut b'.' token; parse_parts crypto secret parts

unfoldable pub mint_session : Crypto → Bytes → Bytes → ℕ → Bytes
unfolding mint_raw
mint_session crypto secret user iat =
    if null user || has b'|' user
    then []
    else mint_raw crypto secret (record {
      user = user;
      iat = iat;
      abs_expiry = (iat + absolute_timeout_ms) % 2 ^ 64;
      idle_deadline = (iat + idle_timeout_ms) % 2 ^ 64;
    })

pub record SessionResult : Type 0 where
  pub valid : Bool
  pub user : Bytes
  pub binding : Bytes
  pub expired_idle : Bool
  pub expired_absolute : Bool

abbrev pub no_session : SessionResult
no_session = record {
  valid = false;
  user = [];
  binding = [];
  expired_idle = false;
  expired_absolute = false;
}

abbrev pub session_at : ℕ → Token → SessionResult
session_at now t = record {
  valid = not (leb t.idle_deadline now) && not (leb t.abs_expiry now);
  user = t.user;
  binding = t.user ++ (b'|' ∷ to_string t.iat);
  expired_idle = leb t.idle_deadline now;
  expired_absolute = leb t.abs_expiry now;
}

abbrev session_of : ℕ → Option Token → SessionResult
session_of now none = no_session
session_of now (some t) = session_at now t

unfoldable pub verify_session : Crypto → Bytes → Bytes → ℕ → SessionResult
unfolding parse_token
verify_session crypto secret token now = session_of now (parse_token crypto secret token)

abbrev refreshed : Crypto → Bytes → ℕ → Option Token → Bytes
refreshed crypto secret now none = []
refreshed crypto secret now (some t) =
    if leb t.abs_expiry now || leb t.idle_deadline now
    then []
    else mint_raw crypto secret (record t { idle_deadline = (now + idle_timeout_ms) % 2 ^ 64 })

unfoldable pub refresh_session : Crypto → Bytes → Bytes → ℕ → Bytes
unfolding parse_token mint_raw
refresh_session crypto secret token now =
    refreshed crypto secret now (parse_token crypto secret token)

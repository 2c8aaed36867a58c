-- ===== src/Tests/RuntimeRuns.antt =====
-- Runs of lib/runtime, with primitives that meet the interface.
use homekit_rf_ir_blaster.Base.{
  ◌+◌, ◌^◌, ◌≤◌, ◌<◌, ◌≡◌, ◌↔◌, ◌⊎◌, inl, refl, true, false, List, [], ◌∷◌, ◌++◌, none, some, Bytes,
  codes, arith,
}
use homekit_rf_ir_blaster.Config.Model.{default_settings, default_config}
use homekit_rf_ir_blaster.Config.Validate.{default_validates}
use homekit_rf_ir_blaster.Runtime.Crypto.{zero_crypto}
use homekit_rf_ir_blaster.Runtime.Encoding.{encode, decode}
use homekit_rf_ir_blaster.Runtime.Encoding.RoundTrip.{decode-encode}
use homekit_rf_ir_blaster.Runtime.Decimal.Overflow.{parse_uint64-decimal}
use homekit_rf_ir_blaster.Runtime.Decimal.{to_string, parse_uint64}
use homekit_rf_ir_blaster.Runtime.Throttle.{
  Entry, fails, succeeds, empty_table, find, find_slot, choose_slot, is_locked, time_remaining_ms,
  record_all, record_failure, lockout_ms,
}
use homekit_rf_ir_blaster.Runtime.Throttle.Attack.{LockedUntil, record_all-is_locked}
use homekit_rf_ir_blaster.Runtime.Throttle.FiveFailures.{record_all-five_failures}
use homekit_rf_ir_blaster.Runtime.Session.{
  Token, mint_session, verify_session, idle_timeout_ms, absolute_timeout_ms,
}
use homekit_rf_ir_blaster.Runtime.Session.Tokens.{IsToken, IsSigned}
use homekit_rf_ir_blaster.Runtime.Session.Expiry.{
  IsUser, refresh_all, verify_session-mint_session, verify_session-IsSigned,
  refresh_all-verify_session,
}
use homekit_rf_ir_blaster.Runtime.Password.{derive_credential, verify_password}
use homekit_rf_ir_blaster.Runtime.Password.Records.{
  IsAccepted, verify_password-derive_credential, verify_password-IsAccepted,
}
use homekit_rf_ir_blaster.Runtime.Csrf.{mint_csrf, verify_csrf}
use homekit_rf_ir_blaster.Runtime.Csrf.Tokens.{IsBound, verify_csrf-mint_csrf, verify_csrf-IsBound}
use homekit_rf_ir_blaster.Runtime.Policy.{
  Request, http, secure, serve, redirect, evaluate, effective_scheme,
}
use homekit_rf_ir_blaster.Runtime.Fields.{has, cut}
use homekit_rf_ir_blaster.Runtime.Policy.Redirects.{
  IsSettled, claimed, evaluate-secure, evaluate-IsSettled,
}

abbrev secret : Bytes
secret = codes "secret"

abbrev admin : Bytes
admin = codes "admin"

admin-IsUser : IsUser admin
unfolding has
admin-IsUser = record { named = refl; clean = refl; bytes = ground arith }

abbrev token : Token
token = record { user = admin; iat = 7; abs_expiry = 28800007; idle_deadline = 900007 }

token-IsToken : IsToken token
unfolding has
token-IsToken = record {
  named = refl;
  clean = refl;
  user_bytes = ground arith;
  iat_fits = omega arith;
  abs_fits = omega arith;
  idle_fits = omega arith;
}

verify_session-mint_session_example :
    let r = verify_session zero_crypto secret (mint_session zero_crypto secret admin 7) 1000 in
    (r.user ≡ admin)
    × (r.binding ≡ admin ++ (b'|' ∷ to_string 7))
    × (r.valid ≡ true ↔ 1000 < 7 + idle_timeout_ms)
    × (r.expired_absolute ≡ true ↔ 7 + absolute_timeout_ms ≤ 1000)
verify_session-mint_session_example =
    verify_session-mint_session zero_crypto secret admin 7 1000 admin-IsUser (omega arith)

session_is_valid :
    (verify_session zero_crypto secret (mint_session zero_crypto secret admin 7) 1000).valid ≡ true
session_is_valid =
    (verify_session-mint_session zero_crypto secret admin 7 1000 admin-IsUser (omega arith)).2.1
      (omega arith)

verify_session-IsSigned_example :
    IsSigned zero_crypto secret (mint_session zero_crypto secret admin 7)
verify_session-IsSigned_example =
    verify_session-IsSigned zero_crypto secret (mint_session zero_crypto secret admin 7) 1000
      session_is_valid

refresh_all-verify_session_example :
    let session =
      refresh_all zero_crypto secret (mint_session zero_crypto secret admin 7) (1000 ∷ 2000 ∷ []) in
    let r = verify_session zero_crypto secret session 30000000 in
    (7 + absolute_timeout_ms ≤ 30000000 → r.valid ≡ false)
    × (r.valid ≡ true → (r.user ≡ admin) × (r.binding ≡ admin ++ (b'|' ∷ to_string 7)))
refresh_all-verify_session_example =
    refresh_all-verify_session zero_crypto secret admin 7 30000000 (1000 ∷ 2000 ∷ []) admin-IsUser
      (omega arith)

abbrev locked_table : List Entry
locked_table =
    record_all (fails 9 1 ∷ fails 9 2 ∷ fails 9 3 ∷ fails 9 4 ∷ fails 9 5 ∷ []) empty_table

locked_table-LockedUntil : LockedUntil 9 900005 locked_table
unfolding record_all find find_slot choose_slot record_failure
locked_table-LockedUntil = (
  record { client_key = 9; failures = 5; locked_until = 900005; last_seen_ms = 5; used = true },
  refl,
  refl,
)

record_all-is_locked_example :
    (is_locked 9 800000 (record_all (fails 9 6 ∷ succeeds 9 7 ∷ []) locked_table) ≡ true)
    × (time_remaining_ms 9 800000 (record_all (fails 9 6 ∷ succeeds 9 7 ∷ []) locked_table)
        ≡ 100005)
record_all-is_locked_example =
    record_all-is_locked 9 900005 800000 (fails 9 6 ∷ succeeds 9 7 ∷ []) locked_table (omega arith)
      locked_table-LockedUntil (((omega arith), inl refl), (omega arith, tt)) (omega arith)

unknown_client : find 9 empty_table ≡ none
unfolding find
unknown_client = refl

record_all-five_failures_example :
    let four = record_all (fails 9 1 ∷ fails 9 2 ∷ fails 9 3 ∷ fails 9 4 ∷ []) empty_table in
    let five = record_failure 9 5 four in
    (is_locked 9 100 four ≡ false)
    × (5 + lockout_ms < 2 ^ 32 → 100 < 5 + lockout_ms → is_locked 9 100 five ≡ true)
    × (5 + lockout_ms < 2 ^ 32 → 5 + lockout_ms ≤ 100 → is_locked 9 100 five ≡ false)
    × (2 ^ 32 ≤ 5 + lockout_ms → is_locked 9 5 five ≡ false)
record_all-five_failures_example =
    record_all-five_failures 9 1 2 3 4 5 100 empty_table (omega arith) unknown_client (omega arith)

verify_password-derive_credential_example :
    verify_password zero_crypto admin (derive_credential zero_crypto admin (1 ∷ 2 ∷ []) 60000)
    ≡ true
verify_password-derive_credential_example =
    verify_password-derive_credential zero_crypto admin (1 ∷ 2 ∷ []) 60000 refl (ground arith)
      (omega arith) (omega arith)

verify_password-IsAccepted_example :
    IsAccepted zero_crypto admin (derive_credential zero_crypto admin (1 ∷ 2 ∷ []) 60000)
verify_password-IsAccepted_example =
    verify_password-IsAccepted zero_crypto admin
      (derive_credential zero_crypto admin (1 ∷ 2 ∷ []) 60000)
      (verify_password-derive_credential zero_crypto admin (1 ∷ 2 ∷ []) 60000 refl (ground arith)
        (omega arith) (omega arith))

verify_csrf-mint_csrf_example :
    verify_csrf zero_crypto secret
      (codes "admin|7")
      (mint_csrf zero_crypto secret (codes "admin|7") (1 ∷ 2 ∷ []))
      (mint_csrf zero_crypto secret (codes "admin|7") (1 ∷ 2 ∷ []))
    ≡ true
verify_csrf-mint_csrf_example =
    verify_csrf-mint_csrf zero_crypto secret (codes "admin|7") (1 ∷ 2 ∷ []) (ground arith)

verify_csrf-IsBound_example :
    IsBound zero_crypto secret
      (codes "admin|7")
      (mint_csrf zero_crypto secret (codes "admin|7") (1 ∷ 2 ∷ []))
      (mint_csrf zero_crypto secret (codes "admin|7") (1 ∷ 2 ∷ []))
verify_csrf-IsBound_example =
    verify_csrf-IsBound zero_crypto secret (codes "admin|7")
      (mint_csrf zero_crypto secret (codes "admin|7") (1 ∷ 2 ∷ []))
      (mint_csrf zero_crypto secret (codes "admin|7") (1 ∷ 2 ∷ []))
      (verify_csrf-mint_csrf zero_crypto secret (codes "admin|7") (1 ∷ 2 ∷ []) (ground arith))

abbrev plain_request : Request
plain_request = record {
  transport = http;
  forwarded_proto = [];
  host = codes "10.0.0.7:80";
  target = codes "/";
  is_loopback = false;
}

abbrev secure_request : Request
secure_request = record plain_request { transport = secure }

plain_is_redirected : evaluate plain_request default_settings ≡ redirect (codes "https://10.0.0.7/")
unfolding evaluate cut
plain_is_redirected = refl

evaluate-IsSettled_example : IsSettled plain_request default_settings (codes "https://10.0.0.7/")
evaluate-IsSettled_example =
    evaluate-IsSettled default_config plain_request (codes "https://10.0.0.7/") default_validates
      plain_is_redirected

secure_is_served : evaluate secure_request default_settings ≡ serve
unfolding evaluate cut
secure_is_served = refl

evaluate-secure_example :
    (effective_scheme secure_request default_settings.trusted_proxy ≡ secure)
    × (((secure_request.transport ≡ secure)
          × ((default_settings.trusted_proxy ≡ false) ⊎ (claimed secure_request ≡ [])))
        ⊎ ((default_settings.trusted_proxy ≡ true) × (claimed secure_request ≡ codes "https")))
evaluate-secure_example = evaluate-secure secure_request default_settings refl refl secure_is_served

decode-encode_example : decode (encode (255 ∷ 0 ∷ 7 ∷ 200 ∷ [])) ≡ some (255 ∷ 0 ∷ 7 ∷ 200 ∷ [])
decode-encode_example = decode-encode (255 ∷ 0 ∷ 7 ∷ 200 ∷ []) (ground arith)

parse_uint64-decimal_example :
    parse_uint64 (to_string 29999999999999999999) ≡ some 11553255926290448383
parse_uint64-decimal_example = parse_uint64-decimal 29999999999999999999 (omega arith)

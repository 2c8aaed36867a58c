-- ===== src/Device/Auth/Login.antt =====
-- src/web_auth.cpp, handleLogin: who is signed in.
use homekit_rf_ir_blaster.Base.{
  ◌%◌, ◌^◌, ◌≡◌, refl, Bool, true, false, Option, none, some, Bytes, codes, Bool-cases, inl, inr,
  [],
}
use homekit_rf_ir_blaster.Runtime.Crypto.{Crypto}
use homekit_rf_ir_blaster.Runtime.Password.Records.{IsAccepted, verify_password-IsAccepted}
use homekit_rf_ir_blaster.Runtime.Throttle.{is_locked}
use homekit_rf_ir_blaster.Device.Form.{form_field}
use homekit_rf_ir_blaster.Device.AuthStore.{Nvs, get_credential}
use homekit_rf_ir_blaster.Device.Auth.{
  Auth, WebRequest, AuthReply, signed_in, text_or_empty, client_key, check_csrf, sign_in, accepts,
  try_password, handle_login,
}

abbrev pub is_signed_in : AuthReply → Bool
is_signed_in (signed_in cookie) = true
is_signed_in _ = false

-- What a login that succeeded shows.
pub record IsLogin {N : Type 0} (crypto : Crypto) (ops : Nvs N) (q : WebRequest) (a : Auth N)
    : Type 0 where
  pub csrf : check_csrf crypto q a [] ≡ true
  pub unlocked : is_locked (client_key q a) (q.now_ms % 2 ^ 32) a.throttle ≡ false
  pub stored : Bytes
  pub is_stored : get_credential ops a.store ≡ some stored
  pub accepted : IsAccepted crypto (text_or_empty (form_field q.body (codes "password"))) stored

accepts-stored :
    (crypto : Crypto) (password : Bytes) (o : Option Bytes)
    → accepts crypto password o ≡ true
    → (stored : Bytes) × (o ≡ some stored) × IsAccepted crypto password stored
accepts-stored crypto password none h = absurd (cc h)
accepts-stored crypto password (some stored) h =
    (stored, refl, verify_password-IsAccepted crypto password stored h)

-- What a reply must keep: a sign-in shows the conditions of a login, and the store stays.
Keeps : {N : Type 0} → Crypto → Nvs N → WebRequest → Auth N → AuthReply × Auth N → Type 0
Keeps crypto ops q a (reply, a') =
    (is_signed_in reply ≡ true → IsLogin crypto ops q a) × (a'.store ≡ a.store)

try_password-Keeps :
    {N : Type 0} (crypto : Crypto) (ops : Nvs N) (q : WebRequest) (a : Auth N)
    → check_csrf crypto q a [] ≡ true
    → is_locked (client_key q a) (q.now_ms % 2 ^ 32) a.throttle ≡ false
    → Keeps crypto ops q a (try_password crypto ops q a)
unfolding Keeps try_password sign_in
try_password-Keeps crypto ops q a csrf unlocked =
    let password = text_or_empty (form_field q.body (codes "password")) in
    elim (Bool-cases (accepts crypto password (get_credential ops a.store))) [
      | inl good ↦
          let (stored, is_stored, accepted) =
            accepts-stored crypto password (get_credential ops a.store) good in
          simp good (
            λ h. record {
              csrf = csrf;
              unlocked = unlocked;
              stored = stored;
              is_stored = is_stored;
              accepted = accepted;
            },
            refl,
          )
      | inr bad ↦ simp bad (λ h. absurd (cc h), refl)
    ]

handle_login-Keeps :
    {N : Type 0} (crypto : Crypto) (ops : Nvs N) (q : WebRequest) (a : Auth N)
    → Keeps crypto ops q a (handle_login crypto ops q a)
unfolding handle_login Keeps
handle_login-Keeps crypto ops q a = elim (Bool-cases q.body_read) [
  | inr cut ↦ simp cut (λ h. absurd (cc h), refl)
  | inl whole ↦ elim (Bool-cases (check_csrf crypto q a [])) [
    | inr stale ↦ simp (whole, stale) (λ h. absurd (cc h), refl)
    | inl fresh ↦ elim (Bool-cases (is_locked (client_key q a) (q.now_ms % 2 ^ 32) a.throttle)) [
      | inl shut ↦ simp (whole, fresh, shut) (λ h. absurd (cc h), refl)
      | inr free ↦ simp (whole, fresh, free) (try_password-Keeps crypto ops q a fresh free)
    ]
  ]
]

-- A login that signs in had a valid CSRF token, came from a client that is not locked out, and gave a
-- password that is accepted against the record in the store, which it leaves as it was.
pub handle_login-IsLogin :
    {N : Type 0} (crypto : Crypto) (ops : Nvs N) (q : WebRequest) (a : Auth N)
    → is_signed_in (handle_login crypto ops q a).0 ≡ true
    → IsLogin crypto ops q a × ((handle_login crypto ops q a).1.store ≡ a.store)
unfolding Keeps
handle_login-IsLogin crypto ops q a h =
    let (login, store) = handle_login-Keeps crypto ops q a in (login h, store)

-- ===== src/Device/Auth.antt =====
-- src/web_auth.cpp: the gate before the pages and the handlers of login, setup and logout, over
-- lib/runtime and the store of the credential. A request carries what the HTTP server's library
-- answers about it; replies are named, not printed. `authBegin` has made the store.
pub mod Login
pub mod Setup
use homekit_rf_ir_blaster.Base.{
  ℕ, ◌-◌, ◌%◌, ◌^◌, ◌≡◌, refl, Bool, true, false, ◌&&◌, ◌||◌, not, List, [], ◌∷◌, Option, none,
  some, ltb, leb, if◌then◌else◌, length, null, drop, Bytes, bytes_eq, codes, is_some,
}
use homekit_rf_ir_blaster.Runtime.Crypto.{Crypto}
use homekit_rf_ir_blaster.Runtime.Session.{SessionResult, verify_session, mint_session}
use homekit_rf_ir_blaster.Runtime.Csrf.{verify_csrf, mint_csrf}
use homekit_rf_ir_blaster.Runtime.Password.{verify_password, derive_credential}
use homekit_rf_ir_blaster.Runtime.Throttle.{
  Entry, is_locked, time_remaining_ms, record_failure, record_success,
}
use homekit_rf_ir_blaster.Runtime.Setup.{setup_allowed}
use homekit_rf_ir_blaster.Runtime.ClientKey.{derive_client_key}
use homekit_rf_ir_blaster.Runtime.Headers.{
  session_cookie_name, csrf_cookie_name, session_cookie, clear_session_cookie, csrf_cookie,
}
use homekit_rf_ir_blaster.Device.Form.{form_field}
use homekit_rf_ir_blaster.Device.AuthStore.{
  Nvs, AuthStore, has_credential, get_credential, set_credential, get_nonce, clear_nonce,
}

abbrev pub default_iterations : ℕ
default_iterations = 150000

-- The state of web_auth.cpp: the settings it reads, the secret, the store and the throttle.
pub record Auth (N : Type 0) : Type 0 where
  pub trusted_proxy : Bool
  pub secure_cookies : Bool
  pub session_secret : Bytes
  pub store : AuthStore N
  pub throttle : List Entry

-- What readBody leaves, and whether it could read the whole body; the cookies by name; the peer's
-- address and the proxy's headers; and the time in ms since the boot.
pub record WebRequest : Type 0 where
  pub body_read : Bool
  pub body : Bytes
  pub cookie : Bytes → Option Bytes
  pub peer : ℕ
  pub real_ip : Bytes
  pub forwarded_for : Bytes
  pub now_ms : ℕ

-- A reply, with the cookie that it sets.
pub data AuthReply : Type 0 where
  bad_request forbidden wrong_password bad_nonce weak : AuthReply
  locked : ℕ → AuthReply
  signed_in signed_out : Bytes → AuthReply
  token : Bytes → Bytes → AuthReply

abbrev pub text_or_empty : Option Bytes → Bytes
text_or_empty none = []
text_or_empty (some t) = t

unfoldable pub client_key : {N : Type 0} → WebRequest → Auth N → ℕ
client_key q a = derive_client_key q.peer a.trusted_proxy q.real_ip q.forwarded_for

abbrev pub session_of : Crypto → Bytes → ℕ → Option Bytes → Option SessionResult
session_of crypto secret now none = none
session_of crypto secret now (some sid) = some (verify_session crypto secret sid now)

abbrev pub binding_of : Option SessionResult → Bytes
binding_of none = []
binding_of (some s) = if s.valid then s.binding else []

abbrev pub is_valid : Option SessionResult → Bool
is_valid none = false
is_valid (some s) = s.valid

unfoldable pub session_binding : {N : Type 0} → Crypto → WebRequest → Auth N → Bytes
session_binding crypto q a =
    binding_of (
      session_of crypto a.session_secret q.now_ms (q.cookie (session_cookie_name a.secure_cookies)))

unfoldable pub has_valid_session : {N : Type 0} → Crypto → WebRequest → Auth N → Bool
has_valid_session crypto q a =
    is_valid (
      session_of crypto a.session_secret q.now_ms (q.cookie (session_cookie_name a.secure_cookies)))

-- verifyCsrf with the request's cookie.
unfoldable pub check_token : {N : Type 0} → Crypto → WebRequest → Auth N → Bytes → Bytes → Bool
check_token crypto q a binding form_token =
    verify_csrf crypto a.session_secret binding
      (text_or_empty (q.cookie (csrf_cookie_name a.secure_cookies))) form_token

unfoldable pub check_csrf : {N : Type 0} → Crypto → WebRequest → Auth N → Bytes → Bool
unfolding check_token
check_csrf crypto q a binding =
    check_token crypto q a binding (text_or_empty (form_field q.body (codes "csrf")))

-- csrfValid, for the requests that carry the token in a header.
unfoldable pub csrf_valid : {N : Type 0} → Crypto → WebRequest → Auth N → Bytes → Bool
unfolding check_token session_binding
csrf_valid crypto q a form_token = check_token crypto q a (session_binding crypto q a) form_token

unfoldable pub handle_csrf : {N : Type 0} → Crypto → Bytes → WebRequest → Auth N → AuthReply
unfolding session_binding
handle_csrf crypto rand q a =
    let tok = mint_csrf crypto a.session_secret (session_binding crypto q a) rand in
    token tok (csrf_cookie tok a.secure_cookies)

-- The cookie of a new session of the one user.
unfoldable pub sign_in : {N : Type 0} → Crypto → WebRequest → Auth N → AuthReply
sign_in crypto q a = signed_in (
    session_cookie (mint_session crypto a.session_secret (codes "admin") q.now_ms) a.secure_cookies)

abbrev pub accepts : Crypto → Bytes → Option Bytes → Bool
accepts crypto password none = false
accepts crypto password (some stored) = verify_password crypto password stored

-- The password is tried, and the throttle is told.
unfoldable pub try_password :
    {N : Type 0} → Crypto → Nvs N → WebRequest → Auth N → AuthReply × Auth N
unfolding sign_in client_key
try_password crypto ops q a =
    let now = q.now_ms % 2 ^ 32 in
    let password = text_or_empty (form_field q.body (codes "password")) in
    if accepts crypto password (get_credential ops a.store)
    then (
      sign_in crypto q a,
      record a { throttle = record_success (client_key q a) now a.throttle },
    )
    else (wrong_password, record a { throttle = record_failure (client_key q a) now a.throttle })

unfoldable pub handle_login :
    {N : Type 0} → Crypto → Nvs N → WebRequest → Auth N → AuthReply × Auth N
unfolding try_password check_csrf client_key
handle_login crypto ops q a =
    let now = q.now_ms % 2 ^ 32 in
    if not q.body_read
    then (bad_request, a)
    else if not (check_csrf crypto q a [])
    then (forbidden, a)
    else if is_locked (client_key q a) now a.throttle
    then (locked (time_remaining_ms (client_key q a) now a.throttle), a)
    else try_password crypto ops q a

-- The password of a setup that is allowed: derived, stored, and the nonce used up.
unfoldable pub set_password :
    {N : Type 0} → Crypto → Nvs N → Bytes → WebRequest → Auth N → AuthReply × Auth N
unfolding sign_in
set_password crypto ops salt q a =
    let password = text_or_empty (form_field q.body (codes "password")) in
    let derived = derive_credential crypto password salt default_iterations in
    let written = set_credential ops derived a.store in
    if ltb (length password) 8
    then (weak, a)
    else if null derived
    then (weak, a)
    else if not written.0
    then (weak, record a { store = written.1 })
    else (sign_in crypto q a, record a { store = clear_nonce ops written.1 })

unfoldable pub handle_setup :
    {N : Type 0} → Crypto → Nvs N → Bytes → WebRequest → Auth N → AuthReply × Auth N
unfolding set_password check_csrf
handle_setup crypto ops salt q a =
    let nonce = text_or_empty (form_field q.body (codes "nonce")) in
    let stored = text_or_empty (get_nonce ops a.store) in
    if not q.body_read
    then (bad_nonce, a)
    else if not (check_csrf crypto q a [])
    then (forbidden, a)
    else if not (setup_allowed (has_credential ops a.store) nonce stored 0 q.now_ms)
    then (bad_nonce, a)
    else set_password crypto ops salt q a

unfoldable pub handle_logout : {N : Type 0} → Crypto → WebRequest → Auth N → AuthReply
unfolding check_csrf session_binding
handle_logout crypto q a =
    if not (check_csrf crypto q a (session_binding crypto q a))
    then forbidden
    else signed_out (clear_session_cookie a.secure_cookies)

pub data GateResult : Type 0 where
  allow redirect_setup redirect_login redirect_dashboard : GateResult

unfoldable pub ends_with_html : Bytes → Bool
ends_with_html path = leb 5 (length path) && bytes_eq (drop (length path - 5) path) (codes ".html")

unfoldable pub gate : {N : Type 0} → Crypto → Nvs N → WebRequest → Bytes → Auth N → GateResult
unfolding ends_with_html has_valid_session
gate crypto ops q path a =
    if not (ends_with_html path)
    then allow
    else if not (has_credential ops a.store)
    then (if bytes_eq path (codes "/setup.html") then allow else redirect_setup)
    else if not (has_valid_session crypto q a)
    then (if bytes_eq path (codes "/login.html") then allow else redirect_login)
    else if bytes_eq path (codes "/login.html") || bytes_eq path (codes "/setup.html")
    then redirect_dashboard
    else allow

-- ===== src/Tests/AuthRuns.antt =====
-- Runs of src/web_auth.cpp: a device that is set up with its nonce, and a login after that.
use homekit_rf_ir_blaster.Base.{
  ◌≡◌, ◌≢◌, refl, true, false, [], ◌∷◌, ◌++◌, Option, none, some, if◌then◌else◌, Bytes, bytes_eq,
  bytes_eq_sound, bytes_eq_refl, codes, replicate, Bool-cases, inl, inr,
}
use homekit_rf_ir_blaster.Runtime.Crypto.{zero_crypto, constant_time_equal}
use homekit_rf_ir_blaster.Runtime.Csrf.{mint_csrf, verify_csrf}
use homekit_rf_ir_blaster.Runtime.Encoding.{encode, decode}
use homekit_rf_ir_blaster.Runtime.Fields.{split_on, cut, has}
use homekit_rf_ir_blaster.Runtime.Decimal.{to_string, decimal}
use homekit_rf_ir_blaster.Runtime.Setup.{setup_allowed}
use homekit_rf_ir_blaster.Runtime.Password.{
  derive_credential, verify_password, parse_iterations, iteration_digits,
}
use homekit_rf_ir_blaster.Device.Form.{form_field}
use homekit_rf_ir_blaster.Runtime.Headers.{csrf_cookie_name}
use homekit_rf_ir_blaster.Runtime.Throttle.{empty_table, is_locked}
use homekit_rf_ir_blaster.Device.AuthStore.{
  Nvs, key_nonce, key_cred, has_credential, get_nonce, set_credential, get_credential,
}
use homekit_rf_ir_blaster.Device.Auth.{Auth, WebRequest, handle_login, handle_setup}
use homekit_rf_ir_blaster.Device.Auth.Login.{is_signed_in, IsLogin, handle_login-IsLogin}
use homekit_rf_ir_blaster.Device.Auth.Setup.{handle_setup-once}

-- A namespace in memory.
abbrev Strings : Type 0
Strings = Bytes → Option Bytes

abbrev put : Bytes → Option Bytes → Strings → Strings
put key v n = λ (k : Bytes). if bytes_eq k key then v else n k

put_self : (key : Bytes) (v : Option Bytes) (n : Strings) → put key v n key ≡ v
put_self key v n = rw (bytes_eq_refl key) refl

put_other :
    (key other : Bytes) (v : Option Bytes) (n : Strings) → key ≢ other → put other v n key ≡ n key
put_other key other v n apart = elim (Bool-cases (bytes_eq key other)) [
  | inl e ↦ absurd (apart (bytes_eq_sound key other e))
  | inr e ↦ rw e refl
]

abbrev memory_nvs : Nvs Strings
memory_nvs = record {
  get_str = λ key n. n key;
  set_str = λ key v n. (true, put key (some v) n);
  erase_key = λ key n. put key none n;
  commit = λ n. (true, n);
  get_set = λ key v n h. put_self key (some v) n;
  get_erase_other = λ key other n apart. put_other key other none n apart;
  get_commit = λ key n. refl;
}

abbrev new_device : Auth Strings
new_device = record {
  trusted_proxy = false;
  secure_cookies = true;
  session_secret = 7 ∷ [];
  store = record { ok = true; nvs = put key_nonce (some (codes "abc")) (λ k. none) };
  throttle = empty_table;
}

abbrev csrf_token : Bytes
csrf_token = mint_csrf zero_crypto (7 ∷ []) [] (1 ∷ 2 ∷ 3 ∷ [])

abbrev request : WebRequest
request = record {
  body_read = true;
  body = codes "nonce=abc&password=long+enough&csrf=" ++ csrf_token;
  cookie = λ name. if bytes_eq name (csrf_cookie_name true) then some csrf_token else none;
  peer = 0;
  real_ip = [];
  forwarded_for = [];
  now_ms = 1000;
}

set_up :
    is_signed_in (handle_setup zero_crypto memory_nvs (replicate 16 9) request new_device).0 ≡ true
unfolding handle_setup verify_csrf bytes_eq csrf_cookie_name mint_csrf encode constant_time_equal
    form_field split_on cut has decode setup_allowed has_credential get_nonce derive_credential
    set_credential
set_up = refl

handle_setup-once_example :
    let after = (handle_setup zero_crypto memory_nvs (replicate 16 9) request new_device).1 in
    ((handle_setup zero_crypto memory_nvs (replicate 16 8) request after).1 ≡ after)
    × (is_signed_in (handle_setup zero_crypto memory_nvs (replicate 16 8) request after).0 ≡ false)
handle_setup-once_example =
    handle_setup-once zero_crypto memory_nvs (replicate 16 9) (replicate 16 8) request request
      new_device set_up

-- The device with the password's record in its store.
abbrev owned_device : Auth Strings
owned_device = record new_device {
  store = record {
    ok = true;
    nvs =
        put key_cred (some (derive_credential zero_crypto (codes "long enough") (9 ∷ []) 1000))
          (λ k. none);
  };
}

logged_in : is_signed_in (handle_login zero_crypto memory_nvs request owned_device).0 ≡ true
unfolding handle_login verify_csrf bytes_eq csrf_cookie_name mint_csrf encode constant_time_equal
    form_field split_on cut has decode derive_credential get_credential verify_password is_locked
    to_string decimal parse_iterations iteration_digits
logged_in = refl

handle_login-IsLogin_example :
    IsLogin zero_crypto memory_nvs request owned_device
    × ((handle_login zero_crypto memory_nvs request owned_device).1.store ≡ owned_device.store)
handle_login-IsLogin_example =
    handle_login-IsLogin zero_crypto memory_nvs request owned_device logged_in

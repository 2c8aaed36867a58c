-- ===== src/Device/Auth/Setup.antt =====
-- src/web_auth.cpp, handleSetup: that a credential is set once.
use homekit_rf_ir_blaster.Base.{
  ℕ, ◌≡◌, ◌≢◌, refl, ap, ◌∙◌, true, false, some, Bytes, codes, Bool-cases, inl, inr, [], length,
  arith, ltb, null,
}
use homekit_rf_ir_blaster.Runtime.Crypto.{Crypto}
use homekit_rf_ir_blaster.Runtime.Password.{derive_credential}
use homekit_rf_ir_blaster.Runtime.Setup.{setup_allowed}
use homekit_rf_ir_blaster.Device.Form.{form_field}
use homekit_rf_ir_blaster.Device.AuthStore.{
  Nvs, AuthStore, key_cred, key_nonce, c_str, is_filled, has_credential, write_str, set_credential,
  clear_nonce, get_nonce,
}
use homekit_rf_ir_blaster.Device.Auth.{
  Auth, WebRequest, default_iterations, text_or_empty, check_csrf, set_password, handle_setup,
}
use homekit_rf_ir_blaster.Device.Auth.Login.{is_signed_in}

-- With a credential, a setup changes nothing and signs no one in.
handle_setup-refused :
    {N : Type 0} (crypto : Crypto) (ops : Nvs N) (salt : Bytes) (q : WebRequest) (a : Auth N)
    → has_credential ops a.store ≡ true
    → ((handle_setup crypto ops salt q a).1 ≡ a)
      × (is_signed_in (handle_setup crypto ops salt q a).0 ≡ false)
unfolding handle_setup setup_allowed
handle_setup-refused crypto ops salt q a set = elim (Bool-cases q.body_read) [
  | inr cut ↦ simp cut (refl, refl)
  | inl whole ↦ elim (Bool-cases (check_csrf crypto q a [])) [
    | inr stale ↦ simp (whole, stale) (refl, refl)
    | inl fresh ↦ simp (whole, fresh, set) (refl, refl)
  ]
]

write_str-get :
    {N : Type 0} (ops : Nvs N) (key text : Bytes) (s : AuthStore N)
    → (write_str ops key text s).0 ≡ true
    → ((write_str ops key text s).1.ok ≡ true)
      × (ops.get_str key (write_str ops key text s).1.nvs ≡ some (c_str text))
unfolding write_str
write_str-get ops key text s h = elim (Bool-cases s.ok) [
  | inr shut ↦ let h' = simp shut at h in absurd (cc h')
  | inl opened ↦ elim (Bool-cases (ops.set_str key (c_str text) s.nvs).0) [
    | inr full ↦ let h' = simp (opened, full) at h in absurd (cc h')
    | inl put ↦
        simp (opened, put)
          (
            refl,
            ops.get_commit key (ops.set_str key (c_str text) s.nvs).1
                ∙ ops.get_set key (c_str text) s.nvs put,
          )
  ]
]

keys_apart : key_cred ≢ key_nonce
keys_apart e = let sizes : 4 ≡ 5 = ap (length {A = ℕ}) e in omega (arith, sizes)

derived_filled :
    (crypto : Crypto) (password salt : Bytes) (n : ℕ)
    → is_filled (some (c_str (derive_credential crypto password salt n))) ≡ true
unfolding c_str derive_credential
derived_filled crypto password salt n = refl

clear_nonce-has_credential :
    {N : Type 0} (ops : Nvs N) (s : AuthStore N) (text : Bytes)
    → s.ok ≡ true
    → ops.get_str key_cred s.nvs ≡ some text
    → is_filled (some text) ≡ true
    → has_credential ops (clear_nonce ops s) ≡ true
unfolding has_credential clear_nonce
clear_nonce-has_credential ops s text opened held filled =
    let kept : ops.get_str key_cred (ops.commit (ops.erase_key key_nonce s.nvs)).1 ≡ some text =
      ops.get_commit key_cred (ops.erase_key key_nonce s.nvs)
      ∙ ops.get_erase_other key_cred key_nonce s.nvs keys_apart
      ∙ held in
    simp (opened, kept) filled

set_password-has_credential :
    {N : Type 0} (crypto : Crypto) (ops : Nvs N) (salt : Bytes) (q : WebRequest) (a : Auth N)
    → is_signed_in (set_password crypto ops salt q a).0 ≡ true
    → has_credential ops (set_password crypto ops salt q a).1.store ≡ true
unfolding set_password set_credential
set_password-has_credential crypto ops salt q a h =
    let password = text_or_empty (form_field q.body (codes "password")) in
    let derived = derive_credential crypto password salt default_iterations in
    let written = write_str ops key_cred derived a.store in
    elim (Bool-cases (ltb (length password) 8)) [
      | inl short ↦ let h' = simp short at h in absurd (cc h')
      | inr long ↦ elim (Bool-cases (null derived)) [
        | inl empty ↦ let h' = simp (long, empty) at h in absurd (cc h')
        | inr some_text ↦ elim (Bool-cases written.0) [
          | inr lost ↦ let h' = simp (long, some_text, lost) at h in absurd (cc h')
          | inl put ↦
              let (opened, held) = write_str-get ops key_cred derived a.store put in
              simp (long, some_text, put)
                (clear_nonce-has_credential ops written.1 (c_str derived) opened held
                  (derived_filled crypto password salt default_iterations))
        ]
      ]
    ]

handle_setup-has_credential :
    {N : Type 0} (crypto : Crypto) (ops : Nvs N) (salt : Bytes) (q : WebRequest) (a : Auth N)
    → is_signed_in (handle_setup crypto ops salt q a).0 ≡ true
    → has_credential ops (handle_setup crypto ops salt q a).1.store ≡ true
unfolding handle_setup
handle_setup-has_credential crypto ops salt q a h = elim (Bool-cases q.body_read) [
  | inr cut ↦ let h' = simp cut at h in absurd (cc h')
  | inl whole ↦ elim (Bool-cases (check_csrf crypto q a [])) [
    | inr stale ↦ let h' = simp (whole, stale) at h in absurd (cc h')
    | inl fresh ↦
        let nonce = text_or_empty (form_field q.body (codes "nonce")) in
        let stored = text_or_empty (get_nonce ops a.store) in
        elim (Bool-cases (setup_allowed (has_credential ops a.store) nonce stored 0 q.now_ms)) [
          | inr denied ↦ let h' = simp (whole, fresh, denied) at h in absurd (cc h')
          | inl allowed ↦
              let h' = simp (whole, fresh, allowed) at h in
              simp (whole, fresh, allowed) (set_password-has_credential crypto ops salt q a h')
        ]
  ]
]

-- A credential is set once: after a setup that succeeded, no setup request, whatever it carries,
-- changes anything or signs anyone in.
pub handle_setup-once :
    {N : Type 0} (crypto : Crypto) (ops : Nvs N) (salt salt' : Bytes) (q q' : WebRequest)
    (a : Auth N)
    → is_signed_in (handle_setup crypto ops salt q a).0 ≡ true
    → let after = (handle_setup crypto ops salt q a).1 in
      ((handle_setup crypto ops salt' q' after).1 ≡ after)
      × (is_signed_in (handle_setup crypto ops salt' q' after).0 ≡ false)
handle_setup-once crypto ops salt salt' q q' a h =
    handle_setup-refused crypto ops salt' q' (handle_setup crypto ops salt q a).1
      (handle_setup-has_credential crypto ops salt q a h)

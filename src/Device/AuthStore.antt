-- ===== src/Device/AuthStore.antt =====
-- src/auth_store.cpp: the credential, the setup nonce and the two texts that are shown, in the
-- device's non-volatile storage.
use homekit_rf_ir_blaster.Base.{
  ◌≡◌, ◌≢◌, Bool, true, false, ◌&&◌, not, [], ◌∷◌, Option, none, some, ◌==◌, if◌then◌else◌, null,
  Bytes, codes,
}

-- The strings of a namespace, with what the documentation of NVS says of them.
pub record Nvs (N : Type 0) : Type 0 where
  pub get_str : Bytes → N → Option Bytes
  pub set_str : Bytes → Bytes → N → Bool × N
  pub erase_key : Bytes → N → N
  pub commit : N → Bool × N
  pub get_set :
      (key v : Bytes) (n : N)
      → (set_str key v n).0 ≡ true
      → get_str key (set_str key v n).1 ≡ some v
  pub get_erase_other :
      (key other : Bytes) (n : N) → key ≢ other → get_str key (erase_key other n) ≡ get_str key n
  pub get_commit : (key : Bytes) (n : N) → get_str key (commit n).1 ≡ get_str key n

abbrev pub key_cred : Bytes
key_cred = codes "cred"

abbrev pub key_nonce : Bytes
key_nonce = codes "nonce"

abbrev pub key_code : Bytes
key_code = codes "setupcode"

abbrev pub key_otapw : Bytes
key_otapw = codes "otapw"

-- Whether the namespace could be opened, and its strings.
pub record AuthStore (N : Type 0) : Type 0 where
  pub ok : Bool
  pub nvs : N

-- A text up to its first NUL.
unfoldable pub c_str : Bytes → Bytes
c_str [] = []
c_str (b ∷ bs) = if b == 0 then [] else b ∷ c_str bs

unfoldable pub read_str : {N : Type 0} → Nvs N → Bytes → AuthStore N → Option Bytes
read_str ops key s = if s.ok then ops.get_str key s.nvs else none

abbrev pub is_filled : Option Bytes → Bool
is_filled none = false
is_filled (some v) = not (null v)

unfoldable pub has_credential : {N : Type 0} → Nvs N → AuthStore N → Bool
has_credential ops s = s.ok && is_filled (ops.get_str key_cred s.nvs)

-- The setters: written, then committed.
unfoldable pub write_str : {N : Type 0} → Nvs N → Bytes → Bytes → AuthStore N → Bool × AuthStore N
unfolding c_str
write_str ops key text s =
    let written = ops.set_str key (c_str text) s.nvs in
    let committed = ops.commit written.1 in
    if not s.ok
    then (false, s)
    else if not written.0
    then (false, record s { nvs = written.1 })
    else (committed.0, record s { nvs = committed.1 })

unfoldable pub get_credential : {N : Type 0} → Nvs N → AuthStore N → Option Bytes
unfolding read_str
get_credential ops s = read_str ops key_cred s

unfoldable pub set_credential : {N : Type 0} → Nvs N → Bytes → AuthStore N → Bool × AuthStore N
unfolding write_str
set_credential ops text s = write_str ops key_cred text s

unfoldable pub get_nonce : {N : Type 0} → Nvs N → AuthStore N → Option Bytes
unfolding read_str
get_nonce ops s = read_str ops key_nonce s

unfoldable pub set_nonce : {N : Type 0} → Nvs N → Bytes → AuthStore N → Bool × AuthStore N
unfolding write_str
set_nonce ops text s = write_str ops key_nonce text s

unfoldable pub clear_nonce : {N : Type 0} → Nvs N → AuthStore N → AuthStore N
clear_nonce ops s =
    if not s.ok then s else record s { nvs = (ops.commit (ops.erase_key key_nonce s.nvs)).1 }

unfoldable pub get_setup_code : {N : Type 0} → Nvs N → AuthStore N → Option Bytes
unfolding read_str
get_setup_code ops s = read_str ops key_code s

unfoldable pub set_setup_code : {N : Type 0} → Nvs N → Bytes → AuthStore N → Bool × AuthStore N
unfolding write_str
set_setup_code ops text s = write_str ops key_code text s

unfoldable pub get_ota_password : {N : Type 0} → Nvs N → AuthStore N → Option Bytes
unfolding read_str
get_ota_password ops s = read_str ops key_otapw s

unfoldable pub set_ota_password : {N : Type 0} → Nvs N → Bytes → AuthStore N → Bool × AuthStore N
unfolding write_str
set_ota_password ops text s = write_str ops key_otapw text s

unfoldable pub erase_all : {N : Type 0} → Nvs N → AuthStore N → AuthStore N
erase_all ops s = if not s.ok then s else record s {
  nvs =
      (ops.commit (
        ops.erase_key key_otapw
          (ops.erase_key key_code (ops.erase_key key_nonce (ops.erase_key key_cred s.nvs))))).1;
}

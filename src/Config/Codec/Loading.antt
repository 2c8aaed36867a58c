-- ===== src/Config/Codec/Loading.antt =====
-- lib/config/config_codec.cpp, load: what kind of result it gives.
use homekit_rf_ir_blaster.Base.{
  ℕ, ◌+◌, ◌≡◌, ◌≢◌, inl, inr, refl, Bool, true, false, ◌||◌, not, Option, none, some, ltb,
  if◌then◌else◌, ◌==◌, ◌≤◌, length, null, Bytes, drop, arith, Bool-cases, Option-cases,
}
use homekit_rf_ir_blaster.Config.Model.{Config, default_config, schema_version, max_config_bytes}
use homekit_rf_ir_blaster.Config.Validate.{ValidateError, fine, validate, default_validates}
use homekit_rf_ir_blaster.Config.Store.{BlobStore}
use homekit_rf_ir_blaster.Config.Crc.{crc32}
use homekit_rf_ir_blaster.Config.Codec.{
  DecodeResult, DecodeStatus, loaded, ConfigJson, accept, decode, defaults, is_fine, get_u16,
  get_u32, keep_upgrade, load, blob_header_size, blob_magic,
}

-- What a result of decoding is: a configuration that validates in any case, which is the default one
-- exactly where the result says so, that is, on every status but Ok.
pub record IsDecoded (r : DecodeResult) : Type 0 where
  pub valid : validate r.config ≡ fine
  pub default : r.used_defaults ≡ true → r.config ≡ default_config
  pub by_status :
      (r.status ≢ loaded → r.used_defaults ≡ true) × (r.status ≡ loaded → r.used_defaults ≡ false)
  pub upgraded : r.migrated ≡ true → r.status ≡ loaded

defaults-IsDecoded : (s : DecodeStatus) → s ≢ loaded → IsDecoded (defaults s)
defaults-IsDecoded s ne = record {
  valid = default_validates;
  default = λ h. refl;
  by_status = (λ h. refl, λ h. absurd (ne h));
  upgraded = λ h. absurd cc;
}

is_fine_sound : (e : ValidateError) → is_fine e ≡ true → e ≡ fine
is_fine_sound e h = ground arith

accept-IsDecoded : (version : ℕ) (o : Option Config) → IsDecoded (accept version o)
unfolding accept
accept-IsDecoded version none = defaults-IsDecoded DecodeStatus.bad_json (λ h. cc)
accept-IsDecoded version (some parsed) = elim (Bool-cases (is_fine (validate parsed))) [
  | inl good ↦ rw good (record {
    valid = is_fine_sound (validate parsed) good;
    default = λ h. absurd cc;
    by_status = (λ h. absurd (h refl), λ h. refl);
    upgraded = λ h. refl;
  })
  | inr bad ↦ rw bad (defaults-IsDecoded DecodeStatus.failed_validation (λ h. cc))
]

choose-IsDecoded :
    (b : Bool) (r s : DecodeResult) → IsDecoded r → IsDecoded s → IsDecoded (if b then r else s)
choose-IsDecoded true r s k l = k
choose-IsDecoded false r s k l = l

decode-IsDecoded : (json : ConfigJson) (blob : Bytes) → IsDecoded (decode json blob)
unfolding decode
decode-IsDecoded json blob =
    choose-IsDecoded (null blob) _ _ (defaults-IsDecoded DecodeStatus.absent (λ h. cc)) (
      choose-IsDecoded (ltb (length blob) blob_header_size) _ _
        (defaults-IsDecoded DecodeStatus.bad_header (λ h. cc))
        (choose-IsDecoded (not (get_u32 blob 0 == blob_magic)) _ _
          (defaults-IsDecoded DecodeStatus.bad_magic (λ h. cc))
          (choose-IsDecoded (ltb schema_version (get_u16 blob 4)) _ _
            (defaults-IsDecoded DecodeStatus.bad_version (λ h. cc))
            (choose-IsDecoded
              (ltb max_config_bytes (get_u32 blob 6)
                || not (blob_header_size + get_u32 blob 6 == length blob))
              _ _ (defaults-IsDecoded DecodeStatus.bad_header (λ h. cc))
              (choose-IsDecoded (not (crc32 (drop blob_header_size blob) == get_u32 blob 10)) _ _
                (defaults-IsDecoded DecodeStatus.bad_crc (λ h. cc))
                (accept-IsDecoded (get_u16 blob 4)
                  (json.from_json (drop blob_header_size blob))))))))

keep_upgrade-result :
    {S : Type 0} (ops : BlobStore S) (json : ConfigJson) (store : S) (r : DecodeResult)
    → (keep_upgrade ops json store r).0 ≡ r
unfolding keep_upgrade
keep_upgrade-result ops json store r = ground arith

-- What a blob has whose configuration is taken: the header's magic, a version that is not newer, the
-- length and the checksum of the payload, of which the JSON reader makes that configuration.
pub record IsStored (json : ConfigJson) (blob : Bytes) (cfg : Config) : Type 0 where
  pub magic : get_u32 blob 0 ≡ blob_magic
  pub version : get_u16 blob 4 ≤ schema_version
  pub ceiling : get_u32 blob 6 ≤ max_config_bytes
  pub sized : blob_header_size + get_u32 blob 6 ≡ length blob
  pub checked : crc32 (drop blob_header_size blob) ≡ get_u32 blob 10
  pub payload : json.from_json (drop blob_header_size blob) ≡ some cfg

accept-payload :
    (version : ℕ) (o : Option Config)
    → (accept version o).status ≡ loaded
    → o ≡ some (accept version o).config
unfolding accept
accept-payload version none h = absurd cc
accept-payload version (some parsed) h = elim (Bool-cases (is_fine (validate parsed))) [
  | inl good ↦ rw good refl
  | inr bad ↦ let h' = rw bad at h in absurd cc
]

-- A test whose success gives another status than Ok did not succeed.
choose-loaded :
    (b : Bool) (s : DecodeStatus) (r : DecodeResult)
    → s ≢ loaded
    → (if b then defaults s else r).status ≡ loaded
    → (b ≡ false) × ((if b then defaults s else r) ≡ r)
choose-loaded true s r other h = absurd (other h)
choose-loaded false s r other h = (refl, refl)

decode-IsStored :
    (json : ConfigJson) (blob : Bytes)
    → (decode json blob).status ≡ loaded
    → IsStored json blob (decode json blob).config
unfolding decode
decode-IsStored json blob h =
    let (e1, k1) = choose-loaded (null blob) DecodeStatus.absent _ (λ h. cc) h in
    let h1 = rw k1 at h in
    let (e2, k2) =
      choose-loaded (ltb (length blob) blob_header_size) DecodeStatus.bad_header _ (λ h. cc) h1 in
    let h2 = rw k2 at h1 in
    let (e3, k3) =
      choose-loaded (not (get_u32 blob 0 == blob_magic)) DecodeStatus.bad_magic _ (λ h. cc) h2 in
    let h3 = rw k3 at h2 in
    let (e4, k4) =
      choose-loaded (ltb schema_version (get_u16 blob 4)) DecodeStatus.bad_version _ (λ h. cc) h3 in
    let h4 = rw k4 at h3 in
    let (e5, k5) =
      choose-loaded
        (ltb max_config_bytes (get_u32 blob 6)
          || not (blob_header_size + get_u32 blob 6 == length blob))
        DecodeStatus.bad_header _ (λ h. cc) h4 in
    let h5 = rw k5 at h4 in
    let (e6, k6) =
      choose-loaded (not (crc32 (drop blob_header_size blob) == get_u32 blob 10))
        DecodeStatus.bad_crc _ (λ h. cc) h5 in
    let h6 = rw k6 at h5 in
    let read = accept-payload _ _ h6 in
    rw (k1, k2, k3, k4, k5, k6)
      (record {
        magic = ground (arith, e3);
        version = ground (arith, e4);
        ceiling = ground (arith, e5);
        sized = ground (arith, e5);
        checked = ground (arith, e6);
        payload = read;
      })

-- Whatever the store holds, and whatever the JSON reader makes of it, loading gives a configuration
-- that validates: on any status but Ok the default one, and on Ok the one that the JSON reader makes
-- of the payload of the stored blob, whose header has the magic, a version that is not newer and the
-- payload's length and checksum.
pub load-IsDecoded :
    {S : Type 0} (ops : BlobStore S) (json : ConfigJson) (store : S)
    → let result = (load ops json store).0 in
      IsDecoded result
      × (result.status ≡ loaded
          → (blob : Bytes) × (ops.get store ≡ some blob) × IsStored json blob result.config)
unfolding load
load-IsDecoded ops json store = elim (Option-cases (ops.get store)) [
  | inl e ↦ rw e (defaults-IsDecoded DecodeStatus.absent (λ h. cc), λ h. absurd cc)
  | inr (blob, e) ↦
      rw (e, keep_upgrade-result ops json store (decode json blob))
        (decode-IsDecoded json blob, λ h. (blob, refl, decode-IsStored json blob h))
]

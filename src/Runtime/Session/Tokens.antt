-- ===== src/Runtime/Session/Tokens.antt =====
-- lib/runtime/session.cpp: tokens that were minted, and tokens that are read.
use homekit_rf_ir_blaster.Base.{
  ℕ, ◌^◌, ◌<◌, ◌≡◌, ◌∙◌, inr, refl, ap, Bool, true, false, not, [], ◌∷◌, ◌++◌, some, ◌==◌, length,
  null, Bytes, IsByte, All, All-append, guard, >>=-eq-some, arith,
}
use homekit_rf_ir_blaster.Runtime.Crypto.{
  Crypto, buffers_equal, buffers_equal_refl, buffers_equal_sound,
}
use homekit_rf_ir_blaster.Runtime.Encoding.{encode, decode}
use homekit_rf_ir_blaster.Runtime.Encoding.RoundTrip.{decode-encode, has-encode, dot_IsSeparator}
use homekit_rf_ir_blaster.Runtime.Decimal.{
  to_string, parse_uint64-to_string, has-to_string, to_string-IsByte,
}
use homekit_rf_ir_blaster.Runtime.Fields.{
  has, cut, split_on, cut-append, cut_sound, split_on-append, split_on_last,
}
use homekit_rf_ir_blaster.Runtime.Session.{
  Token, payload, mint_raw, read_fields, check_mac, parse_parts, parse_token,
}

-- What a token may hold: a user name without a separator, and uint64_t times.
pub record IsToken (t : Token) : Type 0 where
  pub named : null t.user ≡ false
  pub clean : has b'|' t.user ≡ false
  pub user_bytes : All IsByte t.user
  pub iat_fits : t.iat < 2 ^ 64
  pub abs_fits : t.abs_expiry < 2 ^ 64
  pub idle_fits : t.idle_deadline < 2 ^ 64

payload-IsByte : (t : Token) → IsToken t → All IsByte (payload t)
unfolding payload
payload-IsByte t k =
    let bar : b'|' < 256 = omega arith in
    All-append IsByte t.user _ k.user_bytes (
      bar,
      All-append IsByte (to_string t.iat) _ (to_string-IsByte t.iat) (
        bar,
        All-append IsByte (to_string t.abs_expiry) _ (to_string-IsByte t.abs_expiry)
            (bar, to_string-IsByte t.idle_deadline),
      ),
    )

split_payload :
    (t : Token)
    → IsToken t
    → split_on b'|' [] (payload t)
      ≡ t.user ∷ to_string t.iat ∷ to_string t.abs_expiry ∷ to_string t.idle_deadline ∷ []
unfolding payload
split_payload t k =
    let bar : (n : ℕ) → has b'|' (to_string n) ≡ false =
      λ n. has-to_string b'|' n (inr (omega arith)) in
    split_on-append b'|' [] t.user _ k.clean
    ∙ ap (◌∷◌ t.user) (
        split_on-append b'|' [] (to_string t.iat) _ (bar t.iat)
        ∙ ap (◌∷◌ (to_string t.iat)) (
            split_on-append b'|' [] (to_string t.abs_expiry) _ (bar t.abs_expiry)
            ∙ ap (◌∷◌ (to_string t.abs_expiry))
                (split_on_last b'|' [] (to_string t.idle_deadline) (bar t.idle_deadline))))

read_fields-payload :
    (t : Token)
    → IsToken t
    → read_fields
        (t.user ∷ to_string t.iat ∷ to_string t.abs_expiry ∷ to_string t.idle_deadline ∷ [])
      ≡ some t
unfolding read_fields
read_fields-payload t k = rw (
  k.named,
  parse_uint64-to_string t.iat k.iat_fits,
  parse_uint64-to_string t.abs_expiry k.abs_fits,
  parse_uint64-to_string t.idle_deadline k.idle_fits,
)

check_mac-mint :
    (crypto : Crypto) (secret part1 : Bytes)
    → check_mac crypto secret part1 (encode (crypto.hmac secret part1)) ≡ some tt
unfolding check_mac
check_mac-mint crypto secret part1 =
    let mac = crypto.hmac secret part1 in
    rw (
      decode-encode mac (crypto.hmac_bytes secret part1),
      crypto.length_hmac secret part1,
      buffers_equal_refl mac,
    )

-- A token whose user name is bytes, not empty and without a '|', and whose times fit a uint64_t,
-- is read back field by field under the secret that it was minted with.
pub parse_token-mint_raw :
    (crypto : Crypto) (secret : Bytes) (t : Token)
    → IsToken t
    → parse_token crypto secret (mint_raw crypto secret t) ≡ some t
unfolding parse_token parse_parts mint_raw
parse_token-mint_raw crypto secret t k =
    let part1 = encode (payload t) in
    let part2 = encode (crypto.hmac secret part1) in
    rw
      (
        cut-append b'.' part1 part2 (has-encode b'.' (payload t) dot_IsSeparator),
        has-encode b'.' (crypto.hmac secret part1) dot_IsSeparator,
        check_mac-mint crypto secret part1,
        decode-encode (payload t) (payload-IsByte t k),
        split_payload t k,
      )
      (read_fields-payload t k)

-- What it takes for a token to be read: one dot, and behind it the encoding of the MAC, under this
-- secret, of what stands before it.
pub record IsSigned (crypto : Crypto) (secret token : Bytes) : Type 0 where
  pub part1 : Bytes
  pub part2 : Bytes
  pub joined : token ≡ part1 ++ (b'.' ∷ part2)
  pub one_dot : (has b'.' part1 ≡ false) × (has b'.' part2 ≡ false)
  pub signed : decode part2 ≡ some (crypto.hmac secret part1)

check_mac_sound :
    (crypto : Crypto) (secret part1 part2 : Bytes)
    → check_mac crypto secret part1 part2 ≡ some tt
    → decode part2 ≡ some (crypto.hmac secret part1)
unfolding check_mac
check_mac_sound crypto secret part1 part2 h =
    let (sig, e, rest) = >>=-eq-some (decode part2) _ h in
    let (u, size, equal) = >>=-eq-some (guard (length sig == 32)) _ rest in
    let mac = crypto.hmac secret part1 in
    let same =
      buffers_equal_sound mac sig
        (omega (arith, crypto.length_hmac secret part1, sized (length sig) size))
        (guarded (buffers_equal mac sig) equal) in
    rw same e
  where
    sized : (n : ℕ) {u : Unit {0}} → guard (n == 32) ≡ some u → n ≡ 32
    sized n h = ground arith

    guarded : (b : Bool) → guard b ≡ some tt → b ≡ true
    guarded true h = refl
    guarded false h = cc

parse_parts-IsSigned :
    (crypto : Crypto) (secret token part1 part2 : Bytes) (t : Token)
    → cut b'.' token ≡ some (part1, part2)
    → parse_parts crypto secret (part1, part2) ≡ some t
    → IsSigned crypto secret token
unfolding parse_parts
parse_parts-IsSigned crypto secret token part1 part2 t c h =
    let (u, clean, rest) = >>=-eq-some (guard (not (has b'.' part2))) _ h in
    let (v, mac, rest') = >>=-eq-some (check_mac crypto secret part1 part2) _ rest in
    let (whole, before) = cut_sound b'.' token part1 part2 c in
    record {
      part1 = part1;
      part2 = part2;
      joined = whole;
      one_dot = (before, not_guarded (has b'.' part2) clean);
      signed = check_mac_sound crypto secret part1 part2 mac;
    }
  where
    not_guarded : (b : Bool) {u : Unit {0}} → guard (not b) ≡ some u → b ≡ false
    not_guarded true h = cc
    not_guarded false h = refl

-- No token is read unless it is signed under the secret.
pub parse_token-IsSigned :
    (crypto : Crypto) (secret token : Bytes) (t : Token)
    → parse_token crypto secret token ≡ some t
    → IsSigned crypto secret token
unfolding parse_token
parse_token-IsSigned crypto secret token t h =
    let ((part1, part2), c, rest) = >>=-eq-some (cut b'.' token) _ h in
    parse_parts-IsSigned crypto secret token part1 part2 t c rest

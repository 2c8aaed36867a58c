-- ===== src/Runtime/Csrf/Tokens.antt =====
-- lib/runtime/csrf.cpp: minted tokens, and pairs of tokens that pass.
use homekit_rf_ir_blaster.Base.{
  ℕ, ◌≡◌, ◌∙◌, refl, Bool, true, false, ◌||◌, not, [], ◌∷◌, ◌++◌, Option, none, some, ◌==◌, length,
  null, Bytes, IsByte, All, guard, guard_sound, >>=-eq-some, is_some, arith,
}
use homekit_rf_ir_blaster.Runtime.Crypto.{
  Crypto, buffers_equal_refl, buffers_equal_sound, constant_time_equal, constant_time_equal_iff,
}
use homekit_rf_ir_blaster.Runtime.Encoding.{encode, decode}
use homekit_rf_ir_blaster.Runtime.Encoding.RoundTrip.{decode-encode, has-encode, dot_IsSeparator}
use homekit_rf_ir_blaster.Runtime.Fields.{has, cut, cut-append, cut_sound}
use homekit_rf_ir_blaster.Runtime.Csrf.{csrf_mac, mint_csrf, csrf_parts, check_csrf, verify_csrf}

csrf_parts-mint :
    (crypto : Crypto) (secret binding rand : Bytes)
    → All IsByte rand
    → csrf_parts crypto secret binding (encode rand, encode (csrf_mac crypto secret binding rand))
      ≡ some tt
unfolding csrf_parts csrf_mac
csrf_parts-mint crypto secret binding rand k =
    let message = binding ++ (b'!' ∷ rand) in
    let mac = crypto.hmac secret message in
    rw (
      has-encode b'.' mac dot_IsSeparator,
      decode-encode rand k,
      decode-encode mac (crypto.hmac_bytes secret message),
      crypto.length_hmac secret message,
      buffers_equal_refl mac,
    )

null-dot : (a b : Bytes) → null (a ++ (b'.' ∷ b)) ≡ false
null-dot [] b = refl
null-dot (x ∷ xs) b = refl

-- A token minted from a nonce of bytes is accepted for the session it is bound to, when the form
-- repeats the cookie.
pub verify_csrf-mint_csrf :
    (crypto : Crypto) (secret binding rand : Bytes)
    → All IsByte rand
    → verify_csrf crypto secret binding
        (mint_csrf crypto secret binding rand)
        (mint_csrf crypto secret binding rand)
      ≡ true
unfolding verify_csrf check_csrf mint_csrf
verify_csrf-mint_csrf crypto secret binding rand k =
    let part2 = encode (csrf_mac crypto secret binding rand) in
    let token = encode rand ++ (b'.' ∷ part2) in
    rw (
      null-dot (encode rand) part2,
      (constant_time_equal_iff token token).1 refl,
      cut-append b'.' (encode rand) part2 (has-encode b'.' rand dot_IsSeparator),
      csrf_parts-mint crypto secret binding rand k,
    )

-- What it takes for the check to pass: the form repeats the cookie, and the cookie is the encoding
-- of a nonce, a dot, and the encoding of the MAC that binds the nonce to this session.
pub record IsBound (crypto : Crypto) (secret binding cookie_tok form_tok : Bytes) : Type 0 where
  pub repeated : cookie_tok ≡ form_tok
  pub part1 : Bytes
  pub part2 : Bytes
  pub rand : Bytes
  pub joined : cookie_tok ≡ part1 ++ (b'.' ∷ part2)
  pub nonce : decode part1 ≡ some rand
  pub signed : decode part2 ≡ some (csrf_mac crypto secret binding rand)

length-csrf_mac :
    (crypto : Crypto) (secret binding rand : Bytes)
    → length (csrf_mac crypto secret binding rand) ≡ 32
unfolding csrf_mac
length-csrf_mac crypto secret binding rand = crypto.length_hmac secret (binding ++ (b'!' ∷ rand))

csrf_parts_sound :
    (crypto : Crypto) (secret binding cookie_tok form_tok part1 part2 : Bytes)
    → cookie_tok ≡ form_tok
    → cookie_tok ≡ part1 ++ (b'.' ∷ part2)
    → csrf_parts crypto secret binding (part1, part2) ≡ some tt
    → IsBound crypto secret binding cookie_tok form_tok
unfolding csrf_parts
csrf_parts_sound crypto secret binding cookie_tok form_tok part1 part2 same whole h =
    let (u, clean, rest) = >>=-eq-some (guard (not (has b'.' part2))) _ h in
    let (rand, nonce, rest') = >>=-eq-some (decode part1) _ rest in
    let (sig, e, rest'') = >>=-eq-some (decode part2) _ rest' in
    let (v, size, equal) = >>=-eq-some (guard (length sig == 32)) _ rest'' in
    let mac = csrf_mac crypto secret binding rand in
    let is_mac =
      buffers_equal_sound mac sig
        (length-csrf_mac crypto secret binding rand ∙ sized (length sig) (guard_sound _ size))
        (guard_sound _ equal) in
    record {
      repeated = same;
      part1 = part1;
      part2 = part2;
      rand = rand;
      joined = whole;
      nonce = nonce;
      signed = rw is_mac e;
    }
  where
    sized : (n : ℕ) → (n == 32) ≡ true → 32 ≡ n
    sized n h = ground arith

-- A pair of tokens is accepted only if the form repeats the cookie, and the cookie is the
-- encoding of a nonce, a dot, and the encoding of the MAC that binds the nonce to this session.
pub verify_csrf-IsBound :
    (crypto : Crypto) (secret binding cookie_tok form_tok : Bytes)
    → verify_csrf crypto secret binding cookie_tok form_tok ≡ true
    → IsBound crypto secret binding cookie_tok form_tok
unfolding verify_csrf check_csrf
verify_csrf-IsBound crypto secret binding cookie_tok form_tok h =
    let checked = present (check_csrf crypto secret binding cookie_tok form_tok) h in
    let (u, g, rest) =
      >>=-eq-some (guard (not (null cookie_tok || not (constant_time_equal cookie_tok form_tok)))) _
        checked in
    let ((part1, part2), c, rest') = >>=-eq-some (cut b'.' cookie_tok) _ rest in
    csrf_parts_sound crypto secret binding cookie_tok form_tok part1 part2
      ((constant_time_equal_iff cookie_tok form_tok).0
        (second (null cookie_tok) _ (guard_sound _ g)))
      (cut_sound b'.' cookie_tok part1 part2 c).0 rest'
  where
    second : (a b : Bool) → not (a || not b) ≡ true → b ≡ true
    second a b h = ground arith

    present : (o : Option (Unit {0})) → is_some o ≡ true → o ≡ some tt
    present none h = cc
    present (some u) h = refl

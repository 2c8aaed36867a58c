-- ===== src/Runtime/Session/Expiry.antt =====
-- lib/runtime/session.cpp: the idle deadline and the absolute one, over refreshes.
use homekit_rf_ir_blaster.Base.{
  ℕ, ◌+◌, ◌%◌, ◌^◌, ◌≤◌, ◌<◌, ◌≡◌, ◌⊎◌, ◌↔◌, inl, inr, refl, true, false, ◌||◌, List, [], ◌∷◌, ◌++◌,
  none, some, leb, null, Bytes, IsByte, All, arith, Bool-cases, Option-cases,
}
use homekit_rf_ir_blaster.Runtime.Crypto.{Crypto}
use homekit_rf_ir_blaster.Runtime.Decimal.{to_string}
use homekit_rf_ir_blaster.Runtime.Fields.{has, cut}
use homekit_rf_ir_blaster.Runtime.Session.{
  Token, parse_token, mint_session, verify_session, refresh_session, idle_timeout_ms,
  absolute_timeout_ms,
}
use homekit_rf_ir_blaster.Runtime.Session.Tokens.{
  IsToken, IsSigned, parse_token-mint_raw, parse_token-IsSigned,
}

-- A login name that mintSession accepts.
pub record IsUser (user : Bytes) : Type 0 where
  pub named : null user ≡ false
  pub clean : has b'|' user ≡ false
  pub bytes : All IsByte user

abbrev minted : Bytes → ℕ → Token
minted user iat = record {
  user = user;
  iat = iat;
  abs_expiry = (iat + absolute_timeout_ms) % 2 ^ 64;
  idle_deadline = (iat + idle_timeout_ms) % 2 ^ 64;
}

minted-IsToken : (user : Bytes) (iat : ℕ) → IsUser user → iat < 2 ^ 64 → IsToken (minted user iat)
minted-IsToken user iat u fits = record {
  named = u.named;
  clean = u.clean;
  user_bytes = u.bytes;
  iat_fits = fits;
  abs_fits = omega arith;
  idle_fits = omega arith;
}

parse-mint_session :
    (crypto : Crypto) (secret user : Bytes) (iat : ℕ)
    → IsUser user
    → iat < 2 ^ 64
    → parse_token crypto secret (mint_session crypto secret user iat) ≡ some (minted user iat)
unfolding mint_session
parse-mint_session crypto secret user iat u fits =
    rw (u.named, u.clean)
      (parse_token-mint_raw crypto secret (minted user iat) (minted-IsToken user iat u fits))

-- For a user name of bytes that is not empty and holds no '|', and a login time whose absolute
-- expiry fits a uint64_t: a session that was just minted is the user's, with the binding
-- user|iat; it is valid exactly before its idle deadline, fifteen minutes later, and its absolute
-- expiry is reported from eight hours later on.
pub verify_session-mint_session :
    (crypto : Crypto) (secret user : Bytes) (iat now : ℕ)
    → IsUser user
    → iat + absolute_timeout_ms < 2 ^ 64
    → let r = verify_session crypto secret (mint_session crypto secret user iat) now in
      (r.user ≡ user)
      × (r.binding ≡ user ++ (b'|' ∷ to_string iat))
      × (r.valid ≡ true ↔ now < iat + idle_timeout_ms)
      × (r.expired_absolute ≡ true ↔ iat + absolute_timeout_ms ≤ now)
unfolding verify_session
verify_session-mint_session crypto secret user iat now u fits =
    rw (parse-mint_session crypto secret user iat u (omega arith))
      (refl, refl, (λ h. ground arith, λ h. ground arith), (λ h. ground arith, λ h. ground arith))

-- A session is reported valid only for a token that is signed under the secret.
pub verify_session-IsSigned :
    (crypto : Crypto) (secret token : Bytes) (now : ℕ)
    → (verify_session crypto secret token now).valid ≡ true
    → IsSigned crypto secret token
unfolding verify_session
verify_session-IsSigned crypto secret token now h =
    elim (Option-cases (parse_token crypto secret token)) [
      | inl missing ↦ absurd (unread missing h)
      | inr (t, e) ↦ parse_token-IsSigned crypto secret token t e
    ]
  where
    unread :
        parse_token crypto secret token ≡ none
        → (verify_session crypto secret token now).valid ≡ true
        → ⊥
    unread missing v = let v' = rw missing at v in cc

-- A chain of refreshes, each of the token that the one before returned.
unfoldable pub refresh_all : Crypto → Bytes → Bytes → List ℕ → Bytes
refresh_all crypto secret token [] = token
refresh_all crypto secret token (now ∷ times) =
    refresh_all crypto secret (refresh_session crypto secret token now) times

-- No token, or one of this user and login time with this absolute deadline.
abbrev Descends : Crypto → Bytes → Bytes → ℕ → ℕ → Bytes → Type 0
Descends crypto secret user iat d token =
    (parse_token crypto secret token ≡ none)
    ⊎ ((t : Token) × (parse_token crypto secret token ≡ some t)
        × IsToken t
        × (t.user ≡ user)
        × (t.iat ≡ iat)
        × (t.abs_expiry ≡ d))

empty_token : (crypto : Crypto) (secret : Bytes) → parse_token crypto secret [] ≡ none
unfolding parse_token cut
empty_token crypto secret = refl

refresh-Descends :
    (crypto : Crypto) (secret user token : Bytes) (iat d now : ℕ)
    → Descends crypto secret user iat d token
    → Descends crypto secret user iat d (refresh_session crypto secret token now)
unfolding refresh_session
refresh-Descends crypto secret user token iat d now (inl missing) =
    inl (rw missing (empty_token crypto secret))
refresh-Descends crypto secret user token iat d now (inr (t, e, k, u, i, a)) =
    let t' : Token = record t { idle_deadline = (now + idle_timeout_ms) % 2 ^ 64 } in
    let k' : IsToken t' = record {
      named = k.named;
      clean = k.clean;
      user_bytes = k.user_bytes;
      iat_fits = k.iat_fits;
      abs_fits = k.abs_fits;
      idle_fits = omega arith;
    } in
    elim (Bool-cases (leb t.abs_expiry now || leb t.idle_deadline now)) [
      | inl over ↦ inl (rw (e, refresh_session) (rw over (empty_token crypto secret)))
      | inr open_still ↦
          inr (t', rw e (rw open_still (parse_token-mint_raw crypto secret t' k')), k', u, i, a)
    ]

refresh_all-Descends :
    (crypto : Crypto) (secret user : Bytes) (iat d : ℕ) (times : List ℕ) (token : Bytes)
    → Descends crypto secret user iat d token
    → Descends crypto secret user iat d (refresh_all crypto secret token times)
unfolding refresh_all
refresh_all-Descends crypto secret user iat d [] token h = h
refresh_all-Descends crypto secret user iat d (now ∷ times) token h =
    refresh_all-Descends crypto secret user iat d times (refresh_session crypto secret token now)
      (refresh-Descends crypto secret user token iat d now h)

-- For a user name of bytes that is not empty and holds no '|', and a login time whose absolute
-- expiry fits a uint64_t: however often the session is refreshed, it is never valid from eight
-- hours after its login on; and while it is valid it stays bound to the same user and login time.
pub refresh_all-verify_session :
    (crypto : Crypto) (secret user : Bytes) (iat now : ℕ) (times : List ℕ)
    → IsUser user
    → iat + absolute_timeout_ms < 2 ^ 64
    → let token = refresh_all crypto secret (mint_session crypto secret user iat) times in
      let r = verify_session crypto secret token now in
      (iat + absolute_timeout_ms ≤ now → r.valid ≡ false)
      × (r.valid ≡ true → (r.user ≡ user) × (r.binding ≡ user ++ (b'|' ∷ to_string iat)))
unfolding verify_session
refresh_all-verify_session crypto secret user iat now times u fits = verdict (
    refresh_all-Descends crypto secret user iat (iat + absolute_timeout_ms) times _ (
      inr (
        minted user iat,
        parse-mint_session crypto secret user iat u (omega arith),
        minted-IsToken user iat u (omega arith),
        refl,
        refl,
        omega arith,
      )))
  where
    verdict :
        Descends crypto secret user iat
          (iat + absolute_timeout_ms)
          (refresh_all crypto secret (mint_session crypto secret user iat) times)
        → let token = refresh_all crypto secret (mint_session crypto secret user iat) times in
          let r = verify_session crypto secret token now in
          (iat + absolute_timeout_ms ≤ now → r.valid ≡ false)
          × (r.valid ≡ true → (r.user ≡ user) × (r.binding ≡ user ++ (b'|' ∷ to_string iat)))
    verdict (inl missing) = rw missing (λ h. refl, λ v. cc)
    verdict (inr (t, e, k, u', i, a)) = rw e (λ h. ground arith, λ v. (u', ground (arith, u', i)))

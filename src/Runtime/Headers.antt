-- ===== src/Runtime/Headers.antt =====
-- lib/runtime/security_headers.h and security_headers.cpp: cookies and static headers.
use homekit_rf_ir_blaster.Base.{
  ◌≡◌, refl, Bool, true, List, [], ◌∷◌, ◌++◌, if◌then◌else◌, Bytes, codes,
}

unfoldable pub session_cookie_name : Bool → Bytes
session_cookie_name secure = if secure then codes "__Host-SID" else codes "SID"

unfoldable pub csrf_cookie_name : Bool → Bytes
csrf_cookie_name secure = if secure then codes "__Host-CSRF" else codes "CSRF"

unfoldable pub cookie_attrs : Bool → Bytes
cookie_attrs secure =
    if secure
    then codes "; Secure; HttpOnly; SameSite=Strict; Path=/"
    else codes "; HttpOnly; SameSite=Strict; Path=/"

unfoldable pub session_cookie : Bytes → Bool → Bytes
unfolding session_cookie_name cookie_attrs
session_cookie token secure = session_cookie_name secure ++ (b'=' ∷ (token ++ cookie_attrs secure))

unfoldable pub clear_session_cookie : Bool → Bytes
unfolding session_cookie_name cookie_attrs
clear_session_cookie secure =
    session_cookie_name secure ++ (b'=' ∷ (cookie_attrs secure ++ codes "; Max-Age=0"))

unfoldable pub csrf_cookie : Bytes → Bool → Bytes
unfolding csrf_cookie_name cookie_attrs
csrf_cookie token secure = csrf_cookie_name secure ++ (b'=' ∷ (token ++ cookie_attrs secure))

unfoldable pub hsts_header : Bytes
hsts_header = codes "max-age=31536000"

pub record SecurityHeader : Type 0 where
  pub name : Bytes
  pub value : Bytes

unfoldable pub static_security_headers : List SecurityHeader
static_security_headers =
    record { name = codes "X-Content-Type-Options"; value = codes "nosniff" }
    ∷ record { name = codes "X-Frame-Options"; value = codes "DENY" }
    ∷ record { name = codes "Referrer-Policy"; value = codes "no-referrer" }
    ∷ record {
      name = codes "Content-Security-Policy";
      value =
          codes "default-src 'self'; frame-ancestors 'none'; form-action 'self'; "
          ++ codes "base-uri 'none'; object-src 'none'";
    }
    ∷ []

unfoldable pub cache_no_store : Bytes
cache_no_store = codes "no-store"

unfoldable pub cache_immutable : Bytes
cache_immutable = codes "public, max-age=31536000, immutable"

-- The kinds of cookie flavour never mix: a __Host- name comes with Secure, a plain one without.
secure_session_cookie :
    session_cookie (codes "t") true
    ≡ codes "__Host-SID=t; Secure; HttpOnly; SameSite=Strict; Path=/"
unfolding session_cookie
secure_session_cookie = refl

-- ===== src/Runtime/Policy.antt =====
-- lib/runtime/request_policy.h and request_policy.cpp: when a request is redirected.
pub mod Redirects
use homekit_rf_ir_blaster.Base.{
  ℕ, ◌+◌, ◌-◌, ◌≡◌, refl, Bool, true, false, ◌&&◌, ◌||◌, not, List, [], ◌∷◌, ◌++◌, Option, none,
  some, leb, ◌==◌, if◌then◌else◌, length, null, Bytes, bytes_eq, codes, map,
}
use homekit_rf_ir_blaster.Config.Model.{Settings}
use homekit_rf_ir_blaster.Config.Host.{pop_dot}
use homekit_rf_ir_blaster.Runtime.Fields.{cut}

pub data Scheme : Type 0 where
  http secure : Scheme

-- Reject is never a result of the policy.
pub data Decision : Type 0 where
  serve reject : Decision
  redirect : Bytes → Decision

pub record Request : Type 0 where
  pub transport : Scheme
  pub forwarded_proto : Bytes
  pub host : Bytes
  pub target : Bytes
  pub is_loopback : Bool

unfoldable pub lower : ℕ → ℕ
lower c = if leb b'A' c && leb c b'Z' then c - b'A' + b'a' else c

-- `s.substr(0, s.find(c))`, the whole text where c is missing.
unfoldable pub before : ℕ → Bytes → Bytes
before c s = elim (cut c s) [ none ↦ s | some (a, b) ↦ a ]

unfoldable pub host_only : Bytes → Bytes
unfolding before
host_only h = before b':' h

-- The lengths are compared first, then each character without its case.
unfoldable pub same_letters : Bytes → Bytes → Bool
unfolding lower
same_letters [] [] = true
same_letters [] (b ∷ bs) = false
same_letters (a ∷ as') [] = false
same_letters (a ∷ as') (b ∷ bs) = lower a == lower b && same_letters as' bs

unfoldable pub host_equals : Bytes → Bytes → Bool
unfolding same_letters
host_equals a b = same_letters (pop_dot a) (pop_dot b)

abbrev pub is_blank : ℕ → Bool
is_blank c = c == 32 || c == 9

unfoldable pub skip_blank : Bytes → Bytes
skip_blank [] = []
skip_blank (c ∷ cs) = let rest = skip_blank cs in if is_blank c then rest else c ∷ cs

-- Without the blanks behind the last other character.
unfoldable pub drop_blank : Bytes → Bytes
drop_blank [] = []
drop_blank (c ∷ cs) = let rest = drop_blank cs in if is_blank c && null rest then [] else c ∷ rest

-- The text between its first and its last character that is no blank; empty where there is none.
unfoldable pub trim : Bytes → Bytes
unfolding skip_blank drop_blank
trim s = drop_blank (skip_blank s)

abbrev pub scheme_of : Bytes → Scheme → Scheme
scheme_of tok transport =
    if null tok
    then transport
    else if bytes_eq (map lower tok) (codes "https")
    then secure
    else http

-- X-Forwarded-Proto counts only behind a trusted proxy.
unfoldable pub effective_scheme : Request → Bool → Scheme
unfolding before trim lower
effective_scheme req trusted_proxy =
    if not trusted_proxy || null req.forwarded_proto
    then req.transport
    else scheme_of (trim (before b',' req.forwarded_proto)) req.transport

abbrev pub scheme_prefix : Scheme → Bytes
scheme_prefix http = codes "http://"
scheme_prefix secure = codes "https://"

abbrev pub is_http : Scheme → Bool
is_http http = true
is_http secure = false

unfoldable pub evaluate : Request → Settings → Decision
unfolding effective_scheme host_only host_equals
evaluate req s =
    if req.is_loopback
    then serve
    else (let eff = effective_scheme req s.trusted_proxy in
        let host = host_only req.host in
        if s.https && is_http eff
        then redirect (
            codes "https://"
            ++ ((if null s.canonical_domain then host else s.canonical_domain) ++ req.target))
        else if (s.https || s.trusted_proxy)
            && (not (null s.canonical_domain) && not (host_equals host s.canonical_domain))
        then redirect (scheme_prefix eff ++ (s.canonical_domain ++ req.target))
        else serve)

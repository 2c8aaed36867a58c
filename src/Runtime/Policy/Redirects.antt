-- ===== src/Runtime/Policy/Redirects.antt =====
-- lib/runtime/request_policy.cpp: redirects and what follows them.
use homekit_rf_ir_blaster.Base.{
  ℕ, ◌≡◌, refl, Bool, true, false, ◌&&◌, not, [], ◌∷◌, ◌++◌, none, null, Bytes, codes,
  if◌then◌else◌, arith, Bool-cases, inl, inr, ◌⊎◌, all, ap, map, bytes_eq, bytes_eq_sound,
}
use homekit_rf_ir_blaster.Config.Model.{Settings, Config}
use homekit_rf_ir_blaster.Config.Validate.{fine, validate}
use homekit_rf_ir_blaster.Config.Validate.Sound.{validate_iff}
use homekit_rf_ir_blaster.Config.Host.{pop_dot, forbidden_char, is_valid_host_or_ip}
use homekit_rf_ir_blaster.Runtime.Fields.{has, cut}
use homekit_rf_ir_blaster.Runtime.Policy.{
  Scheme, http, secure, serve, redirect, Request, before, host_only, same_letters, lower, trim,
  skip_blank, drop_blank, scheme_of, host_equals, effective_scheme, evaluate, is_http,
  scheme_prefix,
}

same_letters_refl : (xs : Bytes) → same_letters xs xs ≡ true
unfolding same_letters
same_letters_refl [] = refl
same_letters_refl (x ∷ xs) = ground (arith, same_letters_refl xs)

host_equals_refl : (a : Bytes) → host_equals a a ≡ true
unfolding host_equals
host_equals_refl a = same_letters_refl (pop_dot a)

cut-none : (c : ℕ) (xs : Bytes) → has c xs ≡ false → cut c xs ≡ none
unfolding has cut
cut-none c [] k = refl
cut-none c (x ∷ xs) k = ground (arith, cut-none c xs)

-- A host without a port is its own host part.
host_only_whole : (h : Bytes) → has b':' h ≡ false → host_only h ≡ h
unfolding host_only before
host_only_whole h clean = ground (arith, cut-none b':' h clean)

evaluate-serve :
    (req : Request) (s : Settings)
    → (s.https && is_http (effective_scheme req s.trusted_proxy)) ≡ false
    → (null s.canonical_domain ≡ true)
      ⊎ (host_equals (host_only req.host) s.canonical_domain ≡ true)
    → evaluate req s ≡ serve
unfolding evaluate
evaluate-serve req s sch host = ground arith

-- The first entry of X-Forwarded-Proto, without its blanks and its case.
abbrev pub claimed : Request → Bytes
claimed req = map lower (trim (before b',' req.forwarded_proto))

scheme_of-secure :
    (tok : Bytes) (transport : Scheme)
    → scheme_of tok transport ≡ secure
    → ((map lower tok ≡ []) × (transport ≡ secure)) ⊎ (map lower tok ≡ codes "https")
scheme_of-secure [] transport h = inl (refl, h)
scheme_of-secure (c ∷ cs) transport h =
    elim (Bool-cases (bytes_eq (map lower (c ∷ cs)) (codes "https"))) [
      | inl same ↦ inr (bytes_eq_sound (map lower (c ∷ cs)) (codes "https") same)
      | inr other ↦ absurd (let h' = rw other at h in cc h')
    ]

-- Where HTTPS comes from: from the connection, unless a trusted proxy says that it was HTTPS.
effective_scheme-secure :
    (req : Request) (trusted_proxy : Bool)
    → effective_scheme req trusted_proxy ≡ secure
    → ((req.transport ≡ secure) × ((trusted_proxy ≡ false) ⊎ (claimed req ≡ [])))
      ⊎ ((trusted_proxy ≡ true) × (claimed req ≡ codes "https"))
unfolding effective_scheme
effective_scheme-secure req false h = inl (h, inl refl)
effective_scheme-secure req true h = elim (Bool-cases (null req.forwarded_proto)) [
  | inl unset ↦
      let none_set : req.forwarded_proto ≡ [] = ground arith in
      let plain = rw unset at h in
      inl (plain, inr (rw none_set (unfold before cut trim skip_blank drop_blank in refl)))
  | inr present ↦
      let h' = rw present at h in
      elim (scheme_of-secure (trim (before b',' req.forwarded_proto)) req.transport h') [
        | inl (blank, plain) ↦ inl (plain, inr blank)
        | inr https ↦ inr (refl, https)
      ]
]

-- While HTTPS is on, whatever is served that does not come from the device itself came over HTTPS:
-- either its connection to the device is HTTPS and no trusted proxy names another scheme, or the
-- proxy is trusted and the first entry of X-Forwarded-Proto is "https", in any case.
pub evaluate-secure :
    (req : Request) (s : Settings)
    → s.https ≡ true
    → req.is_loopback ≡ false
    → evaluate req s ≡ serve
    → (effective_scheme req s.trusted_proxy ≡ secure)
      × (((req.transport ≡ secure) × ((s.trusted_proxy ≡ false) ⊎ (claimed req ≡ [])))
          ⊎ ((s.trusted_proxy ≡ true) × (claimed req ≡ codes "https")))
unfolding evaluate
evaluate-secure req s on remote h = elim (Scheme-cases (effective_scheme req s.trusted_proxy)) [
  | inl p ↦ absurd (ground arith)
  | inr q ↦ (q, effective_scheme-secure req s.trusted_proxy q)
]
  where
    Scheme-cases : (x : Scheme) → (x ≡ http) ⊎ (x ≡ secure)
    Scheme-cases http = inl refl
    Scheme-cases secure = inr refl

-- Where a redirect of a request leads: a scheme and a host, at which every request is served.
pub record IsSettled (req : Request) (s : Settings) (location : Bytes) : Type 0 where
  pub scheme : Scheme
  pub host : Bytes
  pub address : location ≡ scheme_prefix scheme ++ (host ++ req.target)
  pub served :
      (next : Request)
      → effective_scheme next s.trusted_proxy ≡ scheme
      → next.host ≡ host
      → evaluate next s ≡ serve

to_secure :
    (req : Request) (s : Settings) (location : Bytes)
    → has b':' s.canonical_domain ≡ false
    → location
      ≡ codes "https://"
        ++ ((if null s.canonical_domain then host_only req.host else s.canonical_domain)
            ++ req.target)
    → IsSettled req s location
to_secure req s location clean e = record {
  scheme = secure;
  host = if null s.canonical_domain then host_only req.host else s.canonical_domain;
  address = e;
  served = λ next sch at.
      evaluate-serve next s (ground arith) (elim (Bool-cases (null s.canonical_domain)) [
        | inl d ↦ inl d
        | inr d ↦
            let there : next.host ≡ s.canonical_domain = ground arith in
            inr (
              simp there (
                simp (host_only_whole s.canonical_domain clean)
                  (host_equals_refl s.canonical_domain)))
      ]);
}

to_canonical :
    (req : Request) (s : Settings) (location : Bytes) (scheme : Scheme)
    → has b':' s.canonical_domain ≡ false
    → (s.https && is_http scheme) ≡ false
    → location ≡ scheme_prefix scheme ++ (s.canonical_domain ++ req.target)
    → IsSettled req s location
to_canonical req s location scheme clean allowed e = record {
  scheme = scheme;
  host = s.canonical_domain;
  address = e;
  served = λ next sch at. evaluate-serve next s (simp sch allowed) (
      inr (
        simp at
          (simp (host_only_whole s.canonical_domain clean) (host_equals_refl s.canonical_domain))));
}

clean-IsSettled :
    (req : Request) (s : Settings) (location : Bytes)
    → has b':' s.canonical_domain ≡ false
    → evaluate req s ≡ redirect location
    → IsSettled req s location
unfolding evaluate
clean-IsSettled req s location clean h =
    elim (Bool-cases (s.https && is_http (effective_scheme req s.trusted_proxy))) [
      | inl up ↦ to_secure req s location clean (target_of (ground arith))
      | inr stay ↦
          to_canonical req s location (effective_scheme req s.trusted_proxy) clean stay
            (target_of (ground arith))
    ]
  where
    target_of : {a b : Bytes} → redirect a ≡ redirect b → b ≡ a
    target_of e = cc

plain-has : (s : Bytes) → all (λ c. not (forbidden_char c)) s ≡ true → has b':' s ≡ false
unfolding has forbidden_char
plain-has [] h = refl
plain-has (c ∷ cs) h = ground (arith, plain-has cs)

-- A host name or address that validation accepts holds no port.
host_has_no_port : (s : Bytes) → is_valid_host_or_ip s ≡ true → has b':' s ≡ false
unfolding is_valid_host_or_ip
host_has_no_port s h = plain-has s (ground arith)

-- There is no redirect loop: under a configuration that validates, a redirect leads to a scheme and
-- a host at which every request is served.
pub evaluate-IsSettled :
    (c : Config) (req : Request) (location : Bytes)
    → validate c ≡ fine
    → evaluate req c.settings ≡ redirect location
    → IsSettled req c.settings location
unfolding has
evaluate-IsSettled c req location valid h = elim ((validate_iff c).0 valid).domain [
  | inl empty ↦ clean-IsSettled req c.settings location (no_colon empty) h
  | inr (short, accepted) ↦
      clean-IsSettled req c.settings location
        (host_has_no_port c.settings.canonical_domain accepted) h
]
  where
    no_colon : c.settings.canonical_domain ≡ [] → has b':' c.settings.canonical_domain ≡ false
    no_colon e = ap (has b':') e

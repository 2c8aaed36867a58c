-- ===== src/Runtime/Csrf.antt =====
-- lib/runtime/csrf.cpp: double-submit tokens bound to a session.
pub mod Tokens
use homekit_rf_ir_blaster.Base.{
  ℕ, ◌≡◌, refl, Bool, true, false, ◌||◌, not, List, [], ◌∷◌, ◌++◌, Option, none, some, ◌==◌,
  if◌then◌else◌, length, null, Bytes, ◌>>=◌, ◌>>◌, guard, is_some,
}
use homekit_rf_ir_blaster.Runtime.Crypto.{Crypto, buffers_equal, constant_time_equal}
use homekit_rf_ir_blaster.Runtime.Encoding.{encode, decode}
use homekit_rf_ir_blaster.Runtime.Fields.{has, cut}

unfoldable pub csrf_mac : Crypto → Bytes → Bytes → Bytes → Bytes
csrf_mac crypto secret binding rand = crypto.hmac secret (binding ++ (b'!' ∷ rand))

unfoldable pub mint_csrf : Crypto → Bytes → Bytes → Bytes → Bytes
unfolding csrf_mac
mint_csrf crypto secret binding rand =
    encode rand ++ (b'.' ∷ encode (csrf_mac crypto secret binding rand))

unfoldable pub csrf_parts : Crypto → Bytes → Bytes → Bytes × Bytes → Option (Unit {0})
unfolding csrf_mac
csrf_parts crypto secret binding (part1, part2) = do
  guard (not (has b'.' part2))
  rand ← decode part1
  sig ← decode part2
  guard (length sig == 32)
  guard (buffers_equal (csrf_mac crypto secret binding rand) sig)

unfoldable pub check_csrf : Crypto → Bytes → Bytes → Bytes → Bytes → Option (Unit {0})
unfolding csrf_parts
check_csrf crypto secret binding cookie_tok form_tok = do
  guard (not (null cookie_tok || not (constant_time_equal cookie_tok form_tok)))
  parts ← cut b'.' cookie_tok
  csrf_parts crypto secret binding parts

unfoldable pub verify_csrf : Crypto → Bytes → Bytes → Bytes → Bytes → Bool
unfolding check_csrf
verify_csrf crypto secret binding cookie_tok form_tok =
    is_some (check_csrf crypto secret binding cookie_tok form_tok)

-- ===== src/Runtime/Encoding.antt =====
-- lib/runtime/encoding.h and encoding.cpp: base64url without padding. A group of bytes packed by
-- shifts and `|` is written as the sum of its disjoint fields.
pub mod RoundTrip
use homekit_rf_ir_blaster.Base.{
  ℕ, ◌+◌, ◌-◌, ◌*◌, ◌/◌, ◌%◌, ◌^◌, ◌≡◌, refl, Bool, ◌&&◌, List, [], ◌∷◌, Option, none, some, leb,
  ◌==◌, if◌then◌else◌, length, get_or, Bytes, codes, ◌>>=◌,
}

abbrev pub alphabet : Bytes
alphabet = codes "ABCDEFGHIJKLMNOPQRSTUVWXYZabcdefghijklmnopqrstuvwxyz0123456789-_"

-- kEnc[v & 0x3F].
unfoldable pub enc : ℕ → ℕ
enc v = get_or alphabet (v % 64) 0

unfoldable pub encode : Bytes → Bytes
unfolding enc
encode [] = []
encode (a ∷ []) = let n = a * 2 ^ 16 in enc (n / 2 ^ 18) ∷ enc (n / 2 ^ 12) ∷ []
encode (a ∷ b ∷ []) =
    let n = a * 2 ^ 16 + b * 2 ^ 8 in enc (n / 2 ^ 18) ∷ enc (n / 2 ^ 12) ∷ enc (n / 2 ^ 6) ∷ []
encode (a ∷ b ∷ c ∷ rest) =
    let n = a * 2 ^ 16 + b * 2 ^ 8 + c in
    enc (n / 2 ^ 18) ∷ enc (n / 2 ^ 12) ∷ enc (n / 2 ^ 6) ∷ enc n ∷ encode rest

-- dec, with -1 as none.
unfoldable pub dec : ℕ → Option ℕ
dec c =
    if leb b'A' c && leb c b'Z'
    then some (c - b'A')
    else if leb b'a' c && leb c b'z'
    then some (c - b'a' + 26)
    else if leb b'0' c && leb c b'9'
    then some (c - b'0' + 52)
    else if c == b'-'
    then some 62
    else if c == b'_'
    then some 63
    else none

-- The groups of four, and what is left over.
unfoldable pub decode_groups : Bytes → Option Bytes
unfolding dec
decode_groups [] = some []
decode_groups (p ∷ []) = some []
decode_groups (p ∷ q ∷ []) = do a ← dec p; b ← dec q; some ((a * 4 + b / 16) % 256 ∷ [])
decode_groups (p ∷ q ∷ r ∷ []) = do
  a ← dec p
  b ← dec q
  c ← dec r
  let v = a * 2 ^ 12 + b * 2 ^ 6 + c
  some (v / 2 ^ 10 % 256 ∷ v / 2 ^ 2 % 256 ∷ [])
decode_groups (p ∷ q ∷ r ∷ s ∷ rest) = do
  a ← dec p
  b ← dec q
  c ← dec r
  d ← dec s
  let v = a * 2 ^ 18 + b * 2 ^ 12 + c * 2 ^ 6 + d
  out ← decode_groups rest
  some (v / 2 ^ 16 % 256 ∷ v / 2 ^ 8 % 256 ∷ v % 256 ∷ out)

-- A single leftover sextet is refused before the loop.
unfoldable pub decode : Bytes → Option Bytes
unfolding decode_groups
decode s = if length s % 4 == 1 then none else decode_groups s

encode_test : encode (codes "light") ≡ codes "bGlnaHQ"
unfolding encode
encode_test = refl

decode_test : decode (codes "bGlnaHQ") ≡ some (codes "light")
unfolding decode
decode_test = refl

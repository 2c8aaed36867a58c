-- ===== src/Runtime/Encoding/RoundTrip.antt =====
-- lib/runtime/encoding.cpp: decoding what was encoded.
use homekit_rf_ir_blaster.Base.{
  ℕ, ◌+◌, ◌*◌, ◌/◌, ◌%◌, ◌^◌, ◌<◌, ◌≡◌, refl, Bool, true, false, [], ◌∷◌, Option, none, some, ◌==◌,
  length, Bytes, IsByte, All, arith, ap, not, every_below, every_below_sound, ◌∙◌,
}
use homekit_rf_ir_blaster.Runtime.Fields.{has}
use homekit_rf_ir_blaster.Runtime.Encoding.{enc, encode, dec, decode_groups, decode}

-- `dec` undoes `enc` at this sextet.
restores : ℕ → Bool
unfolding dec enc
restores n = elim (dec (enc n)) [ none ↦ false | some v ↦ v == n ]

restores_sound : (v : ℕ) → restores v ≡ true → dec (enc v) ≡ some v
unfolding restores
restores_sound v h = restored (dec (enc v)) h
  where
    restored : (o : Option ℕ) → (elim o [ none ↦ false | some w ↦ w == v ]) ≡ true → o ≡ some v
    restored none e = cc
    restored (some w) e = ground arith

dec-enc_small : (v : ℕ) → v < 64 → dec (enc v) ≡ some v
dec-enc_small v lt =
    restores_sound v (every_below_sound restores 64 v (unfold every_below restores in refl) lt)

enc_mod : (v : ℕ) → enc v ≡ enc (v % 64)
unfolding enc
enc_mod v = let e : v % 64 % 64 ≡ v % 64 = omega arith in rw e

-- A sextet of a group comes back.
pub dec-enc : (v : ℕ) → dec (enc v) ≡ some (v % 64)
dec-enc v = ap dec (enc_mod v) ∙ dec-enc_small (v % 64) (omega arith)

decode_groups-encode : (bs : Bytes) → All IsByte bs → decode_groups (encode bs) ≡ some bs
unfolding encode decode_groups
decode_groups-encode [] h = refl
decode_groups-encode (a ∷ []) h =
    let n = a * 2 ^ 16 in rw (dec-enc (n / 2 ^ 18), dec-enc (n / 2 ^ 12)) (ground arith)
decode_groups-encode (a ∷ b ∷ []) h =
    let n = a * 2 ^ 16 + b * 2 ^ 8 in
    rw (dec-enc (n / 2 ^ 18), dec-enc (n / 2 ^ 12), dec-enc (n / 2 ^ 6)) (ground arith)
decode_groups-encode (a ∷ b ∷ c ∷ rest) h =
    let n = a * 2 ^ 16 + b * 2 ^ 8 + c in
    rw (dec-enc (n / 2 ^ 18), dec-enc (n / 2 ^ 12), dec-enc (n / 2 ^ 6), dec-enc n)
      (rw (decode_groups-encode rest h.1.1.1) (ground arith))

length-encode : (bs : Bytes) → (length (encode bs) % 4 == 1) ≡ false
unfolding encode
length-encode [] = refl
length-encode (a ∷ []) = refl
length-encode (a ∷ b ∷ []) = refl
length-encode (a ∷ b ∷ c ∷ rest) = ground (arith, length-encode rest)

-- Every byte buffer is decoded from its encoding.
pub decode-encode : (bs : Bytes) → All IsByte bs → decode (encode bs) ≡ some bs
unfolding decode
decode-encode bs h = rw (length-encode bs) (decode_groups-encode bs h)

-- A separator is none of the alphabet's characters.
pub avoids : ℕ → ℕ → Bool
unfolding enc
avoids c v = not (enc v == c)

avoids_sound : (c v : ℕ) → avoids c v ≡ true → (enc v == c) ≡ false
unfolding avoids
avoids_sound c v h = ground arith

abbrev pub IsSeparator : ℕ → Type 0
IsSeparator c = every_below (avoids c) 64 ≡ true

enc_ne : (c v : ℕ) → IsSeparator c → (enc v == c) ≡ false
enc_ne c v s =
    rw (enc_mod v)
      (avoids_sound c (v % 64) (every_below_sound (avoids c) 64 (v % 64) s (omega arith)))

pub has-encode : (c : ℕ) (bs : Bytes) → IsSeparator c → has c (encode bs) ≡ false
unfolding encode has
has-encode c [] s = refl
has-encode c (a ∷ []) s =
    let n = a * 2 ^ 16 in rw (enc_ne c (n / 2 ^ 18) s, enc_ne c (n / 2 ^ 12) s)
has-encode c (a ∷ b ∷ []) s =
    let n = a * 2 ^ 16 + b * 2 ^ 8 in
    rw (enc_ne c (n / 2 ^ 18) s, enc_ne c (n / 2 ^ 12) s, enc_ne c (n / 2 ^ 6) s)
has-encode c (x ∷ y ∷ z ∷ rest) s =
    let n = x * 2 ^ 16 + y * 2 ^ 8 + z in
    rw (enc_ne c (n / 2 ^ 18) s, enc_ne c (n / 2 ^ 12) s, enc_ne c (n / 2 ^ 6) s, enc_ne c n s)
      (has-encode c rest s)

pub dot_IsSeparator : IsSeparator b'.'
unfolding avoids every_below
dot_IsSeparator = refl

pub dollar_IsSeparator : IsSeparator b'$'
unfolding avoids every_below
dollar_IsSeparator = refl

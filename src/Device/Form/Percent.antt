-- ===== src/Device/Form/Percent.antt =====
-- src/web_auth.cpp, urlDecode: text in percent encoding.
use homekit_rf_ir_blaster.Base.{
  ℕ, ◌+◌, ◌-◌, ◌*◌, ◌/◌, ◌%◌, ◌<◌, ◌≡◌, refl, [], ◌∷◌, some, ltb, if◌then◌else◌, Bytes, IsByte, All,
  arith,
}
use homekit_rf_ir_blaster.Device.Form.{hex_val, url_decode}

-- An upper-case hexadecimal digit.
abbrev pub hex_digit : ℕ → ℕ
hex_digit v = if ltb v 10 then b'0' + v else b'A' + (v - 10)

-- Every byte as `%XY`, as a browser may write it.
unfoldable pub percent_encode : Bytes → Bytes
percent_encode [] = []
percent_encode (b ∷ bs) = b'%' ∷ hex_digit (b / 16) ∷ hex_digit (b % 16) ∷ percent_encode bs

hex_val-hex_digit : (v : ℕ) → v < 16 → hex_val (hex_digit v) ≡ some v
unfolding hex_val
hex_val-hex_digit v h = ground arith

-- Bytes that were percent-encoded are decoded to what they were.
pub url_decode-percent_encode : (bs : Bytes) → All IsByte bs → url_decode (percent_encode bs) ≡ bs
unfolding url_decode percent_encode
url_decode-percent_encode [] k = refl
url_decode-percent_encode (b ∷ bs) k =
    let whole : b / 16 * 16 + b % 16 ≡ b = omega arith in
    rw
      (
        hex_val-hex_digit (b / 16) (omega (arith, k.0)),
        hex_val-hex_digit (b % 16) (omega arith),
        url_decode-percent_encode bs k.1,
        whole,
      )
      refl

-- ===== src/Payer/Amounts.antt =====
-- The amounts of client.ts under src/providers/payerDaemon: bytes, hexadecimal and decimal.
use livepeer_gateway_console.Common.{
  ℕ, ◌+◌, ◌*◌, ◌/◌, ◌%◌, ◌<◌, ◌≡◌, refl, ap, ◌∙◌, List, [], ◌∷◌, All, arith,
}
use livepeer_gateway_console.Common.Decimal.{IsDecimal, to_decimal-IsDecimal, zero-IsDecimal}
use livepeer_gateway_console.Payer.{
  hex_digit, hex_value, to_hex, parse_hex, big_endian_bytes_to_decimal,
}

-- The number that big-endian bytes encode, behind a number read before them.
pub big_endian : ℕ → List ℕ → ℕ
big_endian n [] = n
big_endian n (b ∷ bs) = big_endian (256 * n + b) bs

hex_value-digit : (d : ℕ) → d < 16 → hex_value (hex_digit d) ≡ d
hex_value-digit d h = ground arith

parse_hex-to_hex :
    (n : ℕ) (bs : List ℕ) → All (λ b. b < 256) bs → parse_hex n (to_hex bs) ≡ big_endian n bs
unfolding parse_hex to_hex big_endian
parse_hex-to_hex n [] h = refl
parse_hex-to_hex n (b ∷ bs) (small, h) =
    let high : hex_value (hex_digit (b / 16)) ≡ b / 16 = hex_value-digit (b / 16) (omega arith) in
    let low : hex_value (hex_digit (b % 16)) ≡ b % 16 = hex_value-digit (b % 16) (omega arith) in
    let read : 16 * (16 * n + hex_value (hex_digit (b / 16))) + hex_value (hex_digit (b % 16))
        ≡ 256 * n + b =
      omega (arith, high, low) in
    ap (λ m. parse_hex m (to_hex bs)) read ∙ parse_hex-to_hex (256 * n + b) bs h

-- Bytes are printed as the decimal of the number that they encode, most significant byte first; no
-- bytes are printed as "0".
pub big_endian-IsDecimal :
    (bs : List ℕ)
    → All (λ b. b < 256) bs
    → IsDecimal (big_endian 0 bs) (big_endian_bytes_to_decimal bs)
big_endian-IsDecimal [] h = unfold big_endian big_endian_bytes_to_decimal in zero-IsDecimal
big_endian-IsDecimal (b ∷ bs) h =
    unfold big_endian_bytes_to_decimal in
    rw (parse_hex-to_hex 0 (b ∷ bs) h) (to_decimal-IsDecimal (big_endian 0 (b ∷ bs)))

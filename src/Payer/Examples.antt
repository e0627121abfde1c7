-- ===== src/Payer/Examples.antt =====
-- A deposit of 256 wei.
use livepeer_gateway_console.Common.{[], ◌∷◌, arith}
use livepeer_gateway_console.Common.Decimal.{IsDecimal}
use livepeer_gateway_console.Payer.{big_endian_bytes_to_decimal}
use livepeer_gateway_console.Payer.Amounts.{big_endian, big_endian-IsDecimal}

big_endian-IsDecimal_example :
    IsDecimal (big_endian 0 (1 ∷ 0 ∷ [])) (big_endian_bytes_to_decimal (1 ∷ 0 ∷ []))
big_endian-IsDecimal_example = big_endian-IsDecimal (1 ∷ 0 ∷ []) (omega arith, (omega arith, tt))

-- ===== src/Common/Address.antt =====
-- Ethereum addresses in text: `/^0x[a-fA-F0-9]{40}$/`.
use mathlib.Core.Bool.{Bool, true, false, ◌&&◌, ◌||◌}
use mathlib.Core.List.{[], ◌∷◌}
use Prim.Native.Nat.{ℕ, zero, suc}
use livepeer_gateway_console.Common.Tests.{leb, ◌==◌}
use livepeer_gateway_console.Common.Text.{Text}

abbrev pub is_hex_code : ℕ → Bool
is_hex_code c =
    (leb b'0' c && leb c b'9') || (leb b'a' c && leb c b'f') || (leb b'A' c && leb c b'F')

unfoldable pub hex_digits : ℕ → Text → Bool
hex_digits zero [] = true
hex_digits zero (c ∷ s) = false
hex_digits (suc n) [] = false
hex_digits (suc n) (c ∷ s) = is_hex_code c && hex_digits n s

unfoldable pub is_eth_address : Text → Bool
unfolding hex_digits
is_eth_address (z ∷ x ∷ s) = (z == b'0') && (x == b'x') && hex_digits 40 s
is_eth_address _ = false

-- ===== src/Common/Json.antt =====
-- `JSON.stringify` of the objects that the program stores: string fields, in the order written.
use Prim.Native.Nat.{ℕ, ◌+◌, ◌/◌, ◌%◌}
use mathlib.Core.Bool.{◌&&◌, ◌||◌}
use mathlib.Core.List.{List, [], ◌∷◌, ◌++◌}
use livepeer_gateway_console.Common.Tests.{ltb, leb, ◌==◌, if◌then◌else◌}
use livepeer_gateway_console.Common.Text.{Text}

hex_digit : ℕ → ℕ
hex_digit d = if ltb d 10 then d + b'0' else d + 87

hex4 : ℕ → Text
unfolding hex_digit
hex4 c =
    hex_digit (c / 4096 % 16)
    ∷ hex_digit (c / 256 % 16)
    ∷ hex_digit (c / 16 % 16)
    ∷ hex_digit (c % 16)
    ∷ []

-- One character of a string literal; control characters and lone surrogates are escaped.
quote_code : ℕ → Text
unfolding hex4
quote_code c =
    if c == 34
    then 92 ∷ 34 ∷ []
    else if c == 92
    then 92 ∷ 92 ∷ []
    else if c == 8
    then 92 ∷ b'b' ∷ []
    else if c == 12
    then 92 ∷ b'f' ∷ []
    else if c == 10
    then 92 ∷ b'n' ∷ []
    else if c == 13
    then 92 ∷ b'r' ∷ []
    else if c == 9
    then 92 ∷ b't' ∷ []
    else if ltb c 32 || (leb 0xd800 c && leb c 0xdfff)
    then 92 ∷ b'u' ∷ hex4 c
    else c ∷ []

quote_body : Text → Text
unfolding quote_code
quote_body [] = []
quote_body (c ∷ s) = quote_code c ++ quote_body s

unfoldable pub json_string : Text → Text
unfolding quote_body
json_string s = 34 ∷ (quote_body s ++ 34 ∷ [])

members : List (Text × Text) → Text
unfolding json_string
members [] = []
members ((k, v) ∷ []) = json_string k ++ (b':' ∷ json_string v)
members ((k, v) ∷ m ∷ ms) = json_string k ++ (b':' ∷ (json_string v ++ (b',' ∷ members (m ∷ ms))))

unfoldable pub json_object : List (Text × Text) → Text
unfolding members
json_object ms = b'{' ∷ (members ms ++ b'}' ∷ [])

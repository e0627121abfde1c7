-- ===== src/Admin/Display.antt =====
-- src/admin-ui/admin/lib/format.js: how the screens show amounts and addresses. JavaScript's `BigInt`
-- on a text is a parameter; it throws where that has none.
pub mod SixDigits
use livepeer_gateway_console.Common.{
  ℕ, zero, suc, ◌+◌, ◌-◌, ◌/◌, ◌%◌, Bool, true, false, ◌&&◌, Option, none, some, List, [], ◌∷◌,
  ◌++◌, ltb, ◌==◌, length, take, drop, if◌then◌else◌,
}
use livepeer_gateway_console.Common.Int.{ℤ, pos, negsuc}
use livepeer_gateway_console.Common.Text.{Text, codes}
use livepeer_gateway_console.Common.Decimal.{to_decimal}

-- The dash that stands for no value.
abbrev pub em_dash : Text
em_dash = 0x2014 ∷ []

abbrev pub eth : ℕ
eth = 1000000000000000000

-- `.replace(/0+$/, "")`
unfoldable pub trim_zeros : Text → Text
trim_zeros [] = []
trim_zeros (c ∷ s) = elim (trim_zeros s) [
  | [] ↦ if c == b'0' then [] else c ∷ []
  | d ∷ t ↦ c ∷ d ∷ t
]

-- `fracStr ? "." + fracStr : ""`
unfoldable pub dotted : Text → Text
dotted [] = []
dotted (c ∷ s) = b'.' ∷ c ∷ s

-- `(frac + ETH).toString(10).slice(1, 7)`, for `frac + ETH`.
unfoldable pub six_digits : ℕ → Text
six_digits n = take 6 (drop 1 (to_decimal n))

show_amount : Text → ℕ → Text
unfolding dotted six_digits trim_zeros
show_amount whole shifted = whole ++ (dotted (trim_zeros (six_digits shifted)) ++ codes " ETH")

-- `v / ETH` and `v % ETH` go towards zero: below zero the remainder is too, and `frac + ETH` lacks it.
unfoldable pub format_amount : ℤ → Text
unfolding show_amount
format_amount (pos n) =
    if n % eth == 0
    then to_decimal (n / eth) ++ codes " ETH"
    else show_amount (to_decimal (n / eth)) (n % eth + eth)
format_amount (negsuc n) =
    let whole = if suc n / eth == 0 then codes "0" else b'-' ∷ to_decimal (suc n / eth) in
    if suc n % eth == 0 then whole ++ codes " ETH" else show_amount whole (eth - suc n % eth)

-- `formatWei`
unfoldable pub format_wei : (Text → Option ℤ) → Option Text → Text
format_wei big_int none = em_dash
format_wei big_int (some []) = em_dash
format_wei big_int (some (c ∷ s)) = elim (big_int (c ∷ s)) [
  | none ↦ c ∷ s
  | some v ↦ format_amount v
]

-- `shortAddress`; `slice(-4)` is what stands behind all but four.
unfoldable pub short_address : Option Text → Text
short_address none = em_dash
short_address (some s) =
    if ltb (length s) 10 then s else take 6 s ++ (0x2026 ∷ drop (length s - 4) s)

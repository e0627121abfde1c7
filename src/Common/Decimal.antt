-- ===== src/Common/Decimal.antt =====
-- `n.toString(10)` of a `bigint` that is not negative, and the number that decimal digits denote.
use Prim.Native.Nat.{ℕ, zero, suc, ◌+◌, ◌-◌, ◌*◌, ◌/◌, ◌%◌, ◌≤◌, ◌<◌}
use mathlib.Core.Path.{◌≡◌, ◌∙◌, refl, ap}
use mathlib.Core.Bool.{Bool, true, ◌&&◌}
use mathlib.Core.List.{[], ◌∷◌}
use mathlib.Core.Logic.{◌≢◌, inl, inr}
use native.Mathlib.Omega.{arith}
use livepeer_gateway_console.Common.Tests.{ltb, leb, if◌then◌else◌, Bool-cases}
use livepeer_gateway_console.Common.Lists.{All}
use livepeer_gateway_console.Common.Text.{Text}

-- The digits, the last one found first; there are no more than the number, so it serves as fuel.
unfoldable pub digits_loop : ℕ → ℕ → Text → Text
digits_loop zero n out = (n + b'0') ∷ out
digits_loop (suc fuel) n out =
    let more = digits_loop fuel (n / 10) ((n % 10 + b'0') ∷ out) in
    if ltb n 10 then (n + b'0') ∷ out else more

unfoldable pub to_decimal : ℕ → Text
unfolding digits_loop
to_decimal n = digits_loop n n []

abbrev pub is_digit_code : ℕ → Bool
is_digit_code c = leb b'0' c && leb c b'9'

-- The number that digits denote, behind a number read before them.
unfoldable pub decimal_value : ℕ → Text → ℕ
decimal_value n [] = n
decimal_value n (c ∷ s) = decimal_value (10 * n + (c - 48)) s

digits_loop-value :
    (fuel n : ℕ) (out : Text)
    → n ≤ fuel
    → decimal_value 0 (digits_loop fuel n out) ≡ decimal_value n out
unfolding digits_loop decimal_value
digits_loop-value zero n out h = ap (λ m. decimal_value m out) (omega arith)
digits_loop-value (suc fuel) n out h = elim (Bool-cases (ltb n 10)) [
  | inl small ↦ rw small (ap (λ m. decimal_value m out) (omega arith))
  | inr large ↦
      let less : n / 10 ≤ fuel = ground arith in
      rw large (
        digits_loop-value fuel (n / 10) ((n % 10 + b'0') ∷ out) less
        ∙ ap (λ m. decimal_value m out) (omega arith))
]

digits_loop-digits :
    (fuel n : ℕ) (out : Text)
    → n ≤ fuel
    → All (λ c. is_digit_code c ≡ true) out
    → All (λ c. is_digit_code c ≡ true) (digits_loop fuel n out)
unfolding digits_loop
digits_loop-digits zero n out h k = (ground arith, k)
digits_loop-digits (suc fuel) n out h k = elim (Bool-cases (ltb n 10)) [
  | inl small ↦ rw small (ground arith, k)
  | inr large ↦
      let less : n / 10 ≤ fuel = ground arith in
      rw large (digits_loop-digits fuel (n / 10) ((n % 10 + b'0') ∷ out) less (ground arith, k))
]

-- The text begins with a digit other than zero.
abbrev pub LeadsNonzero : Text → Type 0
LeadsNonzero [] = ⊥
LeadsNonzero (c ∷ s) = c ≢ b'0'

digits_loop-leads :
    (fuel n : ℕ) (out : Text) → n ≤ fuel → 0 < n → LeadsNonzero (digits_loop fuel n out)
unfolding digits_loop
digits_loop-leads zero n out h p = absurd (omega arith)
digits_loop-leads (suc fuel) n out h p = elim (Bool-cases (ltb n 10)) [
  | inl small ↦ rw small (omega arith)
  | inr large ↦
      let less : n / 10 ≤ fuel = ground arith in
      let left : 0 < n / 10 = ground arith in
      rw large (digits_loop-leads fuel (n / 10) ((n % 10 + b'0') ∷ out) less left)
]

-- A number in base 10: digits alone, which denote it, with no leading zero but for zero itself.
pub record IsDecimal (n : ℕ) (s : Text) : Type 0 where
  pub value : decimal_value 0 s ≡ n
  pub plain : All (λ c. is_digit_code c ≡ true) s
  pub leads : 0 < n → LeadsNonzero s

pub to_decimal-IsDecimal : (n : ℕ) → IsDecimal n (to_decimal n)
unfolding to_decimal
to_decimal-IsDecimal n = record {
  value = digits_loop-value n n [] (omega arith) ∙ unfold decimal_value in refl;
  plain = digits_loop-digits n n [] (omega arith) tt;
  leads = digits_loop-leads n n [] (omega arith);
}

pub zero-IsDecimal : IsDecimal 0 (b'0' ∷ [])
unfolding decimal_value
zero-IsDecimal = record { value = refl; plain = (refl, tt); leads = λ h. absurd (omega arith) }

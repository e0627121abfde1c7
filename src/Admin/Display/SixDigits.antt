-- ===== src/Admin/Display/SixDigits.antt =====
-- The whole number of ETH and six decimals, cut off.
use livepeer_gateway_console.Common.{
  ℕ, zero, suc, ◌+◌, ◌-◌, ◌*◌, ◌/◌, ◌%◌, ◌≤◌, ◌<◌, ◌≡◌, refl, ap, ◌∙◌, Option, some, [], ◌∷◌, ◌++◌,
  ltb, lt→ltb, ==_iff, ◌==◌, length, take, drop, arith, Bool-cases, inl, inr, All, All-take, true,
  false, ◌≢◌, if◌then◌else◌,
}
use livepeer_gateway_console.Common.Int.{ℤ, pos}
use livepeer_gateway_console.Common.Text.{Text, codes}
use livepeer_gateway_console.Common.Decimal.{
  digits_loop, to_decimal, decimal_value, is_digit_code, to_decimal-IsDecimal,
}
use livepeer_gateway_console.Admin.Display.{
  eth, trim_zeros, dotted, six_digits, show_amount, format_amount, format_wei,
}

-- The digits of a number of `suc k` digits.
digits : ℕ → ℕ → Text → Text
digits zero n out = (n + b'0') ∷ out
digits (suc k) n out = digits k (n / 10) ((n % 10 + b'0') ∷ out)

-- The least number of `suc k` digits.
least : ℕ → ℕ
least zero = 1
least (suc k) = 10 * least k

least_pos : (k : ℕ) → 0 < least k
unfolding least
least_pos zero = omega arith
least_pos (suc k) = omega (arith, least_pos k)

digits_loop-digits :
    (k fuel n : ℕ) (out : Text)
    → least k ≤ n
    → n < 10 * least k
    → n ≤ fuel
    → digits_loop fuel n out ≡ digits k n out
unfolding digits_loop digits least
digits_loop-digits zero zero n out lo hi enough = refl
digits_loop-digits (suc k) zero n out lo hi enough = absurd (omega (arith, least_pos k))
digits_loop-digits zero (suc fuel) n out lo hi enough = rw (lt→ltb n 10 hi)
digits_loop-digits (suc k) (suc fuel) n out lo hi enough =
    let large : ltb n 10 ≡ false = ground (arith, least_pos k) in
    rw large (
      digits_loop-digits k fuel (n / 10) ((n % 10 + b'0') ∷ out) (omega arith) (omega arith)
        (omega (arith, least_pos k)))

-- `n` without its last `i` digits.
without : ℕ → ℕ → ℕ
without zero n = n
without (suc i) n = without i (n / 10)

six_and : ℕ → ℕ
six_and zero = 6
six_and (suc i) = suc (six_and i)

first_seven : (i n : ℕ) (out : Text) → take 7 (digits (six_and i) n out) ≡ digits 6 (without i n) []
unfolding digits without six_and
first_seven zero n out = refl
first_seven (suc i) n out = first_seven i (n / 10) ((n % 10 + b'0') ∷ out)

six_value :
    (m : ℕ) → 1000000 ≤ m → m < 2000000 → decimal_value 0 (drop 1 (digits 6 m [])) ≡ m - 1000000
unfolding digits decimal_value
six_value m lo hi = omega arith

without_twelve : (n : ℕ) → without 12 n ≡ n / 1000000000000
unfolding without
without_twelve n = omega arith

behind_first : (xs : Text) → take 6 (drop 1 xs) ≡ drop 1 (take 7 xs)
behind_first [] = refl
behind_first (x ∷ xs) = refl

seven : (n : ℕ) → eth ≤ n → n < 2 * eth → take 7 (to_decimal n) ≡ digits 6 (n / 1000000000000) []
unfolding to_decimal least six_and
seven n lo hi =
    ap (take 7) (digits_loop-digits 18 n n [] lo (omega arith) (omega arith))
    ∙ first_seven 12 n []
    ∙ ap (λ m. digits 6 m []) (without_twelve n)

All-drop_one : (P : ℕ → Type 0) (xs : Text) → All P xs → All P (drop 1 xs)
All-drop_one P [] h = tt
All-drop_one P (x ∷ xs) (p, h) = h

-- Six digits, which denote a number.
pub record IsSixDigits (n : ℕ) (s : Text) : Type 0 where
  pub six : length s ≡ 6
  pub plain : All (λ c. is_digit_code c ≡ true) s
  pub value : decimal_value 0 s ≡ n

-- The digits that are shown of a number between 1 and 2 ETH in wei are six, and denote what stands
-- behind the first digit, without the last twelve.
six_digits-IsSixDigits :
    (n : ℕ) → eth ≤ n → n < 2 * eth → IsSixDigits (n / 1000000000000 - 1000000) (six_digits n)
unfolding six_digits
six_digits-IsSixDigits n lo hi =
    let shown : six_digits n ≡ drop 1 (digits 6 (n / 1000000000000) []) =
      behind_first (to_decimal n) ∙ ap (drop 1) (seven n lo hi) in
    record {
      six = ap length shown ∙ unfold digits in refl;
      plain =
          All-take (λ c. is_digit_code c ≡ true) 6 (drop 1 (to_decimal n))
            (All-drop_one (λ c. is_digit_code c ≡ true) (to_decimal n)
              (to_decimal-IsDecimal n).plain);
      value =
          ap (decimal_value 0) shown ∙ six_value (n / 1000000000000) (omega arith) (omega arith);
    }

zeros-IsSixDigits : IsSixDigits 0 (codes "000000")
unfolding decimal_value
zeros-IsSixDigits = record {
  six = refl;
  plain = (refl, (refl, (refl, (refl, (refl, (refl, tt))))));
  value = refl;
}

-- How decimals are written behind a number: with a point and without the zeros at their end, or not
-- at all where all of them are zero.
pub data IsFraction (decimals : Text) : Text → Type 0 where
  whole : All (λ c. c ≡ b'0') decimals → IsFraction decimals []
  point :
      (kept zeros : Text) (last : ℕ)
      → decimals ≡ kept ++ last ∷ zeros
      → last ≢ b'0'
      → All (λ c. c ≡ b'0') zeros
      → IsFraction decimals (b'.' ∷ kept ++ last ∷ [])

-- What is left of a text without the zeros at its end.
data Trims (s : Text) : Text → Type 0 where
  nothing : All (λ c. c ≡ b'0') s → Trims s []
  up_to :
      (kept zeros : Text) (last : ℕ)
      → s ≡ kept ++ last ∷ zeros
      → last ≢ b'0'
      → All (λ c. c ≡ b'0') zeros
      → Trims s (kept ++ last ∷ [])

Trims-cons :
    (c : ℕ) (s t : Text)
    → Trims s t
    → Trims (c ∷ s) (elim t [ [] ↦ if c == b'0' then [] else c ∷ [] | d ∷ u ↦ c ∷ d ∷ u ])
Trims-cons c s _ (Trims.nothing h) = elim (Bool-cases (c == b'0')) [
  | inl zero_too ↦ rw zero_too (Trims.nothing ((==_iff c b'0').0 zero_too, h))
  | inr other ↦
      rw other (Trims.up_to [] s c refl (λ e. let clash = (==_iff c b'0').1 e in absurd (cc)) h)
]
Trims-cons c s _ (Trims.up_to [] zeros last e p h) =
    Trims.up_to (c ∷ []) zeros last (ap (λ x. c ∷ x) e) p h
Trims-cons c s _ (Trims.up_to (k ∷ ks) zeros last e p h) =
    Trims.up_to (c ∷ k ∷ ks) zeros last (ap (λ x. c ∷ x) e) p h

trim_zeros-Trims : (s : Text) → Trims s (trim_zeros s)
unfolding trim_zeros
trim_zeros-Trims [] = Trims.nothing tt
trim_zeros-Trims (c ∷ s) = Trims-cons c s (trim_zeros s) (trim_zeros-Trims s)

dotted-IsFraction : (s t : Text) → Trims s t → IsFraction s (dotted t)
unfolding dotted
dotted-IsFraction s _ (Trims.nothing h) = IsFraction.whole h
dotted-IsFraction s _ (Trims.up_to [] zeros last e p h) = IsFraction.point [] zeros last e p h
dotted-IsFraction s _ (Trims.up_to (k ∷ ks) zeros last e p h) =
    IsFraction.point (k ∷ ks) zeros last e p h

-- An amount of wei is shown as the whole number of ETH in base 10, a fraction and the unit. The
-- fraction writes six digits, which denote the wei behind the point without their last twelve digits:
-- with a point and without the zeros at their end, or not at all where all six are zero.
pub format_wei_lem :
    (big_int : Text → Option ℤ) (c : ℕ) (s : Text) (n : ℕ)
    → big_int (c ∷ s) ≡ some (pos n)
    → (decimals : Text) × IsSixDigits (n % eth / 1000000000000) decimals
      × ((fraction : Text) × IsFraction decimals fraction
          × (format_wei big_int (some (c ∷ s))
              ≡ to_decimal (n / eth) ++ (fraction ++ codes " ETH")))
unfolding format_wei format_amount show_amount
format_wei_lem big_int c s n parsed = elim (Bool-cases (n % eth == 0)) [
  | inl exact ↦
      let none_left : 0 ≡ n % eth / 1000000000000 = omega (arith, (==_iff (n % eth) 0).0 exact) in
      (
        codes "000000",
        rw none_left at zeros-IsSixDigits,
        (
          [],
          IsFraction.whole (refl, (refl, (refl, (refl, (refl, (refl, tt)))))),
          rw (parsed, format_wei) (rw exact),
        ),
      )
  | inr part ↦
      let decimals = six_digits (n % eth + eth) in
      let shifted : (n % eth + eth) / 1000000000000 - 1000000 ≡ n % eth / 1000000000000 =
        omega arith in
      (
        decimals,
        rw shifted at (six_digits-IsSixDigits (n % eth + eth) (omega arith) (omega arith)),
        (
          dotted (trim_zeros decimals),
          dotted-IsFraction decimals (trim_zeros decimals) (trim_zeros-Trims decimals),
          rw (parsed, format_wei) (rw part),
        ),
      )
]

-- ===== src/Admin/SenderScreen/Floor.antt =====
-- The mark of a balance below the floor.
use livepeer_gateway_console.Common.{
  ℕ, suc, zero, ◌≡◌, ◌<◌, ◌↔◌, refl, sym, ap, ◌∙◌, true, Option, some, [], ◌∷◌, arith, Bool-cases,
  inl, inr, ltb, lt→ltb, ltb→lt, ◌/◌, ◌%◌, ◌+◌,
}
use livepeer_gateway_console.Common.Int.{ℤ, pos, ltb_ℤ}
use livepeer_gateway_console.Common.Text.{Text}
use livepeer_gateway_console.Common.Decimal.{digits_loop, to_decimal}
use livepeer_gateway_console.Common.Result.{ok, ok-injective}
use livepeer_gateway_console.Payer.Sender.{
  SenderWallet, SenderServiceDeps, sent, handle_get_sender_wallet,
}
use livepeer_gateway_console.Payer.Sender.Views.{balance_shown}
use livepeer_gateway_console.Admin.Payload.{view}
use livepeer_gateway_console.Admin.SenderScreen.{SenderScreen, less, floor_test, below_floor}

digits_loop-filled :
    (fuel n : ℕ) (out : Text) → (c : ℕ) × (s : Text) × (digits_loop fuel n out ≡ c ∷ s)
unfolding digits_loop
digits_loop-filled zero n out = (_, _, refl)
digits_loop-filled (suc fuel) n out = elim (Bool-cases (ltb n 10)) [
  | inl small ↦ rw small (_, _, refl)
  | inr large ↦ rw large (digits_loop-filled fuel (n / 10) ((n % 10 + b'0') ∷ out))
]

natural : (m n : ℕ) → ltb_ℤ (pos m) (pos n) ≡ ltb m n
natural m n = ground arith

module _ (big_int : Text → Option ℤ) (wei floor c : ℕ) (t : Text) where
  floor_test-filled :
      (d : ℕ) (s : Text)
      → big_int (d ∷ s) ≡ some (pos wei)
      → big_int (c ∷ t) ≡ some (pos floor)
      → floor_test big_int (d ∷ s) (some (c ∷ t)) ≡ ltb wei floor
  unfolding floor_test less
  floor_test-filled d s p q = rw (p, q) (natural wei floor)

  floor_test_iff :
      (balance : Text)
      → balance ≡ to_decimal wei
      → big_int balance ≡ some (pos wei)
      → big_int (c ∷ t) ≡ some (pos floor)
      → (floor_test big_int balance (some (c ∷ t)) ≡ true) ↔ (wei < floor)
  unfolding to_decimal
  floor_test_iff balance printed p q =
      let (d, s, filled) = digits_loop-filled wei wei [] in
      let tested = floor_test-filled d s (ap big_int (sym (printed ∙ filled)) ∙ p) q in
      let same : floor_test big_int balance (some (c ∷ t)) ≡ ltb wei floor =
        rw (printed ∙ filled) tested in
      (λ h. ltb→lt wei floor (sym same ∙ h), λ h. same ∙ lt→ltb wei floor h)

-- The wallet that the handler sends is marked as below the floor exactly when the balance that the
-- chain gave is less than the floor of the configuration, if `BigInt` reads both texts.
pub below_floor_iff :
    (big_int : Text → Option ℤ) (deps : SenderServiceDeps) (s : SenderScreen) (w : SenderWallet)
    → handle_get_sender_wallet deps ≡ sent w
    → s.wallet ≡ some (view w)
    → (wei floor c : ℕ) (t : Text) → deps.balance w.address ≡ ok wei
    → deps.min_balance_wei ≡ some (c ∷ t)
    → big_int (to_decimal wei) ≡ some (pos wei)
    → big_int (c ∷ t) ≡ some (pos floor)
    → (below_floor big_int s ≡ true) ↔ (wei < floor)
unfolding below_floor
below_floor_iff big_int deps s w replied shown wei floor c t balance least p q =
    let known = balance_shown deps w replied in
    let same = ok-injective known.wei wei (sym known.answered ∙ balance) in
    let printed : w.balance_wei ≡ to_decimal wei = known.printed ∙ ap to_decimal same in
    rw (shown, known.floor, least)
      (floor_test_iff big_int wei floor c t w.balance_wei printed (rw printed p) q)

-- ===== src/Checkout/Totals.antt =====
-- The totals of a settlement are the sums of its parts.
use stds_backend_go.Prelude.{
  ◌≡◌, refl, true, ℕ, zero, suc, ◌+◌, ◌<◌, List, ◌++◌, none, some, arith, ap, ◌∙◌,
}
use stds_backend_go.Prelude.Int.{ℤ, pos, ltb_ℤ, add_int_fits, half_range}
use stds_backend_go.Lease.Defs.{State}
use stds_backend_go.Checkout.Defs.{
  CheckoutInput, Line, if_positive, charge, electricity_lines, rent_refund_line, direction_refund,
  direction_charge, settlement_lines, totals_from, settlement_totals,
}

charge_step :
    (r : ℤ) (c x : ℕ) (line : Line) (rest : List Line)
    → line.direction ≡ direction_charge
    → line.amount ≡ pos x
    → c + x < half_range
    → totals_from r (pos c) (if_positive (pos x) line ++ rest) ≡ totals_from r (pos (c + x)) rest
unfolding totals_from
charge_step r c zero line rest d a h =
    let same : c ≡ c + 0 = omega arith in ap (λ n. totals_from r (pos n) rest) same
charge_step r c (suc x) line rest d a h =
    let positive : ltb_ℤ (pos 0) (pos (suc x)) ≡ true = ground arith in
    rw (positive, d, a, add_int_fits c (suc x) h) refl

refund_step :
    (r x : ℕ) (c : ℤ) (line : Line) (rest : List Line)
    → line.direction ≡ direction_refund
    → line.amount ≡ pos x
    → r + x < half_range
    → totals_from (pos r) c (if_positive (pos x) line ++ rest) ≡ totals_from (pos (r + x)) c rest
unfolding totals_from
refund_step r zero c line rest d a h =
    let same : r ≡ r + 0 = omega arith in ap (λ n. totals_from (pos n) c rest) same
refund_step r (suc x) c line rest d a h =
    let positive : ltb_ℤ (pos 0) (pos (suc x)) ≡ true = ground arith in
    rw (positive, d, a, add_int_fits r (suc x) h) refl

electricity_step :
    (r : ℤ) (c x : ℕ)
    → c + x < half_range
    → totals_from r (pos c) (electricity_lines (some (pos x))) ≡ (r, pos (c + x))
unfolding totals_from
electricity_step r c x h = rw (add_int_fits c x h) refl

-- For amounts that are not negative and whose sums are values of `int`, the total refund is the
-- deposit and the manual refund, and the total charge is the fees and the electricity.
pub settlement_totals_exact :
    (lease : State) (input : CheckoutInput) (deposit manual cleaning key_card other electricity : ℕ)
    → deposit + manual < half_range
    → cleaning + key_card + other + electricity < half_range
    → settlement_totals (
        settlement_lines
          (record lease { deposit_amount = pos deposit })
          (record input {
            cleaning_fee = pos cleaning;
            key_card_loss_fee = pos key_card;
            other_fee = pos other;
            manual_rent_refund_amount = pos manual;
          })
          (some (pos electricity)))
      ≡ (pos (deposit + manual), pos (cleaning + key_card + other + electricity))
unfolding settlement_totals settlement_lines totals_from
settlement_totals_exact lease input deposit manual cleaning key_card other electricity h k =
    let start : 0 + deposit ≡ deposit = omega arith in
    let fees : 0 + cleaning + key_card + other + electricity
        ≡ cleaning + key_card + other + electricity =
      omega arith in
    let cleaning_line = charge "cleaning_fee" "清潔費" (pos cleaning) none in
    let key_card_line = charge "key_card_loss" "門禁卡/鑰匙遺失費" (pos key_card) none in
    let other_line = charge "other_fee" "其他費用" (pos other) input.other_fee_reason in
    let rent_line = rent_refund_line (pos manual) input.manual_rent_refund_reason in
    let last = electricity_lines (some (pos electricity)) in
    let after_other = if_positive (pos manual) rent_line ++ last in
    let after_key_card = if_positive (pos other) other_line ++ after_other in
    let after_cleaning = if_positive (pos key_card) key_card_line ++ after_key_card in
    let all = if_positive (pos cleaning) cleaning_line ++ after_cleaning in
    ap (λ r. totals_from r (pos 0) all) (add_int_fits 0 deposit (omega arith) ∙ ap pos start)
    ∙ charge_step (pos deposit) 0 cleaning cleaning_line after_cleaning refl refl (omega arith)
    ∙ charge_step (pos deposit) (0 + cleaning) key_card key_card_line after_key_card refl refl
        (omega arith)
    ∙ charge_step (pos deposit) (0 + cleaning + key_card) other other_line after_other refl refl
        (omega arith)
    ∙ refund_step deposit manual (pos (0 + cleaning + key_card + other)) rent_line last refl refl h
    ∙ electricity_step (pos (deposit + manual)) (0 + cleaning + key_card + other) electricity
        (omega arith)
    ∙ ap (λ c. (pos (deposit + manual), pos c)) fees

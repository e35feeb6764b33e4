-- ===== src/Core/Validators/Laws.antt =====
-- What a valid result of core/validators.py tells of its input.
use Prim.Native.String.{count}
use supply_chain_execution.Common.{
  All, Bool, List, Option, String, [], any, arith, false, length, ltb, not, refl, true, ℕ, ◌&&◌,
  ◌==◌, ◌||◌, ◌↔◌, ◌∷◌, ◌≡◌, ◌≢◌, ◌≤◌,
}
use supply_chain_execution.Common.Int.{int_laws, leb_ℤ, ltb_ℤ, pos, ℤ, ◌-ℤ◌, ◌<ℤ◌, ◌≤ℤ◌}
use supply_chain_execution.Core.Validators.{
  Address, IssueCode, ValidationResult, bad_order_quantity, committed, error_if, errors_in,
  get_or_zero, is_negative, lacks_required, max_lines, max_priority, no_issues, validate_balance,
  validate_create, validate_transfer,
}
use supply_chain_execution.Persistence.Models.Inventory.{available}

-- A reported error, and only an error, makes the result invalid.
pub error_if-is_valid :
    (c : Bool) (code : IssueCode) (r : ValidationResult)
    → (error_if c code r).is_valid ≡ (not c && r.is_valid)
unfolding error_if
error_if-is_valid true code r = refl
error_if-is_valid false code r = refl

pub errors_in-is_valid :
    {A : Type 0} (bad : A → Bool) (code : IssueCode) (xs : List A) (r : ValidationResult)
    → (errors_in bad code xs r).is_valid ≡ (not (any bad xs) && r.is_valid)
unfolding errors_in
errors_in-is_valid bad code [] r = refl
errors_in-is_valid bad code (x ∷ xs) r =
    rw (errors_in-is_valid bad code xs (error_if (bad x) code r), error_if-is_valid (bad x) code r)
      (ground arith)

short_of : (o held : ℤ) → ltb_ℤ (o -ℤ held) (pos 0) ≡ ltb_ℤ o held
short_of o held = grind int_laws

counters_valid :
    (o r a d q held : ℤ)
    → ((not (ltb_ℤ o held)
          && (not (ltb_ℤ o held) && (not (any is_negative (o ∷ r ∷ a ∷ d ∷ q ∷ [])) && true)))
        ≡ true)
      ↔ ((pos 0 ≤ℤ o) × (pos 0 ≤ℤ r) × (pos 0 ≤ℤ a) × (pos 0 ≤ℤ d) × (pos 0 ≤ℤ q) × (held ≤ℤ o))
counters_valid o r a d q held = ground arith

-- A balance validates exactly when no counter is negative and the reserved, allocated, damaged and
-- quarantined units together are on hand.
pub validate_balance-valid :
    (on_hand reserved allocated damaged quarantine : ℤ)
    → ((validate_balance on_hand reserved allocated damaged quarantine).is_valid ≡ true) ↔ (
        (pos 0 ≤ℤ on_hand)
        × (pos 0 ≤ℤ reserved)
        × (pos 0 ≤ℤ allocated)
        × (pos 0 ≤ℤ damaged)
        × (pos 0 ≤ℤ quarantine)
        × (committed reserved allocated damaged quarantine ≤ℤ on_hand))
unfolding validate_balance
validate_balance-valid o r a d q =
    let held = committed r a d q in
    rw
      (
        error_if-is_valid (ltb_ℤ (o -ℤ held) (pos 0)) IssueCode.negative_available _,
        error_if-is_valid (ltb_ℤ o held) IssueCode.overcommitted _,
        errors_in-is_valid is_negative IssueCode.negative_balance (o ∷ r ∷ a ∷ d ∷ q ∷ [])
            no_issues,
        short_of o held,
      )
      (counters_valid o r a d q held)

-- A transfer validates exactly when its ends differ and it asks for a positive number of units
-- that are there.
pub validate_transfer-valid :
    (source dest : ℕ) (quantity available : ℤ)
    → ((validate_transfer source dest quantity available).is_valid ≡ true)
      ↔ ((source ≢ dest) × (pos 0 <ℤ quantity) × (quantity ≤ℤ available))
unfolding validate_transfer error_if
validate_transfer-valid source dest quantity available = ground arith

-- A line's quantity is from 1 to 10000.
abbrev pub IsOrderQuantity : Option ℤ → Type 0
IsOrderQuantity line = (pos 1 ≤ℤ get_or_zero line) × (get_or_zero line ≤ℤ pos 10_000)

no_bad_quantity :
    (lines : List (Option ℤ)) → (any bad_order_quantity lines ≡ false) ↔ All IsOrderQuantity lines
no_bad_quantity [] = (λ e. tt, λ h. refl)
no_bad_quantity (l ∷ ls) =
    let (forth, back) = no_bad_quantity ls in
    let good = one (get_or_zero l) (any bad_order_quantity ls) in
    (λ e. let (q, rest) = good.0 e in (q, forth rest), λ h. good.1 (h.0, back h.1))
  where
    one :
        (n : ℤ) (rest : Bool)
        → (((leb_ℤ n (pos 0) || ltb_ℤ (pos 10_000) n) || rest) ≡ false)
          ↔ (((pos 1 ≤ℤ n) × (n ≤ℤ pos 10_000)) × (rest ≡ false))
    one n rest = ground arith

create_tests :
    (chars many : ℕ) (bad lacks : Bool) (p : ℤ)
    → ((not (ltb_ℤ p (pos 1) || ltb_ℤ max_priority p)
          && (not lacks
              && (not bad
                  && (not (ltb max_lines many)
                      && (not (many == 0) && (not ((chars == 0) || ltb 128 chars) && true))))))
        ≡ true)
      ↔ ((1 ≤ chars)
          × (chars ≤ 128)
          × (1 ≤ many)
          × (many ≤ 500)
          × (bad ≡ false)
          × (lacks ≡ false)
          × (pos 1 ≤ℤ p)
          × (p ≤ℤ pos 10))
create_tests chars many bad lacks p = ground arith

-- An order validates exactly when its external id has 1 to 128 characters, it has 1 to 500 lines,
-- each of 1 to 10000 units, its address has a city, a state and a postal code, and its priority is
-- from 1 to 10.
pub validate_create-valid :
    (order_id : String) (lines : List (Option ℤ)) (address : Address) (priority : ℤ)
    → ((validate_create order_id lines address priority).is_valid ≡ true) ↔ (
        (1 ≤ count order_id)
        × (count order_id ≤ 128)
        × (1 ≤ length lines)
        × (length lines ≤ 500)
        × All IsOrderQuantity lines
        × (lacks_required address ≡ false)
        × (pos 1 ≤ℤ priority)
        × (priority ≤ℤ pos 10))
unfolding validate_create
validate_create-valid order_id lines address priority =
    let (forth, back) =
      create_tests (count order_id) (length lines) (any bad_order_quantity lines)
        (lacks_required address) priority in
    let (good, bad) = no_bad_quantity lines in
    rw
      (
        error_if-is_valid (ltb_ℤ priority (pos 1) || ltb_ℤ max_priority priority)
            IssueCode.invalid_priority _,
        error_if-is_valid (lacks_required address) IssueCode.incomplete_address _,
        errors_in-is_valid bad_order_quantity IssueCode.invalid_quantity lines _,
        error_if-is_valid (ltb max_lines (length lines)) IssueCode.too_many_lines _,
        error_if-is_valid (length lines == 0) IssueCode.no_lines _,
        error_if-is_valid ((count order_id == 0) || ltb 128 (count order_id))
            IssueCode.invalid_order_id no_issues,
      )
      (
        λ e. let (a, b, c, d, f, g, x, y) = forth e in (a, b, c, d, good f, g, x, y),
        λ h. let (a, b, c, d, f, g, x, y) = h in back (a, b, c, d, bad f, g, x, y),
      )

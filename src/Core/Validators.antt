-- ===== src/Core/Validators.antt =====
-- src/nexusops/core/validators.py. An issue keeps its code and severity; its texts are left out.
-- A Decimal is a whole number of ten-thousandths.
pub mod Laws
use Prim.Native.String.{count}
use text.Mathlib.Text.{◌==◌ as str_eq}
use supply_chain_execution.Common.{
  Bool, List, Option, String, [], any, false, if◌then◌else◌, length, ltb, none, not, some, true, ℕ,
  ◌&&◌, ◌++◌, ◌==◌, ◌||◌, ◌∷◌,
}
use supply_chain_execution.Common.Int.{leb_ℤ, ltb_ℤ, pos, ℤ, ◌+ℤ◌, ◌-ℤ◌}
use supply_chain_execution.Core.Types.{OrderStatus, ShipmentStatus, same_order, same_shipment}
use supply_chain_execution.Persistence.Models.Inventory.{available}

pub data IssueCode : Type 0 where
  invalid_order_id no_lines too_many_lines invalid_quantity incomplete_address : IssueCode
  invalid_priority terminal_state same_origin_dest missing_city weight_exceeded : IssueCode
  invalid_weight duplicate_status_in_history negative_balance overcommitted : IssueCode
  negative_available missing_reason adjustment_below_zero no_po_lines invalid_po_qty : IssueCode
  invalid_unit_cost inactive_supplier same_warehouse insufficient_stock : IssueCode

pub data Severity : Type 0 where
  error warning : Severity

abbrev pub is_error : Severity → Bool
is_error Severity.error = true
is_error Severity.warning = false

pub record ValidationIssue : Type 0 where
  pub code : IssueCode
  pub severity : Severity

pub record ValidationResult : Type 0 where
  pub is_valid : Bool
  pub issues : List ValidationIssue

abbrev pub no_issues : ValidationResult
no_issues = record { is_valid = true; issues = [] }

abbrev pub add_error : IssueCode → ValidationResult → ValidationResult
add_error code r = record {
  is_valid = false;
  issues = r.issues ++ record { code = code; severity = Severity.error } ∷ [];
}

abbrev pub add_warning : IssueCode → ValidationResult → ValidationResult
add_warning code r = record r {
  issues = r.issues ++ record { code = code; severity = Severity.warning } ∷ [];
}

-- `if c: result.add_error(code)`, and the same for a warning.
unfoldable pub error_if : Bool → IssueCode → ValidationResult → ValidationResult
error_if c code r = if c then add_error code r else r

unfoldable pub warn_if : Bool → IssueCode → ValidationResult → ValidationResult
warn_if c code r = if c then add_warning code r else r

-- A loop that may report each item.
unfoldable pub errors_in :
    {A : Type 0} → (A → Bool) → IssueCode → List A → ValidationResult → ValidationResult
errors_in bad code [] r = r
errors_in bad code (x ∷ xs) r = errors_in bad code xs (error_if (bad x) code r)

abbrev pub get_or_zero : Option ℤ → ℤ
get_or_zero none = pos 0
get_or_zero (some n) = n

abbrev pub Address : Type 0
Address = List (String × String)

abbrev pub has_key : String → Address → Bool
has_key key address = any (λ (e : String × String). str_eq e.0 key) address

abbrev pub max_lines : ℕ
max_lines = 500

abbrev pub max_quantity_per_line : ℤ
max_quantity_per_line = pos 10_000

abbrev pub max_priority : ℤ
max_priority = pos 10

-- A line is its `quantity` key.
abbrev pub bad_order_quantity : Option ℤ → Bool
bad_order_quantity line =
    leb_ℤ (get_or_zero line) (pos 0) || ltb_ℤ max_quantity_per_line (get_or_zero line)

abbrev pub lacks_required : Address → Bool
lacks_required a = not (has_key "city" a && has_key "state" a && has_key "postal_code" a)

-- `OrderValidator.validate_create`
unfoldable pub validate_create : String → List (Option ℤ) → Address → ℤ → ValidationResult
validate_create order_id lines address priority =
    let r =
      error_if ((count order_id == 0) || ltb 128 (count order_id)) IssueCode.invalid_order_id
        no_issues in
    let r = error_if (length lines == 0) IssueCode.no_lines r in
    let r = error_if (ltb max_lines (length lines)) IssueCode.too_many_lines r in
    let r = errors_in bad_order_quantity IssueCode.invalid_quantity lines r in
    let r = error_if (lacks_required address) IssueCode.incomplete_address r in
    error_if (ltb_ℤ priority (pos 1) || ltb_ℤ max_priority priority) IssueCode.invalid_priority r

-- `OrderValidator.validate_status_transition`
unfoldable pub validate_status_transition : OrderStatus → OrderStatus → ValidationResult
validate_status_transition current target =
    error_if (same_order current OrderStatus.delivered || same_order current OrderStatus.cancelled)
      IssueCode.terminal_state no_issues

-- `addr.get("city")` is there and not empty.
unfoldable pub lacks_city : Address → Bool
lacks_city [] = true
lacks_city ((k, v) ∷ rest) = if str_eq k "city" then count v == 0 else lacks_city rest

-- `ShipmentValidator.validate_addresses`; `same` is Python's equality of the two dictionaries.
unfoldable pub validate_addresses : Bool → Address → Address → ValidationResult
validate_addresses same origin destination =
    let r = warn_if same IssueCode.same_origin_dest no_issues in
    errors_in lacks_city IssueCode.missing_city (origin ∷ destination ∷ []) r

abbrev pub weight_over : ℤ → Option ℤ → Bool
weight_over max none = false
weight_over max (some w) = ltb_ℤ max w

abbrev pub weight_not_positive : Option ℤ → Bool
weight_not_positive none = false
weight_not_positive (some w) = leb_ℤ w (pos 0)

-- `ShipmentValidator.validate_weight`
unfoldable pub validate_weight : Option ℤ → ℤ → ValidationResult
validate_weight weight max_kg =
    let r = error_if (weight_over max_kg weight) IssueCode.weight_exceeded no_issues in
    error_if (weight_not_positive weight) IssueCode.invalid_weight r

-- `len(statuses) != len(set(statuses))`
unfoldable pub has_duplicate : List ShipmentStatus → Bool
has_duplicate [] = false
has_duplicate (x ∷ xs) = any (same_shipment x) xs || has_duplicate xs

-- `ShipmentValidator.validate_state_history`
unfoldable pub validate_state_history : List ShipmentStatus → ValidationResult
validate_state_history statuses =
    warn_if (has_duplicate statuses) IssueCode.duplicate_status_in_history no_issues

abbrev pub is_negative : ℤ → Bool
is_negative n = ltb_ℤ n (pos 0)

abbrev pub committed : ℤ → ℤ → ℤ → ℤ → ℤ
committed reserved allocated damaged quarantine = reserved +ℤ allocated +ℤ damaged +ℤ quarantine

-- `InventoryValidator.validate_balance`
unfoldable pub validate_balance : ℤ → ℤ → ℤ → ℤ → ℤ → ValidationResult
validate_balance on_hand reserved allocated damaged quarantine =
    let held = committed reserved allocated damaged quarantine in
    let r =
      errors_in is_negative IssueCode.negative_balance
        (on_hand ∷ reserved ∷ allocated ∷ damaged ∷ quarantine ∷ []) no_issues in
    let r = error_if (ltb_ℤ on_hand held) IssueCode.overcommitted r in
    error_if (ltb_ℤ (on_hand -ℤ held) (pos 0)) IssueCode.negative_available r

-- `InventoryValidator.validate_adjustment`
unfoldable pub validate_adjustment : ℤ → ℤ → String → ValidationResult
validate_adjustment current delta reason =
    let r = error_if (count reason == 0) IssueCode.missing_reason no_issues in
    error_if (ltb_ℤ (current +ℤ delta) (pos 0)) IssueCode.adjustment_below_zero r

-- A line is its `quantity` and `unit_cost` keys. Each line may report both.
unfoldable pub po_line_errors : List (Option ℤ × Option ℤ) → ValidationResult → ValidationResult
po_line_errors [] r = r
po_line_errors ((quantity, cost) ∷ lines) r = po_line_errors lines (
    error_if (ltb_ℤ (get_or_zero cost) (pos 0)) IssueCode.invalid_unit_cost
      (error_if (leb_ℤ (get_or_zero quantity) (pos 0)) IssueCode.invalid_po_qty r))

-- `ProcurementValidator.validate_po_lines`
unfoldable pub validate_po_lines : List (Option ℤ × Option ℤ) → ValidationResult
validate_po_lines lines =
    po_line_errors lines (error_if (length lines == 0) IssueCode.no_po_lines no_issues)

-- `ProcurementValidator.validate_supplier_active`
unfoldable pub validate_supplier_active : Bool → ValidationResult
validate_supplier_active is_active = error_if (not is_active) IssueCode.inactive_supplier no_issues

-- `TransferValidator.validate_transfer`
unfoldable pub validate_transfer : ℕ → ℕ → ℤ → ℤ → ValidationResult
validate_transfer source dest quantity available =
    let r = error_if (source == dest) IssueCode.same_warehouse no_issues in
    let r = error_if (leb_ℤ quantity (pos 0)) IssueCode.invalid_quantity r in
    error_if (ltb_ℤ available quantity) IssueCode.insufficient_stock r

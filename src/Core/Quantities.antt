-- ===== src/Core/Quantities.antt =====
-- src/nexusops/core/types.py: `Money` and `Quantity`. An amount is in ten-thousandths, to which the
-- constructor rounds it.
use text.Mathlib.Text.{◌==◌ as str_eq}
use text.Mathlib.TextEquality.{eq_iff}
use mathlib.Core.Path.{subst}
use supply_chain_execution.Common.{
  Bool-cases, String, false, if◌then◌else◌, inl, inr, refl, sym, true, ◌↔◌, ◌∙◌, ◌≡◌,
}
use supply_chain_execution.Common.Int.{int_laws, ltb_ℤ, pos, ℤ, ◌+ℤ◌, ◌-ℤ◌, ◌≤ℤ◌}
use supply_chain_execution.Core.Effect.{Result, ok, raised}
use supply_chain_execution.Core.Exceptions.{value_error}
use supply_chain_execution.Inventory.Allocation.Accounting.{units}

pub record Money : Type 0 where
  pub amount : ℤ
  pub currency : String

unfoldable pub add_money : Money → Money → Result Money
add_money a b =
    if str_eq a.currency b.currency
    then ok (record { amount = a.amount +ℤ b.amount; currency = a.currency })
    else raised value_error

pub record Quantity : Type 0 where
  pub value : ℤ
  pub uom : String

-- `Quantity(value, uom)`
unfoldable pub make_quantity : ℤ → String → Result Quantity
make_quantity value uom =
    if ltb_ℤ value (pos 0) then raised value_error else ok (record { value = value; uom = uom })

unfoldable pub sub_quantity : Quantity → Quantity → Result Quantity
unfolding make_quantity
sub_quantity a b =
    if str_eq a.uom b.uom then make_quantity (a.value -ℤ b.value) a.uom else raised value_error

unfoldable pub add_quantity : Quantity → Quantity → Result Quantity
unfolding make_quantity
add_quantity a b =
    if str_eq a.uom b.uom then make_quantity (a.value +ℤ b.value) a.uom else raised value_error

-- A quantity that the constructor accepts.
abbrev pub IsQuantity : Quantity → Type 0
IsQuantity a = pos 0 ≤ℤ a.value

make_quantity-eq-ok :
    (value : ℤ) (uom : String) (c : Quantity)
    → make_quantity value uom ≡ ok c
    → IsQuantity c × (c.value ≡ value) × (c.uom ≡ uom)
unfolding make_quantity
make_quantity-eq-ok value uom c = elim (Bool-cases (ltb_ℤ value (pos 0))) [
  | inl negative ↦ rw negative λ e. absurd (cc)
  | inr natural ↦ rw natural λ e.
      let same : value ≡ c.value = cc in
      let unit : uom ≡ c.uom = cc in (grind (int_laws, same, natural), sym same, sym unit)
]

make_quantity_same : (c : Quantity) → IsQuantity c → make_quantity c.value c.uom ≡ ok c
unfolding make_quantity
make_quantity_same c h =
    let natural : ltb_ℤ c.value (pos 0) ≡ false = grind int_laws in rw natural refl

subtracts :
    (a b c : Quantity)
    → sub_quantity a b ≡ ok c
    → IsQuantity c × (a.uom ≡ b.uom) × (c.value ≡ a.value -ℤ b.value) × (c.uom ≡ a.uom)
unfolding sub_quantity
subtracts a b c = elim (Bool-cases (str_eq a.uom b.uom)) [
  | inl same ↦ rw same λ e.
      let (q, v, u) = make_quantity-eq-ok (a.value -ℤ b.value) a.uom c e in
      (q, (eq_iff a.uom b.uom).0 same, v, u)
  | inr other ↦ rw other λ e. absurd (cc)
]

adds :
    (b c a : Quantity)
    → add_quantity b c ≡ ok a
    → (b.uom ≡ c.uom) × (a.value ≡ b.value +ℤ c.value) × (a.uom ≡ b.uom)
unfolding add_quantity
adds b c a = elim (Bool-cases (str_eq b.uom c.uom)) [
  | inl same ↦ rw same λ e.
      let (q, v, u) = make_quantity-eq-ok (b.value +ℤ c.value) b.uom a e in
      ((eq_iff b.uom c.uom).0 same, v, u)
  | inr other ↦ rw other λ e. absurd (cc)
]

added : (x y z : ℤ) → z ≡ x -ℤ y → x ≡ y +ℤ z
added x y z e = grind (int_laws, e)

taken : (x y z : ℤ) → x ≡ y +ℤ z → z ≡ x -ℤ y
taken x y z e = grind (int_laws, e)

-- For a quantity `a` that is not negative: `a - b` is `c` exactly when `c` is a quantity that is not
-- negative, the units of `a` and `b` are one, and `b + c` is `a`. So subtraction raises where the
-- units differ or `b` is greater than `a`.
pub sub_quantity-add :
    (a b c : Quantity)
    → IsQuantity a
    → (sub_quantity a b ≡ ok c) ↔ (IsQuantity c × (a.uom ≡ b.uom) × (add_quantity b c ≡ ok a))
unfolding add_quantity sub_quantity
sub_quantity-add a b c natural = (
  λ e.
      let (q, units, v, u) = subtracts a b c e in
      let same : str_eq b.uom c.uom ≡ true = (eq_iff b.uom c.uom).1 (sym units ∙ sym u) in
      let sum : a ≡ record { value = b.value +ℤ c.value; uom = b.uom } =
        ap2_quantity a (b.value +ℤ c.value) b.uom (added a.value b.value c.value v) units in
      (
        q,
        units,
        rw same
            (subst (λ x. make_quantity x.value x.uom ≡ ok a) sum (make_quantity_same a natural)),
      ),
  λ h.
      let (units, v, u) = adds b c a h.2 in
      let same : str_eq a.uom b.uom ≡ true = (eq_iff a.uom b.uom).1 h.1 in
      let difference : c ≡ record { value = a.value -ℤ b.value; uom = a.uom } =
        ap2_quantity c (a.value -ℤ b.value) a.uom (taken a.value b.value c.value v)
          (sym (u ∙ units)) in
      rw same
        (subst (λ x. make_quantity x.value x.uom ≡ ok c) difference (make_quantity_same c h.0)),
)
  where
    ap2_quantity :
        (x : Quantity) (v : ℤ) (u : String)
        → x.value ≡ v
        → x.uom ≡ u
        → x ≡ record { value = v; uom = u }
    ap2_quantity x v u e f = rw (← e, ← f) refl

-- ===== src/Optimization/Placement/Sources.antt =====
-- What the recommendations of a placement plan take from each warehouse.
use supply_chain_execution.Common.{
  ==_iff, All, Bool, Bool-cases, List, [], ap, arith, false, if◌then◌else◌, inl, inr, refl, sym,
  true, ℕ, ◌++◌, ◌==◌, ◌||◌, ◌∙◌, ◌∷◌, ◌≡◌,
}
use supply_chain_execution.Common.Int.{
  int_laws, pos, sum_of, sum_of-append, ℤ, ◌+ℤ◌, ◌-ℤ◌, ◌<ℤ◌, ◌≤ℤ◌,
}
use supply_chain_execution.Optimization.Placement.{
  PlacementRecommendation, Rebalancing, Units, recommend, recommendation, take_units,
}

-- The units of a warehouse in a list.
abbrev pub left : ℕ → Units → ℤ
left w [] = pos 0
left w ((v, q) ∷ rest) = (if v == w then q else pos 0) +ℤ left w rest

-- What recommendations take from a warehouse.
abbrev pub taken_from : ℕ → List PlacementRecommendation → ℤ
taken_from w [] = pos 0
taken_from w (r ∷ rs) =
    (if r.source_warehouse_id == w then r.quantity else pos 0) +ℤ taken_from w rs

abbrev pub moved_units : PlacementRecommendation → ℤ
moved_units r = r.quantity

abbrev pub names : ℕ → Units → Bool
names w [] = false
names w ((v, q) ∷ rest) = (v == w) || names w rest

-- No warehouse is listed twice.
abbrev pub AreKeys : Units → Type 0
AreKeys [] = Unit
AreKeys ((w, q) ∷ rest) = (names w rest ≡ false) × AreKeys rest

pub left-unnamed : (w : ℕ) (u : Units) → names w u ≡ false → left w u ≡ pos 0
left-unnamed w [] h = refl
left-unnamed w ((v, q) ∷ rest) h = grind (int_laws, left-unnamed w rest)

names-take_units : (w v : ℕ) (t : ℤ) (u : Units) → names v (take_units w t u) ≡ names v u
unfolding take_units
names-take_units w v t [] = refl
names-take_units w v t ((x, q) ∷ u) = ap (λ b. (x == v) || b) (names-take_units w v t u)

take_units-AreKeys : (w : ℕ) (t : ℤ) (u : Units) → AreKeys u → AreKeys (take_units w t u)
unfolding take_units
take_units-AreKeys w t [] k = tt
take_units-AreKeys w t ((x, q) ∷ u) k =
    (names-take_units w x t u ∙ k.0, take_units-AreKeys w t u k.1)

left-take_units_other :
    (w v : ℕ) (t : ℤ) (u : Units) → (w == v) ≡ false → left v (take_units w t u) ≡ left v u
unfolding take_units
left-take_units_other w v t [] h = refl
left-take_units_other w v t ((x, q) ∷ u) h = ground (arith, left-take_units_other w v t u)

take_units-unnamed : (w : ℕ) (t : ℤ) (u : Units) → names w u ≡ false → take_units w t u ≡ u
unfolding take_units
take_units-unnamed w t [] h = refl
take_units-unnamed w t ((x, q) ∷ u) h = ground (arith, take_units-unnamed w t u)

pub add_zero : (a : ℤ) → pos 0 +ℤ a ≡ a
add_zero a = omega int_laws

sub_first : (q t r : ℤ) → q -ℤ t +ℤ r ≡ q +ℤ r -ℤ t
sub_first q t r = omega int_laws

left-take_units :
    (w : ℕ) (t : ℤ) (u : Units)
    → AreKeys u
    → names w u ≡ true
    → left w (take_units w t u) ≡ left w u -ℤ t
unfolding take_units
left-take_units w t [] k = λ h. absurd (cc)
left-take_units w t ((x, q) ∷ u) k = elim (Bool-cases (x == w)) [
  | inl e ↦
      let same : names w u ≡ false = rw (← (==_iff x w).0 e) k.0 in
      rw (e, take_units-unnamed w t u same) λ h. sub_first q t (left w u)
  | inr e ↦ rw e λ h. add_zero _ ∙ left-take_units w t u k.1 h ∙ ap (λ n. n -ℤ t) (sym (add_zero _))
]

taken_from-append :
    (w : ℕ) (xs ys : List PlacementRecommendation)
    → taken_from w (xs ++ ys) ≡ taken_from w xs +ℤ taken_from w ys
taken_from-append w [] ys = sym (add_zero _)
taken_from-append w (x ∷ xs) ys = grind (int_laws, taken_from-append w xs ys)

-- What the loops keep, from the surplus `u` that they started with.
pub record Keeps (u : Units) (r : Rebalancing) : Type 0 where
  pub keys : AreKeys r.surplus
  pub books : (w : ℕ) → taken_from w r.plan.recommendations +ℤ left w r.surplus ≡ left w u
  pub floor : (w : ℕ) → pos 0 ≤ℤ left w r.surplus
  pub total : r.plan.total_units_moved ≡ sum_of moved_units r.plan.recommendations
  pub positive : All (λ x. pos 0 <ℤ x.quantity) r.plan.recommendations

-- The entries still to be visited are those of the surplus as it is now.
abbrev pub IsCurrent : Units → Units → Type 0
IsCurrent now rest = All (λ e. (left e.0 now ≡ e.1) × (names e.0 now ≡ true)) rest

All-snoc :
    (xs : List PlacementRecommendation) (x : PlacementRecommendation)
    → All (λ y. pos 0 <ℤ y.quantity) xs
    → pos 0 <ℤ x.quantity
    → All (λ y. pos 0 <ℤ y.quantity) (xs ++ x ∷ [])
All-snoc [] x h p = (p, tt)
All-snoc (y ∷ xs) x h p = (h.0, All-snoc xs x h.1 p)

books_step : (a b c t : ℤ) → a +ℤ b ≡ c → (a +ℤ (t +ℤ pos 0)) +ℤ (b -ℤ t) ≡ c
books_step a b c t e = grind int_laws

books_same : (a b c : ℤ) → a +ℤ b ≡ c → (a +ℤ (pos 0 +ℤ pos 0)) +ℤ b ≡ c
books_same a b c e = grind int_laws

-- One recommendation.
module _ (sku target source : ℕ) (t : ℤ) (u : Units) (r : Rebalancing) (k : Keeps u r) where
  abbrev pub moved_once : Rebalancing
  moved_once = record {
    plan = recommend (recommendation sku source target t) r.plan;
    surplus = take_units source t r.surplus;
  }

  pub recommend-Keeps :
      names source r.surplus ≡ true → pos 0 <ℤ t → t ≤ℤ left source r.surplus → Keeps u moved_once
  recommend-Keeps here more enough =
      let x = recommendation sku source target t in
      let less = left-take_units source t r.surplus k.keys here in
      record {
        keys = take_units-AreKeys source t r.surplus k.keys;
        books = λ w.
            rw (taken_from-append w r.plan.recommendations (x ∷ []))
              (elim (Bool-cases (source == w)) [
                | inl e ↦
                    let same = (==_iff source w).0 e in
                    rw (e, ← same, less) (books_step _ _ _ t (k.books source))
                | inr e ↦
                    rw (e, left-take_units_other source w t r.surplus e)
                      (books_same _ _ _ (k.books w))
              ]);
        floor = λ w. elim (Bool-cases (source == w)) [
          | inl e ↦ rw (← (==_iff source w).0 e, less) (omega (int_laws, enough))
          | inr e ↦ rw (left-take_units_other source w t r.surplus e) (k.floor w)
        ];
        total =
            ap (λ n. n +ℤ t) k.total
            ∙ sym (
                sum_of-append moved_units r.plan.recommendations (x ∷ [])
                ∙ ap (λ n. sum_of moved_units r.plan.recommendations +ℤ n) (omega int_laws));
        positive = All-snoc r.plan.recommendations x k.positive more;
      }

  pub take_units-IsCurrent :
      (rest : Units)
      → names source rest ≡ false
      → IsCurrent r.surplus rest
      → IsCurrent (take_units source t r.surplus) rest
  take_units-IsCurrent [] fresh c = tt
  take_units-IsCurrent ((v, q) ∷ rest) fresh c =
      let other : (source == v) ≡ false = ground (arith, fresh) in
      (
        (
          left-take_units_other source v t r.surplus other ∙ c.0.0,
          names-take_units source v t r.surplus ∙ c.0.1,
        ),
        take_units-IsCurrent rest (ground (arith, fresh)) c.1,
      )

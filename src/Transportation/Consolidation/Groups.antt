-- ===== src/Transportation/Consolidation/Groups.antt =====
-- The groups that the inner loop of `consolidate_window` builds, one shipment at a time.
use mathlib.Core.Path.{subst}
use supply_chain_execution.Common.{
  All, All-append, Bool-cases, List, Option, String, [], ap, append-nil, arith, count_of,
  count_of-append, if-false, if◌then◌else◌, inl, inr, length, length-append, none, refl, some, sym,
  ℕ, ◌++◌, ◌+◌, ◌<◌, ◌==◌, ◌∷◌, ◌≡◌, ◌≤◌, ◌⊎◌,
}
use supply_chain_execution.Common.Int.{ℤ, ◌+ℤ◌, ◌≤ℤ◌}
use supply_chain_execution.Persistence.Models.Transport.{Shipment}
use supply_chain_execution.Persistence.Session.{Env, Session}
use supply_chain_execution.Transportation.Consolidation.{
  ConsolidationGroup, Packing, close_group, fitting, join_group, max_group_size,
  max_group_weight_kg, needs_group, new_group, pack_into, weight_of,
}

-- At least one shipment and at most ten; at most 500 kg, or a shipment alone.
pub record IsBounded (g : ConsolidationGroup) : Type 0 where
  pub filled : 1 ≤ length g.shipment_ids
  pub size : length g.shipment_ids ≤ max_group_size
  pub weight : (g.total_weight_kg ≤ℤ max_group_weight_kg) ⊎ (length g.shipment_ids ≡ 1)

abbrev pub as_list : Option ConsolidationGroup → List ConsolidationGroup
as_list none = []
as_list (some g) = g ∷ []

-- How often an id is a member of the groups.
abbrev pub members : ℕ → List ConsolidationGroup → ℕ
members a [] = 0
members a (g ∷ gs) = count_of (λ id. id == a) g.shipment_ids + members a gs

abbrev pub members_of : ℕ → Packing → ℕ
members_of a p = members a p.groups + members a (as_list p.current_group)

abbrev pub savings : List ConsolidationGroup → ℕ
savings [] = 0
savings (g ∷ gs) = g.estimated_savings + savings gs

abbrev NoSavings : Option ConsolidationGroup → Type 0
NoSavings none = Unit
NoSavings (some g) = g.estimated_savings ≡ 0

-- What the loops keep.
pub record IsPacked (p : Packing) : Type 0 where
  pub bounded : All IsBounded p.groups
  pub current_bounded : All IsBounded (as_list p.current_group)
  pub unpaid : NoSavings p.current_group
  pub total : p.total_savings ≡ savings p.groups

pub members-append :
    (a : ℕ) (xs ys : List ConsolidationGroup) → members a (xs ++ ys) ≡ members a xs + members a ys
members-append a [] ys = omega arith
members-append a (x ∷ xs) ys = omega (arith, members-append a xs ys)

pub savings-append :
    (xs ys : List ConsolidationGroup) → savings (xs ++ ys) ≡ savings xs + savings ys
savings-append [] ys = omega arith
savings-append (x ∷ xs) ys = omega (arith, savings-append xs ys)

-- A bounded group is not empty, so it is kept when it is closed.
close_group_lem :
    (o : Option ConsolidationGroup) (groups : List ConsolidationGroup)
    → All IsBounded (as_list o)
    → close_group o groups ≡ groups ++ as_list o
close_group_lem none groups h = sym (append-nil groups)
close_group_lem (some g) groups h = if-false _ groups _ (ground (arith, h.0.filled))

unpaid_savings :
    (o : Option ConsolidationGroup) (groups : List ConsolidationGroup)
    → NoSavings o
    → savings (groups ++ as_list o) ≡ savings groups
unpaid_savings none groups h = ap savings (append-nil groups)
unpaid_savings (some g) groups h = omega (arith, savings-append groups (g ∷ []), h)

-- A shipment joins a group that can take it.
module _ (x : Shipment) (groups : List ConsolidationGroup) (g : ConsolidationGroup) (p : Packing)
    (s : Session) where
  abbrev joined : Packing
  joined = (join_group x groups g p s).0

  join_group-IsPacked :
      All IsBounded groups
      → g.estimated_savings ≡ 0
      → p.total_savings ≡ savings groups
      → length g.shipment_ids < max_group_size
      → (g.total_weight_kg +ℤ weight_of x ≤ℤ max_group_weight_kg) ⊎ (length g.shipment_ids ≡ 0)
      → IsPacked joined
  unfolding join_group
  join_group-IsPacked bounded unpaid total size weight =
      let longer = length-append g.shipment_ids (x.id ∷ []) in
      record {
        bounded = bounded;
        current_bounded = (
          record {
            filled = omega (arith, longer);
            size = omega (arith, longer);
            weight = elim weight [ inl w ↦ inl w | inr e ↦ inr (omega (arith, longer, e)) ];
          },
          tt,
        );
        unpaid = unpaid;
        total = total;
      }

  join_group-members :
      (a : ℕ)
      → members_of a joined ≡ members a groups + members a (g ∷ []) + (if x.id == a then 1 else 0)
  unfolding join_group
  join_group-members a = omega (arith, count_of-append (λ id. id == a) g.shipment_ids (x.id ∷ []))

-- The current group, when it is used again, has a place and weight to spare.
fitting-some :
    (w : ℤ) (o : Option ConsolidationGroup) (g : ConsolidationGroup)
    → fitting w o ≡ some g
    → (o ≡ some g)
      × (length g.shipment_ids < max_group_size)
      × (g.total_weight_kg +ℤ w ≤ℤ max_group_weight_kg)
fitting-some w none g = λ e. absurd (cc)
fitting-some w (some h) g = elim (Bool-cases (needs_group w (some h))) [
  | inl e ↦ rw e λ f. absurd (cc)
  | inr e ↦ rw e λ f.
      let q : h ≡ g = cc in
      subst
        (λ z.
          (some h ≡ some z)
          × (length z.shipment_ids < max_group_size)
          × (z.total_weight_kg +ℤ w ≤ℤ max_group_weight_kg))
        q (refl, ground arith, ground arith)
]

pub pack_into-IsPacked :
    (env : Env) (w : ℕ) (region : String) (x : Shipment) (p : Packing) (s : Session)
    → IsPacked p
    → IsPacked (pack_into env w region x (fitting (weight_of x) p.current_group) p s).0
unfolding pack_into
pack_into-IsPacked env w region x p s h = go (fitting (weight_of x) p.current_group) refl
  where
    go :
        (o : Option ConsolidationGroup)
        → fitting (weight_of x) p.current_group ≡ o
        → IsPacked (pack_into env w region x o p s).0
    go none e =
        let closed = close_group_lem p.current_group p.groups h.current_bounded in
        join_group-IsPacked x (close_group p.current_group p.groups)
          (new_group (env.uuid4 s.draws) w region) p (record s { draws = s.draws + 1 })
          (rw closed
            (All-append IsBounded p.groups (as_list p.current_group) h.bounded h.current_bounded))
          refl
          (omega
            (arith, h.total, unpaid_savings p.current_group p.groups h.unpaid, ap savings closed))
          (omega arith) (inr refl)
    go (some g) e =
        let (q, size, weight) = fitting-some (weight_of x) p.current_group g e in
        join_group-IsPacked x p.groups g p s h.bounded
          (let u : NoSavings (some g) = subst NoSavings q h.unpaid in u) h.total size (inl weight)

pub pack_into-members :
    (env : Env) (w : ℕ) (region : String) (x : Shipment) (p : Packing) (s : Session) (a : ℕ)
    → IsPacked p
    → members_of a (pack_into env w region x (fitting (weight_of x) p.current_group) p s).0
      ≡ members_of a p + (if x.id == a then 1 else 0)
unfolding pack_into
pack_into-members env w region x p s a h = go (fitting (weight_of x) p.current_group) refl
  where
    go :
        (o : Option ConsolidationGroup)
        → fitting (weight_of x) p.current_group ≡ o
        → members_of a (pack_into env w region x o p s).0
          ≡ members_of a p + (if x.id == a then 1 else 0)
    go none e = omega (
      arith,
      join_group-members x (close_group p.current_group p.groups)
          (new_group (env.uuid4 s.draws) w region) p (record s { draws = s.draws + 1 }) a,
      ap (members a) (close_group_lem p.current_group p.groups h.current_bounded),
      members-append a p.groups (as_list p.current_group),
    )
    go (some g) e =
        let (q, size, weight) = fitting-some (weight_of x) p.current_group g e in
        omega (arith, join_group-members x p.groups g p s a, ap (λ o. members a (as_list o)) q)

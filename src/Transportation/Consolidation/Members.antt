-- ===== src/Transportation/Consolidation/Members.antt =====
-- `consolidate_window` as a whole: its candidates and the members of its groups.
use text.Mathlib.Text.{◌==◌ as str_eq}
use mathlib.Core.Path.{subst}
use supply_chain_execution.Common.{
  All, All-append, Bool, Bool-cases, List, Option, String, [], ap, arith, count_of, count_of-append,
  count_of-sorted, false, if◌then◌else◌, inl, inr, length, none, refl, some, sorted, true, ℕ, ◌*◌,
  ◌+◌, ◌==◌, ◌∷◌, ◌≡◌,
}
use supply_chain_execution.Common.Int.{pos, ℤ, ◌+ℤ◌}
use supply_chain_execution.Core.Effect.{ok}
use supply_chain_execution.Persistence.Models.Transport.{Shipment}
use supply_chain_execution.Persistence.Queries.Transport.{between, list_consolidation_candidates}
use supply_chain_execution.Persistence.Session.{Env, Session}
use supply_chain_execution.Transportation.Consolidation.{
  ConsolidationGroup, ConsolidationResult, Packing, Regions, add_to_region, consolidate_window,
  extract_region, finish_region, fitting, group_by_region, hour_microseconds, join_group, lighter,
  pack_into, pack_regions, pack_shipments, start_or, start_packing, weight_of,
}
use supply_chain_execution.Transportation.Consolidation.Groups.{
  IsBounded, IsPacked, as_list, members, members-append, members_of, pack_into-IsPacked,
  pack_into-members, savings, savings-append,
}

-- How many shipments of all the regions satisfy a test.
module _ (q : Shipment → Bool) where
  abbrev region_count : Regions → ℕ
  region_count [] = 0
  region_count ((region, l) ∷ rest) = count_of q l + region_count rest

  add_to_region-count :
      (region : String) (x : Shipment) (d : Regions)
      → region_count (add_to_region region x d) ≡ region_count d + (if q x then 1 else 0)
  unfolding add_to_region
  add_to_region-count region x [] = omega arith
  add_to_region-count region x ((r, l) ∷ d) = elim (Bool-cases (str_eq r region)) [
    | inl e ↦ rw e (omega (arith, count_of-append q l (x ∷ [])))
    | inr e ↦ rw e (omega (arith, add_to_region-count region x d))
  ]

  group_by_region-count :
      (d : Regions) (xs : List Shipment)
      → region_count (group_by_region d xs) ≡ region_count d + count_of q xs
  unfolding group_by_region
  group_by_region-count d [] = omega arith
  group_by_region-count d (x ∷ xs) =
      let region = extract_region x.destination_address in
      omega
        (arith, group_by_region-count (add_to_region region x d) xs, add_to_region-count region x d)

abbrev pub has_id : ℕ → Shipment → Bool
has_id a x = x.id == a

abbrev counted : Shipment → Bool
counted x = true

count_of-counted : (xs : List Shipment) → count_of counted xs ≡ length xs
count_of-counted [] = refl
count_of-counted (x ∷ xs) = omega (arith, count_of-counted xs)

-- What packing the shipments `xs` makes of the variables `p`.
record Packs (xs : List Shipment) (p p' : Packing) : Type 0 where
  pub packed : IsPacked p'
  pub held : (a : ℕ) → members_of a p' ≡ members_of a p + count_of (has_id a) xs
  pub counted_all : p'.total_consolidated ≡ p.total_consolidated + length xs

pack_into-consolidated :
    (env : Env) (w : ℕ) (region : String) (x : Shipment) (o : Option ConsolidationGroup)
    (p : Packing) (s : Session)
    → (pack_into env w region x o p s).0.total_consolidated ≡ p.total_consolidated + 1
unfolding pack_into join_group
pack_into-consolidated env w region x none p s = refl
pack_into-consolidated env w region x (some g) p s = refl

pack_shipments-Packs :
    (env : Env) (w : ℕ) (region : String) (xs : List Shipment) (p : Packing) (s : Session)
    → IsPacked p
    → Packs xs p (pack_shipments env w region xs p s).0
unfolding pack_shipments
pack_shipments-Packs env w region [] p s h = record {
  packed = h;
  held = λ a. omega arith;
  counted_all = omega arith;
}
pack_shipments-Packs env w region (x ∷ xs) p s h =
    let o = fitting (weight_of x) p.current_group in
    let (p', s') = pack_into env w region x o p s in
    let ih = pack_shipments-Packs env w region xs p' s' (pack_into-IsPacked env w region x p s h) in
    record {
      packed = ih.packed;
      held = λ a. omega (arith, ih.held a, pack_into-members env w region x p s a h);
      counted_all = omega (arith, ih.counted_all, pack_into-consolidated env w region x o p s);
    }

-- What the groups that were appended say of the variables between two regions.
record IsClosed (p : Packing) : Type 0 where
  pub bounded : All IsBounded p.groups
  pub total : p.total_savings ≡ savings p.groups

finish_region-effect :
    (p : Packing) (o : Option ConsolidationGroup)
    → p.current_group ≡ o
    → IsPacked p
    → let p' = finish_region o p in
      IsClosed p'
      × ((a : ℕ) → members a p'.groups ≡ members_of a p)
      × (p'.total_consolidated ≡ p.total_consolidated)
unfolding finish_region
finish_region-effect p none e h = (
  record { bounded = h.bounded; total = h.total },
  λ a. omega (arith, ap (λ o. members a (as_list o)) e),
  refl,
)
finish_region-effect p (some g) e h =
    let bounded : All IsBounded (as_list (some g)) =
      subst (λ o. All IsBounded (as_list o)) e h.current_bounded in
    let full : (length g.shipment_ids == 0) ≡ false = ground (arith, bounded.0.filled) in
    let paid : ConsolidationGroup = record g { estimated_savings = length g.shipment_ids * 5 } in
    let b : IsBounded paid = record {
      filled = bounded.0.filled;
      size = bounded.0.size;
      weight = bounded.0.weight;
    } in
    rw full (
      record {
        bounded = All-append IsBounded p.groups (paid ∷ []) h.bounded (b, tt);
        total = omega (arith, h.total, savings-append p.groups (paid ∷ []));
      },
      λ a. omega (arith, members-append a p.groups (paid ∷ []), ap (λ o. members a (as_list o)) e),
      refl,
    )

pack_regions-effect :
    (env : Env) (w : ℕ) (d : Regions) (p : Packing) (s : Session)
    → IsClosed p
    → let p' = (pack_regions env w d p s).0 in
      IsClosed p'
      × ((a : ℕ) → members a p'.groups ≡ members a p.groups + region_count (has_id a) d)
      × (p'.total_consolidated ≡ p.total_consolidated + region_count counted d)
unfolding pack_regions
pack_regions-effect env w [] p s h = (h, λ a. omega arith, omega arith)
pack_regions-effect env w ((region, l) ∷ rest) p s h =
    let fresh : Packing = record p { current_group = none } in
    let start : IsPacked fresh = record {
      bounded = h.bounded;
      current_bounded = tt;
      unpaid = tt;
      total = h.total;
    } in
    let xs = sorted lighter l in
    let (p', s') = pack_shipments env w region xs fresh s in
    let packs = pack_shipments-Packs env w region xs fresh s start in
    let (between, same, kept) = finish_region-effect p' p'.current_group refl packs.packed in
    let (a₁, b, c) =
      pack_regions-effect env w rest (finish_region p'.current_group p') s' between in
    (
      a₁,
      λ a. omega (arith, b a, same a, packs.held a, count_of-sorted (has_id a) lighter l),
      omega (
        arith,
        c,
        kept,
        packs.counted_all,
        count_of-counted xs,
        count_of-sorted counted lighter l,
      ),
    )

-- `consolidate_window` returns. Its groups hold each of the candidates that the query found, as
-- often as it found it, and nothing else; each has one to ten shipments, and a `total_weight_kg` of
-- at most 500 kg unless it has a single shipment. The result counts every candidate, and its total
-- savings are those of its groups.
pub consolidate_window-groups :
    (env : Env) (hours w : ℕ) (window_start : Option ℤ) (s : Session)
    → let s₁ = record s { draws = s.draws + 1 } in
      let first = start_or (env.now s.draws) window_start in
      let found =
        list_consolidation_candidates w first (first +ℤ pos (hours * hour_microseconds)) s₁ in
      (r : ConsolidationResult) × (s' : Session) × (consolidate_window env hours w window_start s
        ≡ (ok r, s'))
      × ((a : ℕ) → members a r.groups ≡ count_of (has_id a) found)
      × All IsBounded r.groups
      × (r.shipments_consolidated ≡ length found)
      × (r.total_savings ≡ savings r.groups)
unfolding consolidate_window
consolidate_window-groups env hours w window_start s =
    let s₁ = record s { draws = s.draws + 1 } in
    let first = start_or (env.now s.draws) window_start in
    let found =
      list_consolidation_candidates w first (first +ℤ pos (hours * hour_microseconds)) s₁ in
    let (between, same, total) =
      pack_regions-effect env w (group_by_region [] found) start_packing s₁
        (record { bounded = tt; total = refl }) in
    (
      _,
      _,
      refl,
      λ a. omega (arith, same a, group_by_region-count (has_id a) [] found),
      between.bounded,
      omega (arith, total, group_by_region-count counted [] found, count_of-counted found),
      between.total,
    )

-- ===== src/Fulfillment/Routing/Selection.antt =====
-- `_select_warehouses` of domain/fulfillment/routing.py.
use text.Mathlib.Text.{◌==◌ as str_eq}
use supply_chain_execution.Common.{
  All, Bool, Bool-cases, List, String, [], arith, count_of, count_of-sorted, count_of-take, false,
  filter, inl, inr, length, length-take, not, refl, sorted, suc, take, true, ℕ, ◌&&◌, ◌+◌, ◌||◌,
  ◌∷◌, ◌≡◌, ◌≤◌,
}
use supply_chain_execution.Fulfillment.Routing.{
  RoutingCandidate, best_among, best_of, cheaper, faster, fuller, is_empty, select_single,
  select_warehouses,
}

abbrev pub Candidates : Type 0
Candidates = List RoutingCandidate

abbrev pub is_single : String → Bool
is_single strategy = str_eq strategy "single_warehouse"

abbrev pub fulfills_all : RoutingCandidate → Bool
fulfills_all c = c.can_fulfill_all

-- What a selection has of the candidates.
pub record IsSelection (selected candidates : Candidates) : Type 0 where
  -- each candidate at most as often as it is there
  pub among : (q : RoutingCandidate → Bool) → count_of q selected ≤ count_of q candidates
  pub few : length selected ≤ 2
  pub nonempty : is_empty candidates ≡ false → is_empty selected ≡ false

take_some : (n : ℕ) (xs : Candidates) → is_empty xs ≡ false → is_empty (take (suc n) xs) ≡ false
take_some n [] e = e
take_some n (x ∷ xs) e = refl

count_of-filter :
    (q p : RoutingCandidate → Bool) (xs : Candidates) → count_of q (filter p xs) ≤ count_of q xs
count_of-filter q p [] = omega arith
count_of-filter q p (x ∷ xs) = ground (arith, count_of-filter q p xs)

filter-All : (p : RoutingCandidate → Bool) (xs : Candidates) → All (λ x. p x ≡ true) (filter p xs)
filter-All p [] = tt
filter-All p (x ∷ xs) = elim (Bool-cases (p x)) [
  | inl e ↦ rw (e, All) (e, filter-All p xs)
  | inr e ↦ rw (e, All) (filter-All p xs)
]

module _ (better : RoutingCandidate → RoutingCandidate → Bool) where
  best_of-among :
      (q : RoutingCandidate → Bool) (b : RoutingCandidate) (xs : Candidates)
      → count_of q (best_of better b xs ∷ []) ≤ count_of q (b ∷ xs)
  unfolding best_of
  best_of-among q b [] = omega arith
  best_of-among q b (x ∷ xs) = elim (Bool-cases (better x b)) [
    | inl e ↦ rw e (omega (arith, best_of-among q x xs))
    | inr e ↦ rw e (omega (arith, best_of-among q b xs))
  ]

  best_of-All :
      (p : RoutingCandidate → Bool) (b : RoutingCandidate) (xs : Candidates)
      → p b ≡ true
      → All (λ x. p x ≡ true) xs
      → p (best_of better b xs) ≡ true
  unfolding best_of
  best_of-All p b [] h k = h
  best_of-All p b (x ∷ xs) h k = elim (Bool-cases (better x b)) [
    | inl e ↦ rw e (best_of-All p x xs k.0 k.1)
    | inr e ↦ rw e (best_of-All p b xs h k.1)
  ]

  best_among-IsSelection : (xs : Candidates) → IsSelection (best_among better xs) xs
  unfolding best_among
  best_among-IsSelection [] = record {
    among = λ q. omega arith;
    few = omega arith;
    nonempty = λ e. e;
  }
  best_among-IsSelection (x ∷ xs) = record {
    among = λ q. best_of-among q x xs;
    few = omega arith;
    nonempty = λ e. refl;
  }

sorted_some :
    (less : RoutingCandidate → RoutingCandidate → Bool) (xs : Candidates)
    → is_empty xs ≡ false
    → is_empty (sorted less xs) ≡ false
sorted_some less [] e = absurd (cc)
sorted_some less (x ∷ xs) e = go (sorted less (x ∷ xs)) (count_of-sorted (λ y. true) less (x ∷ xs))
  where
    go :
        (l : Candidates) → count_of (λ y. true) l ≡ 1 + count_of (λ y. true) xs → is_empty l ≡ false
    go [] h = absurd (omega arith)
    go (y ∷ l) h = refl

-- The two first by a key.
two_first-IsSelection :
    (less : RoutingCandidate → RoutingCandidate → Bool) (xs : Candidates)
    → IsSelection (take 2 (sorted less xs)) xs
two_first-IsSelection less xs = record {
  among = λ q. omega (arith, count_of-take q 2 (sorted less xs), count_of-sorted q less xs);
  few = length-take 2 (sorted less xs);
  nonempty = λ e. take_some 1 (sorted less xs) (sorted_some less xs e);
}

select_single-IsSelection :
    (full candidates : Candidates) (allow_partial : Bool)
    → ((q : RoutingCandidate → Bool) → count_of q full ≤ count_of q candidates)
    → not allow_partial ≡ false
    → IsSelection (select_single full candidates allow_partial) candidates
select_single-IsSelection (c ∷ cs) candidates allow_partial sub h =
    let best = best_among-IsSelection cheaper (c ∷ cs) in
    record {
      among = λ q. omega (arith, best.among q, sub q);
      few = best.few;
      nonempty = λ e. best.nonempty refl;
    }
select_single-IsSelection [] candidates true sub h = best_among-IsSelection fuller candidates
select_single-IsSelection [] candidates false sub h = absurd (cc)

select_single-fulfills :
    (full candidates : Candidates) (allow_partial : Bool)
    → All (λ c. fulfills_all c ≡ true) full
    → All
        (λ c. (allow_partial || fulfills_all c) ≡ true)
        (select_single full candidates allow_partial)
unfolding best_among
select_single-fulfills (c ∷ cs) candidates true h = (refl, tt)
select_single-fulfills (c ∷ cs) candidates false h =
    (best_of-All cheaper fulfills_all c cs h.0 h.1, tt)
select_single-fulfills [] [] true h = tt
select_single-fulfills [] (c ∷ cs) true h = (refl, tt)
select_single-fulfills [] candidates false h = tt

-- For every strategy but `single_warehouse`, and for this one where partial fulfillment is allowed:
-- `_select_warehouses` selects one or two of the candidates, if there are any, and none twice.
pub select_warehouses-IsSelection :
    (candidates : Candidates) (strategy : String) (allow_partial : Bool)
    → (is_single strategy && not allow_partial) ≡ false
    → IsSelection (select_warehouses candidates strategy allow_partial) candidates
unfolding select_warehouses
select_warehouses-IsSelection candidates strategy allow_partial =
    elim (Bool-cases (is_single strategy)) [
      | inl single ↦ rw single λ h.
          select_single-IsSelection (filter fulfills_all candidates) candidates allow_partial
            (λ q. count_of-filter q fulfills_all candidates) h
      | inr other ↦ rw other λ h. elim (Bool-cases (str_eq strategy "speed_optimized")) [
        | inl speed ↦ rw speed (two_first-IsSelection faster candidates)
        | inr no_speed ↦ rw no_speed (elim (Bool-cases (str_eq strategy "cost_optimized")) [
          | inl cost ↦ rw cost (two_first-IsSelection cheaper candidates)
          | inr no_cost ↦ rw no_cost (two_first-IsSelection fuller candidates)
        ])
      ]
    ]

-- With `single_warehouse`, and where partial fulfillment is not allowed, every warehouse that is
-- selected can fulfill the whole order.
pub select_warehouses-fulfills :
    (candidates : Candidates) (strategy : String) (allow_partial : Bool)
    → is_single strategy ≡ true
    → All
        (λ c. (allow_partial || fulfills_all c) ≡ true)
        (select_warehouses candidates strategy allow_partial)
unfolding select_warehouses
select_warehouses-fulfills candidates strategy allow_partial single = rw single (
    select_single-fulfills (filter fulfills_all candidates) candidates allow_partial
      (filter-All fulfills_all candidates))

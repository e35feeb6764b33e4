-- ===== src/Transportation/Scheduling/Booking.antt =====
-- Booking one slot of a warehouse: capacity, room, and the references to the slots.
use mathlib.Core.Path.{subst}
use supply_chain_execution.Common.{
  All, Bool, Bool-cases, List, Option, [], ap, arith, false, filter, if-false, if-true, inl, inr,
  ltb, none, not, refl, some, sym, true, ℕ, ◌+◌, ◌-◌, ◌==◌, ◌∙◌, ◌∷◌, ◌≡◌, ◌≤◌, ◌⊎◌,
}
use supply_chain_execution.Common.Int.{ℤ}
use supply_chain_execution.Transportation.Scheduling.{
  DeliverySlot, contains, distance, find_best_slot, ids_of, is_full, nearest, open_slots, pick_slot,
  referred,
}
use supply_chain_execution.Transportation.Scheduling.Methods.{book}

abbrev pub Among : DeliverySlot → List DeliverySlot → Type 0
Among x [] = ⊥
Among x (y ∷ ys) = (x ≡ y) ⊎ Among x ys

-- The slots of a list are different objects.
abbrev pub Distinct : List DeliverySlot → Type 0
Distinct [] = Unit
Distinct (x ∷ xs) = (contains (ids_of xs) x.slot_id ≡ false) × Distinct xs

abbrev pub Within : DeliverySlot → Type 0
Within x = x.booked ≤ x.capacity

-- The bookings that the slots can still take.
abbrev pub room : List DeliverySlot → ℕ
room [] = 0
room (x ∷ xs) = (x.capacity - x.booked) + room xs

abbrev pub Refers : List ℕ → List DeliverySlot → Type 0
Refers ids slots =
    All (λ (x : DeliverySlot). is_full x ≡ false → contains ids x.slot_id ≡ true) slots

nearest-Among :
    (t : ℤ) (best : DeliverySlot) (xs : List DeliverySlot) → Among (nearest t best xs) (best ∷ xs)
unfolding nearest
nearest-Among t best [] = inl refl
nearest-Among t best (x ∷ xs) =
    let closer = ltb (distance t x) (distance t best) in
    let P : DeliverySlot → Type 0 = λ b. Among (nearest t b xs) (best ∷ x ∷ xs) in
    elim (Bool-cases closer) [
      | inl e ↦ subst P (sym (if-true closer x best e)) (inr (nearest-Among t x xs))
      | inr e ↦
          subst P (sym (if-false closer x best e))
            (elim (nearest-Among t best xs) [ inl p ↦ inl p | inr p ↦ inr (inr p) ])
    ]

pick_slot-Among :
    (t : Option ℤ) (xs : List DeliverySlot) (x : DeliverySlot)
    → pick_slot t xs ≡ some x
    → Among x xs
unfolding pick_slot
pick_slot-Among none [] x e = cc
pick_slot-Among (some t) [] x e = cc
pick_slot-Among none (y ∷ ys) x e = inl (let p : y ≡ x = cc in sym p)
pick_slot-Among (some t) (y ∷ ys) x e =
    let p : nearest t y ys ≡ x = cc in subst (λ z. Among z (y ∷ ys)) p (nearest-Among t y ys)

filter-Among :
    (p : DeliverySlot → Bool) (xs : List DeliverySlot) (x : DeliverySlot)
    → Among x (filter p xs)
    → Among x xs × (p x ≡ true)
filter-Among p [] x = λ h. absurd h
filter-Among p (y ∷ ys) x = elim (Bool-cases (p y)) [
  | inl e ↦ rw e λ h. elim h [
    | inl q ↦ (inl q, ap p q ∙ e)
    | inr q ↦ let (a, b) = filter-Among p ys x q in (inr a, b)
  ]
  | inr e ↦ rw e λ h. let (a, b) = filter-Among p ys x h in (inr a, b)
]

pub find_best_slot-Among :
    (ids : List ℕ) (slots : List DeliverySlot) (t : Option ℤ) (x : DeliverySlot)
    → find_best_slot (referred ids slots) t ≡ some x
    → Among x slots × (is_full x ≡ false)
unfolding find_best_slot
find_best_slot-Among ids slots t x e =
    let (a, b) =
      filter-Among (λ y. not (is_full y)) (referred ids slots) x (pick_slot-Among t _ x e) in
    let (c, d) = filter-Among (λ y. contains ids y.slot_id) slots x a in (c, ground arith)

-- No slot is found only if none of those that are covered has room.
pick_slot-empty : (t : Option ℤ) (xs : List DeliverySlot) → pick_slot t xs ≡ none → xs ≡ []
unfolding pick_slot
pick_slot-empty t [] e = refl
pick_slot-empty none (x ∷ xs) e = cc
pick_slot-empty (some t) (x ∷ xs) e = cc

room-empty :
    (ids : List ℕ) (slots : List DeliverySlot)
    → Refers ids slots
    → open_slots (referred ids slots) ≡ []
    → room slots ≡ 0
room-empty ids [] c = λ e. refl
room-empty ids (x ∷ xs) c = elim (Bool-cases (is_full x)) [
  | inl full ↦ elim (Bool-cases (contains ids x.slot_id)) [
    | inl e ↦ rw (e, full) λ h. ground (arith, room-empty ids xs c.1 h)
    | inr e ↦ rw e λ h. ground (arith, room-empty ids xs c.1 h)
  ]
  | inr free ↦ rw (c.0 free, free) λ h. absurd (cc)
]

pub find_best_slot-room :
    (ids : List ℕ) (slots : List DeliverySlot) (t : Option ℤ)
    → Refers ids slots
    → find_best_slot (referred ids slots) t ≡ none
    → room slots ≡ 0
unfolding find_best_slot
find_best_slot-room ids slots t c e = room-empty ids slots c (pick_slot-empty t _ e)

contains-ids_of :
    (x : DeliverySlot) (xs : List DeliverySlot) → Among x xs → contains (ids_of xs) x.slot_id ≡ true
contains-ids_of x [] h = absurd h
contains-ids_of x (y ∷ ys) (inl e) = ground (arith, ap (λ (z : DeliverySlot). z.slot_id) e)
contains-ids_of x (y ∷ ys) (inr h) = ground (arith, contains-ids_of x ys h)

pub ids_of-book : (id : ℕ) (xs : List DeliverySlot) → ids_of (book id xs) ≡ ids_of xs
unfolding book
ids_of-book id [] = refl
ids_of-book id (x ∷ xs) = elim (Bool-cases (x.slot_id == id)) [
  | inl e ↦ rw e
  | inr e ↦ rw (e, ids_of-book id xs)
]

pub book-Distinct : (id : ℕ) (xs : List DeliverySlot) → Distinct xs → Distinct (book id xs)
unfolding book
book-Distinct id [] d = d
book-Distinct id (x ∷ xs) d = elim (Bool-cases (x.slot_id == id)) [
  | inl e ↦ rw e d
  | inr e ↦ rw e (ap (λ l. contains l x.slot_id) (ids_of-book id xs) ∙ d.0, book-Distinct id xs d.1)
]

pub book-Refers :
    (ids : List ℕ) (id : ℕ) (xs : List DeliverySlot) → Refers ids xs → Refers ids (book id xs)
unfolding book
book-Refers ids id [] c = c
book-Refers ids id (x ∷ xs) c = elim (Bool-cases (x.slot_id == id)) [
  | inl e ↦ rw e (λ f. c.0 (ground arith), c.1)
  | inr e ↦ rw e (c.0, book-Refers ids id xs c.1)
]

-- A slot with room is booked once: every slot stays within its capacity, and there is one less
-- booking to take.
pub book-effect :
    (x : DeliverySlot) (xs : List DeliverySlot)
    → Distinct xs
    → All Within xs
    → Among x xs
    → is_full x ≡ false
    → All Within (book x.slot_id xs) × (room xs ≡ room (book x.slot_id xs) + 1)
unfolding book
book-effect x [] d w h f = absurd h
book-effect x (y ∷ ys) d w (inl e) f =
    let g : is_full y ≡ false = sym (ap (λ z. is_full z) e) ∙ f in
    let i : (y.slot_id == x.slot_id) ≡ true =
      ground (arith, ap (λ (z : DeliverySlot). z.slot_id) e) in
    rw i ((ground arith, w.1), ground arith)
book-effect x (y ∷ ys) d w (inr h) f =
    let i : (y.slot_id == x.slot_id) ≡ false = ground (arith, contains-ids_of x ys h, d.0) in
    let (a, b) = book-effect x ys d.1 w.1 h f in rw i ((w.0, a), omega (arith, b))

-- ===== src/Transportation/Scheduling/Docks.antt =====
-- The scheduler's methods on its slots: the slots that it makes, books and rebooks.
use mathlib.Core.Path.{subst}
use supply_chain_execution.Common.{
  All, All-map, Bool-cases, List, Option, [], arith, inl, inr, leb, none, refl, some, suc, zero, ℕ,
  ◌*◌, ◌++◌, ◌+◌, ◌<◌, ◌==◌, ◌||◌, ◌∙◌, ◌∷◌, ◌≡◌,
}
use supply_chain_execution.Common.Int.{pos, ℤ, ◌+ℤ◌}
use supply_chain_execution.Core.Effect.{ok}
use supply_chain_execution.Persistence.Session.{Env, Session}
use supply_chain_execution.Transportation.Scheduling.{
  Calendar, DeliverySlot, DeliveryWindow, Scheduler, contains, day, find_slots, generate_slots,
  ids_of, is_full, new_slot, open_slots, set_slots, slots_of_day, slots_of_days, windows,
}
use supply_chain_execution.Transportation.Scheduling.Booking.{Distinct, Refers, Within}
use supply_chain_execution.Transportation.Scheduling.Methods.{
  ensure_slots, no_schedule, schedule_into, schedule_shipments,
}
use supply_chain_execution.Transportation.Scheduling.Room.{IsBookable, schedule_each-Effect}

abbrev pub AllBookable : List (ℕ × List DeliverySlot) → Type 0
AllBookable [] = Unit
AllBookable ((w, slots) ∷ rest) = IsBookable slots × AllBookable rest

set_slots-AllBookable :
    (w : ℕ) (slots : List DeliverySlot) (d : List (ℕ × List DeliverySlot))
    → IsBookable slots
    → AllBookable d
    → AllBookable (set_slots w slots d)
unfolding set_slots
set_slots-AllBookable w slots [] b h = (b, tt)
set_slots-AllBookable w slots ((k, l) ∷ rest) b h = elim (Bool-cases (k == w)) [
  | inl e ↦ rw e (b, h.1)
  | inr e ↦ rw e (h.0, set_slots-AllBookable w slots rest b h.1)
]

find_slots-IsBookable :
    (w : ℕ) (slots : List DeliverySlot) (d : List (ℕ × List DeliverySlot))
    → AllBookable d
    → find_slots w d ≡ some slots
    → IsBookable slots
find_slots-IsBookable w slots [] h = λ e. absurd (cc)
find_slots-IsBookable w slots ((k, l) ∷ rest) h = elim (Bool-cases (k == w)) [
  | inl e ↦ rw e λ p. let q : l ≡ slots = cc in subst IsBookable q h.0
  | inr e ↦ rw e λ p. find_slots-IsBookable w slots rest h.1 p
]

pub Refers-self : (slots : List DeliverySlot) → Refers (ids_of (open_slots slots)) slots
Refers-self slots = go slots
  where
    wider :
        (x : DeliverySlot) (ids : List ℕ) (l : List DeliverySlot)
        → Refers ids l
        → Refers (x.slot_id ∷ ids) l
    wider x ids l h = All-map (λ y f free. ground (arith, f free)) l h

    go : (l : List DeliverySlot) → Refers (ids_of (open_slots l)) l
    go [] = tt
    go (x ∷ l) = elim (Bool-cases (is_full x)) [
      | inl full ↦
          let e : open_slots l ≡ open_slots (x ∷ l) = rw full refl in
          subst (λ o. Refers (ids_of o) (x ∷ l)) e (λ f. absurd (cc), go l)
      | inr free ↦
          let e : x ∷ open_slots l ≡ open_slots (x ∷ l) = rw free refl in
          subst (λ o. Refers (ids_of o) (x ∷ l)) e
            (λ f. ground arith, wider x (ids_of (open_slots l)) l (go l))
    ]

schedule_into-AllBookable :
    (w : ℕ) (ids : List ℕ) (slots : List DeliverySlot) (s : Scheduler)
    → IsBookable slots
    → AllBookable s.slots
    → AllBookable (schedule_into w ids slots s).1.slots
unfolding schedule_into
schedule_into-AllBookable w ids slots s bookable all_bookable =
    set_slots-AllBookable w _ s.slots
      (schedule_each-Effect (ids_of (open_slots slots)) ids
        (record { slots = slots; result = no_schedule }) s.session bookable (Refers-self slots)).0
      all_bookable

-- The ids that were drawn before the session's next draw.
module _ (env : Env) (calendar : Calendar)
    (unique : (i j : ℕ) → env.uuid4 i ≡ env.uuid4 j → i ≡ j) where
  IsDrawn : ℕ → DeliverySlot → Type 0
  IsDrawn n x = (k : ℕ) × (k < n) × (x.slot_id ≡ env.uuid4 k) × Within x

  -- Slots under construction: different, and drawn already.
  abbrev IsMade : List DeliverySlot → Session → Type 0
  IsMade acc s = Distinct acc × All (IsDrawn s.draws) acc

  contains-append :
      (xs ys : List DeliverySlot) (a : ℕ)
      → contains (ids_of (xs ++ ys)) a ≡ (contains (ids_of xs) a || contains (ids_of ys) a)
  contains-append [] ys a = refl
  contains-append (x ∷ xs) ys a = ground (arith, contains-append xs ys a)

  extend-IsMade :
      (n : ℕ) (x : DeliverySlot) (acc : List DeliverySlot)
      → x.slot_id ≡ env.uuid4 n
      → Within x
      → Distinct acc
      → All (IsDrawn n) acc
      → Distinct (acc ++ x ∷ []) × All (IsDrawn (n + 1)) (acc ++ x ∷ [])
  unfolding IsDrawn
  extend-IsMade n x [] e w d h = ((refl, tt), ((n, omega arith, e, w), tt))
  extend-IsMade n x (y ∷ acc) e w d ((k, lt, f, v), h) =
      let (a, b) = extend-IsMade n x acc e w d.1 h in
      (
        (contains-append acc (x ∷ []) y.slot_id ∙ ground (arith, d.0, unique n k), a),
        ((k, omega arith, f, v), b),
      )

  slots_of_day-IsMade :
      (w : ℕ) (date : ℤ) (l : List DeliveryWindow) (acc : List DeliverySlot) (s : Session)
      → IsMade acc s
      → (acc' : List DeliverySlot) × (s' : Session) × (slots_of_day env calendar w date l acc s
          ≡ (ok acc', s'))
        × IsMade acc' s'
  unfolding slots_of_day
  slots_of_day-IsMade w date [] acc s m = (acc, s, refl, m)
  slots_of_day-IsMade w date (window ∷ l) acc s m =
      let slot = new_slot (env.uuid4 s.draws) w window (calendar.at_eight date) in
      slots_of_day-IsMade w date l (acc ++ slot ∷ []) (record s { draws = s.draws + 1 })
        (extend-IsMade s.draws slot acc refl (omega arith) m.0 m.1)

  slots_of_days-IsMade :
      (w : ℕ) (first : ℤ) (offset days : ℕ) (acc : List DeliverySlot) (s : Session)
      → IsMade acc s
      → (acc' : List DeliverySlot) × (s' : Session) × (slots_of_days env calendar w first offset
            days acc s
          ≡ (ok acc', s'))
        × IsMade acc' s'
  unfolding slots_of_days
  slots_of_days-IsMade w first offset zero acc s m = (acc, s, refl, m)
  slots_of_days-IsMade w first offset (suc days) acc s m =
      let date = first +ℤ pos (offset * day) in
      elim (Bool-cases (leb 5 (calendar.weekday date))) [
        | inl weekend ↦ rw weekend (slots_of_days-IsMade w first (offset + 1) days acc s m)
        | inr weekday ↦
            let (acc', s', e, m') = slots_of_day-IsMade w date windows acc s m in
            rw (weekday, e) (slots_of_days-IsMade w first (offset + 1) days acc' s' m')
      ]

  pub generate_slots-AllBookable :
      (w : ℕ) (first : ℤ) (days : ℕ) (s : Scheduler)
      → AllBookable s.slots
      → (slots : List DeliverySlot) × (s' : Scheduler) × (generate_slots env calendar w first days s
          ≡ (ok slots, s'))
        × IsBookable slots
        × AllBookable s'.slots
  unfolding generate_slots IsDrawn
  generate_slots-AllBookable w first days s h =
      let (slots, session', run, made) =
        slots_of_days-IsMade w first 0 days [] s.session (tt, tt) in
      let bookable : IsBookable slots = (made.0, All-map (λ x d. d.3) slots made.1) in
      (
        slots,
        record s { session = session'; slots = set_slots w slots s.slots },
        rw run refl,
        bookable,
        set_slots-AllBookable w slots s.slots bookable h,
      )

  ensure_slots-AllBookable :
      (w : ℕ) (s : Scheduler) (found : Option (List DeliverySlot))
      → find_slots w s.slots ≡ found
      → AllBookable s.slots
      → (slots : List DeliverySlot) × (s' : Scheduler) × (ensure_slots env calendar w found s
          ≡ (ok slots, s'))
        × IsBookable slots
        × AllBookable s'.slots
  unfolding ensure_slots
  ensure_slots-AllBookable w s (some slots) e h =
      (slots, s, refl, find_slots-IsBookable w slots s.slots h e, h)
  ensure_slots-AllBookable w s none e h =
      let session' = record (s.session) { draws = s.session.draws + 1 } in
      generate_slots-AllBookable w (env.now s.session.draws) 7 (record s { session = session' }) h

  pub schedule_shipments-AllBookable :
      (w : ℕ) (ids : List ℕ) (s : Scheduler)
      → AllBookable s.slots
      → AllBookable (schedule_shipments env calendar w ids s).1.slots
  unfolding schedule_shipments
  schedule_shipments-AllBookable w ids s h =
      let (slots, s', run, bookable, all_bookable) =
        ensure_slots-AllBookable w s (find_slots w s.slots) refl h in
      rw run (schedule_into-AllBookable w ids slots s' bookable all_bookable)

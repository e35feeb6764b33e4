-- ===== src/Common/Lists.antt =====
-- Lists under Python's ways of walking them: comprehensions, `any`, `all`, `next`, slices.
use Prim.Native.Nat.{ℕ, zero, suc, ◌+◌, ◌≤◌}
use mathlib.Core.Logic.{inl, inr}
use mathlib.Core.Path.{◌≡◌}
use mathlib.Core.Bool.{Bool, true, false, ◌&&◌, ◌||◌}
use mathlib.Core.Option.{Option, none, some}
use mathlib.Core.List.{List, [], ◌∷◌, ◌++◌}
use native.Mathlib.Omega.{arith}
use supply_chain_execution.Common.Tests.{Bool-cases, if◌then◌else◌}

module _ {ℓ} {A : Type ℓ} where
  abbrev pub length : List A → ℕ
  length [] = 0
  length (x ∷ xs) = suc (length xs)

  -- `xs[:n]`
  abbrev pub take : ℕ → List A → List A
  take zero xs = []
  take (suc n) [] = []
  take (suc n) (x ∷ xs) = x ∷ take n xs

  -- `[x for x in xs if keep(x)]`
  abbrev pub filter : (A → Bool) → List A → List A
  filter keep [] = []
  filter keep (x ∷ xs) = if keep x then x ∷ filter keep xs else filter keep xs

  abbrev pub any : (A → Bool) → List A → Bool
  any p [] = false
  any p (x ∷ xs) = p x || any p xs

  abbrev pub all : (A → Bool) → List A → Bool
  all p [] = true
  all p (x ∷ xs) = p x && all p xs

  -- `next((x for x in xs if p(x)), None)`
  abbrev pub find? : (A → Bool) → List A → Option A
  find? p [] = none
  find? p (x ∷ xs) = if p x then some x else find? p xs

  abbrev pub All {κ} : (A → Type κ) → List A → Type κ
  All P [] = Unit
  All P (x ∷ xs) = P x × All P xs

  pub length-append : (xs ys : List A) → length (xs ++ ys) ≡ length xs + length ys
  length-append [] ys = omega arith
  length-append (x ∷ xs) ys = omega (arith, length-append xs ys)

-- How many elements satisfy a test.
module _ {ℓ} {A : Type ℓ} (p : A → Bool) where
  abbrev pub count_of : List A → ℕ
  count_of [] = 0
  count_of (x ∷ xs) = (if p x then 1 else 0) + count_of xs

  pub count_of-append : (xs ys : List A) → count_of (xs ++ ys) ≡ count_of xs + count_of ys
  count_of-append [] ys = omega arith
  count_of-append (x ∷ xs) ys = omega (arith, count_of-append xs ys)

-- Insertion before the first strictly greater element: built up from the left it is the
-- stable order of `sorted`.
module _ {ℓ} {A : Type ℓ} (less : A → A → Bool) where
  unfoldable pub insert_sorted : A → List A → List A
  insert_sorted x [] = x ∷ []
  insert_sorted x (y ∷ ys) = if less x y then x ∷ y ∷ ys else y ∷ insert_sorted x ys

  unfoldable pub sort_into : List A → List A → List A
  unfolding insert_sorted
  sort_into acc [] = acc
  sort_into acc (x ∷ xs) = sort_into (insert_sorted x acc) xs

  -- `sorted(xs, key=...)` for the strict order `less` of the keys.
  unfoldable pub sorted : List A → List A
  unfolding sort_into
  sorted xs = sort_into [] xs

module _ {ℓ κ μ} {A : Type ℓ} {P : A → Type κ} {Q : A → Type μ} where
  pub All-map : ((x : A) → P x → Q x) → (xs : List A) → All P xs → All Q xs
  All-map f [] h = tt
  All-map f (x ∷ xs) h = (f x h.0, All-map f xs h.1)

-- `sorted` keeps every element as often as it was.
module _ {ℓ} {A : Type ℓ} (p : A → Bool) (less : A → A → Bool) where
  count_of-insert_sorted :
      (x : A) (ys : List A) → count_of p (insert_sorted less x ys) ≡ count_of p (x ∷ ys)
  unfolding insert_sorted
  count_of-insert_sorted x [] = omega arith
  count_of-insert_sorted x (y ∷ ys) = ground (arith, count_of-insert_sorted x ys)

  count_of-sort_into :
      (acc xs : List A) → count_of p (sort_into less acc xs) ≡ count_of p acc + count_of p xs
  unfolding sort_into
  count_of-sort_into acc [] = omega arith
  count_of-sort_into acc (x ∷ xs) =
      omega (arith, count_of-sort_into (insert_sorted less x acc) xs, count_of-insert_sorted x acc)

  pub count_of-sorted : (xs : List A) → count_of p (sorted less xs) ≡ count_of p xs
  unfolding sorted
  count_of-sorted xs = omega (arith, count_of-sort_into [] xs)

module _ {ℓ} {A : Type ℓ} (p : A → Bool) where
  pub count_of-take : (n : ℕ) (xs : List A) → count_of p (take n xs) ≤ count_of p xs
  count_of-take zero xs = omega arith
  count_of-take (suc n) [] = omega arith
  count_of-take (suc n) (x ∷ xs) = omega (arith, count_of-take n xs)

module _ {ℓ κ} {A : Type ℓ} (P : A → Type κ) where
  pub All-append : (xs ys : List A) → All P xs → All P ys → All P (xs ++ ys)
  All-append [] ys h k = k
  All-append (x ∷ xs) ys h k = (h.0, All-append xs ys h.1 k)

  pub All-take : (n : ℕ) (xs : List A) → All P xs → All P (take n xs)
  All-take zero xs h = tt
  All-take (suc n) [] h = tt
  All-take (suc n) (x ∷ xs) h = (h.0, All-take n xs h.1)

  module _ (less : A → A → Bool) where
    pub All-insert_sorted : (x : A) (ys : List A) → P x → All P ys → All P (insert_sorted less x ys)
    unfolding insert_sorted
    All-insert_sorted x [] p h = (p, tt)
    All-insert_sorted x (y ∷ ys) p h = elim (Bool-cases (less x y)) [
      | inl first ↦ rw first (p, h)
      | inr later ↦ rw later (h.0, All-insert_sorted x ys p h.1)
    ]

    All-sort_into : (acc xs : List A) → All P acc → All P xs → All P (sort_into less acc xs)
    unfolding sort_into
    All-sort_into acc [] a h = a
    All-sort_into acc (x ∷ xs) a h =
        All-sort_into (insert_sorted less x acc) xs (All-insert_sorted x acc h.0 a) h.1

    pub All-sorted : (xs : List A) → All P xs → All P (sorted less xs)
    unfolding sorted
    All-sorted xs h = All-sort_into [] xs tt h

pub length-take : {A : Type 0} (n : ℕ) (xs : List A) → length (take n xs) ≤ n
length-take zero xs = omega arith
length-take (suc n) [] = omega arith
length-take (suc n) (x ∷ xs) = omega (arith, length-take n xs)

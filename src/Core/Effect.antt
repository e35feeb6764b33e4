-- ===== src/Core/Effect.antt =====
-- A service method: it reads and writes a session, and returns or raises. What was written
-- before a raise stays written, so the session comes back beside the error too.
use supply_chain_execution.Common.{
  Bool, List, Option, [], if◌then◌else◌, none, refl, some, ◌∷◌, ◌≡◌,
}
use supply_chain_execution.Core.Exceptions.{Error}

pub data Result {ℓ} (A : Type ℓ) : Type ℓ where
  ok : A → Result A
  raised : Error → Result A

abbrev pub Action : Type 0 → Type 0 → Type 0
Action S A = S → Result A × S

-- `raise`, `return`, and the reading and writing of the session.
module _ {S A : Type 0} where
  abbrev pub pure : A → Action S A
  pure a s = (ok a, s)

  abbrev pub raise : Error → Action S A
  raise e s = (raised e, s)

  abbrev pub gets : (S → A) → Action S A
  gets f s = (ok (f s), s)

  abbrev pub or_raise : Option A → Error → Action S A
  or_raise none e = raise e
  or_raise (some a) e = pure a

abbrev pub modify : {S : Type 0} → (S → S) → Action S (Unit {0})
modify f s = (ok tt, f s)

abbrev pub raise_if : {S : Type 0} → Bool → Error → Action S (Unit {0})
raise_if c e s = (if c then raised e else ok tt, s)

module _ {S A B : Type 0} where
  infixl 5 ◌>>=◌ ◌>>◌
  abbrev pub resume : Result A → (A → Action S B) → Action S B
  resume (ok a) k s = k a s
  resume (raised e) k s = (raised e, s)

  abbrev pub ◌>>=◌ : Action S A → (A → Action S B) → Action S B
  ◌>>=◌ m k s = let (r, s') = m s in resume r k s'

  abbrev pub ◌>>◌ : Action S A → Action S B → Action S B
  m >> k = m >>= λ _. k

-- `try: m` / `except Exception: handler`
module _ {S A : Type 0} where
  abbrev pub recover : Result A → (Error → Action S A) → Action S A
  recover (ok a) handler s = (ok a, s)
  recover (raised e) handler s = handler e s

  abbrev pub catch : Action S A → (Error → Action S A) → Action S A
  catch m handler s = let (r, s') = m s in recover r handler s'

-- A `for` loop over the items, with the local variables `acc` that its body assigns.
module _ {S A B : Type 0} (body : A → B → Action S B) where
  unfoldable pub for_each : List A → B → Action S B
  for_each [] acc = pure acc
  for_each (x ∷ xs) acc = do acc' ← body x acc; for_each xs acc'

-- What one step keeps, and what its continuation keeps, their composition keeps.
module _ {S A B : Type 0} (P : S → Type 0) where
  pub resume_inv :
      (r : Result A) (k : A → Action S B) (s : S)
      → P s
      → ((a : A) → r ≡ ok a → P (k a s).1)
      → P (resume r k s).1
  resume_inv (ok a) k s h keep = keep a refl
  resume_inv (raised e) k s h keep = h

module _ {S A B : Type 0} (P : S → Type 0) (body : A → B → Action S B) where
  -- A loop keeps what each round keeps, whether it ends or a round raises.
  pub for_each_inv :
      ((x : A) (acc : B) (s : S) → P s → P (body x acc s).1)
      → (xs : List A) (acc : B) (s : S) → P s
      → P (for_each body xs acc s).1
  unfolding for_each
  for_each_inv keep [] acc s h = h
  for_each_inv keep (x ∷ xs) acc s h =
      let (r, s') = body x acc s in
      resume_inv P r (for_each body xs) s' (keep x acc s h)
        λ acc' e. for_each_inv keep xs acc' s' (keep x acc s h)

-- A composition that returns: its first step returned, and so did the rest.
module _ {S A B : Type 0} where
  pub resume-eq-ok :
      (r : Result A) (k : A → Action S B) (s s' : S) (b : B)
      → resume r k s ≡ (ok b, s')
      → (a : A) × (r ≡ ok a) × (k a s ≡ (ok b, s'))
  resume-eq-ok (ok a) k s s' b e = (a, refl, e)
  resume-eq-ok (raised x) k s s' b e = cc

-- A relation between the session and the loop's variables, when the loop returns.
module _ {S A B : Type 0} (P : B → S → Type 0) (body : A → B → Action S B) where
  pub for_each_returns :
      ((x : A) (acc acc' : B) (s s' : S) → P acc s → body x acc s ≡ (ok acc', s') → P acc' s')
      → (xs : List A) (acc acc' : B) (s s' : S) → P acc s
      → for_each body xs acc s ≡ (ok acc', s')
      → P acc' s'
  unfolding for_each
  for_each_returns keep [] acc acc' s s' h e =
      let p : acc ≡ acc' = cc in let q : s ≡ s' = cc in rw (← p, ← q) h
  for_each_returns keep (x ∷ xs) acc acc' s s' h e =
      let (r, s₁) = body x acc s in
      let (acc₁, p, q) = resume-eq-ok r (for_each body xs) s₁ s' acc' e in
      let step : body x acc s ≡ (ok acc₁, s₁) = λ i. (p i, s₁) in
      for_each_returns keep xs acc₁ acc' s₁ s' (keep x acc acc₁ s s₁ h step) q

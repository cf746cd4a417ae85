-- ===== src/Prelude/Exec.antt =====
-- Methods of an object that they mutate, which may throw. What was written before a `throw` stays
-- written, so the state comes back beside the error too.
use mathlib.Core.Path.{◌≡◌, refl}
use mathlib.Core.List.{List, [], ◌∷◌}
use optics_monorepo.Prelude.Results.{Error, Result, ok, err}

abbrev pub Exec {ℓ κ} : Type ℓ → Type κ → Type (ℓ ⊔ κ)
Exec Obj V = Obj → Result V × Obj

module _ {ℓ κ} {Obj : Type ℓ} {V : Type κ} where
  -- What a getter returns or throws.
  abbrev pub reads : (Obj → Result V) → Exec Obj V
  reads getter obj = (getter obj, obj)

  abbrev pub throw : Error → Exec Obj V
  throw thrown obj = (err thrown, obj)

  abbrev pub pure : V → Exec Obj V
  pure value obj = (ok value, obj)

abbrev pub modify {ℓ} : {Obj : Type ℓ} → (Obj → Obj) → Exec Obj (Unit {0})
modify change obj = (ok tt, change obj)

module _ {ℓ κ κ'} {Obj : Type ℓ} {V : Type κ} {W : Type κ'} where
  -- The rest of a method after a step with this outcome.
  abbrev pub continue : Result V → (V → Exec Obj W) → Exec Obj W
  continue (err thrown) rest obj = (err thrown, obj)
  continue (ok value) rest obj = rest value obj

  infixl 5 ◌>>=◌ ◌>>◌
  abbrev pub ◌>>=◌ : Exec Obj V → (V → Exec Obj W) → Exec Obj W
  ◌>>=◌ step rest obj = let (outcome, changed) = step obj in continue outcome rest changed

  abbrev pub ◌>>◌ : Exec Obj V → Exec Obj W → Exec Obj W
  step >> rest = step >>= λ _. rest

-- `xs.forEach(f)`, which an exception ends.
unfoldable pub for_each {ℓ κ} :
    {S : Type ℓ} {A : Type κ} → List A → (A → Exec S (Unit {0})) → Exec S (Unit {0})
for_each [] f s = (ok tt, s)
for_each (x ∷ xs) f s = (f x >> for_each xs f) s

-- An invariant that a method keeps, whether it returns or throws.
abbrev pub Keeps {ℓ κ μ} : {S : Type ℓ} {A : Type κ} → (S → Type μ) → Exec S A → Type (ℓ ⊔ μ)
Keeps {S} P m = (s : S) → P s → P (m s).1

module _ {ℓ κ κ' μ} {Obj : Type ℓ} {V : Type κ} {W : Type κ'} (Inv : Obj → Type μ) where
  pub Keeps-continue :
      (outcome : Result V) (rest : V → Exec Obj W) (obj : Obj)
      → Inv obj
      → ((value : V) → outcome ≡ ok value → Inv (rest value obj).1)
      → Inv (continue outcome rest obj).1
  Keeps-continue (err thrown) rest obj held later = held
  Keeps-continue (ok value) rest obj held later = later value refl

  pub Keeps-bind :
      (step : Exec Obj V) (rest : V → Exec Obj W)
      → Keeps Inv step
      → ((value : V) → Keeps Inv (rest value))
      → Keeps Inv (step >>= rest)
  Keeps-bind step rest first later obj held =
      let (outcome, changed) = step obj in
      Keeps-continue outcome rest changed (first obj held)
        (λ value _. later value changed (first obj held))

module _ {ℓ κ μ} {Obj : Type ℓ} {X : Type κ} (Inv : Obj → Type μ) where
  pub Keeps-for_each :
      (xs : List X) (body : X → Exec Obj (Unit {0}))
      → ((x : X) → Keeps Inv (body x))
      → Keeps Inv (for_each xs body)
  unfolding for_each
  Keeps-for_each [] body keeps obj held = held
  Keeps-for_each (x ∷ xs) body keeps obj held =
      Keeps-bind Inv (body x) (λ _. for_each xs body) (keeps x) (λ _. Keeps-for_each xs body keeps)
        obj held

-- A method that returns came through its first step.
pub continue-eq-ok {ℓ κ κ'} :
    {S : Type ℓ} {A : Type κ} {B : Type κ'} (r : Result A) (f : A → Exec S B) (s : S) {b : B}
    → (continue r f s).0 ≡ ok b
    → (a : A) × (r ≡ ok a) × (continue r f s ≡ f a s)
continue-eq-ok (ok a) f s h = (a, refl, refl)
continue-eq-ok (err e) f s h = cc

-- The outcome of two calls that both run to their end.
abbrev pub first_error : Result (Unit {0}) → Result (Unit {0}) → Result (Unit {0})
first_error (err thrown) others = err thrown
first_error (ok _) others = others

-- `await Promise.all(xs.map(f))`: each call runs to its end, and one that throws makes the whole throw.
unfoldable pub for_all {ℓ κ} :
    {S : Type ℓ} {A : Type κ} → List A → (A → Exec S (Unit {0})) → Exec S (Unit {0})
for_all [] f s = (ok tt, s)
for_all (x ∷ xs) f s =
    let (first, changed) = f x s in
    let (others, final) = for_all xs f changed in (first_error first others, final)

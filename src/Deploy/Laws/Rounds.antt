-- ===== src/Deploy/Laws/Rounds.antt =====
-- Loops over the deploys of a fleet, each round of which changes one deploy.
use optics_monorepo.Prelude.{
  ℕ, Bool, true, false, ◌||◌, ◌≡◌, refl, sym, ◌∙◌, ap, ◌⊎◌, inl, inr, List, [], ◌∷◌, filter, ◌==◌,
  ==_iff, eq_refl, Bool-cases, ok, arith,
}
use optics_monorepo.Prelude.Exec.{Exec, for_each, for_all}
use optics_monorepo.Deploy.State.{CoreDeploy}
use optics_monorepo.Deploy.Networks.{Fleet}
use optics_monorepo.Deploy.Laws.Enrolled.{put, put_there, >>-eq}

unfoldable pub elem : ℕ → List ℕ → Bool
elem i [] = false
elem i (j ∷ js) = (j == i) || elem i js

abbrev pub Distinct : List ℕ → Type 0
Distinct [] = Unit
Distinct (i ∷ is) = (elem i is ≡ false) × Distinct is

abbrev pub put_all : List ℕ → (ℕ → CoreDeploy) → Fleet → Fleet
put_all [] after fleet = fleet
put_all (i ∷ is) after fleet = put_all is after (put i (after i) fleet)

-- What holds of every reference in the list.
abbrev pub Each : List ℕ → (ℕ → Type 0) → Type 0
Each is P = (i : ℕ) → elem i is ≡ true → P i

pub elem_head : (i : ℕ) (is : List ℕ) → elem i (i ∷ is) ≡ true
unfolding elem
elem_head i is = rw (eq_refl i) refl

pub elem_tail : (i j : ℕ) (is : List ℕ) → elem i is ≡ true → elem i (j ∷ is) ≡ true
unfolding elem
elem_tail i j is h = ground arith

pub Each-tail : {P : ℕ → Type 0} (i : ℕ) (is : List ℕ) → Each (i ∷ is) P → Each is P
Each-tail i is h j m = h j (elem_tail j i is m)

-- A member differs from one that is not.
pub elem_apart : (i j : ℕ) (is : List ℕ) → elem i is ≡ false → elem j is ≡ true → (i == j) ≡ false
elem_apart i j is h m = elim (Bool-cases (i == j)) [
  | inl e ↦ absurd (false_true (sym h ∙ ap (λ (k : ℕ). elem k is) ((==_iff i j).0 e) ∙ m))
  | inr e ↦ e
]
  where
    false_true : false ≡ true → ⊥
    false_true e = cc

pub filter_cong :
    (p q : ℕ → Bool) (is : List ℕ) → Each is (λ i. p i ≡ q i) → filter p is ≡ filter q is
filter_cong p q [] h = refl
filter_cong p q (i ∷ is) h =
    rw (h i (elem_head i is), filter_cong p q is (λ j m. h j (elem_tail j i is m))) refl

pub elem-filter :
    (p : ℕ → Bool) (i : ℕ) (is : List ℕ)
    → elem i (filter p is) ≡ true
    → (elem i is ≡ true) × (p i ≡ true)
unfolding elem
elem-filter p i [] h = absurd cc
elem-filter p i (j ∷ js) h = elim (Bool-cases (p j)) [
  | inl q ↦ elim (Bool-cases (j == i)) [
    | inl e ↦ (rw e refl, ap p (sym ((==_iff j i).0 e)) ∙ q)
    | inr e ↦ let (m, r) = elem-filter p i js (rw (q, e) at h) in (rw (e, m) refl, r)
  ]
  | inr q ↦ let (m, r) = elem-filter p i js (rw q at h) in (elem_tail i j js m, r)
]

pub elem-filter_intro :
    (p : ℕ → Bool) (i : ℕ) (is : List ℕ)
    → elem i is ≡ true
    → p i ≡ true
    → elem i (filter p is) ≡ true
unfolding elem
elem-filter_intro p i [] h q = absurd cc
elem-filter_intro p i (j ∷ js) h q = elim (Bool-cases (j == i)) [
  | inl e ↦ rw (ap p ((==_iff j i).0 e) ∙ q, e) refl
  | inr e ↦ elim (Bool-cases (p j)) [
    | inl r ↦ rw (r, elem, e) (elem-filter_intro p i js (rw e at h) q)
    | inr r ↦ rw r (elem-filter_intro p i js (rw e at h) q)
  ]
]

pub put_all-after :
    (is : List ℕ) (after : ℕ → CoreDeploy) (fleet : Fleet) (i : ℕ)
    → (elem i is ≡ true) ⊎ (fleet.deploys i ≡ after i)
    → (put_all is after fleet).deploys i ≡ after i
unfolding elem
put_all-after [] after fleet i (inl m) = absurd cc
put_all-after [] after fleet i (inr e) = e
put_all-after (j ∷ js) after fleet i h =
    put_all-after js after (put j (after j) fleet) i (elim (Bool-cases (j == i)) [
      | inl e ↦ inr (rw e (ap after ((==_iff j i).0 e)))
      | inr e ↦ elim h [ inl m ↦ inl (rw e at m) | inr o ↦ inr (rw e o) ]
    ])

pub put_all-apart :
    (is : List ℕ) (after : ℕ → CoreDeploy) (fleet : Fleet) (i : ℕ)
    → elem i is ≡ false
    → (put_all is after fleet).deploys i ≡ fleet.deploys i
unfolding elem
put_all-apart [] after fleet i h = refl
put_all-apart (j ∷ js) after fleet i h = elim (Bool-cases (j == i)) [
  | inl e ↦ absurd (ground arith)
  | inr e ↦
      put_all-apart js after (put j (after j) fleet) i (rw e at h) ∙ put_there j i (after j) fleet e
]

pub put_all-written :
    (is : List ℕ) (after : ℕ → CoreDeploy) (fleet : Fleet)
    → (put_all is after fleet).written ≡ fleet.written
put_all-written [] after fleet = refl
put_all-written (j ∷ js) after fleet = put_all-written js after (put j (after j) fleet)

-- A loop whose rounds each change their own deploy from `before` to `after` and keep `Inv`.
module _ (Q : ℕ → Type 0) (Inv : Fleet → Type 0) (before after : ℕ → CoreDeploy)
    (step : ℕ → Exec Fleet (Unit {0}))
    (round : (i : ℕ) (fleet : Fleet)
      → Q i
      → Inv fleet
      → fleet.deploys i ≡ before i
      → (step i fleet ≡ (ok tt, put i (after i) fleet)) × Inv (put i (after i) fleet)) where
  pub for_each-rounds :
      (is : List ℕ) (fleet : Fleet)
      → Distinct is
      → Each is Q
      → Each is (λ i. fleet.deploys i ≡ before i)
      → Inv fleet
      → (for_each is step fleet ≡ (ok tt, put_all is after fleet)) × Inv (put_all is after fleet)
  unfolding for_each
  for_each-rounds [] fleet d q h inv = (refl, inv)
  for_each-rounds (i ∷ is) fleet (fresh, d) q h inv =
      let (stepped, inv') = round i fleet (q i (elem_head i is)) inv (h i (elem_head i is)) in
      let (rest, final) =
        for_each-rounds is (put i (after i) fleet) d (λ j m. q j (elem_tail j i is m))
          (λ j m.
            put_there i j (after i) fleet (elem_apart i j is fresh m) ∙ h j (elem_tail j i is m))
          inv' in
      (>>-eq (step i) (for_each is step) fleet stepped ∙ rest, final)

  pub for_all-rounds :
      (is : List ℕ) (fleet : Fleet)
      → Distinct is
      → Each is Q
      → Each is (λ i. fleet.deploys i ≡ before i)
      → Inv fleet
      → (for_all is step fleet ≡ (ok tt, put_all is after fleet)) × Inv (put_all is after fleet)
  unfolding for_all
  for_all-rounds [] fleet d q h inv = (refl, inv)
  for_all-rounds (i ∷ is) fleet (fresh, d) q h inv =
      let (stepped, inv') = round i fleet (q i (elem_head i is)) inv (h i (elem_head i is)) in
      let (rest, final) =
        for_all-rounds is (put i (after i) fleet) d (λ j m. q j (elem_tail j i is m))
          (λ j m.
            put_there i j (after i) fleet (elem_apart i j is fresh m) ∙ h j (elem_tail j i is m))
          inv' in
      (rw (stepped, rest) refl, final)

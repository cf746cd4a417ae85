-- ===== src/Prelude/Map.antt =====
-- A JavaScript `Map` with numbers for keys: entries in the order of their first insertion.
use Prim.Native.Nat.{ℕ}
use mathlib.Core.Path.{◌≡◌, refl}
use mathlib.Core.Logic.{inl, inr}
use mathlib.Core.Bool.{Bool, true, false}
use mathlib.Core.Option.{Option, none, some}
use mathlib.Core.List.{List, [], ◌∷◌}
use native.Mathlib.Omega.{arith}
use optics_monorepo.Prelude.Tests.{◌==◌, if◌then◌else◌, Bool-cases, Option-cases, eq_refl}

abbrev pub Map {ℓ} : Type ℓ → Type ℓ
Map V = List (ℕ × V)

module _ {ℓ} {V : Type ℓ} where
  unfoldable pub get : ℕ → Map V → Option V
  get k [] = none
  get k ((j, v) ∷ m) = if j == k then some v else get k m

  -- A key that is there keeps its place.
  unfoldable pub set : ℕ → V → Map V → Map V
  set k v [] = (k, v) ∷ []
  set k v ((j, w) ∷ m) = if j == k then (k, v) ∷ m else (j, w) ∷ set k v m

  unfoldable pub delete : ℕ → Map V → Map V
  delete k [] = []
  delete k ((j, w) ∷ m) = let rest = delete k m in if j == k then rest else (j, w) ∷ rest

  unfoldable pub keys : Map V → List ℕ
  keys [] = []
  keys ((j, w) ∷ m) = j ∷ keys m

  unfoldable pub values : Map V → List V
  values [] = []
  values ((j, w) ∷ m) = w ∷ values m

  pub get-set :
      (k j : ℕ) (v : V) (m : Map V) → get j (set k v m) ≡ (if k == j then some v else get j m)
  unfolding get set
  get-set k j v [] = refl
  get-set k j v ((i, w) ∷ m) = ground (arith, get-set k j v m)

  pub get-delete : (k j : ℕ) (m : Map V) → get j (delete k m) ≡ (if k == j then none else get j m)
  unfolding get delete
  get-delete k j [] = ground arith
  get-delete k j ((i, w) ∷ m) = ground (arith, get-delete k j m)

unfoldable pub has {ℓ} : {V : Type ℓ} → ℕ → Map V → Bool
has k m = elim (get k m) [ none ↦ false | some _ ↦ true ]

-- `map` over the values, the keys kept in place.
unfoldable pub map_values {ℓ κ} : {V : Type ℓ} {W : Type κ} → (V → W) → Map V → Map W
map_values f [] = []
map_values f ((j, w) ∷ m) = (j, f w) ∷ map_values f m

pub get-map_values {ℓ κ} :
    {V : Type ℓ} {W : Type κ} (f : V → W) (k : ℕ) (m : Map V)
    → get k (map_values f m) ≡ elim (get k m) [ none ↦ none | some v ↦ some (f v) ]
unfolding get map_values
get-map_values f k [] = refl
get-map_values f k ((j, w) ∷ m) = ground (arith, get-map_values f k m)

-- A mapped value comes from one under the same key.
pub get-map_values_inv {ℓ κ} :
    {V : Type ℓ} {W : Type κ} (f : V → W) (k : ℕ) (m : Map V) {w : W}
    → get k (map_values f m) ≡ some w
    → (v : V) × (get k m ≡ some v) × (f v ≡ w)
unfolding get map_values
get-map_values_inv f k [] h = cc
get-map_values_inv f k ((j, v) ∷ m) h = elim (Bool-cases (j == k)) [
  | inl e ↦ (v, rw e, ground arith)
  | inr e ↦ let (v', p, q) = get-map_values_inv f k m (rw e at h) in (v', rw e p, q)
]

-- A method of the value under `k`, if there is one, that changes the value.
unfoldable pub update {ℓ} : {V : Type ℓ} → ℕ → (V → V) → Map V → Map V
unfolding get set
update k f m = elim (get k m) [ none ↦ m | some v ↦ set k (f v) m ]

pub get-update_self {ℓ} :
    {V : Type ℓ} (k : ℕ) (f : V → V) (m : Map V)
    → get k (update k f m) ≡ elim (get k m) [ none ↦ none | some v ↦ some (f v) ]
unfolding update
get-update_self k f m = elim (Option-cases (get k m)) [
  | inl e ↦ rw (e, update) (rw e)
  | inr (v, e) ↦ rw (e, update) (rw get-set (rw eq_refl))
]

pub get-update_ne {ℓ} :
    {V : Type ℓ} (k j : ℕ) (f : V → V) (m : Map V)
    → (k == j) ≡ false
    → get j (update k f m) ≡ get j m
unfolding update
get-update_ne k j f m h = elim (Option-cases (get k m)) [
  | inl e ↦ rw (e, update)
  | inr (v, e) ↦ rw (e, update) (rw (get-set k j (f v) m, h))
]

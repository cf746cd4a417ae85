-- ===== src/Context/Laws/Resolved.antt =====
-- The domain lookups of typescript/optics-provider/src/provider.ts.
use optics_monorepo.Prelude.{
  ℕ, ◌≡◌, refl, sym, ap, ◌∙◌, Bool, true, List, [], ◌∷◌, filter, Text, text_eq, to_lower_case,
  to_lower_case_idem, ok, arith, inl, inr, Bool-cases,
}
use mathlib.Core.List.{Memᴰ}
use mathlib.Core.List.Memᴰ
use mathlib.Core.List.Memᴰ.{head, tail}
use optics_monorepo.Prelude.Map
use optics_monorepo.Context.Ethers.{Ethers}
use optics_monorepo.Context.State.{Context, Domain}
use optics_monorepo.Context.Domains.{resolve_domain, first_id}
use optics_monorepo.Messages.Bridge.{name}

module _ {A : Type 0} (p : A → Bool) where
  Memᴰ-filter : {a : A} (xs : List A) → Memᴰ a (filter p xs) → Memᴰ a xs × (p a ≡ true)
  Memᴰ-filter [] m = elim m [ ]
  Memᴰ-filter (x ∷ xs) m = elim (Bool-cases (p x)) [
    | inl q ↦ elim (Memᴰ.cases_cons (rw q at m)) [
      | inl e ↦ (head e, ap p e ∙ q)
      | inr m' ↦ let (there, holds) = Memᴰ-filter xs m' in (tail there, holds)
    ]
    | inr q ↦ let (there, holds) = Memᴰ-filter xs (rw q at m) in (tail there, holds)
  ]

  filter-Memᴰ : {a : A} (xs : List A) → Memᴰ a xs → p a ≡ true → Memᴰ a (filter p xs)
  filter-Memᴰ [] m h = elim m [ ]
  filter-Memᴰ (x ∷ xs) (head e) h = let q = ap p (sym e) ∙ h in rw q (head e)
  filter-Memᴰ (x ∷ xs) (tail m) h = elim (Bool-cases (p x)) [
    | inl q ↦ rw q (tail (filter-Memᴰ xs m h))
    | inr q ↦ rw q (filter-Memᴰ xs m h)
  ]

first_id-Memᴰ :
    (ds : List Domain) (k : ℕ) → first_id ds ≡ ok k → (d : Domain) × Memᴰ d ds × (d.id ≡ k)
first_id-Memᴰ [] k e = absurd cc
first_id-Memᴰ (d ∷ ds) k e = (d, head refl, ground (arith, e))

-- A list with an element has a first one.
first_id-ok : (ds : List Domain) {d : Domain} → Memᴰ d ds → (k : ℕ) × (first_id ds ≡ ok k)
first_id-ok [] m = elim m [ ]
first_id-ok (d ∷ ds) m = (d.id, refl)

module _ {E : Ethers} where
  -- The number that a name resolves to is that of a registered domain of this name, up to case.
  pub resolve_domain_sound :
      (s : Context E) (n : Text) (k : ℕ)
      → resolve_domain (name n) s ≡ ok k
      → (d : Domain) × Memᴰ d (Map.values s.domains)
        × (text_eq (to_lower_case d.name) (to_lower_case n) ≡ true)
        × (d.id ≡ k)
  unfolding resolve_domain
  resolve_domain_sound s n k e =
      let named = λ (d : Domain). text_eq (to_lower_case d.name) (to_lower_case n) in
      let (d, mem, same) = first_id-Memᴰ (filter named (Map.values s.domains)) k e in
      let (there, holds) = Memᴰ-filter named (Map.values s.domains) mem in (d, there, holds, same)

  -- The name of a registered domain resolves to a number, in any case, and to the same one in lower
  -- case.
  pub resolve_domain_complete :
      (s : Context E) (n : Text) (d : Domain)
      → Memᴰ d (Map.values s.domains)
      → text_eq (to_lower_case d.name) (to_lower_case n) ≡ true
      → (k : ℕ) × (resolve_domain (name n) s ≡ ok k)
        × (resolve_domain (name (to_lower_case n)) s ≡ ok k)
  unfolding resolve_domain
  resolve_domain_complete s n d m h =
      let named = λ (d : Domain). text_eq (to_lower_case d.name) (to_lower_case n) in
      let (k, e) =
        first_id-ok (filter named (Map.values s.domains))
          (filter-Memᴰ named (Map.values s.domains) m h) in
      (k, e, rw (to_lower_case_idem n) e)

-- ===== src/Context/Domains.antt =====
-- The domain registry of `MultiProvider` (typescript/optics-provider/src/provider.ts).
use optics_monorepo.Prelude.{
  ℕ, Bool, true, false, Option, none, some, List, [], ◌∷◌, Text, text_eq, to_lower_case, Result, ok,
  err, domain_not_found, ◌>>=◌, or_throw, filter,
}
use optics_monorepo.Prelude.Map
use optics_monorepo.Context.Ethers.{Ethers}
use optics_monorepo.Context.State.{Domain, Context}
use optics_monorepo.Messages.Bridge.{NameOrDomain, name, number}

abbrev pub first_id : List Domain → Result ℕ
first_id [] = err domain_not_found
first_id (d ∷ _) = ok d.id

module _ {E : Ethers} where
  unfoldable pub register_domain : Domain → Context E → Context E
  register_domain domain s = record s { domains = Map.set domain.id domain s.domains }

  unfoldable pub domain_numbers : Context E → List ℕ
  domain_numbers s = Map.keys s.domains

  unfoldable pub missing_providers : Context E → List ℕ
  unfolding domain_numbers
  missing_providers s = filter (λ d. Map.has d s.providers) (domain_numbers s)

  unfoldable pub resolve_domain : NameOrDomain → Context E → Result ℕ
  resolve_domain (name n) s = first_id (
      filter (λ (d : Domain). text_eq (to_lower_case d.name) (to_lower_case n))
        (Map.values s.domains))
  resolve_domain (number d) s = ok d

  unfoldable pub known_domain : NameOrDomain → Context E → Bool
  known_domain nod s = elim (resolve_domain nod s) [ ok _ ↦ true | err _ ↦ false ]

  unfoldable pub get_domain : NameOrDomain → Context E → Result (Option Domain)
  get_domain nod s = do d ← resolve_domain nod s; ok (Map.get d s.domains)

  unfoldable pub must_get_domain : NameOrDomain → Context E → Result Domain
  unfolding get_domain
  must_get_domain nod s = do found ← get_domain nod s; or_throw found domain_not_found

  unfoldable pub resolve_domain_name : NameOrDomain → Context E → Result (Option Text)
  unfolding get_domain
  resolve_domain_name nod s = do
    found ← get_domain nod s
    ok (elim found [ none ↦ none | some (d) ↦ some d.name ])

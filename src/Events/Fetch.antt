-- ===== src/Events/Fetch.antt =====
-- typescript/optics-provider/src/optics/events/fetch.ts. The loop of `getPaginatedEvents` runs on fuel.
use optics_monorepo.Prelude.{
  ℕ, zero, suc, ◌+◌, min, max, Option, none, some, List, [], ◌∷◌, ◌++◌, Result, ok, err,
  not_paginated, out_of_fuel, ◌>>=◌, traverse, leb, if◌then◌else◌,
}
use optics_monorepo.Context.Ethers.{Ethers}
use optics_monorepo.Context.State.{Pagination, Domain, Context}
use optics_monorepo.Context.Domains.{must_get_domain, resolve_domain}
use optics_monorepo.Context.MultiProvider.{must_get_provider}
use optics_monorepo.Messages.Bridge.{NameOrDomain, number}
use optics_monorepo.Events.Annotated.{Annotated, Event, from_events}
use optics_monorepo.Events.Chain.{Chain, Query}

-- A start block of 0 counts as none.
abbrev pub first_block : Option ℕ → Pagination → ℕ
first_block none p = p.from
first_block (some zero) p = p.from
first_block (some (suc b)) p = max (suc b) p.from

-- The bounds of the queries, `from` and `to`.
unfoldable pub page_bounds : ℕ → ℕ → ℕ → ℕ → Result (List (ℕ × ℕ))
page_bounds zero from last blocks = if leb from last then err out_of_fuel else ok []
page_bounds (suc fuel) from last blocks =
    let rest = page_bounds fuel (from + blocks) last blocks in
    if leb from last then (rest >>= λ ps. ok ((from, min (from + blocks) last) ∷ ps)) else ok []

abbrev pub concat {ℓ} : {X : Type ℓ} → List (List X) → List X
concat [] = []
concat (xs ∷ rest) = xs ++ concat rest

module _ {A : Type 0} where
  unfoldable pub fetch_pages : Query A → List (ℕ × ℕ) → Result (List (Event A))
  fetch_pages query pages = do
    arrays ← traverse (λ (p : ℕ × ℕ). query (some p.0) (some p.1)) pages
    ok (concat arrays)

module _ {E : Ethers} (C : Chain E) (fuel : ℕ) where
  -- An end block of 0 counts as none.
  unfoldable pub last_block : Option ℕ → Domain → Context E → Result ℕ
  last_block (some (suc b)) d s = ok (suc b)
  last_block _ d s = must_get_provider E (number d.id) s >>= λ p. C.get_block_number p

  module _ {A : Type 0} (query : Query A) (start end : Option ℕ) where
    unfoldable pub paginated : Option Pagination → Domain → Context E → Result (List (Event A))
    unfolding last_block page_bounds fetch_pages
    paginated none d s = err not_paginated
    paginated (some p) d s = do
      last ← last_block end d s
      pages ← page_bounds fuel (first_block start p) last p.blocks
      fetch_pages query pages

    unfoldable pub get_paginated_events : Domain → Context E → Result (List (Event A))
    unfolding paginated
    get_paginated_events d s = paginated d.paginate d s

    unfoldable pub events_of : Option Pagination → Domain → Context E → Result (List (Event A))
    events_of (some _) d s = get_paginated_events d s
    events_of none d s = query start end

    unfoldable pub get_events : NameOrDomain → Context E → Result (List (Event A))
    unfolding events_of
    get_events nod s = do d ← must_get_domain nod s; events_of d.paginate d s

    unfoldable pub query_annotated_events : NameOrDomain → Context E → Result (List (Annotated A))
    query_annotated_events nod s = do
      events ← get_events nod s
      d ← resolve_domain nod s
      from_events d events

-- ===== src/Events/Paging.antt =====
-- What `getEvents` of typescript/optics-provider/src/optics/events/fetch.ts returns.
use optics_monorepo.Prelude.{
  ℕ, zero, suc, ◌+◌, ◌-◌, ◌*◌, ◌≤◌, ◌<◌, ◌≡◌, refl, ap, ◌∙◌, inl, inr, Bool, Option, some, List, ok,
  err, out_of_fuel, arith, leb, map, if◌then◌else◌, Bool-cases,
}
use optics_monorepo.Context.Ethers.{Ethers}
use optics_monorepo.Context.State.{Domain, Pagination, Context}
use optics_monorepo.Context.Domains.{must_get_domain}
use optics_monorepo.Messages.Bridge.{NameOrDomain}
use optics_monorepo.Events.Annotated.{Event}
use optics_monorepo.Events.Chain.{Chain, Query}
use optics_monorepo.Events.Fetch.{
  first_block, last_block, page_bounds, get_events, events_of, paginated, get_paginated_events,
  concat,
}
use optics_monorepo.Events.Coverage.{
  Serves, count, within, Paged, in_block, expected, covers, page_bounds-Paged, covers-lem,
  covers-before, covers-after, page_of, fetch_pages-page_of, count-pages,
}

covered :
    (from last b blocks n : ℕ) {ps : List (ℕ × ℕ)}
    → 0 < blocks
    → Paged last blocks from ps
    → covers b ps * n ≡ (if within from last b then expected (b - from) blocks * n else 0)
covered from last b blocks n pos loop = elim (Bool-cases (leb from b)) [
  | inl p ↦ elim (Bool-cases (leb b last)) [
    | inl q ↦ rw (covers-lem b pos loop (ground arith) (ground arith), p, q) refl
    | inr q ↦ rw (covers-after b loop (ground arith), p, q) (omega arith)
  ]
  | inr p ↦ rw (covers-before b loop (ground arith), p) (omega arith)
]

module _ {E : Ethers} (C : Chain E) {A : Type 0} (query : Query A) (start end : Option ℕ) where
  -- On a paginated domain with a page length above 0, `getEvents` ends and returns events. For any
  -- test of events and any block between the first and the last one, these are the passing events of
  -- that block in the log, each once, or each twice if the block is a positive multiple of the page
  -- length after the first one; of other blocks there are none.
  pub get_events-count :
      (fuel : ℕ) (nod : NameOrDomain) (s : Context E) (d : Domain) (p : Pagination) (last b : ℕ)
      (log : List (Event A)) (test : Event A → Bool)
      → must_get_domain nod s ≡ ok d
      → d.paginate ≡ some p
      → last_block C fuel end d s ≡ ok last
      → 0 < p.blocks
      → last < first_block start p + fuel
      → Serves query log
      → (es : List (Event A)) × (get_events C fuel query start end nod s ≡ ok es)
        × (count (in_block b test) es ≡ (
            if within (first_block start p) last b
            then expected (b - first_block start p) p.blocks * count (in_block b test) log
            else 0))
  unfolding get_events events_of paginated get_paginated_events
  get_events-count fuel nod s d p last b log test found paged ends pos enough serves =
      let (ps, issued, loop) =
        page_bounds-Paged fuel (first_block start p) last p.blocks pos enough in
      (
        concat (map (page_of log) ps),
        rw found (
            ap (λ o. events_of C fuel query start end o d s) paged
            ∙ ap (λ o. paginated C fuel query start end o d s) paged
            ∙ rw (ends, issued) (fetch_pages-page_of query log serves ps)),
        count-pages b test log ps
            ∙ covered (first_block start p) last b p.blocks (count (in_block b test) log) pos loop,
      )

-- With a page length of 0, from a first block that is at most the last one, the loop of
-- `getPaginatedEvents` does not end: no fuel is enough.
pub page_bounds-zero :
    (fuel from last : ℕ) → from ≤ last → page_bounds fuel from last 0 ≡ err out_of_fuel
unfolding page_bounds
page_bounds-zero zero from last h = ground arith
page_bounds-zero (suc fuel) from last h =
    let stuck = page_bounds-zero fuel from last h in
    let same : from + 0 ≡ from = omega arith in rw (same, stuck) (ground arith)

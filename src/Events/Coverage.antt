-- ===== src/Events/Coverage.antt =====
-- What the pages of `getPaginatedEvents` (typescript/optics-provider/src/optics/events/fetch.ts) cover.
use native.Mathlib.Nat.{suc-mul, mod-eq_of_lt, mod-eq-sub-mod, mod_self}
use optics_monorepo.Prelude.{
  ℕ, zero, suc, ◌+◌, ◌-◌, ◌*◌, ◌%◌, ◌≤◌, ◌<◌, min, ◌≡◌, refl, ◌∙◌, inl, inr, Bool, ◌&&◌, some, List,
  [], ◌∷◌, ◌++◌, ok, traverse, leb, ltb, ◌⊎◌, ◌==◌, map, ==_iff, eq_refl, if◌then◌else◌, length,
  filter, Bool-cases, arith,
}
use optics_monorepo.Events.Annotated.{Event}
use optics_monorepo.Events.Chain.{Query}
use optics_monorepo.Events.Fetch.{page_bounds, fetch_pages, concat}

abbrev pub within : ℕ → ℕ → ℕ → Bool
within from to b = leb from b && leb b to

-- How many pages cover a block.
abbrev pub covers : ℕ → List (ℕ × ℕ) → ℕ
covers b ps = length (filter (λ (p : ℕ × ℕ). within p.0 p.1 b) ps)

-- How many pages a block at a distance from the first block should be covered by.
abbrev pub expected : ℕ → ℕ → ℕ
expected k blocks = if k == 0 then 1 else if k % blocks == 0 then 2 else 1

module _ {A : Type 0} where
  abbrev pub count : (Event A → Bool) → List (Event A) → ℕ
  count p es = length (filter p es)

  -- `queryFilter` returns the events of a log whose blocks lie between the bounds.
  abbrev pub Serves : Query A → List (Event A) → Type 0
  Serves query log =
      (from to : ℕ)
      → query (some from) (some to)
        ≡ ok (filter (λ (e : Event A). within from to e.block_number) log)

  abbrev pub in_block : ℕ → (Event A → Bool) → Event A → Bool
  in_block b p e = e.block_number == b && p e

-- The loop as a relation: the pages it issues from a block on.
pub data Paged (last blocks : ℕ) : ℕ → List (ℕ × ℕ) → Type 0 where
  done : {from : ℕ} → last < from → Paged last blocks from []
  page :
      {from : ℕ} {ps : List (ℕ × ℕ)}
      → from ≤ last
      → Paged last blocks (from + blocks) ps
      → Paged last blocks from ((from, min (from + blocks) last) ∷ ps)

-- With a page length above 0, one unit of fuel for each block is enough.
pub page_bounds-Paged :
    (fuel from last blocks : ℕ)
    → 0 < blocks
    → last < from + fuel
    → (ps : List (ℕ × ℕ)) × (page_bounds fuel from last blocks ≡ ok ps) × Paged last blocks from ps
unfolding page_bounds
page_bounds-Paged zero from last blocks pos enough = ([], ground arith, done (omega arith))
page_bounds-Paged (suc fuel) from last blocks pos enough =
    let (ps, e, paged) = page_bounds-Paged fuel (from + blocks) last blocks pos (omega arith) in
    elim (Bool-cases (leb from last)) [
      | inl q ↦ ((from, min (from + blocks) last) ∷ ps, rw (q, e) refl, page (ground arith) paged)
      | inr q ↦ ([], rw q refl, done (ground arith))
    ]

pub covers-before :
    {last blocks from : ℕ} {ps : List (ℕ × ℕ)} (b : ℕ)
    → Paged last blocks from ps
    → b < from
    → covers b ps ≡ 0
covers-before b (done l) h = refl
covers-before {last} {blocks} {from} b (page l rest) h =
    let none_later = covers-before b rest (omega arith) in ground (arith, none_later)

expected-step :
    (k blocks : ℕ) → 0 < blocks → blocks < k → expected (k - blocks) blocks ≡ expected k blocks
expected-step k blocks pos h =
    let e : k % blocks ≡ (k - blocks) % blocks = mod-eq-sub-mod (omega arith) in rw e (ground arith)

compare-cases : (m n : ℕ) → (m < n) ⊎ ((m ≡ n) ⊎ (n < m))
compare-cases m n = elim (Bool-cases (ltb m n)) [
  | inl p ↦ inl (ground arith)
  | inr p ↦ elim (Bool-cases (m == n)) [
    | inl q ↦ inr (inl (ground arith))
    | inr q ↦ inr (inr (ground arith))
  ]
]

pub covers-lem :
    {last blocks from : ℕ} {ps : List (ℕ × ℕ)} (b : ℕ)
    → 0 < blocks
    → Paged last blocks from ps
    → from ≤ b
    → b ≤ last
    → covers b ps ≡ expected (b - from) blocks
covers-lem b pos (done l) h k = absurd (omega arith)
covers-lem {last} {blocks} {from} b pos (page l rest) h k = elim (compare-cases b (from + blocks)) [
  | inl less ↦
      let none_later = covers-before b rest less in
      let small : (b - from) % blocks ≡ b - from = mod-eq_of_lt (omega arith) in
      rw small (ground arith)
  | inr (inl same) ↦
      let later = covers-lem b pos rest (omega arith) k in
      let once : covers b _ ≡ 1 = later ∙ ground arith in
      let whole : (b - from) % blocks ≡ 0 =
        (let e : b - from ≡ blocks = omega arith in rw e (mod_self blocks)) in
      rw whole (ground arith)
  | inr (inr more) ↦
      let later = covers-lem b pos rest (omega arith) k in
      let step = expected-step (b - from) blocks pos (omega arith) in
      let shift : b - (from + blocks) ≡ b - from - blocks = omega arith in
      let later' = rw (shift, step) at later in rw (← later') (ground arith)
]

pub covers-after :
    {last blocks from : ℕ} {ps : List (ℕ × ℕ)} (b : ℕ)
    → Paged last blocks from ps
    → last < b
    → covers b ps ≡ 0
covers-after b (done l) h = refl
covers-after b (page l rest) h =
    let none_later = covers-after b rest h in ground (arith, none_later)

module _ {A : Type 0} where
  -- What one query answers.
  abbrev pub page_of : List (Event A) → ℕ × ℕ → List (Event A)
  page_of log (from, to) = filter (λ (e : Event A). within from to e.block_number) log

  traverse-page_of :
      (query : Query A) (log : List (Event A))
      → Serves query log
      → (ps : List (ℕ × ℕ))
      → traverse (λ (p : ℕ × ℕ). query (some p.0) (some p.1)) ps ≡ ok (map (page_of log) ps)
  traverse-page_of query log serves [] = refl
  traverse-page_of query log serves ((from, to) ∷ ps) =
      rw (serves from to, traverse-page_of query log serves ps) refl

  pub fetch_pages-page_of :
      (query : Query A) (log : List (Event A))
      → Serves query log
      → (ps : List (ℕ × ℕ)) → fetch_pages query ps ≡ ok (concat (map (page_of log) ps))
  unfolding fetch_pages
  fetch_pages-page_of query log serves ps = rw (traverse-page_of query log serves ps) refl

module _ {A : Type 0} (b : ℕ) (p : Event A → Bool) where
  count-append :
      (xs ys : List (Event A))
      → count (in_block b p) (xs ++ ys) ≡ count (in_block b p) xs + count (in_block b p) ys
  count-append [] ys = omega arith
  count-append (x ∷ xs) ys = ground (arith, count-append xs ys)

  -- One query returns all of a block or nothing of it.
  count-query :
      (from to : ℕ) (log : List (Event A))
      → count (in_block b p) (filter (λ (e : Event A). within from to e.block_number) log)
        ≡ (if within from to b then count (in_block b p) log else 0)
  count-query from to [] = ground arith
  count-query from to (e ∷ log) =
      let rest = count-query from to log in
      elim (Bool-cases (e.block_number == b)) [
        | inl q ↦
            let same = (==_iff e.block_number b).0 q in
            elim (Bool-cases (within from to b)) [
              | inl w ↦ let rest' = rw w at rest in rw (same, w, eq_refl b) (ground (arith, rest'))
              | inr w ↦ let rest' = rw w at rest in rw (same, w) rest'
            ]
        | inr q ↦ elim (Bool-cases (within from to e.block_number)) [
          | inl w ↦ rw (w, q) rest
          | inr w ↦ rw (w, q) rest
        ]
      ]

  pub count-pages :
      (log : List (Event A)) (ps : List (ℕ × ℕ))
      → count (in_block b p) (concat (map (page_of log) ps))
        ≡ covers b ps * count (in_block b p) log
  count-pages log [] = ground arith
  count-pages log ((from, to) ∷ ps) =
      let later = count-pages log ps in
      let page = count-query from to log in
      let both = count-append (page_of log (from, to)) (concat (map (page_of log) ps)) in
      elim (Bool-cases (within from to b)) [
        | inl w ↦
            let page' = rw w at page in
            rw (both, later, page', w, suc-mul (covers b ps) (count (in_block b p) log))
              (omega arith)
        | inr w ↦ let page' = rw w at page in rw (both, later, page', w) (omega arith)
      ]

-- ===== src/Deploy/Laws/Latest.antt =====
-- The newest deployment (typescript/optics-deploy/src/verification/readDeployOutput.ts).
use mathlib.Core.List.{Memᴰ}
use mathlib.Core.List.Memᴰ
use mathlib.Core.List.Memᴰ.{head, tail}
use optics_monorepo.Prelude.{
  Bool, true, false, not, ◌&&◌, ◌≡◌, refl, sym, ◌∙◌, ap, subst, inl, inr, List, [], ◌∷◌, ◌++◌, Text,
  codes, text_eq, ok, err, no_config_folder, Bool-cases, if◌then◌else◌, All, arith,
}
use optics_monorepo.Deploy.Chain.{is_listed}
use optics_monorepo.Deploy.Outputs.{
  DirEntry, greater, config_folders, newest, get_path_to_latest_config,
}

-- The order of the names.
greater-irreflexive : (s : Text) → greater s s ≡ false
unfolding greater
greater-irreflexive [] = refl
greater-irreflexive (a ∷ s) = ground (arith, greater-irreflexive s)

greater_trans : (s t u : Text) → greater s t ≡ false → greater t u ≡ false → greater s u ≡ false
unfolding greater
greater_trans [] t u h k = refl
greater_trans (a ∷ s) [] u h k = absurd cc
greater_trans (a ∷ s) (b ∷ t) [] h k = absurd cc
greater_trans (a ∷ s) (b ∷ t) (c ∷ u) h k = ground (arith, greater_trans s t u)

greater-total : (s t : Text) → greater s t ≡ true → greater t s ≡ false
unfolding greater
greater-total [] t h = absurd cc
greater-total (a ∷ s) [] h = refl
greater-total (a ∷ s) (b ∷ t) h = ground (arith, greater-total s t)

-- No name is greater than the newest.
newest-greatest : (a : Text) (bs : List Text) → All (λ b. greater b (newest a bs) ≡ false) (a ∷ bs)
unfolding newest
newest-greatest a [] = (greater-irreflexive a, tt)
newest-greatest a (b ∷ bs) =
    let same = λ (t : Bool) (e : greater a b ≡ t).
      subst (λ w. All (λ c. greater c w ≡ false) (a ∷ b ∷ bs))
        (ap (λ (u : Bool). newest (if u then a else b) bs) (sym e)) in
    elim (Bool-cases (greater a b)) [
      | inl e ↦
          let (mine, others) = newest-greatest a bs in
          same true e (mine, (greater_trans b a (newest a bs) (greater-total a b e) mine, others))
      | inr e ↦
          let (mine, others) = newest-greatest b bs in
          same false e (greater_trans a b (newest b bs) e mine, (mine, others))
    ]

newest-Memᴰ : (a : Text) (bs : List Text) → Memᴰ (newest a bs) (a ∷ bs)
unfolding newest
newest-Memᴰ a [] = head refl
newest-Memᴰ a (b ∷ bs) = elim (Bool-cases (greater a b)) [
  | inl e ↦ rw e (skip (newest a bs) (newest-Memᴰ a bs))
  | inr e ↦ rw e (tail (newest-Memᴰ b bs))
]
  where
    skip : (x : Text) → Memᴰ x (a ∷ bs) → Memᴰ x (a ∷ b ∷ bs)
    skip x m = elim (Memᴰ.cases_cons m) [ inl q ↦ head q | inr m' ↦ tail (tail m') ]

All-Memᴰ : (P : Text → Type 0) (xs : List Text) (x : Text) → All P xs → Memᴰ x xs → P x
All-Memᴰ P [] x h m = elim m [ ]
All-Memᴰ P (y ∷ ys) x (p, h) m = elim (Memᴰ.cases_cons m) [
  | inl q ↦ subst P (sym q) p
  | inr m' ↦ All-Memᴰ P ys x h m'
]

-- A directory with none of the names to be ignored.
abbrev pub IsCandidate : List Text → DirEntry → Type 0
IsCandidate ignored e = (e.is_directory ≡ true) × All (λ i. text_eq i e.name ≡ false) ignored

is_listed-All :
    (name : Text) (ts : List Text)
    → is_listed name ts ≡ false
    → All (λ i. text_eq i name ≡ false) ts
unfolding is_listed
is_listed-All name [] h = tt
is_listed-All name (t ∷ ts) h = (ground arith, is_listed-All name ts (ground arith))

All-is_listed :
    (name : Text) (ts : List Text)
    → All (λ i. text_eq i name ≡ false) ts
    → is_listed name ts ≡ false
unfolding is_listed
All-is_listed name [] h = refl
All-is_listed name (t ∷ ts) (e, h) = rw (e, All-is_listed name ts h) refl

IsCandidate-test :
    (ignored : List Text) (e : DirEntry)
    → (e.is_directory && not (is_listed e.name ignored)) ≡ true
    → IsCandidate ignored e
IsCandidate-test ignored e h = (ground arith, is_listed-All e.name ignored (ground arith))

-- A candidate among the entries with this name.
abbrev Named : List DirEntry → List Text → Text → Type 0
Named es ignored n = (e : DirEntry) × Memᴰ e es × IsCandidate ignored e × (e.name ≡ n)

Named-tail :
    (e : DirEntry) (es : List DirEntry) (ignored : List Text) (n : Text)
    → Named es ignored n
    → Named (e ∷ es) ignored n
Named-tail e es ignored n (f, there, c, same) = (f, tail there, c, same)

Named-head :
    (e : DirEntry) (es : List DirEntry) (ignored : List Text) (n : Text)
    → IsCandidate ignored e
    → (Memᴰ n (config_folders es ignored) → Named es ignored n)
    → Memᴰ n (e.name ∷ config_folders es ignored)
    → Named (e ∷ es) ignored n
Named-head e es ignored n c later m = elim (Memᴰ.cases_cons m) [
  | inl r ↦ (e, head refl, c, sym r)
  | inr m' ↦ Named-tail e es ignored n (later m')
]

-- The folders are names of candidates, and all of these.
config_folders-IsCandidate :
    (es : List DirEntry) (ignored : List Text) (n : Text)
    → Memᴰ n (config_folders es ignored)
    → Named es ignored n
unfolding config_folders
config_folders-IsCandidate [] ignored n m = elim m [ ]
config_folders-IsCandidate (e ∷ es) ignored n m =
    elim (Bool-cases (e.is_directory && not (is_listed e.name ignored))) [
      | inl q ↦
          Named-head e es ignored n (IsCandidate-test ignored e q)
            (config_folders-IsCandidate es ignored n) (rw q at m)
      | inr q ↦ Named-tail e es ignored n (config_folders-IsCandidate es ignored n (rw q at m))
    ]

IsCandidate-config_folders :
    (es : List DirEntry) (ignored : List Text) (e : DirEntry)
    → Memᴰ e es
    → IsCandidate ignored e
    → Memᴰ e.name (config_folders es ignored)
unfolding config_folders
IsCandidate-config_folders [] ignored e m c = elim m [ ]
IsCandidate-config_folders (f ∷ es) ignored e m c = elim (Memᴰ.cases_cons m) [
  | inl q ↦
      subst (λ (g : DirEntry). Memᴰ e.name (config_folders (g ∷ es) ignored)) q
        (rw (config_folders, c.0, All-is_listed e.name ignored c.1) (head refl))
  | inr m' ↦
      let there = IsCandidate-config_folders es ignored e m' c in
      elim (Bool-cases (f.is_directory && not (is_listed f.name ignored))) [
        | inl q ↦ rw q (tail there)
        | inr q ↦ rw q there
      ]
]

latest-cases :
    (path : Text) (folders : List Text) {folder : Text}
    → Memᴰ folder folders
    → (name : Text) × (elim folders [
      | [] ↦ err no_config_folder
      | f ∷ fs ↦ ok (path ++ (codes "/" ++ newest f fs))
    ]
        ≡ ok (path ++ (codes "/" ++ name)))
      × Memᴰ name folders
      × All (λ f. greater f name ≡ false) folders
latest-cases path [] m = elim m [ ]
latest-cases path (f ∷ fs) m = (newest f fs, refl, newest-Memᴰ f fs, newest-greatest f fs)

-- Among entries of which one is a directory with none of the names to be ignored,
-- `getPathToLatestConfig` returns, and the path is that of an entry of this kind than which none of
-- this kind has a greater name.
pub get_path_to_latest_config-greatest :
    (path : Text) (entries : List DirEntry) (ignored : List Text) (one : DirEntry)
    → Memᴰ one entries
    → IsCandidate ignored one
    → (e : DirEntry) × Memᴰ e entries
      × IsCandidate ignored e
      × (get_path_to_latest_config path entries ignored ≡ ok (path ++ (codes "/" ++ e.name)))
      × ((o : DirEntry) → Memᴰ o entries → IsCandidate ignored o → greater o.name e.name ≡ false)
unfolding get_path_to_latest_config
get_path_to_latest_config-greatest path entries ignored one present candidate =
    let folders = config_folders entries ignored in
    let (name, ends, there, greatest) =
      latest-cases path folders
        (IsCandidate-config_folders entries ignored one present candidate) in
    let (e, m, c, same) = config_folders-IsCandidate entries ignored name there in
    (
      e,
      m,
      c,
      ends ∙ ap (λ (n : Text). ok (path ++ (codes "/" ++ n))) (sym same),
      (λ o m' c'.
          subst (λ (n : Text). greater o.name n ≡ false) (sym same)
            (All-Memᴰ (λ f. greater f name ≡ false) folders o.name greatest
              (IsCandidate-config_folders entries ignored o m' c'))),
    )

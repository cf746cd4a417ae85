-- ===== src/Deploy/Laws/Linkage.antt =====
-- All enrollments of one deploy (the inner loop of `deployNChains`,
-- typescript/optics-deploy/src/core/index.ts).
use optics_monorepo.Prelude.{false, ◌≡◌, ◌≢◌, refl, List, [], ◌∷◌, ◌==◌, All}
use optics_monorepo.Deploy.State.{CoreDeploy}
use optics_monorepo.Deploy.Proxies.{Evm, IsLawful}
use optics_monorepo.Deploy.Laws.Linked.{Links, Peer, unlinked, link, link_all}
use optics_monorepo.Deploy.Laws.Links.{Connected, IsFresh, Setup}
use optics_monorepo.Deploy.Laws.Linking.{link-IsFresh, link-Connected, link-keeps}
use optics_monorepo.Deploy.Laws.Setup.{unlinked-Setup, link-Setup}

-- Peers of different domains, none of them 0.
abbrev pub Separate : List Peer → Type 0
Separate [] = Unit
Separate (p ∷ ps) =
    (p.chain.domain ≢ 0)
    × All (λ (q : Peer). (q.chain.domain == p.chain.domain) ≡ false) ps
    × Separate ps

module _ (evm : Evm) (L : IsLawful evm) (d : CoreDeploy) where
  abbrev pub IsSound : Links → Type 0
  IsSound k = IsFresh evm d k × Setup evm d k

  pub unlinked-IsSound : IsSound (unlinked evm d)
  unlinked-IsSound = (λ n h. refl, unlinked-Setup evm d)

  link-IsSound : (p : Peer) (k : Links) → IsSound k → IsSound (link evm d p k)
  link-IsSound p k (fresh, setup) = (link-IsFresh evm d p L k fresh, link-Setup evm d p k setup)

  pub link_all-IsSound : (ps : List Peer) (k : Links) → IsSound k → IsSound (link_all evm d ps k)
  unfolding link_all
  link_all-IsSound [] k s = s
  link_all-IsSound (p ∷ ps) k s = link_all-IsSound ps (link evm d p k) (link-IsSound p k s)

  link_all-keeps :
      (q : Peer) (ps : List Peer) (k : Links)
      → IsSound k
      → All (λ (p : Peer). (p.chain.domain == q.chain.domain) ≡ false) ps
      → q.chain.domain ≢ 0
      → Connected evm d q k
      → Connected evm d q (link_all evm d ps k)
  unfolding link_all
  link_all-keeps q [] k s apart positive c = c
  link_all-keeps q (p ∷ ps) k s (a, apart) positive c =
      link_all-keeps q ps (link evm d p k) (link-IsSound p k s) apart positive
        (link-keeps evm d p L q k s.0 a positive c)

  pub link_all-Connected :
      (ps : List Peer) (k : Links)
      → IsSound k
      → Separate ps
      → All (λ p. Connected evm d p (link_all evm d ps k)) ps
  unfolding link_all
  link_all-Connected [] k s h = tt
  link_all-Connected (p ∷ ps) k s (positive, apart, h) = (
    link_all-keeps p ps (link evm d p k) (link-IsSound p k s) apart positive
        (link-Connected evm d p L k s.0),
    link_all-Connected ps (link evm d p k) (link-IsSound p k s) h,
  )

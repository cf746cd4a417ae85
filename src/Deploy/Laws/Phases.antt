-- ===== src/Deploy/Laws/Phases.antt =====
-- The phases of `deployNChains` (typescript/optics-deploy/src/core/index.ts), each a loop over the
-- deploys.
use optics_monorepo.Prelude.{
  ℕ, Bool, true, false, not, ◌≡◌, refl, sym, ◌∙◌, ap, subst, inl, inr, List, [], ◌∷◌, filter, ◌==◌,
  ==_iff, eq_refl, Bool-cases, All, ok,
}
use optics_monorepo.Prelude.Exec.{for_each}
use optics_monorepo.Deploy.State.{CoreDeploy, new_core_deploy}
use optics_monorepo.Deploy.Proxies.{Evm, IsLawful}
use optics_monorepo.Deploy.Suite.{deploy_optics}
use optics_monorepo.Deploy.Networks.{Fleet, at, enroll_remotes}
use optics_monorepo.Deploy.Laws.Linked.{Links, Peer, peer, owned, unlinked, link_all}
use optics_monorepo.Deploy.Laws.Links.{Connected}
use optics_monorepo.Deploy.Laws.Linkage.{
  Separate, IsSound, unlinked-IsSound, link_all-IsSound, link_all-Connected,
}
use optics_monorepo.Deploy.Laws.Steps.{IsDeployable, deploy_optics-new_core_deploy}
use optics_monorepo.Deploy.Laws.Enrolled.{at-eq}
use optics_monorepo.Deploy.Laws.Rounds.{elem, Each, Distinct, put_all, for_each-rounds}
use optics_monorepo.Deploy.Laws.Connected.{
  others_of, peers_of, Stands, put-Stands, enroll_remotes-Stands,
}

-- Deploys of different domains are different.
elem-Separate :
    (base : ℕ → CoreDeploy) (i : ℕ) (is : List ℕ)
    → All (λ (q : Peer). (q.chain.domain == (base i).chain.domain) ≡ false) (peers_of base is)
    → elem i is ≡ false
unfolding elem
elem-Separate base i [] h = refl
elem-Separate base i (j ∷ js) (e, h) = elim (Bool-cases (j == i)) [
  | inl q ↦ absurd (
      true_false (
        sym (eq_refl (base i).chain.domain)
        ∙ ap (λ (t : ℕ). (base t).chain.domain == (base i).chain.domain) (sym ((==_iff j i).0 q))
        ∙ e))
  | inr q ↦ rw q (elem-Separate base i js h)
]
  where
    true_false : true ≡ false → ⊥
    true_false e = cc

pub Separate-Distinct :
    (base : ℕ → CoreDeploy) (is : List ℕ) → Separate (peers_of base is) → Distinct is
Separate-Distinct base [] h = tt
Separate-Distinct base (i ∷ is) (positive, apart, h) =
    (elem-Separate base i is apart, Separate-Distinct base is h)

-- What holds of all peers holds of those of a part of the deploys.
pub filter-peers :
    (base : ℕ → CoreDeploy) (P : Peer → Type 0) (p : ℕ → Bool) (is : List ℕ)
    → All P (peers_of base is)
    → All P (peers_of base (filter p is))
filter-peers base P p [] h = tt
filter-peers base P p (i ∷ is) (e, h) = elim (Bool-cases (p i)) [
  | inl q ↦ rw q (e, filter-peers base P p is h)
  | inr q ↦ rw q (filter-peers base P p is h)
]

pub filter-Separate :
    (base : ℕ → CoreDeploy) (p : ℕ → Bool) (is : List ℕ)
    → Separate (peers_of base is)
    → Separate (peers_of base (filter p is))
filter-Separate base p [] h = tt
filter-Separate base p (i ∷ is) (positive, apart, h) = elim (Bool-cases (p i)) [
  | inl q ↦ rw q (
    positive,
    filter-peers base (λ (r : Peer). (r.chain.domain == (base i).chain.domain) ≡ false) p is apart,
    filter-Separate base p is h,
  )
  | inr q ↦ rw q (filter-Separate base p is h)
]

-- What holds of all peers, by their references.
pub All-peers :
    (base : ℕ → CoreDeploy) (P : Peer → Type 0) (is : List ℕ)
    → All P (peers_of base is)
    → Each is (λ i. P (peer (base i)))
unfolding elem
All-peers base P [] h i m = absurd cc
All-peers base P (j ∷ js) (p, h) i m = elim (Bool-cases (j == i)) [
  | inl q ↦ subst (λ (t : ℕ). P (peer (base t))) ((==_iff j i).0 q) p
  | inr q ↦ All-peers base P js h i (rw q at m)
]

abbrev pub IsNew : CoreDeploy → Type 0
IsNew d = d ≡ new_core_deploy d.chain d.config d.test

module _ (evm : Evm) (L : IsLawful evm) (base : ℕ → CoreDeploy) (refs : List ℕ) where
  -- The links of a deploy once it is connected to all the others.
  abbrev pub all_links : ℕ → Links
  all_links i =
      link_all evm (base i) (peers_of base (others_of base refs i)) (unlinked evm (base i))

  pub all_links-IsSound : (i : ℕ) → IsSound evm L (base i) (all_links i)
  all_links-IsSound i =
      link_all-IsSound evm L (base i) (peers_of base (others_of base refs i))
        (unlinked evm (base i)) (unlinked-IsSound evm L (base i))

  pub all_links-Connected :
      (i : ℕ)
      → Separate (peers_of base refs)
      → All (λ p. Connected evm (base i) p (all_links i)) (peers_of base (others_of base refs i))
  all_links-Connected i separate =
      link_all-Connected evm L (base i) (peers_of base (others_of base refs i))
        (unlinked evm (base i)) (unlinked-IsSound evm L (base i))
        (filter-Separate base (λ r. not ((base r).chain.domain == (base i).chain.domain)) refs
          separate)

  -- Every chain gets its suite.
  pub suites :
      (fleet : Fleet)
      → Distinct refs
      → Each refs (λ i. IsNew (base i) × IsDeployable (base i))
      → Each refs (λ i. fleet.deploys i ≡ base i)
      → for_each refs (λ i. at i (deploy_optics evm)) fleet
        ≡ (ok tt, put_all refs (λ i. owned evm (base i) (unlinked evm (base i))) fleet)
  suites fleet distinct fresh here =
      (for_each-rounds (λ i. IsNew (base i) × IsDeployable (base i)) (λ f. Unit {0}) base
        (λ i. owned evm (base i) (unlinked evm (base i))) (λ i. at i (deploy_optics evm))
        (λ i f (new, (small, gas, reserve)) inv e. (
          at-eq (deploy_optics evm) i f e (
              subst (λ d. deploy_optics evm d ≡ (ok tt, owned evm d (unlinked evm d))) (sym new)
                (deploy_optics-new_core_deploy evm (base i).chain (base i).config (base i).test
                  small)),
          tt,
        ))
        refs fleet distinct fresh here tt).0

  -- Every deploy is connected to all the others.
  pub connections :
      (fleet : Fleet)
      → Distinct refs
      → Each refs (λ i. IsDeployable (base i))
      → Each refs (λ i. fleet.deploys i ≡ owned evm (base i) (unlinked evm (base i)))
      → for_each refs (enroll_remotes evm refs) fleet
        ≡ (ok tt, put_all refs (λ i. owned evm (base i) (all_links i)) fleet)
  connections fleet distinct able here =
      (for_each-rounds (λ i. IsDeployable (base i)) (λ f. Each refs (Stands evm L base f))
        (λ i. owned evm (base i) (unlinked evm (base i))) (λ i. owned evm (base i) (all_links i))
        (enroll_remotes evm refs)
        (λ i f q stands e. (
          enroll_remotes-Stands evm L base refs i (unlinked evm (base i)) f q e stands,
          (λ j m. put-Stands evm L base i j (all_links i) f (stands j m)),
        ))
        refs fleet distinct able here (λ i m. (unlinked evm (base i), here i m, able i m))).0

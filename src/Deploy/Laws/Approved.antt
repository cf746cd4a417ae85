-- ===== src/Deploy/Laws/Approved.antt =====
-- The checks at the end of `deployNChains` (typescript/optics-deploy/src/core/index.ts).
use optics_monorepo.Prelude.{
  ℕ, true, false, not, ◌≡◌, refl, sym, ◌∙◌, ap, inl, inr, none, some, List, [], ◌∷◌, map, ◌==◌,
  ==_iff, Bool-cases, Text, codes, text_eq, All, ok,
}
use optics_monorepo.Prelude.Map
use optics_monorepo.Prelude.Exec.{for_each}
use optics_monorepo.Deploy.Solidity.Storage.{zero_address, Replica}
use optics_monorepo.Deploy.State.{BeaconProxy, CoreDeploy}
use optics_monorepo.Deploy.Proxies.{Evm, IsLawful}
use optics_monorepo.Deploy.Checks.{first_named, check_core_deploy, find_proxies}
use optics_monorepo.Deploy.Networks.{Fleet, at, domain_of, remotes_in, check_one}
use optics_monorepo.Deploy.Laws.Linked.{Links, Peer, nth, deployed, proxy_input}
use optics_monorepo.Deploy.Laws.Links.{Connected, Setup, no_replicas, shared}
use optics_monorepo.Deploy.Laws.Checked.{domains_of, check_contracts-finished}
use optics_monorepo.Deploy.Laws.Proxies.{overwritten, find_proxies-Found}
use optics_monorepo.Deploy.Laws.Later.{replicas_of, Found-Connected}
use optics_monorepo.Deploy.Laws.Enrolled.{put, at-eq}
use optics_monorepo.Deploy.Laws.Rounds.{
  elem, elem_head, elem_tail, elem-filter, filter_cong, Each, Distinct, put_all, for_each-rounds,
}
use optics_monorepo.Deploy.Laws.Connected.{others_of, peers_of}
use optics_monorepo.Deploy.Laws.Powers.{governor_at}

-- The links after the checks, which write over an entry for Etherscan.
abbrev pub marked : Links → List Peer → Links
marked k ps = record k { inputs = overwritten (replicas_of k ps) k.inputs }

module _ (evm : Evm) (L : IsLawful evm) where
  -- The loop over the replica proxies succeeds.
  find_proxies-Connected :
      (d : CoreDeploy) (owner governor : Text) (domain : ℕ) (k : Links) (ps : List Peer)
      → Setup evm d k
      → All (λ p. Connected evm d p k) ps
      → find_proxies (domains_of ps) (deployed evm d owner governor domain k)
        ≡ (ok tt, deployed evm d owner governor domain (marked k ps))
  unfolding first_named text_eq find_proxies overwritten Map.get
  find_proxies-Connected d owner governor domain k [] setup h = refl
  find_proxies-Connected d owner governor domain k (p ∷ ps) (no_replicas e i) (c, h) =
      absurd (none_some (rw e at c.found))
    where
      none_some : {r : BeaconProxy Replica} → none ≡ some r → ⊥
      none_some e = cc
  find_proxies-Connected d owner governor domain k (p ∷ ps)
        (shared impl beacon q t args args' rest j prev others e s i) (c, h) =
      find_proxies-Found (domains_of (p ∷ ps)) (replicas_of k (p ∷ ps))
        (deployed evm d owner governor domain k) (proxy_input (codes "Replica Proxy") q beacon t)
        (Found-Connected evm d owner governor domain k (p ∷ ps) (c, h)) (rw i refl)

  module _ (base : ℕ → CoreDeploy) (gov : ℕ) (governor : Text) (refs : List ℕ)
      (links : ℕ → Links) where
    abbrev pub before_checks : ℕ → CoreDeploy
    before_checks i =
        deployed evm (base i) (nth evm (base i) 10) (governor_at gov governor i)
          (base gov).chain.domain (links i)

    abbrev pub after_checks : ℕ → CoreDeploy
    after_checks i =
        deployed evm (base i) (nth evm (base i) 10) (governor_at gov governor i)
          (base gov).chain.domain (marked (links i) (peers_of base (others_of base refs i)))

    abbrev pub SameChains : Fleet → Type 0
    SameChains fleet = Each refs (λ i. domain_of fleet i ≡ (base i).chain.domain)

    put-SameChains :
        (i : ℕ) (fleet : Fleet) → SameChains fleet → SameChains (put i (after_checks i) fleet)
    put-SameChains i fleet same j m = elim (Bool-cases (i == j)) [
      | inl e ↦ rw (domain_of, e) (ap (λ (t : ℕ). (base t).chain.domain) ((==_iff i j).0 e))
      | inr e ↦ rw (domain_of, e) (same j m)
    ]

    pub remotes_in-SameChains :
        (i : ℕ) (fleet : Fleet)
        → SameChains fleet
        → domain_of fleet i ≡ (base i).chain.domain
        → remotes_in fleet refs i ≡ others_of base refs i
    remotes_in-SameChains i fleet same here = filter_cong _ _ refs (λ r m.
        ap (λ (t : ℕ). not (t == domain_of fleet i)) (same r m)
        ∙ ap (λ (t : ℕ). not ((base r).chain.domain == t)) here)

    map-domains :
        (fleet : Fleet) (is : List ℕ)
        → Each is (λ i. domain_of fleet i ≡ (base i).chain.domain)
        → map (domain_of fleet) is ≡ domains_of (peers_of base is)
    map-domains fleet [] h = refl
    map-domains fleet (i ∷ is) h =
        rw (h i (elem_head i is), map-domains fleet is (λ j m. h j (elem_tail j i is m))) refl

    -- What the checks of one deploy rely on.
    abbrev pub IsReady : ℕ → Type 0
    IsReady i =
        Setup evm (base i) (links i)
        × All (λ p. Connected evm (base i) p (links i)) (peers_of base (others_of base refs i))
        × (((base gov).chain.domain == (base i).chain.domain) ≡ (gov == i))

    -- The checks of one deploy pass.
    pub check_at-IsReady :
        (i : ℕ) (fleet : Fleet)
        → text_eq governor zero_address ≡ false
        → IsReady i
        → fleet.deploys i ≡ before_checks i
        → at i
            (check_core_deploy
              (domains_of (peers_of base (others_of base refs i)))
              (base gov).chain.domain)
            fleet
          ≡ (ok tt, put i (after_checks i) fleet)
    unfolding check_core_deploy
    check_at-IsReady i fleet governs (setup, connected, only) here =
        let governing = (base gov).chain.domain in
        let ps = peers_of base (others_of base refs i) in
        let passes =
          check_contracts-finished evm L (base i) (governor_at gov governor i) governing (links i)
            ps governing setup connected refl (λ e. rw (sym only ∙ e) governs)
            (λ e. rw (sym only ∙ e) refl) in
        at-eq (check_core_deploy (domains_of ps) governing) i fleet here (
          rw passes (
            find_proxies-Connected (base i) (nth evm (base i) 10) (governor_at gov governor i)
              governing (links i) ps setup connected))

    check_one-IsReady :
        (i : ℕ) (fleet : Fleet)
        → text_eq governor zero_address ≡ false
        → elem gov refs ≡ true
        → elem i refs ≡ true
        → IsReady i
        → SameChains fleet
        → fleet.deploys i ≡ before_checks i
        → check_one evm refs gov i fleet ≡ (ok tt, put i (after_checks i) fleet)
    unfolding check_one
    check_one-IsReady i fleet governs there mine ready same here =
        let ps = peers_of base (others_of base refs i) in
        let domains : map (domain_of fleet) (remotes_in fleet refs i) ≡ domains_of ps =
          ap (map (domain_of fleet)) (remotes_in-SameChains i fleet same (same i mine))
          ∙ map-domains fleet (others_of base refs i) (λ r m. same r (elem-filter _ r refs m).0) in
        rw (domains, same gov there) (check_at-IsReady i fleet governs ready here)

    -- All checks pass.
    pub approvals :
        (fleet : Fleet)
        → text_eq governor zero_address ≡ false
        → elem gov refs ≡ true
        → Distinct refs
        → Each refs IsReady
        → Each refs (λ i. fleet.deploys i ≡ before_checks i)
        → for_each refs (check_one evm refs gov) fleet ≡ (ok tt, put_all refs after_checks fleet)
    approvals fleet governs there distinct ready here =
        (for_each-rounds (λ i. (elem i refs ≡ true) × IsReady i) SameChains before_checks
          after_checks (check_one evm refs gov)
          (λ i f (mine, r) same e.
            (check_one-IsReady i f governs there mine r same e, put-SameChains i f same))
          refs fleet distinct (λ i m. (m, ready i m)) here
          (λ i m. ap (λ (d : CoreDeploy). d.chain.domain) (here i m))).0

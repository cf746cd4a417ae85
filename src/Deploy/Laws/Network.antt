-- ===== src/Deploy/Laws/Network.antt =====
-- `deployNChains` as a whole (typescript/optics-deploy/src/core/index.ts).
use optics_monorepo.Prelude.{
  All-map, ℕ, suc, false, not, ◌≡◌, refl, sym, ◌∙◌, ap, subst, inl, inr, List, ◌∷◌, ◌==◌, ==_iff,
  ==_sym, eq_refl, Bool-cases, if◌then◌else◌, Text, All, arith,
}
use optics_monorepo.Prelude.Exec.{Exec, ◌>>◌, for_each, for_all}
use optics_monorepo.Deploy.Solidity.Storage.{zero_address}
use optics_monorepo.Deploy.State.{CoreDeploy, configured_governor}
use optics_monorepo.Deploy.Proxies.{Evm, IsLawful}
use optics_monorepo.Deploy.Suite.{deploy_optics}
use optics_monorepo.Deploy.Enroll.{appoint_governor, transfer_governorship}
use optics_monorepo.Deploy.Networks.{Fleet, at, with_remote, enroll_remotes}
use optics_monorepo.Deploy.Laws.Linked.{Links, peer, nth, deployed, owned, unlinked}
use optics_monorepo.Deploy.Laws.Links.{Connected, Setup}
use optics_monorepo.Deploy.Laws.Later.{Connected-later, Setup-later}
use optics_monorepo.Deploy.Laws.Linkage.{Separate}
use optics_monorepo.Deploy.Laws.Governed.{
  HasLocalGovernor, appointed, announced, sent_more, appoint_governor-owned,
}
use optics_monorepo.Deploy.Laws.Steps.{IsDeployable}
use optics_monorepo.Deploy.Laws.Enrolled.{put, put_here, put_there, >>-eq, at-eq}
use optics_monorepo.Deploy.Laws.Rounds.{
  elem, elem_head, elem_tail, elem_apart, elem-filter_intro, Each, put_all, put_all-after,
  put_all-apart,
}
use optics_monorepo.Deploy.Laws.Connected.{others_of, peers_of}
use optics_monorepo.Deploy.Laws.Phases.{
  IsNew, Separate-Distinct, All-peers, all_links, all_links-IsSound, all_links-Connected, suites,
  connections,
}
use optics_monorepo.Deploy.Laws.Powers.{
  governor_at, appointed-Connected, appointed-Setup, announced-Connected, announced-Setup,
  transfers,
}
use optics_monorepo.Deploy.Laws.Approved.{marked}

module _ (evm : Evm) (L : IsLawful evm) (gov : ℕ) (others : List ℕ) (start : Fleet) where
  abbrev pub refs : List ℕ
  refs = gov ∷ others

  abbrev pub base : ℕ → CoreDeploy
  base = start.deploys

  abbrev pub governor : Text
  governor = configured_governor (base gov)

  abbrev pub domain : ℕ
  domain = (base gov).chain.domain

  -- The links of each deploy after the enrollments, the governance phases, and the transfers of
  -- ownership.
  abbrev pub linked : ℕ → Links
  linked i = all_links evm L base refs i

  abbrev pub governed : ℕ → Links
  governed i =
      if gov == i
      then appointed evm (base gov).config.governor (linked i)
      else announced evm (base i) governor domain (linked i)

  abbrev pub given : ℕ → Links
  given i = sent_more (suc (suc (suc (suc (governed i).nonce)))) (governed i)

  abbrev pub standing : ℕ → CoreDeploy
  standing i =
      deployed evm (base i) (base i).chain.deployer (governor_at gov governor i) domain (governed i)

  -- A deploy that is finished: its contracts belong to its governance router, which names the
  -- governor and its domain, or no governor but that domain; and it is connected to every other one.
  abbrev pub IsComplete : ℕ → CoreDeploy → Type 0
  IsComplete i d =
      (k : Links) × (d
        ≡ deployed evm (base i) (nth evm (base i) 10) (governor_at gov governor i) domain k)
      × All (λ p. Connected evm (base i) p k) (peers_of base (others_of base refs i))

  -- The fleets between the phases.
  abbrev pub connected_fleet : Fleet
  connected_fleet =
      put_all refs (λ i. owned evm (base i) (linked i))
        (put_all refs (λ i. owned evm (base i) (unlinked evm (base i))) start)

  abbrev pub ruler : CoreDeploy
  ruler =
      deployed evm (base gov) (base gov).chain.deployer governor domain
        (appointed evm (base gov).config.governor (linked gov))

  abbrev pub subject : ℕ → CoreDeploy
  subject i =
      deployed evm (base i) (base i).chain.deployer zero_address domain
        (announced evm (base i) governor domain (linked i))

  abbrev pub governed_fleet : Fleet
  governed_fleet = put_all others subject (put gov ruler connected_fleet)

  module _ (separate : Separate (peers_of base refs)) where
    pub gov_apart :
        Each others
          (λ i. ((i == gov) ≡ false) × (((base gov).chain.domain == (base i).chain.domain) ≡ false))
    gov_apart i m =
        let apart = elem_apart gov i others (Separate-Distinct base refs separate).0 m in
        let differs =
          All-peers base (λ p. (p.chain.domain == (base gov).chain.domain) ≡ false) others
            separate.1 i m in
        (==_sym i gov ∙ apart, ==_sym (base gov).chain.domain (base i).chain.domain ∙ differs)

    pub linked-Connected :
        (i : ℕ)
        → All (λ p. Connected evm (base i) p (linked i)) (peers_of base (others_of base refs i))
    linked-Connected i = all_links-Connected evm L base refs i separate

    -- Every other deploy knows the governing one.
    pub gov-Connected : Each others (λ i. Connected evm (base i) (peer (base gov)) (linked i))
    gov-Connected i m =
        All-peers base (λ p. Connected evm (base i) p (linked i)) (others_of base refs i)
          (linked-Connected i) gov
          (elem-filter_intro (λ r. not ((base r).chain.domain == (base i).chain.domain)) gov refs
            (elem_head gov others) (ap not (gov_apart i m).1))

    pub governed-Connected :
        (i : ℕ)
        → All (λ p. Connected evm (base i) p (governed i)) (peers_of base (others_of base refs i))
    governed-Connected i = elim (Bool-cases (gov == i)) [
      | inl e ↦ rw e (
          All-map (peers_of base (others_of base refs i))
            (λ p c. appointed-Connected evm L (base i) (base gov).config.governor p (linked i) c)
            (linked-Connected i))
      | inr e ↦ rw e (
          All-map (peers_of base (others_of base refs i))
            (λ p c. announced-Connected evm L (base i) governor domain p (linked i) c)
            (linked-Connected i))
    ]

    pub governed-Setup : (i : ℕ) → Setup evm (base i) (governed i)
    governed-Setup i =
        let sound = (all_links-IsSound evm L base refs i).1 in
        elim (Bool-cases (gov == i)) [
          | inl e ↦
              rw e (appointed-Setup evm L (base i) (base gov).config.governor (linked i) sound)
          | inr e ↦ rw e (announced-Setup evm L (base i) governor domain (linked i) sound)
        ]

    pub given-Connected :
        (i : ℕ)
        → All (λ p. Connected evm (base i) p (given i)) (peers_of base (others_of base refs i))
    given-Connected i =
        let k = governed i in
        All-map (peers_of base (others_of base refs i))
          (λ p c.
            Connected-later evm (base i) (suc (suc (suc (suc k.nonce)))) k.dispatched p k k.inputs
              (omega arith) c)
          (governed-Connected i)

    pub given-Setup : (i : ℕ) → Setup evm (base i) (given i)
    given-Setup i =
        let k = governed i in
        Setup-later evm (base i) (suc (suc (suc (suc k.nonce)))) k.dispatched k (governed-Setup i)

    pub marked-Connected :
        (i : ℕ)
        → All
            (λ p.
              Connected evm (base i) p (marked (given i) (peers_of base (others_of base refs i))))
            (peers_of base (others_of base refs i))
    marked-Connected i =
        let ps = peers_of base (others_of base refs i) in
        let k = given i in
        All-map ps
          (λ p c.
            Connected-later evm (base i) k.nonce k.dispatched p k (marked k ps).inputs (omega arith)
              c)
          (given-Connected i)

    pub domains_apart :
        Each refs (λ i. ((base gov).chain.domain == (base i).chain.domain) ≡ (gov == i))
    unfolding elem
    domains_apart i m = elim (Bool-cases (gov == i)) [
      | inl e ↦ rw e (
          ap (λ (t : ℕ). (base gov).chain.domain == (base t).chain.domain)
            (sym ((==_iff gov i).0 e))
          ∙ eq_refl domain)
      | inr e ↦ rw e (gov_apart i (rw e at m)).1
    ]

    pub connected_fleet-deploys :
        Each refs (λ i. connected_fleet.deploys i ≡ owned evm (base i) (linked i))
    connected_fleet-deploys i m = put_all-after refs _ _ i (inl m)

    ruler-standing : ruler ≡ standing gov
    ruler-standing = rw (eq_refl gov) refl

    subject-standing : (i : ℕ) → (gov == i) ≡ false → subject i ≡ standing i
    subject-standing i e = rw e refl

    pub governed_fleet-deploys : Each refs (λ i. governed_fleet.deploys i ≡ standing i)
    unfolding elem
    governed_fleet-deploys i m =
        let distinct = Separate-Distinct base refs separate in
        let before = put gov ruler connected_fleet in
        elim (Bool-cases (gov == i)) [
          | inl e ↦
              subst (λ (t : ℕ). governed_fleet.deploys t ≡ standing t) ((==_iff gov i).0 e)
                (put_all-apart others subject before gov distinct.0
                  ∙ put_here gov ruler connected_fleet
                  ∙ ruler-standing)
          | inr e ↦ put_all-after others subject before i (inl (rw e at m)) ∙ subject-standing i e
        ]

    -- The phases up to the transfers of governorship.
    pub to_governed :
        Each refs (λ i. IsNew (base i) × IsDeployable (base i))
        → HasLocalGovernor evm (base gov)
        → {V : Type 0} (rest : Exec Fleet V)
        → (for_each refs (λ i. at i (deploy_optics evm))
              >> (for_each refs (enroll_remotes evm refs)
                  >> (at gov (appoint_governor evm)
                      >> (for_all others (λ non. with_remote (transfer_governorship evm) non gov)
                          >> rest))))
            start
          ≡ rest governed_fleet
    to_governed fresh home_rule rest =
        let distinct = Separate-Distinct base refs separate in
        let suited = put_all refs (λ i. owned evm (base i) (unlinked evm (base i))) start in
        let transfer = for_all others (λ non. with_remote (transfer_governorship evm) non gov) in
        >>-eq (for_each refs (λ i. at i (deploy_optics evm)))
          (for_each refs (enroll_remotes evm refs)
            >> (at gov (appoint_governor evm) >> (transfer >> rest)))
          start (suites evm L base refs start distinct fresh (λ i m. refl))
        ∙ >>-eq (for_each refs (enroll_remotes evm refs))
            (at gov (appoint_governor evm) >> (transfer >> rest)) suited
            (connections evm L base refs suited distinct (λ i m. (fresh i m).1)
              (λ i m. put_all-after refs _ start i (inl m)))
        ∙ >>-eq (at gov (appoint_governor evm)) (transfer >> rest) connected_fleet (
            at-eq (appoint_governor evm) gov connected_fleet
              (connected_fleet-deploys gov (elem_head gov others))
              (appoint_governor-owned evm (base gov) (linked gov) home_rule))
        ∙ >>-eq transfer rest (put gov ruler connected_fleet) (
            transfers evm L base gov governor others domain
              (appointed evm (base gov).config.governor (linked gov)) linked
              (put gov ruler connected_fleet) distinct.1
              (λ i m. ((gov_apart i m).0, (gov_apart i m).1, gov-Connected i m))
              (λ i m.
                put_there gov i ruler connected_fleet (elem_apart gov i others distinct.0 m)
                ∙ connected_fleet-deploys i (elem_tail i gov others m))
              (put_here gov ruler connected_fleet))

-- ===== src/Deploy/Laws/TwoPhases.antt =====
-- The phases of `deployTwoChains` (typescript/optics-deploy/src/core/index.ts).
use optics_monorepo.Prelude.{
  ℕ, false, ◌≡◌, refl, sym, ◌∙◌, ap, subst, inl, inr, List, [], ◌∷◌, ◌==◌, ==_iff, ==_sym, eq_refl,
  Bool-cases, ok, arith,
}
use optics_monorepo.Prelude.Exec.{Exec, ◌>>◌, for_all}
use optics_monorepo.Deploy.State.{CoreDeploy}
use optics_monorepo.Deploy.Proxies.{Evm, IsLawful}
use optics_monorepo.Deploy.Suite.{deploy_optics}
use optics_monorepo.Deploy.Enroll.{
  deploy_unenrolled_replica, enroll_replica, enroll_watchers, enroll_governance_router,
  transfer_governorship, appoint_governor,
}
use optics_monorepo.Deploy.Networks.{Fleet, at, with_remote, both_ways}
use optics_monorepo.Deploy.Laws.Linked.{Links, peer, owned, unlinked, link, link_all}
use optics_monorepo.Deploy.Laws.Linkage.{Separate}
use optics_monorepo.Deploy.Laws.Steps.{IsDeployable, deploy_optics-new_core_deploy}
use optics_monorepo.Deploy.Laws.Governed.{
  HasLocalGovernor, appointed, appoint_governor-owned, transfer_governorship-owned,
}
use optics_monorepo.Deploy.Laws.Enrolled.{put, put_there, >>-eq, at-eq, with_remote-eq}
use optics_monorepo.Deploy.Laws.Rounds.{elem, elem_head, elem_tail, Each}
use optics_monorepo.Deploy.Laws.Connected.{others_of, peers_of}
use optics_monorepo.Deploy.Laws.Phases.{IsNew}
use optics_monorepo.Deploy.Laws.Pairs.{
  for_all-two, pair, pair_gov, pair_non, put_gov, put_non, both_ways-owned,
}
use optics_monorepo.Deploy.Laws.Powers.{router-Connected}
use optics_monorepo.Deploy.Laws.Network.{
  governor, domain, linked, ruler, subject, standing, gov_apart, gov-Connected,
}

pub Each-two : (P : ℕ → Type 0) (i j : ℕ) → P i → P j → Each (i ∷ j ∷ []) P
unfolding elem
Each-two P i j p q t m = elim (Bool-cases (i == t)) [
  | inl e ↦ subst P ((==_iff i t).0 e) p
  | inr e ↦ elim (Bool-cases (j == t)) [
    | inl r ↦ subst P ((==_iff j t).0 r) q
    | inr r ↦ absurd (ground arith)
  ]
]

module _ (evm : Evm) (L : IsLawful evm) (gov non : ℕ) (start : Fleet)
    (separate : Separate (peers_of start.deploys (gov ∷ non ∷ []))) where
  abbrev refs : List ℕ
  refs = gov ∷ non ∷ []

  abbrev base : ℕ → CoreDeploy
  base = start.deploys

  abbrev pub ruler_here : CoreDeploy
  ruler_here = ruler evm L gov (non ∷ []) start

  abbrev pub subject_here : CoreDeploy
  subject_here = subject evm L gov (non ∷ []) start non

  abbrev pub links_here : ℕ → Links
  links_here = linked evm L gov (non ∷ []) start

  pub non_apart :
      ((non == gov) ≡ false) × (((base gov).chain.domain == (base non).chain.domain) ≡ false)
  non_apart = gov_apart evm L gov (non ∷ []) start separate non (elem_head non [])

  pub apart : (gov == non) ≡ false
  apart = ==_sym gov non ∙ non_apart.0

  pub others_of-gov : others_of base refs gov ≡ non ∷ []
  others_of-gov =
      rw
        (
          eq_refl (base gov).chain.domain,
          ==_sym (base non).chain.domain (base gov).chain.domain ∙ non_apart.1,
        )
        refl

  pub others_of-non : others_of base refs non ≡ gov ∷ []
  others_of-non = rw (non_apart.1, eq_refl (base non).chain.domain) refl

  linked_gov : link evm (base gov) (peer (base non)) (unlinked evm (base gov)) ≡ links_here gov
  unfolding link_all
  linked_gov =
      ap (λ (rs : List ℕ). link_all evm (base gov) (peers_of base rs) (unlinked evm (base gov)))
        (sym others_of-gov)

  linked_non : link evm (base non) (peer (base gov)) (unlinked evm (base non)) ≡ links_here non
  unfolding link_all
  linked_non =
      ap (λ (rs : List ℕ). link_all evm (base non) (peers_of base rs) (unlinked evm (base non)))
        (sym others_of-non)

  -- Both suites.
  suites_two :
      Each refs (λ i. IsNew (base i) × IsDeployable (base i))
      → for_all refs (λ i. at i (deploy_optics evm)) start ≡ (
        ok tt,
        pair gov non apart start
            (owned evm (base gov) (unlinked evm (base gov)))
            (owned evm (base non) (unlinked evm (base non))),
      )
  suites_two fresh =
      let suite = λ (i : ℕ) (new : IsNew (base i)) (able : IsDeployable (base i)).
        subst (λ d. deploy_optics evm d ≡ (ok tt, owned evm d (unlinked evm d))) (sym new)
          (deploy_optics-new_core_deploy evm (base i).chain (base i).config (base i).test able.0) in
      let first = put gov (owned evm (base gov) (unlinked evm (base gov))) start in
      for_all-two (λ (i : ℕ). at i (deploy_optics evm)) gov non start
        (at-eq (deploy_optics evm) gov start refl (
          suite gov (fresh gov (elem_head gov (non ∷ []))).0
            (fresh gov (elem_head gov (non ∷ []))).1))
        (at-eq (deploy_optics evm) non first
          (put_there gov non (owned evm (base gov) (unlinked evm (base gov))) start apart)
          (suite non (fresh non (elem_tail non gov (non ∷ []) (elem_head non []))).0
            (fresh non (elem_tail non gov (non ∷ []) (elem_head non []))).1))

  -- The phases up to the transfer of governorship.
  pub to_governed_two :
      Each refs (λ i. IsNew (base i) × IsDeployable (base i))
      → HasLocalGovernor evm (base gov)
      → (rest : Exec Fleet (Unit {0}))
      → (for_all refs (λ i. at i (deploy_optics evm))
            >> (both_ways (with_remote (deploy_unenrolled_replica evm)) gov non
                >> (both_ways (with_remote enroll_replica) gov non
                    >> (both_ways (with_remote enroll_watchers) gov non
                        >> (both_ways (with_remote (enroll_governance_router evm)) gov non
                            >> (at gov (appoint_governor evm)
                                >> (with_remote (transfer_governorship evm) non gov >> rest)))))))
          start
        ≡ rest (pair gov non apart start ruler_here subject_here)
  to_governed_two fresh home_rule rest =
      let transfer = with_remote (transfer_governorship evm) non gov in
      let appoint = at gov (appoint_governor evm) in
      let ways =
        λ (m : CoreDeploy → Exec CoreDeploy (Unit {0})). both_ways (with_remote m) gov non in
      let two = pair gov non apart start in
      let k = links_here gov in
      let j = links_here non in
      let a = owned evm (base gov) k in
      let b = owned evm (base non) j in
      >>-eq (for_all refs (λ i. at i (deploy_optics evm)))
        (ways (deploy_unenrolled_replica evm)
          >> (ways enroll_replica
              >> (ways enroll_watchers
                  >> (ways (enroll_governance_router evm) >> (appoint >> (transfer >> rest))))))
        start (suites_two fresh)
      ∙ both_ways-owned gov non apart start evm L (base gov) (base non)
          (fresh gov (elem_head gov (non ∷ []))).1
          (fresh non (elem_tail non gov (non ∷ []) (elem_head non []))).1 (unlinked evm (base gov))
          (unlinked evm (base non)) (appoint >> (transfer >> rest))
      ∙ ap
          (λ (x : Links). (appoint >> (transfer >> rest)) (
            two (owned evm (base gov) x) (
              owned evm (base non)
                (link evm (base non) (peer (base gov)) (unlinked evm (base non))))))
          linked_gov
      ∙ ap (λ (x : Links). (appoint >> (transfer >> rest)) (two a (owned evm (base non) x)))
          linked_non
      ∙ >>-eq appoint (transfer >> rest) (two a b) (
          at-eq (appoint_governor evm) gov (two a b) (pair_gov gov non apart start a b)
            (appoint_governor-owned evm (base gov) k home_rule)
          ∙ ap (λ (f : Fleet). (ok tt, f)) (put_gov gov non apart start a ruler_here b))
      ∙ >>-eq transfer rest (two ruler_here b) (
          with_remote-eq (transfer_governorship evm) non gov (two ruler_here b)
            (pair_non gov non apart start ruler_here b) (pair_gov gov non apart start ruler_here b)
            (transfer_governorship-owned evm (base gov) (base non)
              (governor evm L gov (non ∷ []) start) (domain evm L gov (non ∷ []) start)
              (appointed evm (base gov).config.governor k) j non_apart.1
              (router-Connected evm L (base non) (base gov) j
                (gov-Connected evm L gov (non ∷ []) start separate non (elem_head non []))))
          ∙ ap (λ (f : Fleet). (ok tt, f)) (put_non gov non apart start ruler_here b subject_here))

  pub pair-standing : Each refs (λ i.
      (pair gov non apart start ruler_here subject_here).deploys i
      ≡ standing evm L gov (non ∷ []) start i)
  pair-standing =
      Each-two
        (λ i.
          (pair gov non apart start ruler_here subject_here).deploys i
          ≡ standing evm L gov (non ∷ []) start i)
        gov non (pair_gov gov non apart start ruler_here subject_here ∙ rw (eq_refl gov) refl)
        (pair_non gov non apart start ruler_here subject_here ∙ rw apart refl)

-- ===== src/Deploy/Laws/TwoChains.antt =====
-- `deployTwoChains` against `deployNChains` (typescript/optics-deploy/src/core/index.ts).
use optics_monorepo.Prelude.{
  ℕ, Bool, true, false, ◌||◌, ◌≡◌, sym, ◌∙◌, ap, inl, List, [], ◌∷◌, text_eq, ok, Text,
}
use optics_monorepo.Prelude.Exec.{◌>>◌, for_all}
use optics_monorepo.Deploy.Solidity.Storage.{zero_address}
use optics_monorepo.Deploy.State.{CoreDeploy, configured_governor}
use optics_monorepo.Deploy.Proxies.{Evm, IsLawful}
use optics_monorepo.Deploy.Enroll.{relinquish}
use optics_monorepo.Deploy.Checks.{check_core_deploy}
use optics_monorepo.Deploy.Networks.{
  Fleet, at, domain_of, unless_test, write_deploy_output, deploy_two_chains, deploy_n_chains,
}
use optics_monorepo.Deploy.Laws.Linked.{Links, nth}
use optics_monorepo.Deploy.Laws.Linkage.{Separate}
use optics_monorepo.Deploy.Laws.Checked.{domains_of}
use optics_monorepo.Deploy.Laws.Governed.{HasLocalGovernor}
use optics_monorepo.Deploy.Laws.Steps.{IsDeployable}
use optics_monorepo.Deploy.Laws.Enrolled.{put, put_there, >>-eq}
use optics_monorepo.Deploy.Laws.Rounds.{elem, elem_head, elem_tail, Each, put_all, put_all-after}
use optics_monorepo.Deploy.Laws.Connected.{others_of, peers_of}
use optics_monorepo.Deploy.Laws.Phases.{IsNew, Separate-Distinct}
use optics_monorepo.Deploy.Laws.Pairs.{pair}
use optics_monorepo.Deploy.Laws.Powers.{governor_at, gifts}
use optics_monorepo.Deploy.Laws.Approved.{marked, before_checks, check_at-IsReady}
use optics_monorepo.Deploy.Laws.Written.{with_files, IsWritable-stands, unless_test-IsWritable}
use optics_monorepo.Deploy.Laws.Network.{
  governor, domain, governed, given, domains_apart, given-Connected, given-Setup, marked-Connected,
}
use optics_monorepo.Deploy.Laws.TwoPhases.{
  ruler_here, subject_here, apart, others_of-gov, others_of-non, pair-standing, to_governed_two,
}
use optics_monorepo.Deploy.Laws.Complete.{final_deploy, deploy_n_chains-final_deploy}

module _ (evm : Evm) (L : IsLawful evm) (gov non : ℕ) (start : Fleet)
    (separate : Separate (peers_of start.deploys (gov ∷ non ∷ []))) where
  abbrev refs : List ℕ
  refs = gov ∷ non ∷ []

  abbrev base : ℕ → CoreDeploy
  base = start.deploys

  abbrev links_given : ℕ → Links
  links_given = given evm L gov (non ∷ []) start

  abbrev ruler_address : Text
  ruler_address = governor evm L gov (non ∷ []) start

  -- The checks of one of the two, in a fleet where it is as the checks want it.
  check_two :
      (i r : ℕ) (fleet : Fleet)
      → text_eq ruler_address zero_address ≡ false
      → elem i refs ≡ true
      → others_of base refs i ≡ r ∷ []
      → fleet.deploys i ≡ before_checks evm L base gov ruler_address refs links_given i
      → at i (check_core_deploy (domain_of start r ∷ []) (domain_of start gov)) fleet
        ≡ (ok tt, put i (final_deploy evm L gov (non ∷ []) start i) fleet)
  check_two i r fleet governs m other here =
      ap
        (λ (rs : List ℕ).
          at i (check_core_deploy (domains_of (peers_of base rs)) (base gov).chain.domain) fleet)
        (sym other)
      ∙ check_at-IsReady evm L base gov ruler_address refs links_given i fleet governs
          (
            given-Setup evm L gov (non ∷ []) start separate i,
            given-Connected evm L gov (non ∷ []) start separate i,
            domains_apart evm L gov (non ∷ []) start separate i m,
          )
          here

  -- The transfers of ownership, the checks and the files.
  from_governed_two :
      (test : Bool)
      → text_eq ruler_address zero_address ≡ false
      → (final : Fleet) × ((for_all refs (λ i. at i relinquish)
              >> (at gov (check_core_deploy (domain_of start non ∷ []) (domain_of start gov))
                  >> (at non (check_core_deploy (domain_of start gov ∷ []) (domain_of start gov))
                      >> unless_test test (write_deploy_output refs))))
            (pair gov non
              (apart evm L gov non start separate)
              start
              (ruler_here evm L gov non start separate)
              (subject_here evm L gov non start separate))
          ≡ (ok tt, final))
        × Each refs (λ i. final.deploys i ≡ final_deploy evm L gov (non ∷ []) start i)
  from_governed_two test governs =
      let ruled =
        pair gov non (apart evm L gov non start separate) start
          (ruler_here evm L gov non start separate) (subject_here evm L gov non start separate) in
      let before = before_checks evm L base gov ruler_address refs links_given in
      let after = final_deploy evm L gov (non ∷ []) start in
      let distinct = Separate-Distinct base refs separate in
      let mine = elem_head gov (non ∷ []) in
      let yours = elem_tail non gov (non ∷ []) (elem_head non []) in
      let given_fleet = put_all refs before ruled in
      let here : Each refs (λ i. given_fleet.deploys i ≡ before i) =
        λ i m. put_all-after refs before ruled i (inl m) in
      let checked = put_all refs after given_fleet in
      let there : Each refs (λ i. checked.deploys i ≡ after i) =
        λ i m. put_all-after refs after given_fleet i (inl m) in
      let marks = marked-Connected evm L gov (non ∷ []) start separate in
      let writes = unless_test test (write_deploy_output refs) in
      let check1 = at gov (check_core_deploy (domain_of start non ∷ []) (domain_of start gov)) in
      let check2 = at non (check_core_deploy (domain_of start gov ∷ []) (domain_of start gov)) in
      let (files, write) = unless_test-IsWritable refs checked test (
        IsWritable-stands evm base refs checked (λ i. nth evm (base i) 10)
          (governor_at gov ruler_address) (domain evm L gov (non ∷ []) start)
          (λ i. marked (links_given i) (peers_of base (others_of base refs i)))
          (λ i m. (there i m, marks i))) in
      (
        with_files checked files,
        >>-eq (for_all refs (λ i. at i relinquish)) (check1 >> (check2 >> writes)) ruled (
              gifts evm L base gov ruler_address refs (governed evm L gov (non ∷ []) start) ruled
                distinct (pair-standing evm L gov non start separate))
            ∙ >>-eq check1 (check2 >> writes) given_fleet (
                check_two gov non given_fleet governs mine
                  (others_of-gov evm L gov non start separate) (here gov mine))
            ∙ >>-eq check2 writes (put gov (after gov) given_fleet) (
                check_two non gov (put gov (after gov) given_fleet) governs yours
                  (others_of-non evm L gov non start separate)
                  (put_there gov non (after gov) given_fleet (apart evm L gov non start separate)
                    ∙ here non yours))
            ∙ write,
        there,
      )

  -- From new deploys on two chains of different domains of 32 bits other than 0, with the gas amounts
  -- that the Replica's constructor requires, where the governing one's configured governor, if there is
  -- one, is of its own domain and no zero address:
  -- `deployTwoChains`, and `deployNChains` of these two, both return and leave the deploys the same,
  -- their contracts, transactions and entries for Etherscan included.
  pub deploy_two_chains-deploy_n_chains :
      Each (gov ∷ non ∷ []) (λ i. IsNew (start.deploys i) × IsDeployable (start.deploys i))
      → HasLocalGovernor evm (start.deploys gov)
      → text_eq (configured_governor (start.deploys gov)) zero_address ≡ false
      → (two several : Fleet) × (deploy_two_chains evm gov non start ≡ (ok tt, two))
        × (deploy_n_chains evm (gov ∷ non ∷ []) start ≡ (ok tt, several))
        × Each (gov ∷ non ∷ []) (λ i. two.deploys i ≡ several.deploys i)
  unfolding deploy_two_chains
  deploy_two_chains-deploy_n_chains fresh home_rule governs =
      let test = (base gov).test || (base non).test in
      let (two, e, deploys) = from_governed_two test governs in
      let (several, e', deploys') =
        deploy_n_chains-final_deploy evm L gov (non ∷ []) start fresh separate home_rule governs in
      let check1 = at gov (check_core_deploy (domain_of start non ∷ []) (domain_of start gov)) in
      let check2 = at non (check_core_deploy (domain_of start gov ∷ []) (domain_of start gov)) in
      (
        two,
        several,
        (to_governed_two evm L gov non start separate) fresh home_rule (
              for_all refs (λ i. at i relinquish)
              >> (check1 >> (check2 >> unless_test test (write_deploy_output refs))))
            ∙ e,
        e',
        (λ i m. deploys i m ∙ sym (deploys' i m)),
      )

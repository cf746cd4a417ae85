-- ===== src/Deploy/Laws/Complete.antt =====
-- `deployNChains` completes (typescript/optics-deploy/src/core/index.ts).
use optics_monorepo.Prelude.{ℕ, Bool, false, ◌≡◌, ◌∙◌, inl, List, ◌∷◌, text_eq, ok}
use optics_monorepo.Prelude.Exec.{◌>>◌, for_each, for_all}
use optics_monorepo.Deploy.Solidity.Storage.{zero_address}
use optics_monorepo.Deploy.State.{CoreDeploy, configured_governor}
use optics_monorepo.Deploy.Proxies.{Evm, IsLawful}
use optics_monorepo.Deploy.Enroll.{relinquish}
use optics_monorepo.Deploy.Networks.{
  Fleet, at, any_test, unless_test, write_deploy_output, check_one, deploy_n_chains,
}
use optics_monorepo.Deploy.Laws.Linked.{nth}
use optics_monorepo.Deploy.Laws.Linkage.{Separate}
use optics_monorepo.Deploy.Laws.Governed.{HasLocalGovernor}
use optics_monorepo.Deploy.Laws.Steps.{IsDeployable}
use optics_monorepo.Deploy.Laws.Enrolled.{>>-eq}
use optics_monorepo.Deploy.Laws.Rounds.{elem_head, Each, put_all, put_all-after}
use optics_monorepo.Deploy.Laws.Connected.{others_of, peers_of}
use optics_monorepo.Deploy.Laws.Phases.{IsNew, Separate-Distinct}
use optics_monorepo.Deploy.Laws.Powers.{governor_at, gifts}
use optics_monorepo.Deploy.Laws.Approved.{marked, before_checks, after_checks, approvals}
use optics_monorepo.Deploy.Laws.Written.{with_files, IsWritable-stands, unless_test-IsWritable}
use optics_monorepo.Deploy.Laws.Network.{
  IsComplete, governor, domain, governed, given, governed_fleet, to_governed, domains_apart,
  governed_fleet-deploys, given-Connected, given-Setup, marked-Connected,
}

module _ (evm : Evm) (L : IsLawful evm) (gov : ℕ) (others : List ℕ) (start : Fleet) where
  -- A deploy of the list at the end.
  abbrev pub final_deploy : ℕ → CoreDeploy
  final_deploy =
      after_checks evm L start.deploys gov (governor evm L gov others start) (gov ∷ others)
        (given evm L gov others start)

  -- The last four steps, from the fleet in which `gov` governs.
  from_governed :
      (test : Bool)
      → Separate (peers_of start.deploys (gov ∷ others))
      → text_eq (configured_governor (start.deploys gov)) zero_address ≡ false
      → (final : Fleet) × ((for_all (gov ∷ others) (λ i. at i relinquish)
              >> (unless_test test (write_deploy_output (gov ∷ others))
                  >> (for_each (gov ∷ others) (check_one evm (gov ∷ others) gov)
                      >> unless_test test (write_deploy_output (gov ∷ others)))))
            (governed_fleet evm L gov others start)
          ≡ (ok tt, final))
        × Each (gov ∷ others) (λ i. final.deploys i ≡ final_deploy i)
  from_governed test separate governs =
      let refs : List ℕ = gov ∷ others in
      let ruled = governed_fleet evm L gov others start in
      let ruler = governor evm L gov others start in
      let distinct = Separate-Distinct start.deploys refs separate in
      let links = given evm L gov others start in
      let before = before_checks evm L start.deploys gov ruler refs links in
      let after = after_checks evm L start.deploys gov ruler refs links in
      let ready = given-Connected evm L gov others start separate in
      let writes = unless_test test (write_deploy_output refs) in
      let checks = for_each refs (check_one evm refs gov) in
      let owners = λ (i : ℕ). nth evm (start.deploys i) 10 in
      let governors = λ (i : ℕ). governor_at gov ruler i in
      let owned_fleet = put_all refs before ruled in
      let owned_deploys : Each refs (λ i. owned_fleet.deploys i ≡ before i) =
        λ i m. put_all-after refs before ruled i (inl m) in
      let (files, write1) = unless_test-IsWritable refs owned_fleet test (
        IsWritable-stands evm start.deploys refs owned_fleet owners governors
          (domain evm L gov others start) links (λ i m. (owned_deploys i m, ready i))) in
      let written = with_files owned_fleet files in
      let checked = put_all refs after written in
      let checked_deploys : Each refs (λ i. checked.deploys i ≡ after i) =
        λ i m. put_all-after refs after written i (inl m) in
      let marks = marked-Connected evm L gov others start separate in
      let (files2, write2) = unless_test-IsWritable refs checked test (
        IsWritable-stands evm start.deploys refs checked owners governors
          (domain evm L gov others start)
          (λ i. marked (links i) (peers_of start.deploys (others_of start.deploys refs i)))
          (λ i m. (checked_deploys i m, marks i))) in
      (
        with_files checked files2,
        >>-eq (for_all refs (λ i. at i relinquish)) (writes >> (checks >> writes)) ruled (
              gifts evm L start.deploys gov ruler refs (governed evm L gov others start) ruled
                distinct (governed_fleet-deploys evm L gov others start separate))
            ∙ >>-eq writes (checks >> writes) owned_fleet write1
            ∙ >>-eq checks writes written (
                approvals evm L start.deploys gov ruler refs links written governs
                  (elem_head gov others) distinct
                  (λ i m. (
                    given-Setup evm L gov others start separate i,
                    ready i,
                    domains_apart evm L gov others start separate i m,
                  ))
                  owned_deploys)
            ∙ write2,
        checked_deploys,
      )

  -- What `deployNChains` leaves of the deploys.
  pub deploy_n_chains-final_deploy :
      Each (gov ∷ others) (λ i. IsNew (start.deploys i) × IsDeployable (start.deploys i))
      → Separate (peers_of start.deploys (gov ∷ others))
      → HasLocalGovernor evm (start.deploys gov)
      → text_eq (configured_governor (start.deploys gov)) zero_address ≡ false
      → (final : Fleet) × (deploy_n_chains evm (gov ∷ others) start ≡ (ok tt, final))
        × Each (gov ∷ others) (λ i. final.deploys i ≡ final_deploy i)
  unfolding deploy_n_chains
  deploy_n_chains-final_deploy fresh separate home_rule governs =
      let refs : List ℕ = gov ∷ others in
      let writes = unless_test (any_test refs start) (write_deploy_output refs) in
      let (final, e, deploys) = from_governed (any_test refs start) separate governs in
      (
        final,
        to_governed evm L gov others start separate fresh home_rule (
              for_all refs (λ i. at i relinquish)
              >> (writes >> (for_each refs (check_one evm refs gov) >> writes)))
            ∙ e,
        deploys,
      )

  -- From new deploys, on chains of different domains of 32 bits other than 0, with the gas amounts that
  -- the Replica's constructor requires, where the first one's configured governor, if there is one, is
  -- of its own domain and no zero address: `deployNChains` returns, all its checks passed, and every
  -- deploy is complete.
  pub deploy_n_chains-IsComplete :
      Each (gov ∷ others) (λ i. IsNew (start.deploys i) × IsDeployable (start.deploys i))
      → Separate (peers_of start.deploys (gov ∷ others))
      → HasLocalGovernor evm (start.deploys gov)
      → text_eq (configured_governor (start.deploys gov)) zero_address ≡ false
      → (final : Fleet) × (deploy_n_chains evm (gov ∷ others) start ≡ (ok tt, final))
        × Each (gov ∷ others) (λ i. IsComplete evm L gov others start i (final.deploys i))
  deploy_n_chains-IsComplete fresh separate home_rule governs =
      let (final, e, deploys) = deploy_n_chains-final_deploy fresh separate home_rule governs in
      let links = given evm L gov others start in
      let ready = marked-Connected evm L gov others start separate in
      let peers = λ (i : ℕ). peers_of start.deploys (others_of start.deploys (gov ∷ others) i) in
      (final, e, (λ i m. (marked (links i) (peers i), deploys i m, ready i)))

-- ===== src/Tests/Deployed.antt =====
-- The theorems on deployments at concrete inputs.
use optics_monorepo.Prelude.{
  ℕ, ◌≡◌, refl, some, List, [], ◌∷◌, codes, text_eq, ok, err, failed_check, arith,
}
use optics_monorepo.Deploy.State.{CoreDeploy, Governor, new_core_deploy}
use optics_monorepo.Deploy.Enroll.{appoint}
use optics_monorepo.Deploy.Checks.{check_governor}
use optics_monorepo.Deploy.Networks.{Fleet, deploy_n_chains, deploy_two_chains}
use optics_monorepo.Deploy.Laws.Rounds.{Each}
use optics_monorepo.Deploy.Laws.Linked.{
  nth, router_of, proxy_input, peer, unlinked, owned, link, link_router, permit, enroll_at,
  add_replica_to, new_replica,
}
use optics_monorepo.Deploy.Laws.Network.{IsComplete}
use optics_monorepo.Deploy.Laws.TwoChains.{deploy_two_chains-deploy_n_chains}
use optics_monorepo.Deploy.Laws.Complete.{deploy_n_chains-IsComplete}
use optics_monorepo.Prelude.Map
use optics_monorepo.Deploy.Solidity.Storage.{zero_bytes32, GovernanceRouter}
use optics_monorepo.Messages.Ids.{to_bytes32}
use optics_monorepo.Deploy.State.{ContractVerificationInput}
use optics_monorepo.Deploy.Checks.{
  check_each, check_remote, same_setup, check_same_setup, check_defined, check_ownership,
  check_inputs, check_replica_inputs, check_verification_input, check_contracts, check_core_deploy,
  first_named, replica_proxy_name,
}
use optics_monorepo.Deploy.Laws.Checked.{finished}
use optics_monorepo.Deploy.Laws.Unchecked.{check_each-routers}
use optics_monorepo.Deploy.Laws.Proxies.{check_core_deploy-last_address}
use optics_monorepo.Deploy.Agents.{to_rust_configs}
use optics_monorepo.Deploy.Laws.AgentBlocks.{agent_config}
use optics_monorepo.Deploy.Laws.AgentConfigs.{to_rust_configs-agent_config}
use optics_monorepo.Deploy.Laws.Governed.{check_governor-appoint}
use optics_monorepo.Samples.Fleets.{
  small_evm, small_evm-IsLawful, small_fleet, small, small-IsNew, small-IsDeployable,
  deployer_address,
}

deploy_n_chains-IsComplete_example :
    (final : Fleet) × (deploy_n_chains small_evm (0 ∷ 1 ∷ []) small_fleet ≡ (ok tt, final))
    × Each
        (0 ∷ 1 ∷ [])
        (λ i. IsComplete small_evm small_evm-IsLawful 0 (1 ∷ []) small_fleet i (final.deploys i))
unfolding small_fleet new_core_deploy text_eq
deploy_n_chains-IsComplete_example =
    deploy_n_chains-IsComplete small_evm small_evm-IsLawful 0 (1 ∷ []) small_fleet
      (λ i m. (small-IsNew i, small-IsDeployable i m))
      (omega arith, (refl, tt), (omega arith, tt, tt)) (λ g e. absurd cc) refl

deploy_two_chains-deploy_n_chains_example :
    (two several : Fleet) × (deploy_two_chains small_evm 0 1 small_fleet ≡ (ok tt, two))
    × (deploy_n_chains small_evm (0 ∷ 1 ∷ []) small_fleet ≡ (ok tt, several))
    × Each (0 ∷ 1 ∷ []) (λ i. two.deploys i ≡ several.deploys i)
unfolding small_fleet new_core_deploy text_eq
deploy_two_chains-deploy_n_chains_example =
    deploy_two_chains-deploy_n_chains small_evm small_evm-IsLawful 0 1 small_fleet
      (omega arith, (refl, tt), (omega arith, tt, tt))
      (λ i m. (small-IsNew i, small-IsDeployable i m)) (λ g e. absurd cc) refl

-- A governor on the other chain, once that is connected.
abbrev other_governor : Governor
other_governor = record {
  domain = 1001;
  address = codes "0x5555555555555555555555555555555555555555";
}

check_governor-appoint_example :
    (final : CoreDeploy) × (appoint small_evm (some other_governor) (
        owned small_evm
          (small 0)
          (link small_evm (small 0) (peer (small 1)) (unlinked small_evm (small 0))))
      ≡ (ok tt, final))
    × (check_governor final (small 0).chain.domain ≡ err failed_check)
unfolding small_fleet new_core_deploy text_eq link_router permit enroll_at add_replica_to
check_governor-appoint_example =
    check_governor-appoint small_evm (small 0)
      (link small_evm (small 0) (peer (small 1)) (unlinked small_evm (small 0))) other_governor refl
      refl

abbrev linked : ℕ → ℕ → CoreDeploy
linked i j =
    owned small_evm (small i)
      (link small_evm (small i) (peer (small j)) (unlinked small_evm (small i)))

to_rust_configs-agent_config_example :
    to_rust_configs (linked 0 1 ∷ linked 1 0 ∷ [])
    ≡ ok (
        agent_config (linked 0 1) (linked 1 0 ∷ [])
        ∷ agent_config (linked 1 0) (linked 0 1 ∷ [])
        ∷ [])
unfolding small_fleet new_core_deploy text_eq link_router permit enroll_at add_replica_to Map.set
    Map.get
to_rust_configs-agent_config_example =
    to_rust_configs-agent_config (linked 0 1 ∷ linked 1 0 ∷ []) ((refl, tt), (tt, tt))
      (
        ((_, refl), ((λ e. absurd cc), ((λ e. ((_, refl), refl)), tt))),
        (((_, refl), ((λ e. ((_, refl), refl)), ((λ e. absurd cc), tt))), tt),
      )

abbrev finished_deploy : CoreDeploy
finished_deploy =
    finished small_evm small_evm-IsLawful (small 0) deployer_address 1000
      (link small_evm (small 0) (peer (small 1)) (unlinked small_evm (small 0)))

abbrev first_proxy : ContractVerificationInput
first_proxy =
    proxy_input (codes "Replica Proxy") (nth small_evm (small 0) 13) (nth small_evm (small 0) 12)
      (codes "0x")

check_core_deploy-last_address_example :
    (cs : List ContractVerificationInput) × (check_core_deploy (1001 ∷ []) 1000 finished_deploy
      ≡ (ok tt, record finished_deploy { verification_input = cs }))
    × (first_named replica_proxy_name cs
        ≡ some (record first_proxy { address = nth small_evm (small 0) 13 }))
unfolding small_fleet new_core_deploy text_eq link_router permit enroll_at add_replica_to Map.set
    Map.get check_contracts check_each check_remote same_setup check_same_setup check_defined
    check_ownership check_inputs check_replica_inputs check_verification_input first_named
    check_governor new_replica
check_core_deploy-last_address_example =
    check_core_deploy-last_address finished_deploy (1001 ∷ []) 1000 first_proxy
      (new_replica small_evm [] (small 0) (peer (small 1)) (unlinked small_evm (small 0)) ∷ []) refl
      (refl, tt) refl

abbrev small_router : GovernanceRouter
small_router =
    router_of small_evm (small 0) deployer_address 1000
      (link small_evm (small 0) (peer (small 1)) (unlinked small_evm (small 0)))

check_each-routers_example :
    check_each
      (1001 ∷ [])
      (check_remote (linked 0 1) (record small_router { routers = λ t. zero_bytes32 }))
    ≡ check_each (1001 ∷ []) (check_remote (linked 0 1) small_router)
unfolding small_fleet new_core_deploy text_eq link_router permit enroll_at add_replica_to to_bytes32
check_each-routers_example =
    check_each-routers (linked 0 1) small_router (λ t. zero_bytes32) (1001 ∷ []) ((refl, refl), tt)

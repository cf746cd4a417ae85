-- ===== src/Deploy/BridgeNetworks.antt =====
-- The bridges of several chains (`deployBridges` of typescript/optics-deploy/src/bridge/index.ts).
use optics_monorepo.Prelude.{
  ℕ, Bool, true, false, not, ◌||◌, List, [], ◌∷◌, ◌++◌, map, filter, Text, ok, ◌==◌, if◌then◌else◌,
}
use optics_monorepo.Prelude.Exec.{Exec, pure, reads, modify, ◌>>=◌, ◌>>◌, for_each, for_all}
use optics_monorepo.Deploy.Solidity.Storage.{assign}
use optics_monorepo.Deploy.State.{ContractVerificationInput}
use optics_monorepo.Deploy.Proxies.{Evm}
use optics_monorepo.Deploy.Bridges.{
  BridgeDeploy, BridgeAddresses, bridge_to_object, deploy_bridge, enroll_bridge_router,
  transfer_ownership_to_governance,
}
use optics_monorepo.Deploy.BridgeChecks.{check_bridge_deploy}

pub data BridgeFile : Type 0 where
  contracts_file : Text → BridgeAddresses → BridgeFile
  verification_file : Text → List ContractVerificationInput → BridgeFile

pub record BridgeFleet : Type 0 where
  pub deploys : ℕ → BridgeDeploy
  pub written : List BridgeFile

abbrev pub at {ℓ} : {V : Type ℓ} → ℕ → Exec BridgeDeploy V → Exec BridgeFleet V
at i method fleet =
    let (outcome, changed) = method (fleet.deploys i) in
    (outcome, record fleet { deploys = assign i changed fleet.deploys })

abbrev pub domain_of : BridgeFleet → ℕ → ℕ
domain_of fleet i = (fleet.deploys i).chain.domain

-- The body of the loop of `enrollAllBridgeRouters`.
abbrev pub enroll_unless_local : ℕ → ℕ → Exec BridgeFleet (Unit {0})
enroll_unless_local local remote fleet =
    if domain_of fleet local == domain_of fleet remote
    then (ok tt, fleet)
    else at local (enroll_bridge_router (fleet.deploys remote)) fleet

unfoldable pub enroll_all_bridge_routers : List ℕ → ℕ → Exec BridgeFleet (Unit {0})
unfolding for_each enroll_bridge_router
enroll_all_bridge_routers all_deploys local = for_each all_deploys (enroll_unless_local local)

abbrev pub check_bridge : List ℕ → ℕ → Exec BridgeFleet (Unit {0})
check_bridge refs local = reads (λ fleet.
    check_bridge_deploy (fleet.deploys local)
      (map (domain_of fleet) (filter (λ r. not (domain_of fleet r == domain_of fleet local)) refs)))

abbrev pub write : BridgeFile → Exec BridgeFleet (Unit {0})
write file = modify (λ fleet. record fleet { written = fleet.written ++ (file ∷ []) })

abbrev pub write_bridge_files : ℕ → Exec BridgeFleet (Unit {0})
write_bridge_files i = do
  fleet ← reads (λ fleet. ok fleet)
  let d = fleet.deploys i
  write (contracts_file d.chain.name (bridge_to_object d.contracts))
  write (verification_file d.chain.name d.verification_input)

unfoldable pub write_bridge_deploy_output : List ℕ → Exec BridgeFleet (Unit {0})
unfolding for_each bridge_to_object
write_bridge_deploy_output refs = for_each refs write_bridge_files

unfoldable pub any_test : List ℕ → BridgeFleet → Bool
any_test [] fleet = false
any_test (i ∷ is) fleet = (fleet.deploys i).test || any_test is fleet

abbrev pub unless_test : Bool → Exec BridgeFleet (Unit {0}) → Exec BridgeFleet (Unit {0})
unless_test true action = pure tt
unless_test false action = action

unfoldable pub deploy_bridges : Evm → List ℕ → Exec BridgeFleet (Unit {0})
unfolding for_all deploy_bridge enroll_all_bridge_routers transfer_ownership_to_governance
    check_bridge_deploy write_bridge_deploy_output any_test
deploy_bridges evm refs = do
  is_test ← reads (λ fleet. ok (any_test refs fleet))
  for_all refs (λ i. at i (deploy_bridge evm))
  for_all refs (enroll_all_bridge_routers refs)
  for_all refs (λ i. at i transfer_ownership_to_governance)
  for_all refs (check_bridge refs)
  unless_test is_test (write_bridge_deploy_output refs)

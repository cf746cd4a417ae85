-- ===== src/Deploy/Networks.antt =====
-- Deployments on several chains (typescript/optics-deploy/src/core/index.ts): the deploys are objects
-- that `Fleet.deploys` holds under their references, beside the files that were written.
use optics_monorepo.Prelude.{
  ℕ, Bool, true, false, not, ◌||◌, List, [], ◌∷◌, ◌++◌, map, filter, Text, ok, no_deploys, ◌==◌,
}
use optics_monorepo.Prelude.Exec.{Exec, pure, throw, reads, modify, ◌>>=◌, ◌>>◌, for_each, for_all}
use optics_monorepo.Deploy.Solidity.Storage.{assign}
use optics_monorepo.Deploy.State.{
  ContractVerificationInput, CoreDeploy, CoreDeployAddresses, contract_output,
}
use optics_monorepo.Deploy.Proxies.{Evm}
use optics_monorepo.Deploy.Suite.{deploy_optics}
use optics_monorepo.Deploy.Enroll.{
  deploy_unenrolled_replica, enroll_replica, enroll_watchers, enroll_governance_router,
  transfer_governorship, appoint_governor, relinquish,
}
use optics_monorepo.Deploy.Checks.{check_core_deploy}
use optics_monorepo.Deploy.Agents.{RustConfig, build_config}

-- The files of `writeDeployOutput`, by the chain's name.
pub data File : Type 0 where
  config_file : Text → RustConfig → File
  contracts_file : Text → CoreDeployAddresses → File
  verification_file : Text → List ContractVerificationInput → File

pub record Fleet : Type 0 where
  pub deploys : ℕ → CoreDeploy
  pub written : List File

-- A method of the deploy under a reference.
abbrev pub at {ℓ} : {V : Type ℓ} → ℕ → Exec CoreDeploy V → Exec Fleet V
at i method fleet =
    let (outcome, changed) = method (fleet.deploys i) in
    (outcome, record fleet { deploys = assign i changed fleet.deploys })

-- A method of the local deploy that reads the remote one.
abbrev pub with_remote : (CoreDeploy → Exec CoreDeploy (Unit {0})) → ℕ → ℕ → Exec Fleet (Unit {0})
with_remote method local remote fleet = at local (method (fleet.deploys remote)) fleet

abbrev pub domain_of : Fleet → ℕ → ℕ
domain_of fleet i = (fleet.deploys i).chain.domain

-- `deploys.filter((d) => d.chain.domain !== local.chain.domain)`
abbrev pub remotes_in : Fleet → List ℕ → ℕ → List ℕ
remotes_in fleet deploys local =
    filter (λ d. not (domain_of fleet d == domain_of fleet local)) deploys

abbrev pub write : File → Exec Fleet (Unit {0})
write file = modify (λ fleet. record fleet { written = fleet.written ++ (file ∷ []) })

-- The files of one deploy. A configuration that cannot be built is not written.
unfoldable pub write_outputs : List ℕ → ℕ → Exec Fleet (Unit {0})
unfolding build_config contract_output
write_outputs deploys local = do
  fleet ← reads (λ fleet. ok fleet)
  let d = fleet.deploys local
  config ← reads (λ _. build_config d (map fleet.deploys (remotes_in fleet deploys local)))
  write (config_file d.chain.name config)
  contracts ← reads (λ _. contract_output d)
  write (contracts_file d.chain.name contracts)
  write (verification_file d.chain.name d.verification_input)

unfoldable pub write_deploy_output : List ℕ → Exec Fleet (Unit {0})
unfolding for_each write_outputs
write_deploy_output deploys = for_each deploys (write_outputs deploys)

-- Is any of the deploys a test?
unfoldable pub any_test : List ℕ → Fleet → Bool
any_test [] fleet = false
any_test (i ∷ is) fleet = (fleet.deploys i).test || any_test is fleet

abbrev pub unless_test : Bool → Exec Fleet (Unit {0}) → Exec Fleet (Unit {0})
unless_test true action = pure tt
unless_test false action = action

-- Two calls of `Promise.all`, one for each direction.
abbrev pub both_ways : (ℕ → ℕ → Exec Fleet (Unit {0})) → ℕ → ℕ → Exec Fleet (Unit {0})
both_ways step gov non =
    for_all {A = ℕ × ℕ} ((gov, non) ∷ (non, gov) ∷ []) (λ pair. step pair.0 pair.1)

module _ (evm : Evm) where
  unfoldable pub enroll_remote : ℕ → ℕ → Exec Fleet (Unit {0})
  unfolding deploy_unenrolled_replica enroll_replica enroll_watchers enroll_governance_router
  enroll_remote local remote = do
    with_remote (deploy_unenrolled_replica evm) local remote
    with_remote enroll_replica local remote
    with_remote enroll_watchers local remote
    with_remote (enroll_governance_router evm) local remote

  -- The body of the outer loop over the deploys.
  unfoldable pub enroll_remotes : List ℕ → ℕ → Exec Fleet (Unit {0})
  unfolding for_each enroll_remote
  enroll_remotes deploys local = do
    fleet ← reads (λ fleet. ok fleet)
    for_each (remotes_in fleet deploys local) (enroll_remote local)

  -- One round of the last loop.
  unfoldable pub check_one : List ℕ → ℕ → ℕ → Exec Fleet (Unit {0})
  unfolding check_core_deploy
  check_one deploys gov local = do
    fleet ← reads (λ fleet. ok fleet)
    at local (
        check_core_deploy (map (domain_of fleet) (remotes_in fleet deploys local))
          (domain_of fleet gov))

  unfoldable pub deploy_n_chains : List ℕ → Exec Fleet (Unit {0})
  unfolding for_each for_all deploy_optics enroll_remotes transfer_governorship appoint_governor
      relinquish write_deploy_output check_one any_test
  deploy_n_chains [] = throw no_deploys
  deploy_n_chains (gov ∷ others) = do
    is_test ← reads (λ fleet. ok (any_test (gov ∷ others) fleet))
    for_each (gov ∷ others) (λ i. at i (deploy_optics evm))
    for_each (gov ∷ others) (enroll_remotes (gov ∷ others))
    at gov (appoint_governor evm)
    for_all others (λ non. with_remote (transfer_governorship evm) non gov)
    for_all (gov ∷ others) (λ i. at i relinquish)
    unless_test is_test (write_deploy_output (gov ∷ others))
    for_each (gov ∷ others) (check_one (gov ∷ others) gov)
    unless_test is_test (write_deploy_output (gov ∷ others))

  unfoldable pub deploy_two_chains : ℕ → ℕ → Exec Fleet (Unit {0})
  unfolding for_all deploy_optics deploy_unenrolled_replica enroll_replica enroll_watchers
      enroll_governance_router transfer_governorship appoint_governor relinquish write_deploy_output
      check_core_deploy
  deploy_two_chains gov non = do
    fleet ← reads (λ fleet. ok fleet)
    for_all (gov ∷ non ∷ []) (λ i. at i (deploy_optics evm))
    both_ways (with_remote (deploy_unenrolled_replica evm)) gov non
    both_ways (with_remote enroll_replica) gov non
    both_ways (with_remote enroll_watchers) gov non
    both_ways (with_remote (enroll_governance_router evm)) gov non
    at gov (appoint_governor evm)
    with_remote (transfer_governorship evm) non gov
    for_all (gov ∷ non ∷ []) (λ i. at i relinquish)
    at gov (check_core_deploy (domain_of fleet non ∷ []) (domain_of fleet gov))
    at non (check_core_deploy (domain_of fleet gov ∷ []) (domain_of fleet gov))
    unless_test ((fleet.deploys gov).test || (fleet.deploys non).test)
        (write_deploy_output (gov ∷ non ∷ []))

-- ===== src/Deploy/Suite.antt =====
-- The deployment of the contracts of one chain (typescript/optics-deploy/src/proxyUtils.ts and
-- core/index.ts). Logs are left out. A deploy changes only its own contracts, so that each function is
-- a method of it.
use optics_monorepo.Prelude.{false, none, some, [], ◌∷◌, codes, ok, or_throw, undefined_contract}
use optics_monorepo.Prelude.Exec.{Exec, reads, modify, ◌>>=◌, ◌>>◌}
use optics_monorepo.Deploy.Solidity.Storage.{zero_address}
use optics_monorepo.Deploy.Solidity.Connections
use optics_monorepo.Deploy.Solidity.UpdaterManagers
use optics_monorepo.Deploy.Proxies.{
  Evm, Deployment, submitted, send, create, verify_later, deploy_proxy,
}
use optics_monorepo.Deploy.Initializers.{encode_domain, initialize_home, initialize_governance}
use optics_monorepo.Deploy.State.{
  address, number, CoreContracts, CoreDeploy, ubc_address, xapp, updater_manager, home,
}

abbrev pub set_contracts : (CoreContracts → CoreContracts) → CoreDeploy → CoreDeploy
set_contracts change d = record d { contracts = change d.contracts }

-- `CoreDeploy` as a `Deploy`.
abbrev pub core : Deployment CoreDeploy
core = record {
  chain = λ d. d.chain;
  nonce = λ d. d.nonce;
  inputs = λ d. d.verification_input;
  ubc_address = λ d. or_throw (ubc_address d) undefined_contract;
  with_nonce = λ n d. record d { nonce = n };
  with_inputs = λ cs d. record d { verification_input = cs };
}

module _ (evm : Evm) where
  unfoldable pub deploy_upgrade_beacon_controller : Exec CoreDeploy (Unit {0})
  deploy_upgrade_beacon_controller = do
    created ← create evm core
    modify (λ d.
        set_contracts
          (λ c. record c {
            upgrade_beacon_controller =
                some (record { address = created; owner = d.chain.deployer });
          })
          d)
    modify (verify_later core (codes "UpgradeBeaconController") created [] none)

  unfoldable pub deploy_updater_manager : Exec CoreDeploy (Unit {0})
  deploy_updater_manager = do
    created ← create evm core
    modify (λ d.
        set_contracts
          (λ c. record c {
            updater_manager = some (record {
              address = created;
              owner = d.chain.deployer;
              home = zero_address;
              updater = d.config.updater;
            });
          })
          d)
    modify (λ d.
        verify_later core (codes "UpdaterManager") created (address d.config.updater ∷ []) none d)

  -- The test contract of the same name has this storage too.
  unfoldable pub deploy_xapp_connection_manager : Exec CoreDeploy (Unit {0})
  deploy_xapp_connection_manager = do
    created ← create evm core
    modify (λ d.
        set_contracts
          (λ c. record c {
            xapp_connection_manager = some (record {
              address = created;
              owner = d.chain.deployer;
              home = zero_address;
              replica_to_domain = λ _. 0;
              domain_to_replica = λ _. zero_address;
              watcher_permissions = λ _ _. false;
            });
          })
          d)
    modify (verify_later core (codes "XAppConnectionManager") created [] none)

  unfoldable pub deploy_home : Exec CoreDeploy (Unit {0})
  unfolding deploy_proxy
  deploy_home = do
    manager ← reads updater_manager
    d ← reads (λ d. ok d)
    reads (λ _. encode_domain d.chain.domain)
    deployed ←
        deploy_proxy evm core (codes "Home") (evm.encode_initialize (address manager.address ∷ []))
          (number d.chain.domain ∷ []) (initialize_home d.chain.domain d.chain.deployer manager)
    modify (set_contracts (λ c. record c { home = some deployed }))

  unfoldable pub deploy_governance_router : Exec CoreDeploy (Unit {0})
  unfolding deploy_proxy initialize_governance
  deploy_governance_router = do
    x ← reads xapp
    d ← reads (λ d. ok d)
    reads (λ _. encode_domain d.chain.domain)
    deployed ←
        deploy_proxy evm core (codes "Governance")
          (evm.encode_initialize (address x.address ∷ address d.config.recovery_manager ∷ []))
          (number d.chain.domain ∷ number d.config.recovery_timelock ∷ [])
          (initialize_governance d.chain d.config x (home d))
    modify (set_contracts (λ c. record c { governance = some deployed }))

  -- `xAppConnectionManager.setHome(...)`, which is not waited for.
  abbrev pub set_connections_home : Exec CoreDeploy (Unit {0})
  set_connections_home = do
    x ← reads xapp
    h ← reads home
    send core
    modify (λ d.
        set_contracts
          (λ c. record c {
            xapp_connection_manager =
                some (submitted (Connections.set_home d.chain.deployer h.proxy.address x) x);
          })
          d)

  -- `updaterManager.setHome(...)`, which is not waited for either.
  abbrev pub set_manager_home : Exec CoreDeploy (Unit {0})
  set_manager_home = do
    m ← reads updater_manager
    h ← reads home
    send core
    modify (λ d.
        set_contracts
          (λ c. record c {
            updater_manager =
                some (submitted (UpdaterManagers.set_home d.chain.deployer h.proxy.address m) m);
          })
          d)

  unfoldable pub deploy_optics : Exec CoreDeploy (Unit {0})
  unfolding deploy_upgrade_beacon_controller deploy_updater_manager deploy_xapp_connection_manager
      deploy_home deploy_governance_router Connections.set_home UpdaterManagers.set_home
  deploy_optics = do
    deploy_upgrade_beacon_controller
    deploy_updater_manager
    deploy_xapp_connection_manager
    deploy_home
    set_connections_home
    set_manager_home
    deploy_governance_router

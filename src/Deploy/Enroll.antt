-- ===== src/Deploy/Enroll.antt =====
-- Replicas, their enrollment, governorship and ownership (typescript/optics-deploy/src/core/index.ts).
-- A function of a local and a remote deploy is a method of the local one; the remote one is read.
use optics_monorepo.Prelude.{
  ℕ, true, Option, none, some, List, [], ◌∷◌, ◌++◌, Text, codes, Result, ok, err,
}
use optics_monorepo.Prelude.Map
use optics_monorepo.Prelude.Map.{Map}
use optics_monorepo.Prelude.Exec.{Exec, pure, reads, modify, ◌>>=◌, ◌>>◌, for_all}
use optics_monorepo.Messages.Ids.{to_bytes32}
use optics_monorepo.Deploy.Solidity.Storage.{zero_bytes32, Dispatched, Replica, GovernanceRouter}
use optics_monorepo.Deploy.Solidity.Connections
use optics_monorepo.Deploy.Solidity.Owned
use optics_monorepo.Deploy.Solidity.Governance
use optics_monorepo.Deploy.Initializers.{encode_domain, construct_replica, initialize_replica}
use optics_monorepo.Deploy.State.{
  address, number, init_data, Governor, BeaconProxy, CoreDeploy, ubc, xapp, updater_manager,
  governance, home, replica, least_entry,
}
use optics_monorepo.Deploy.Suite.{set_contracts, core}
use optics_monorepo.Deploy.Proxies.{Evm, submitted, send, deploy_proxy, duplicate}

-- The initializer runs if the implementation was created.
abbrev pub constructed : Result (Unit {0}) → (Text → Result Replica) → Text → Result Replica
constructed (ok u) initialize at = initialize at
constructed (err thrown) initialize at = err thrown

-- The new proxy for a replica: the whole setup, which needs that the implementation's constructor does
-- not revert (the error is seen when the proxy is waited for), or one more proxy of the first replica's beacon.
unfoldable pub replica_proxy :
    Evm
    → Text
    → (Text → Result Replica)
    → Map (BeaconProxy Replica)
    → Exec CoreDeploy (BeaconProxy Replica)
unfolding deploy_proxy duplicate least_entry
replica_proxy evm init_text initialize [] = do
  d ← reads (λ d. ok d)
  reads (λ _. encode_domain d.chain.domain)
  deploy_proxy evm core (codes "Replica") init_text
      (number d.chain.domain ∷ number d.config.process_gas ∷ number d.config.reserve_gas ∷ [])
      (constructed (construct_replica d.config) initialize)
replica_proxy evm init_text initialize ((domain, first) ∷ others) =
    duplicate evm core (codes "Replica") (least_entry domain first others).1 init_text initialize

-- A call of the local governance router, which has the local home dispatch.
abbrev pub call_governance :
    (GovernanceRouter → Result (GovernanceRouter × List Dispatched)) → Exec CoreDeploy (Unit {0})
call_governance call = do
  g ← reads governance
  h ← reads home
  send core
  effect ← reads (λ _. call g.proxy)
  modify (
      set_contracts (λ c. record c {
        governance = some (record g { proxy = effect.0 });
        home =
            some
              (record h { proxy = record h.proxy { dispatched = h.proxy.dispatched ++ effect.1 } });
      }))

unfoldable pub enroll_replica : CoreDeploy → Exec CoreDeploy (Unit {0})
unfolding Connections.owner_enroll_replica
enroll_replica remote = do
  x ← reads xapp
  r ← reads (λ d. replica d remote.chain.domain)
  send core
  changed ←
      reads (λ d.
        Connections.owner_enroll_replica d.chain.deployer r.proxy.address remote.chain.domain x)
  modify (set_contracts (λ c. record c { xapp_connection_manager = some changed }))

unfoldable pub enroll_watcher : ℕ → Text → Exec CoreDeploy (Unit {0})
unfolding Connections.set_watcher_permission
enroll_watcher domain watcher = do
  x ← reads xapp
  send core
  changed ← reads (λ d. Connections.set_watcher_permission d.chain.deployer watcher domain true x)
  modify (set_contracts (λ c. record c { xapp_connection_manager = some changed }))

-- The watchers are the local ones, with permission for the remote domain.
unfoldable pub enroll_watchers : CoreDeploy → Exec CoreDeploy (Unit {0})
unfolding for_all enroll_watcher
enroll_watchers remote = do
  d ← reads (λ d. ok d)
  for_all d.config.watchers (enroll_watcher remote.chain.domain)

module _ (evm : Evm) where
  unfoldable pub deploy_unenrolled_replica : CoreDeploy → Exec CoreDeploy (Unit {0})
  unfolding replica_proxy initialize_replica
  deploy_unenrolled_replica remote = do
    d ← reads (λ d. ok d)
    reads (λ _. encode_domain remote.chain.domain)
    proxy ←
        replica_proxy evm
          (evm.encode_initialize (
            number remote.chain.domain
            ∷ address remote.config.updater
            ∷ init_data zero_bytes32
            ∷ number remote.config.optimistic_seconds
            ∷ []))
          (initialize_replica remote.chain.domain remote.config.updater zero_bytes32
            remote.config.optimistic_seconds)
          d.contracts.replicas
    modify
        (set_contracts (λ c. record c { replicas = Map.set remote.chain.domain proxy c.replicas }))

  unfoldable pub enroll_governance_router : CoreDeploy → Exec CoreDeploy (Unit {0})
  unfolding Governance.set_router to_bytes32
  enroll_governance_router remote = do
    d ← reads (λ d. ok d)
    g ← reads (λ _. governance remote)
    call_governance (
        Governance.set_router (evm.timestamp d.chain.deployer d.nonce) d.chain.deployer
          remote.chain.domain (to_bytes32 g.proxy.address))

  unfoldable pub transfer_governorship : CoreDeploy → Exec CoreDeploy (Unit {0})
  unfolding Governance.transfer_governor
  transfer_governorship gov = do
    d ← reads (λ d. ok d)
    g ← reads (λ _. governance gov)
    call_governance (
        Governance.transfer_governor (evm.timestamp d.chain.deployer d.nonce) d.chain.deployer
          gov.chain.domain g.proxy.governor)

  unfoldable pub appoint : Option Governor → Exec CoreDeploy (Unit {0})
  unfolding Governance.transfer_governor
  appoint none = pure tt
  appoint (some governor) = do
    d ← reads (λ d. ok d)
    call_governance (
        Governance.transfer_governor (evm.timestamp d.chain.deployer d.nonce) d.chain.deployer
          governor.domain governor.address)

  unfoldable pub appoint_governor : Exec CoreDeploy (Unit {0})
  unfolding appoint
  appoint_governor = do d ← reads (λ d. ok d); appoint d.config.governor

-- The first three transfers are not waited for.
unfoldable pub relinquish : Exec CoreDeploy (Unit {0})
unfolding Owned.give_manager Owned.give_controller Owned.give_home Connections.transfer_ownership
relinquish = do
  g ← reads governance
  m ← reads updater_manager
  send core
  modify (λ d.
      set_contracts
        (λ c. record c {
          updater_manager =
              some (submitted (Owned.give_manager d.chain.deployer g.proxy.address m) m);
        })
        d)
  x ← reads xapp
  send core
  modify (λ d.
      set_contracts
        (λ c. record c {
          xapp_connection_manager =
              some
                (submitted (Connections.transfer_ownership d.chain.deployer g.proxy.address x) x);
        })
        d)
  u ← reads ubc
  send core
  modify (λ d.
      set_contracts
        (λ c. record c {
          upgrade_beacon_controller =
              some (submitted (Owned.give_controller d.chain.deployer g.proxy.address u) u);
        })
        d)
  h ← reads home
  send core
  given ← reads (λ d. Owned.give_home d.chain.deployer g.proxy.address h.proxy)
  modify (set_contracts (λ c. record c { home = some (record h { proxy = given }) }))

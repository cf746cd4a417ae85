-- ===== src/Deploy/Laws/Standing.antt =====
-- The state of a deploy once its suite stands, by what still varies (typescript/optics-deploy/src/core).
use optics_monorepo.Prelude.{ℕ, Bool, true, false, some, none, List, [], ◌∷◌, Text, codes}
use optics_monorepo.Prelude.Map.{Map}
use optics_monorepo.Deploy.Chain.{Chain}
use optics_monorepo.Deploy.Solidity.Storage.{
  zero_address, zero_bytes32, Dispatched, Replica, GovernanceRouter,
}
use optics_monorepo.Deploy.State.{
  Argument, address, number, init_data, ContractVerificationInput, BeaconProxy, CoreConfig,
  CoreDeploy,
}
use optics_monorepo.Deploy.Proxies.{Evm, created_address}

-- What the enrollments change.
pub record Links : Type 0 where
  pub nonce : ℕ
  pub inputs : List ContractVerificationInput
  pub replica_to_domain : Text → ℕ
  pub domain_to_replica : ℕ → Text
  pub watcher_permissions : Text → ℕ → Bool
  pub routers : ℕ → Text
  pub domains : List ℕ
  pub replicas : Map (BeaconProxy Replica)
  pub dispatched : List Dispatched

-- What the enrollment of a remote deploy reads of it.
pub record Peer : Type 0 where
  pub chain : Chain
  pub config : CoreConfig

abbrev pub peer : CoreDeploy → Peer
peer d = record { chain = d.chain; config = d.config }

abbrev pub input : Text → Text → List Argument → ContractVerificationInput
input name at args = record {
  name = name;
  address = at;
  constructor_arguments = args;
  is_proxy = none;
}

abbrev pub proxy_input : Text → Text → Text → Text → ContractVerificationInput
proxy_input name at beacon data_text = record {
  name = name;
  address = at;
  constructor_arguments = address beacon ∷ init_data data_text ∷ [];
  is_proxy = some true;
}

module _ (evm : Evm) where
  -- The address of the n-th contract of a deploy.
  abbrev pub nth : CoreDeploy → ℕ → Text
  nth d n = created_address evm d.chain.deployer n

  -- Its governance router, with this governor and these links.
  abbrev pub router_of : CoreDeploy → Text → ℕ → Links → GovernanceRouter
  router_of d governor governor_domain k = record {
    address = nth d 10;
    local_domain = d.chain.domain;
    recovery_timelock = d.config.recovery_timelock;
    recovery_active_at = 0;
    recovery_manager = d.config.recovery_manager;
    governor = governor;
    governor_domain = governor_domain;
    xapp_connection_manager = nth d 2;
    routers = k.routers;
    domains = k.domains;
  }

  -- A deploy with this owner of its contracts, this governor, and these links.
  abbrev pub deployed : CoreDeploy → Text → Text → ℕ → Links → CoreDeploy
  deployed d owner governor governor_domain k = record d {
    nonce = k.nonce;
    verification_input = k.inputs;
    contracts = record {
      upgrade_beacon_controller = some (record { address = nth d 0; owner = owner });
      updater_manager =
          some (record {
            address = nth d 1;
            owner = owner;
            home = nth d 5;
            updater = d.config.updater;
          });
      xapp_connection_manager = some (record {
        address = nth d 2;
        owner = owner;
        home = nth d 5;
        replica_to_domain = k.replica_to_domain;
        domain_to_replica = k.domain_to_replica;
        watcher_permissions = k.watcher_permissions;
      });
      home = some (record {
        implementation = nth d 3;
        beacon = nth d 4;
        proxy = record {
          address = nth d 5;
          local_domain = d.chain.domain;
          owner = owner;
          updater_manager = nth d 1;
          updater = d.config.updater;
          dispatched = k.dispatched;
        };
      });
      governance = some (record {
        implementation = nth d 8;
        beacon = nth d 9;
        proxy = router_of d governor governor_domain k;
      });
      replicas = k.replicas;
    };
  }

  -- The entries for Etherscan of the suite.
  abbrev pub suite_inputs : CoreDeploy → List ContractVerificationInput
  suite_inputs d =
      input (codes "UpgradeBeaconController") (nth d 0) []
      ∷ input (codes "UpdaterManager") (nth d 1) (address d.config.updater ∷ [])
      ∷ input (codes "XAppConnectionManager") (nth d 2) []
      ∷ input (codes "Home Implementation") (nth d 3) (number d.chain.domain ∷ [])
      ∷ input (codes "Home UpgradeBeacon") (nth d 4) (address (nth d 3) ∷ address (nth d 0) ∷ [])
      ∷ proxy_input (codes "Home Proxy") (nth d 5) (nth d 4)
          (evm.encode_initialize (address (nth d 1) ∷ []))
      ∷ input (codes "Governance Implementation") (nth d 8)
          (number d.chain.domain ∷ number d.config.recovery_timelock ∷ [])
      ∷ input (codes "Governance UpgradeBeacon") (nth d 9)
          (address (nth d 8) ∷ address (nth d 0) ∷ [])
      ∷ proxy_input (codes "Governance Proxy") (nth d 10) (nth d 9)
          (evm.encode_initialize (address (nth d 2) ∷ address d.config.recovery_manager ∷ []))
      ∷ []

  -- No links yet.
  abbrev pub unlinked : CoreDeploy → Links
  unlinked d = record {
    nonce = 11;
    inputs = suite_inputs d;
    replica_to_domain = λ _. 0;
    domain_to_replica = λ _. zero_address;
    watcher_permissions = λ _ _. false;
    routers = λ _. zero_bytes32;
    domains = [];
    replicas = [];
    dispatched = [];
  }

  -- The suite as deployed: the deployer owns it and governs it.
  abbrev pub owned : CoreDeploy → Links → CoreDeploy
  owned d k = deployed d d.chain.deployer d.chain.deployer d.chain.domain k

-- ===== src/Deploy/State.antt =====
-- The state of a deployment (typescript/optics-deploy/src: deploy.ts, proxyUtils.ts,
-- core/CoreContracts.ts, core/CoreDeploy.ts). A contract's handle is its storage.
use optics_monorepo.Prelude.{
  ℕ, Bool, false, Option, none, some, List, [], ◌∷◌, Text, Result, ok, undefined_contract, or_throw,
  ◌>>=◌, ltb, if◌then◌else◌,
}
use optics_monorepo.Prelude.Map
use optics_monorepo.Prelude.Map.{Map}
use optics_monorepo.Deploy.Chain.{DeployEnvironment, ChainJson, Chain, to_chain, or_else}
use optics_monorepo.Deploy.Solidity.Storage.{
  UpgradeBeaconController, UpdaterManager, XAppConnectionManager, Home, Replica, GovernanceRouter,
}

pub record Governor : Type 0 where
  pub domain : ℕ
  pub address : Text

pub record CoreConfig : Type 0 where
  pub environment : DeployEnvironment
  pub updater : Text
  pub recovery_timelock : ℕ
  pub recovery_manager : Text
  pub optimistic_seconds : ℕ
  pub watchers : List Text
  pub governor : Option Governor
  pub process_gas : ℕ
  pub reserve_gas : ℕ

pub record BeaconProxy (C : Type 0) : Type 0 where
  pub implementation : Text
  pub proxy : C
  pub beacon : Text

pub record ProxyAddresses : Type 0 where
  pub implementation : Text
  pub proxy : Text
  pub beacon : Text

-- `BeaconProxy.toObject`, by the address of the contract behind the proxy.
abbrev pub proxy_addresses : {C : Type 0} → (C → Text) → BeaconProxy C → ProxyAddresses
proxy_addresses address b = record {
  implementation = b.implementation;
  proxy = address b.proxy;
  beacon = b.beacon;
}

pub record CoreContracts : Type 0 where
  pub upgrade_beacon_controller : Option UpgradeBeaconController
  pub xapp_connection_manager : Option XAppConnectionManager
  pub updater_manager : Option UpdaterManager
  pub governance : Option (BeaconProxy GovernanceRouter)
  pub home : Option (BeaconProxy Home)
  pub replicas : Map (BeaconProxy Replica)

-- `new CoreContracts()`
abbrev pub new_core_contracts : CoreContracts
new_core_contracts = record {
  upgrade_beacon_controller = none;
  xapp_connection_manager = none;
  updater_manager = none;
  governance = none;
  home = none;
  replicas = [];
}

-- `any` in `constructorArguments: any[]`
pub data Argument : Type 0 where
  address : Text → Argument
  number : ℕ → Argument
  init_data : Text → Argument

pub record ContractVerificationInput : Type 0 where
  pub name : Text
  pub address : Text
  pub constructor_arguments : List Argument
  pub is_proxy : Option Bool

-- `nonce` is the number of transactions that the chain's `NonceManager` has sent.
pub record CoreDeploy : Type 0 where
  pub chain : Chain
  pub test : Bool
  pub config : CoreConfig
  pub contracts : CoreContracts
  pub verification_input : List ContractVerificationInput
  pub nonce : ℕ

unfoldable pub new_core_deploy : Chain → CoreConfig → Bool → CoreDeploy
new_core_deploy chain config test = record {
  chain = chain;
  test = test;
  config = config;
  contracts = new_core_contracts;
  verification_input = [];
  nonce = 0;
}

-- The optional fields of the `CoreConfig` part of the JSON that `parseCoreConfig` reads.
pub record CoreConfigJson : Type 0 where
  pub chain : ChainJson
  pub environment : DeployEnvironment
  pub updater : Text
  pub recovery_timelock : ℕ
  pub recovery_manager : Text
  pub optimistic_seconds : ℕ
  pub watchers : Option (List Text)
  pub governor : Option Governor
  pub process_gas : Option ℕ
  pub reserve_gas : Option ℕ

unfoldable pub parse_core_config : (Option Text → Text) → CoreConfigJson → Chain × CoreConfig
unfolding to_chain
parse_core_config address_of_key config = (
  to_chain address_of_key config.chain,
  record {
    environment = config.environment;
    updater = config.updater;
    watchers = or_else config.watchers [];
    recovery_manager = config.recovery_manager;
    recovery_timelock = config.recovery_timelock;
    optimistic_seconds = config.optimistic_seconds;
    governor = none;
    process_gas = or_else config.process_gas 850000;
    reserve_gas = or_else config.reserve_gas 15000;
  },
)

unfoldable pub fresh_from_config : (Option Text → Text) → CoreConfigJson → CoreDeploy
unfolding parse_core_config new_core_deploy
fresh_from_config address_of_key chain_config =
    let parsed = parse_core_config address_of_key chain_config in
    new_core_deploy parsed.0 parsed.1 false

-- `deploy.contracts.upgradeBeaconController?.address`
abbrev pub controller_address : Option UpgradeBeaconController → Option Text
controller_address none = none
controller_address (some u) = some u.address

abbrev pub ubc_address : CoreDeploy → Option Text
ubc_address d = controller_address d.contracts.upgrade_beacon_controller

-- `deploy.contracts.home!` and the like: `undefined` throws where a field of it is read.
module _ (d : CoreDeploy) where
  abbrev pub ubc : Result UpgradeBeaconController
  ubc = or_throw d.contracts.upgrade_beacon_controller undefined_contract

  abbrev pub xapp : Result XAppConnectionManager
  xapp = or_throw d.contracts.xapp_connection_manager undefined_contract

  abbrev pub updater_manager : Result UpdaterManager
  updater_manager = or_throw d.contracts.updater_manager undefined_contract

  abbrev pub governance : Result (BeaconProxy GovernanceRouter)
  governance = or_throw d.contracts.governance undefined_contract

  abbrev pub home : Result (BeaconProxy Home)
  home = or_throw d.contracts.home undefined_contract

  abbrev pub replica : ℕ → Result (BeaconProxy Replica)
  replica domain = or_throw (Map.get domain d.contracts.replicas) undefined_contract

pub record CoreContractAddresses : Type 0 where
  pub upgrade_beacon_controller : Text
  pub xapp_connection_manager : Text
  pub updater_manager : Text
  pub governance : ProxyAddresses
  pub home : ProxyAddresses
  pub replicas : Map ProxyAddresses

pub record CoreDeployAddresses : Type 0 where
  pub contracts : CoreContractAddresses
  pub recovery_manager : Text
  pub updater : Text
  pub governor : Option Governor

-- `CoreContracts.toObject`
unfoldable pub to_object : CoreDeploy → Result CoreContractAddresses
to_object d = do
  u ← ubc d
  x ← xapp d
  m ← updater_manager d
  g ← governance d
  h ← home d
  ok (record {
    upgrade_beacon_controller = u.address;
    xapp_connection_manager = x.address;
    updater_manager = m.address;
    governance = proxy_addresses (λ (c : GovernanceRouter). c.address) g;
    home = proxy_addresses (λ (c : Home). c.address) h;
    replicas = Map.map_values (proxy_addresses (λ (c : Replica). c.address)) d.contracts.replicas;
  })

-- The governor's domain is the chain's own, whichever domain was configured.
unfoldable pub contract_output : CoreDeploy → Result CoreDeployAddresses
unfolding to_object
contract_output d = do
  addresses ← to_object d
  ok (record {
    contracts = addresses;
    recovery_manager = d.config.recovery_manager;
    updater = d.config.updater;
    governor = elim d.config.governor [
      | none ↦ none
      | some g ↦ some (record { domain = d.chain.domain; address = g.address })
    ];
  })

-- `CoreDeploy.governor()`: the configured address, or the deployer's.
abbrev pub governor_or : Option Governor → Text → Text
governor_or none deployer = deployer
governor_or (some g) deployer = g.address

abbrev pub configured_governor : CoreDeploy → Text
configured_governor d = governor_or d.config.governor d.chain.deployer

-- `Object.entries(record)[0]`: the keys are numbers, so the entry with the smallest.
unfoldable pub least_entry : {V : Type 0} → ℕ → V → Map V → ℕ × V
least_entry k v [] = (k, v)
least_entry k v ((j, w) ∷ m) = least_entry (if ltb j k then j else k) (if ltb j k then w else v) m

-- ===== src/Deploy/Bridges.antt =====
-- The deployment of the bridges (typescript/optics-deploy/src/bridge: BridgeDeploy.ts,
-- BridgeContracts.ts, index.ts), with the storage of solidity/optics-xapps/contracts/bridge/BridgeRouter.sol
-- and the constructor of ETHHelper.sol beside it.
use optics_monorepo.Prelude.{
  ℕ, Bool, Option, none, some, List, [], ◌∷◌, Text, codes, text_eq, Result, ok, assertion,
  undefined_contract, reverted, or_throw, guard,
}
use optics_monorepo.Prelude.Exec.{Exec, pure, reads, modify, ◌>>=◌, ◌>>◌}
use optics_monorepo.Messages.Ids.{to_bytes32}
use optics_monorepo.Deploy.Chain.{Chain}
use optics_monorepo.Deploy.Initializers.{encode_domain}
use optics_monorepo.Deploy.Solidity.Routers
use optics_monorepo.Deploy.Solidity.Routers.{BridgeRouter, BridgeToken, initialize_router}
use optics_monorepo.Deploy.State.{
  address, ContractVerificationInput, BeaconProxy, ProxyAddresses, proxy_addresses,
  CoreContractAddresses,
}
use optics_monorepo.Deploy.Proxies.{Evm, Deployment, send, create, verify_later, deploy_proxy}

pub record BridgeContracts : Type 0 where
  pub bridge_router : Option (BeaconProxy BridgeRouter)
  pub bridge_token : Option (BeaconProxy BridgeToken)
  pub eth_helper : Option Text

-- The address of WETH is missing where it is empty too.
pub record BridgeDeploy : Type 0 where
  pub chain : Chain
  pub weth : Option Text
  pub core_deploy_path : Text
  pub core_contract_addresses : CoreContractAddresses
  pub test : Bool
  pub contracts : BridgeContracts
  pub verification_input : List ContractVerificationInput
  pub nonce : ℕ

-- `new BridgeDeploy(...)` with the core contracts at hand.
unfoldable pub new_bridge_deploy :
    Chain → Option Text → Text → Bool → CoreContractAddresses → BridgeDeploy
new_bridge_deploy chain weth path test core_contracts = record {
  chain = chain;
  weth = weth;
  core_deploy_path = path;
  core_contract_addresses = core_contracts;
  test = test;
  contracts = record { bridge_router = none; bridge_token = none; eth_helper = none };
  verification_input = [];
  nonce = 0;
}

-- `BridgeDeploy` as a `Deploy`.
abbrev pub bridge : Deployment BridgeDeploy
bridge = record {
  chain = λ d. d.chain;
  nonce = λ d. d.nonce;
  inputs = λ d. d.verification_input;
  ubc_address = λ d. ok d.core_contract_addresses.upgrade_beacon_controller;
  with_nonce = λ n d. record d { nonce = n };
  with_inputs = λ cs d. record d { verification_input = cs };
}

-- `BridgeContracts.toObject`
pub record BridgeAddresses : Type 0 where
  pub bridge_router : Option ProxyAddresses
  pub bridge_token : Option ProxyAddresses
  pub eth_helper : Option Text

abbrev pub optional_addresses :
    {C : Type 0} → (C → Text) → Option (BeaconProxy C) → Option ProxyAddresses
optional_addresses at none = none
optional_addresses at (some b) = some (proxy_addresses at b)

unfoldable pub bridge_to_object : BridgeContracts → BridgeAddresses
bridge_to_object c = record {
  bridge_router = optional_addresses (λ (r : BridgeRouter). r.address) c.bridge_router;
  bridge_token = optional_addresses (λ (t : BridgeToken). t.address) c.bridge_token;
  eth_helper = c.eth_helper;
}

abbrev pub router : BridgeDeploy → Result (BeaconProxy BridgeRouter)
router d = or_throw d.contracts.bridge_router undefined_contract

abbrev pub token : BridgeDeploy → Result (BeaconProxy BridgeToken)
token d = or_throw d.contracts.bridge_token undefined_contract

abbrev pub set_contracts : (BridgeContracts → BridgeContracts) → BridgeDeploy → BridgeDeploy
set_contracts change d = record d { contracts = change d.contracts }

module _ (evm : Evm) where
  -- The proxy is deployed with no call of an initializer.
  unfoldable pub deploy_token_upgrade_beacon : Exec BridgeDeploy (Unit {0})
  unfolding deploy_proxy
  deploy_token_upgrade_beacon = do
    deployed ←
        deploy_proxy evm bridge (codes "BridgeToken") (codes "0x") []
          (λ at. ok (record { address = at }))
    modify (set_contracts (λ c. record c { bridge_token = some deployed }))

  unfoldable pub deploy_bridge_router : Exec BridgeDeploy (Unit {0})
  unfolding deploy_proxy initialize_router
  deploy_bridge_router = do
    t ← reads token
    d ← reads (λ d. ok d)
    deployed ←
        deploy_proxy evm bridge (codes "BridgeRouter")
          (evm.encode_initialize
            (address t.beacon ∷ address d.core_contract_addresses.xapp_connection_manager ∷ []))
          []
          (initialize_router d.chain.deployer t.beacon
            d.core_contract_addresses.xapp_connection_manager)
    modify (set_contracts (λ c. record c { bridge_router = some deployed }))
    reads (λ _.
        guard
          (text_eq deployed.proxy.xapp_connection_manager
            d.core_contract_addresses.xapp_connection_manager)
          assertion)
    reads (λ _. guard (text_eq deployed.proxy.token_beacon t.beacon) assertion)

  -- The constructor has WETH approve the router, which reverts where there is no WETH; the address is
  -- kept before the deployment is waited for.
  deploy_helper_for : Option Text → Exec BridgeDeploy (Unit {0})
  deploy_helper_for none = pure tt
  deploy_helper_for (some weth) = do
    r ← reads router
    helper ← create evm bridge
    modify (set_contracts (λ c. record c { eth_helper = some helper }))
    reads (λ d. guard (evm.approves d.chain.deployer weth) reverted)
    modify (
        verify_later bridge (codes "ETH Helper") helper
          (address weth ∷ address r.proxy.address ∷ []) none)

  unfoldable pub deploy_eth_helper : Exec BridgeDeploy (Unit {0})
  unfolding deploy_helper_for
  deploy_eth_helper = do d ← reads (λ d. ok d); deploy_helper_for d.weth

  -- The three contracts of one chain, in this order.
  unfoldable pub deploy_bridge : Exec BridgeDeploy (Unit {0})
  unfolding deploy_token_upgrade_beacon deploy_bridge_router deploy_eth_helper
  deploy_bridge = do deploy_token_upgrade_beacon; deploy_bridge_router; deploy_eth_helper

unfoldable pub enroll_bridge_router : BridgeDeploy → Exec BridgeDeploy (Unit {0})
unfolding Routers.enroll_remote_router to_bytes32
enroll_bridge_router remote = do
  r ← reads router
  there ← reads (λ _. router remote)
  reads (λ _. encode_domain remote.chain.domain)
  send bridge
  changed ← reads (λ d.
      Routers.enroll_remote_router d.chain.deployer remote.chain.domain
        (to_bytes32 there.proxy.address) r.proxy)
  modify (set_contracts (λ c. record c { bridge_router = some (record r { proxy = changed }) }))

unfoldable pub transfer_ownership_to_governance : Exec BridgeDeploy (Unit {0})
unfolding Routers.transfer_ownership
transfer_ownership_to_governance = do
  r ← reads router
  send bridge
  changed ← reads (λ d.
      Routers.transfer_ownership d.chain.deployer d.core_contract_addresses.governance.proxy
        r.proxy)
  modify (set_contracts (λ c. record c { bridge_router = some (record r { proxy = changed }) }))

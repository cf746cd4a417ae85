-- ===== src/Deploy/Laws/BridgeSteps.antt =====
-- The steps of one bridge (typescript/optics-deploy/src/bridge/index.ts).
use optics_monorepo.Prelude.{
  ℕ, suc, Bool, true, false, ltb, ◌≡◌, refl, Option, none, some, List, [], ◌∷◌, Text, codes,
  text_eq, text_eq_refl, ok,
}
use optics_monorepo.Messages.Ids.{to_bytes32}
use optics_monorepo.Deploy.Chain.{Chain}
use optics_monorepo.Deploy.Solidity.Storage.{zero_address, zero_bytes32, assign}
use optics_monorepo.Deploy.Solidity.Routers.{BridgeRouter}
use optics_monorepo.Deploy.State.{
  address, ContractVerificationInput, BeaconProxy, CoreContractAddresses,
}
use optics_monorepo.Deploy.Proxies.{Evm, created_address}
use optics_monorepo.Deploy.Bridges.{
  BridgeDeploy, new_bridge_deploy, deploy_bridge, router, enroll_bridge_router,
  transfer_ownership_to_governance,
}
use optics_monorepo.Deploy.Laws.Linked.{input, proxy_input}

module _ (evm : Evm) where
  abbrev pub nth : BridgeDeploy → ℕ → Text
  nth d n = created_address evm d.chain.deployer n

  abbrev helper_at : Option Text → Text → Option Text
  helper_at none at = none
  helper_at (some weth) at = some at

  abbrev helper_inputs : Option Text → Text → Text → List ContractVerificationInput
  helper_inputs none at router_address = []
  helper_inputs (some weth) at router_address =
      input (codes "ETH Helper") at (address weth ∷ address router_address ∷ []) ∷ []

  abbrev pub bridge_inputs : BridgeDeploy → List ContractVerificationInput
  bridge_inputs d =
      input (codes "BridgeToken Implementation") (nth d 0) []
      ∷ input (codes "BridgeToken UpgradeBeacon") (nth d 1)
          (address (nth d 0) ∷ address d.core_contract_addresses.upgrade_beacon_controller ∷ [])
      ∷ proxy_input (codes "BridgeToken Proxy") (nth d 2) (nth d 1) (codes "0x")
      ∷ input (codes "BridgeRouter Implementation") (nth d 3) []
      ∷ input (codes "BridgeRouter UpgradeBeacon") (nth d 4)
          (address (nth d 3) ∷ address d.core_contract_addresses.upgrade_beacon_controller ∷ [])
      ∷ proxy_input (codes "BridgeRouter Proxy") (nth d 5) (nth d 4) (
          evm.encode_initialize
            (address (nth d 1) ∷ address d.core_contract_addresses.xapp_connection_manager ∷ []))
      ∷ helper_inputs d.weth (nth d 6) (nth d 5)

  -- A deploy with its bridge, with this owner and these remote routers.
  abbrev pub bridged : BridgeDeploy → Text → (ℕ → Text) → ℕ → BridgeDeploy
  bridged d owner remotes n = record d {
    nonce = n;
    verification_input = bridge_inputs d;
    contracts = record {
      bridge_token = some (record {
        implementation = nth d 0;
        beacon = nth d 1;
        proxy = record { address = nth d 2 };
      });
      bridge_router = some (record {
        implementation = nth d 3;
        beacon = nth d 4;
        proxy = record {
          address = nth d 5;
          owner = owner;
          token_beacon = nth d 1;
          xapp_connection_manager = d.core_contract_addresses.xapp_connection_manager;
          remotes = remotes;
        };
      });
      eth_helper = helper_at d.weth (nth d 6);
    };
  }

  abbrev pub helper_nonce : Option Text → ℕ
  helper_nonce none = 6
  helper_nonce (some weth) = 7

  -- The address of WETH, if there is one, is that of a contract that accepts `approve`.
  abbrev pub HasWeth : Chain → Option Text → Type 0
  HasWeth chain none = Unit {0}
  HasWeth chain (some weth) = evm.approves chain.deployer weth ≡ true

  pub deploy_bridge-new :
      (chain : Chain) (weth : Option Text) (path : Text) (test : Bool)
      (core : CoreContractAddresses)
      → HasWeth chain weth
      → deploy_bridge evm (new_bridge_deploy chain weth path test core) ≡ (
        ok tt,
        bridged
            (new_bridge_deploy chain weth path test core)
            chain.deployer
            (λ _. zero_bytes32)
            (helper_nonce weth),
      )
  unfolding deploy_bridge new_bridge_deploy text_eq
  deploy_bridge-new chain none path test core accepted =
      rw (text_eq_refl core.xapp_connection_manager, text_eq_refl (evm.digits chain.deployer 1))
        refl
  deploy_bridge-new chain (some weth) path test core accepted =
      rw
        (
          text_eq_refl core.xapp_connection_manager,
          text_eq_refl (evm.digits chain.deployer 1),
          accepted,
        )
        refl

  pub enroll_bridge_router-bridged :
      (d remote : BridgeDeploy) (remotes : ℕ → Text) (n : ℕ) (there : BeaconProxy BridgeRouter)
      → router remote ≡ ok there
      → ltb remote.chain.domain 4294967296 ≡ true
      → enroll_bridge_router remote (bridged d d.chain.deployer remotes n) ≡ (
        ok tt,
        bridged d d.chain.deployer
            (assign remote.chain.domain (to_bytes32 there.proxy.address) remotes)
            (suc n),
      )
  unfolding enroll_bridge_router to_bytes32
  enroll_bridge_router-bridged d remote remotes n there e small =
      rw (e, small, text_eq_refl d.chain.deployer) refl

  pub transfer_ownership-bridged :
      (d : BridgeDeploy) (remotes : ℕ → Text) (n : ℕ)
      → text_eq d.core_contract_addresses.governance.proxy zero_address ≡ false
      → transfer_ownership_to_governance (bridged d d.chain.deployer remotes n)
        ≡ (ok tt, bridged d d.core_contract_addresses.governance.proxy remotes (suc n))
  unfolding transfer_ownership_to_governance
  transfer_ownership-bridged d remotes n nonzero = rw (text_eq_refl d.chain.deployer, nonzero) refl

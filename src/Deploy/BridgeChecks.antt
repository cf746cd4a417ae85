-- ===== src/Deploy/BridgeChecks.antt =====
-- The checks of a finished bridge (typescript/optics-deploy/src/bridge/checks.ts).
use optics_monorepo.Prelude.{
  ℕ, not, Option, none, some, List, ◌∷◌, Text, codes, text_eq, Result, ok, err, undefined_contract,
  failed_check, ◌>>=◌, ◌>>◌,
}
use optics_monorepo.Deploy.Solidity.Storage.{zero_bytes32}
use optics_monorepo.Deploy.Solidity.Routers.{BridgeRouter, BridgeToken}
use optics_monorepo.Deploy.State.{ContractVerificationInput, BeaconProxy}
use optics_monorepo.Deploy.Checks.{expect, is_defined, check_each, check_verification_input}
use optics_monorepo.Deploy.Bridges.{BridgeDeploy, router, token}

-- There is a helper exactly if WETH is configured.
abbrev pub check_helper : Option Text → Option Text → Result (Unit {0})
check_helper (some weth) helper = expect (is_defined helper)
check_helper none helper = expect (not (is_defined helper))

-- `verificationInput[6].address`
abbrev pub seventh_address : List ContractVerificationInput → Result Text
seventh_address (a ∷ b ∷ c ∷ d ∷ e ∷ f ∷ g ∷ rest) = ok g.address
seventh_address _ = err undefined_contract

abbrev pub check_helper_input :
    Option Text → Option Text → List ContractVerificationInput → Result (Unit {0})
check_helper_input none helper inputs = ok tt
check_helper_input (some weth) none inputs = err failed_check
check_helper_input (some weth) (some helper) inputs =
    seventh_address inputs >>= λ at. expect (text_eq at helper)

unfoldable pub check_bridge_inputs :
    List ContractVerificationInput
    → BeaconProxy BridgeToken
    → BeaconProxy BridgeRouter
    → Result (Unit {0})
unfolding check_verification_input
check_bridge_inputs inputs t r = do
  check_verification_input inputs (codes "BridgeToken Implementation") t.implementation
  check_verification_input inputs (codes "BridgeToken UpgradeBeacon") t.beacon
  check_verification_input inputs (codes "BridgeToken Proxy") t.proxy.address
  check_verification_input inputs (codes "BridgeRouter Implementation") r.implementation
  check_verification_input inputs (codes "BridgeRouter UpgradeBeacon") r.beacon
  check_verification_input inputs (codes "BridgeRouter Proxy") r.proxy.address

unfoldable pub check_bridge_deploy : BridgeDeploy → List ℕ → Result (Unit {0})
unfolding check_each check_bridge_inputs
check_bridge_deploy d remotes = do
  t ← token d
  r ← router d
  check_helper d.weth d.contracts.eth_helper
  check_each remotes (λ domain. expect (not (text_eq (r.proxy.remotes domain) zero_bytes32)))
  expect (text_eq r.proxy.owner d.core_contract_addresses.governance.proxy)
  check_bridge_inputs d.verification_input t r
  check_helper_input d.weth d.contracts.eth_helper d.verification_input

-- ===== src/Deploy/Solidity/Routers.antt =====
-- solidity/optics-xapps/contracts/bridge/BridgeRouter.sol and solidity/optics-core/contracts's router
-- for cross-chain applications, as far as a deployment uses them.
use optics_monorepo.Prelude.{ℕ, Text, Result, ok, ◌>>◌}
use optics_monorepo.Deploy.Solidity.Storage.{zero_bytes32, assign, only, may_transfer}

pub record BridgeToken : Type 0 where
  pub address : Text

pub record BridgeRouter : Type 0 where
  pub address : Text
  pub owner : Text
  pub token_beacon : Text
  pub xapp_connection_manager : Text
  pub remotes : ℕ → Text

-- `initialize`, called by the deployer.
unfoldable pub initialize_router : Text → Text → Text → Text → Result BridgeRouter
initialize_router sender token_beacon xapp_connection_manager at = ok (record {
  address = at;
  owner = sender;
  token_beacon = token_beacon;
  xapp_connection_manager = xapp_connection_manager;
  remotes = λ _. zero_bytes32;
})

unfoldable pub enroll_remote_router : Text → ℕ → Text → BridgeRouter → Result BridgeRouter
enroll_remote_router sender domain router r =
    only sender r.owner >> ok (record r { remotes = assign domain router r.remotes })

unfoldable pub transfer_ownership : Text → Text → BridgeRouter → Result BridgeRouter
transfer_ownership sender new_owner r =
    may_transfer sender r.owner new_owner >> ok (record r { owner = new_owner })

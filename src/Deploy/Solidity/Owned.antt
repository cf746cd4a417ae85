-- ===== src/Deploy/Solidity/Owned.antt =====
-- `transferOwnership`, which UpdaterManager.sol, UpgradeBeaconController.sol and Home.sol
-- (solidity/optics-core/contracts) inherit from OpenZeppelin's `Ownable`.
use optics_monorepo.Prelude.{Text, Result, ok, ◌>>◌}
use optics_monorepo.Deploy.Solidity.Storage.{
  may_transfer, UpgradeBeaconController, UpdaterManager, Home,
}

unfoldable pub give_manager : Text → Text → UpdaterManager → Result UpdaterManager
give_manager sender new_owner m =
    may_transfer sender m.owner new_owner >> ok (record m { owner = new_owner })

unfoldable pub give_controller :
    Text → Text → UpgradeBeaconController → Result UpgradeBeaconController
give_controller sender new_owner u =
    may_transfer sender u.owner new_owner >> ok (record u { owner = new_owner })

unfoldable pub give_home : Text → Text → Home → Result Home
give_home sender new_owner h =
    may_transfer sender h.owner new_owner >> ok (record h { owner = new_owner })

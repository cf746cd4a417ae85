-- ===== src/Deploy/Solidity/UpdaterManagers.antt =====
-- solidity/optics-core/contracts/UpdaterManager.sol
use optics_monorepo.Prelude.{Text, Result, ok, ◌>>◌}
use optics_monorepo.Deploy.Solidity.Storage.{only, UpdaterManager}

unfoldable pub set_home : Text → Text → UpdaterManager → Result UpdaterManager
set_home sender home m = only sender m.owner >> ok (record m { home = home })

-- ===== src/Tests/Reported.antt =====
-- The theorems on bridges, on what deployments wrote and on the monitor at concrete inputs.
use optics_monorepo.Prelude.{
  ℕ, ◌≡◌, refl, true, false, none, some, List, [], ◌∷◌, ◌++◌, map, Text, codes, text_eq, ok, err,
  failed_check, if◌then◌else◌,
}
use optics_monorepo.Prelude.Exec.{◌>>◌, for_each}
use optics_monorepo.Deploy.Solidity.Storage.{zero_bytes32}
use optics_monorepo.Messages.Ids.{to_bytes32}
use optics_monorepo.Deploy.State.{CoreContractAddresses}
use optics_monorepo.Deploy.Bridges.{
  BridgeDeploy, new_bridge_deploy, deploy_bridge, enroll_bridge_router,
  transfer_ownership_to_governance,
}
use optics_monorepo.Deploy.BridgeChecks.{check_bridge_deploy}
use optics_monorepo.Deploy.Laws.BridgeSteps.{bridged}
use optics_monorepo.Deploy.Laws.Bridged.{check_bridge_deploy-deploy_bridge}
use optics_monorepo.Deploy.Outputs.{
  DirEntry, get_path_to_latest_config, greater, get_networks_from_deploy, default_ignored,
}
use mathlib.Core.List.{Memᴰ}
use mathlib.Core.List.Memᴰ.{head}
use optics_monorepo.Deploy.Laws.Latest.{IsCandidate, get_path_to_latest_config-greatest}
use optics_monorepo.Deploy.Laws.Networked.{
  Output, config_of, contracts_of, verification_of, partial_of, entry_of, with_contracts,
  get_networks_from_deploy-names,
}
use optics_monorepo.Metrics.{DispatchLog, MetricCollector, Logs, remotes_of as networks_but}
use optics_monorepo.Samples.Fleets.{small_evm, small_chain}

abbrev core_of_small : CoreContractAddresses
core_of_small = record {
  upgrade_beacon_controller = codes "0xu";
  xapp_connection_manager = codes "0xx";
  updater_manager = codes "0xm";
  governance = record { implementation = codes "0xi"; proxy = codes "0xg"; beacon = codes "0xb" };
  home = record { implementation = codes "0xi"; proxy = codes "0xh"; beacon = codes "0xb" };
  replicas = [];
}

abbrev remote_bridge : BridgeDeploy
remote_bridge =
    bridged small_evm (new_bridge_deploy (small_chain 1001) none (codes "path") false core_of_small)
      (codes "0xg") (λ t. zero_bytes32) 6

check_bridge_deploy-deploy_bridge_example :
    (final : BridgeDeploy) × ((deploy_bridge small_evm
          >> (for_each (remote_bridge ∷ []) enroll_bridge_router
              >> transfer_ownership_to_governance))
        (new_bridge_deploy
          (small_chain 1000)
          (some (codes "0xw"))
          (codes "path")
          false
          core_of_small)
      ≡ (ok tt, final))
    × (check_bridge_deploy final (1001 ∷ []) ≡ ok tt)
unfolding new_bridge_deploy text_eq to_bytes32
check_bridge_deploy-deploy_bridge_example =
    check_bridge_deploy-deploy_bridge small_evm (small_chain 1000) (some (codes "0xw"))
      (codes "path") false core_of_small (remote_bridge ∷ []) refl ((_, refl, refl, refl), tt) refl

abbrev some_entries : List DirEntry
some_entries =
    record { name = codes "1"; is_directory = true }
    ∷ record { name = codes "2"; is_directory = true }
    ∷ record { name = codes "mainnet"; is_directory = true }
    ∷ record { name = codes "3.json"; is_directory = false }
    ∷ []

get_path_to_latest_config-greatest_example :
    (e : DirEntry) × Memᴰ e some_entries
    × IsCandidate default_ignored e
    × (get_path_to_latest_config (codes "../config") some_entries default_ignored
        ≡ ok (codes "../config" ++ (codes "/" ++ e.name)))
    × ((o : DirEntry)
        → Memᴰ o some_entries
        → IsCandidate default_ignored o
        → greater o.name e.name ≡ false)
unfolding get_path_to_latest_config text_eq
get_path_to_latest_config-greatest_example =
    get_path_to_latest_config-greatest (codes "../config") some_entries default_ignored
      (record { name = codes "1"; is_directory = true }) (head refl)
      (refl, (refl, (refl, (refl, (refl, tt)))))

abbrev some_outputs : List Output
some_outputs =
    config_of (codes "kovan")
    ∷ contracts_of (codes "kovan")
    ∷ verification_of (codes "kovan")
    ∷ partial_of (codes "kathy")
    ∷ contracts_of (codes "celo")
    ∷ []

get_networks_from_deploy-names_example :
    get_networks_from_deploy (map entry_of some_outputs) ≡ with_contracts some_outputs
get_networks_from_deploy-names_example = get_networks_from_deploy-names some_outputs (
  (refl, (refl, (refl, (refl, (refl, tt))))),
  (
    (refl, (refl, (refl, (refl, (refl, tt))))),
    (
      (refl, (refl, (refl, (refl, (refl, tt))))),
      ((refl, (refl, (refl, (refl, (refl, tt))))), ((refl, (refl, (refl, (refl, tt)))), tt)),
    ),
  ),
)

-- The logs of three networks, one of which cannot be reached.
abbrev some_logs : Logs
some_logs = record {
  dispatches = λ network.
      if text_eq network (codes "c")
      then err failed_check
      else ok (log (codes "m") 0 ∷ log (codes "n") 1 ∷ []);
  processed = λ network remote.
      if text_eq network (codes "c") then err failed_check else ok (codes "m" ∷ []);
  transaction = λ network log. ok (codes "t");
}
  where
    log : Text → ℕ → DispatchLog
    log hash index = record { message_hash = hash; leaf_index = index }

abbrev no_metrics : MetricCollector
no_metrics = record {
  num_dispatched = λ network. none;
  num_processed = λ network. none;
  num_unprocessed = λ network. none;
  unprocessed_files = λ network. none;
}

-- ===== src/Samples/Fleets.antt =====
-- Small deployments: two and three chains with one watcher each.
use optics_monorepo.Prelude.{
  ℕ, ◌+◌, true, false, none, [], ◌∷◌, ◌++◌, Text, codes, replicate, text_eq, ◌==◌, ◌≡◌, refl, arith,
}
use optics_monorepo.Deploy.Chain.{Chain, dev}
use optics_monorepo.Deploy.State.{CoreConfig, CoreDeploy, new_core_deploy}
use optics_monorepo.Deploy.Proxies.{Evm, IsLawful}
use optics_monorepo.Deploy.Laws.Phases.{IsNew}
use optics_monorepo.Deploy.Laws.Steps.{IsDeployable}
use optics_monorepo.Deploy.Laws.Rounds.{Each}
use optics_monorepo.Deploy.Laws.TwoPhases.{Each-two}
use optics_monorepo.Deploy.Networks.{Fleet}

abbrev pub small_evm : Evm
small_evm = record {
  digits = λ deployer nonce. replicate 39 b'a' ++ (nonce ∷ []);
  timestamp = λ deployer nonce. nonce;
  encode_initialize = λ args. codes "0x";
  approves = λ deployer weth. true;
}

abbrev pub deployer_address : Text
deployer_address = codes "0x1111111111111111111111111111111111111111"

abbrev pub small_config : CoreConfig
small_config = record {
  environment = dev;
  updater = codes "0x2222222222222222222222222222222222222222";
  recovery_timelock = 1;
  recovery_manager = codes "0x3333333333333333333333333333333333333333";
  optimistic_seconds = 3;
  watchers = codes "0x4444444444444444444444444444444444444444" ∷ [];
  governor = none;
  process_gas = 850000;
  reserve_gas = 15000;
}

abbrev pub small_chain : ℕ → Chain
small_chain domain = record {
  domain = domain;
  name = codes "hh" ++ (domain ∷ []);
  provider = codes "";
  deployer = deployer_address;
  confirmations = 0;
  gas_price = 1;
  gas_limit = 1;
  config = record {
    name = codes "hh";
    rpc = codes "NA";
    domain = domain;
    deployer_key = none;
    gas_limit = none;
    gas_price = none;
    confirmations = none;
    max_fee_per_gas = none;
    max_priority_fee_per_gas = none;
  };
  max_fee_per_gas = none;
  max_priority_fee_per_gas = none;
}

-- The deploy under reference `i` is of domain `1000 + i`, not yet begun.
unfoldable pub small_fleet : Fleet
unfolding new_core_deploy
small_fleet = record {
  deploys = λ i. new_core_deploy (small_chain (1000 + i)) small_config false;
  written = [];
}

abbrev pub small : ℕ → CoreDeploy
small i = small_fleet.deploys i

small-distinct :
    (m n : ℕ) → text_eq (replicate 39 b'a' ++ (m ∷ [])) (replicate 39 b'a' ++ (n ∷ [])) ≡ (m == n)
unfolding text_eq
small-distinct m n = ground arith

pub small_evm-IsLawful : IsLawful small_evm
unfolding text_eq
small_evm-IsLawful = record {
  sized = λ account n. refl;
  nonzero = λ account n. refl;
  distinct = λ account m n. small-distinct m n;
}

pub small-IsNew : (i : ℕ) → IsNew (small i)
unfolding small_fleet new_core_deploy
small-IsNew i = refl

pub small-IsDeployable : Each (0 ∷ 1 ∷ []) (λ i. IsDeployable (small i))
unfolding small_fleet new_core_deploy
small-IsDeployable =
    Each-two (λ i. IsDeployable (small i)) 0 1 (refl, refl, refl) (refl, refl, refl)

-- ===== src/Deploy/Agents.antt =====
-- The configurations that a deployment writes for the agents (`toRustConfigs` and `buildConfig` of
-- typescript/optics-deploy/src/core/CoreDeploy.ts, with their types in chain.ts).
use optics_monorepo.Prelude.{
  ℕ, not, List, [], ◌∷◌, Text, codes, text_eq, Result, ok, ◌>>=◌, ◌==◌, if◌then◌else◌, filter,
}
use optics_monorepo.Deploy.Chain.{DeployEnvironment}
use optics_monorepo.Deploy.Solidity.Storage.{Replica}
use optics_monorepo.Deploy.State.{BeaconProxy, CoreDeploy, home, replica}

-- A `Record<string, V>`: a name that is there keeps its place.
unfoldable pub set_named : {V : Type 0} → Text → V → List (Text × V) → List (Text × V)
set_named name v [] = (name, v) ∷ []
set_named name v ((other, w) ∷ m) =
    if text_eq other name then (name, v) ∷ m else (other, w) ∷ set_named name v m

pub record RustSigner : Type 0 where
  pub key : Text
  pub type : Text

pub record RustConnection : Type 0 where
  pub type : Text
  pub url : Text

-- `domain.toString()` is kept as the number.
pub record RustContractBlock : Type 0 where
  pub address : Text
  pub domain : ℕ
  pub name : Text
  pub rpc_style : Text
  pub connection : RustConnection

pub record RustConfig : Type 0 where
  pub environment : DeployEnvironment
  pub signers : List (Text × RustSigner)
  pub replicas : List (Text × RustContractBlock)
  pub home : RustContractBlock
  pub tracing_level : Text
  pub tracing_format : Text
  pub db : Text

abbrev pub hex_signer : RustSigner
hex_signer = record { key = codes ""; type = codes "hexKey" }

abbrev pub contract_block : Text → CoreDeploy → RustContractBlock
contract_block at d = record {
  address = at;
  domain = d.chain.domain;
  name = d.chain.name;
  rpc_style = codes "ethereum";
  connection = record { type = codes "http"; url = codes "" };
}

-- The body of the loop over the remotes: a signer, and the replica of the local home on that chain.
unfoldable pub add_replica_block : CoreDeploy → BeaconProxy Replica → RustConfig → RustConfig
unfolding set_named
add_replica_block remote r config = record config {
  signers = set_named remote.chain.name hex_signer config.signers;
  replicas = set_named remote.chain.name (contract_block r.proxy.address remote) config.replicas;
}

unfoldable pub add_replicas : CoreDeploy → List CoreDeploy → RustConfig → Result RustConfig
unfolding add_replica_block
add_replicas local [] config = ok config
add_replicas local (remote ∷ remotes) config = replica remote local.chain.domain >>= λ r.
    add_replicas local remotes (add_replica_block remote r config)

-- The configuration before the loop.
abbrev pub local_config : CoreDeploy → Text → RustConfig
local_config local at = record {
  environment = local.config.environment;
  signers = (local.chain.name, hex_signer) ∷ [];
  replicas = [];
  home = contract_block at local;
  tracing_level = codes "debug";
  tracing_format = codes "json";
  db = codes "db_path";
}

unfoldable pub build_config : CoreDeploy → List CoreDeploy → Result RustConfig
unfolding add_replicas
build_config local remotes =
    home local >>= λ h. add_replicas local remotes (local_config local h.proxy.address)

-- The deploys of other domains.
abbrev pub remotes_of : CoreDeploy → List CoreDeploy → List CoreDeploy
remotes_of local = filter (λ remote. not (remote.chain.domain == local.chain.domain))

abbrev pub rust_configs : List CoreDeploy → List CoreDeploy → Result (List RustConfig)
rust_configs deploys [] = ok []
rust_configs deploys (local ∷ rest) = build_config local (remotes_of local deploys) >>= λ config.
    rust_configs deploys rest >>= λ configs. ok (config ∷ configs)

unfoldable pub to_rust_configs : List CoreDeploy → Result (List RustConfig)
unfolding build_config
to_rust_configs deploys = rust_configs deploys deploys

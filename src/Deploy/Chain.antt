-- ===== src/Deploy/Chain.antt =====
-- The description of a chain and what depends on it alone
-- (typescript/optics-deploy/src/chain.ts, and `supports1559` and `overrides` of deploy.ts).
use optics_monorepo.Prelude.{
  ℕ, Bool, false, not, ◌||◌, Option, none, some, List, [], ◌∷◌, Text, codes, text_eq, if◌then◌else◌,
  ◌==◌,
}

pub data DeployEnvironment : Type 0 where
  dev staging prod staging_community prod_community : DeployEnvironment

-- The value of `OPTICS_DEPLOY_ENVIRONMENT`, if it is set.
unfoldable pub deploy_environment : Option Text → DeployEnvironment
deploy_environment none = dev
deploy_environment (some e) =
    if text_eq e (codes "staging") then staging else if text_eq e (codes "prod") then prod else dev

-- Gas amounts and prices are numbers, whatever form of `BigNumberish` they are given in.
pub record ChainJson : Type 0 where
  pub name : Text
  pub rpc : Text
  pub domain : ℕ
  pub deployer_key : Option Text
  pub gas_limit : Option ℕ
  pub gas_price : Option ℕ
  pub confirmations : Option ℕ
  pub max_fee_per_gas : Option ℕ
  pub max_priority_fee_per_gas : Option ℕ

-- The provider is its URL and the deployer is its address.
pub record Chain : Type 0 where
  pub domain : ℕ
  pub name : Text
  pub provider : Text
  pub deployer : Text
  pub confirmations : ℕ
  pub gas_price : ℕ
  pub gas_limit : ℕ
  pub config : ChainJson
  pub max_fee_per_gas : Option ℕ
  pub max_priority_fee_per_gas : Option ℕ

-- `a ?? b`
abbrev pub or_else {ℓ} : {A : Type ℓ} → Option A → A → A
or_else none b = b
or_else (some a) b = a

-- `config.maxFeePerGas ? BigNumber.from(config.maxFeePerGas) : undefined`: 0 counts as missing.
abbrev pub unless_zero : Option ℕ → Option ℕ
unless_zero none = none
unless_zero (some n) = if n == 0 then none else some n

-- `address_of_key` is the address of `new ethers.Wallet(key)`.
unfoldable pub to_chain : (Option Text → Text) → ChainJson → Chain
to_chain address_of_key config = record {
  domain = config.domain;
  name = config.name;
  provider = config.rpc;
  deployer = address_of_key config.deployer_key;
  confirmations = or_else config.confirmations 5;
  gas_price = or_else config.gas_price 20000000000;
  gas_limit = or_else config.gas_limit 6000000;
  config = config;
  max_fee_per_gas = unless_zero config.max_fee_per_gas;
  max_priority_fee_per_gas = unless_zero config.max_priority_fee_per_gas;
}

-- `list.indexOf(name) !== -1`
unfoldable pub is_listed : Text → List Text → Bool
is_listed name [] = false
is_listed name (t ∷ ts) = text_eq t name || is_listed name ts

abbrev pub not_supported : List Text
not_supported =
    codes "kovan" ∷ codes "alfajores" ∷ codes "baklava" ∷ codes "celo" ∷ codes "polygon" ∷ []

unfoldable pub supports1559 : Chain → Bool
unfolding is_listed
supports1559 chain = not (is_listed chain.name not_supported)

-- `ethers.Overrides`, with `type: 0` in the second form.
pub data Overrides : Type 0 where
  priority : (max_fee max_priority_fee : Option ℕ) (gas_limit : ℕ) → Overrides
  legacy : (gas_price gas_limit : ℕ) → Overrides

unfoldable pub overrides : Chain → Overrides
unfolding supports1559
overrides chain =
    if supports1559 chain
    then priority chain.max_fee_per_gas chain.max_priority_fee_per_gas chain.gas_limit
    else legacy chain.gas_price chain.gas_limit

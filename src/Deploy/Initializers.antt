-- ===== src/Deploy/Initializers.antt =====
-- What a proxy's storage holds once its constructor has run the initializer
-- (solidity/optics-core/contracts: Home.sol, Replica.sol, governance/GovernanceRouter.sol). The domain,
-- the time lock and the gas amounts are arguments of the implementation, which the proxy runs.
use optics_monorepo.Prelude.{
  ℕ, [], Text, text_eq, Result, ok, reverted, guard, ◌>>=◌, ◌>>◌, ◌==◌, ltb, leb, range_error,
}
use optics_monorepo.Deploy.Chain.{Chain}
use optics_monorepo.Deploy.Solidity.Storage.{
  zero_bytes32, UpdaterManager, XAppConnectionManager, Home, Replica, GovernanceRouter,
}
use optics_monorepo.Deploy.State.{CoreConfig, BeaconProxy}

-- A domain as an argument of type `uint32`, which `ethers` encodes or throws.
abbrev pub encode_domain : ℕ → Result (Unit {0})
encode_domain domain = guard (ltb domain 4294967296) range_error

-- The constructor of the Replica implementation, with the gas amounts of the deploy's config.
abbrev pub construct_replica : CoreConfig → Result (Unit {0})
construct_replica config = do
  guard (leb 850000 config.process_gas) reverted
  guard (leb 15000 config.reserve_gas) reverted

-- `Home.initialize`, called by the deployer; the domain is an argument of the implementation.
abbrev pub initialize_home : ℕ → Text → UpdaterManager → Text → Result Home
initialize_home domain sender manager at = ok (record {
  address = at;
  local_domain = domain;
  owner = sender;
  updater_manager = manager.address;
  updater = manager.updater;
  dispatched = [];
})

-- `GovernanceRouter.initialize`, called by the deployer. The connection manager asks its home for
-- the domain, which answers if it is the proxy of the deploy's home.
unfoldable pub initialize_governance :
    Chain
    → CoreConfig
    → XAppConnectionManager
    → Result (BeaconProxy Home)
    → Text
    → Result GovernanceRouter
initialize_governance chain config x found at = do
  h ← found
  guard (text_eq x.home h.proxy.address) reverted
  guard (h.proxy.local_domain == chain.domain) reverted
  ok (record {
    address = at;
    local_domain = chain.domain;
    recovery_timelock = config.recovery_timelock;
    recovery_active_at = 0;
    recovery_manager = config.recovery_manager;
    governor = chain.deployer;
    governor_domain = chain.domain;
    xapp_connection_manager = x.address;
    routers = λ _. zero_bytes32;
    domains = [];
  })

-- `Replica.initialize` with the arguments that `deployUnenrolledReplica` gives it.
unfoldable pub initialize_replica : ℕ → Text → Text → ℕ → Text → Result Replica
initialize_replica remote_domain updater committed_root optimistic_seconds at = ok (record {
  address = at;
  remote_domain = remote_domain;
  updater = updater;
  committed_root = committed_root;
  optimistic_seconds = optimistic_seconds;
})

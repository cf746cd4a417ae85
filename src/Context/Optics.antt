-- ===== src/Context/Optics.antt =====
-- `OpticsContext` (typescript/optics-provider/src/optics/OpticsContext.ts): the overriding methods,
-- which reconnect the contracts, and the contract lookups.
use optics_monorepo.Prelude.{
  ℕ, Option, none, some, List, [], ◌∷◌, map, Text, Result, ok, reconnect_failed, missing_core,
  missing_bridge, missing_replica, or_throw, traverse, ◌>>=◌ as ◌then◌,
}
use optics_monorepo.Prelude.Map
use optics_monorepo.Prelude.Map.{Map}
use optics_monorepo.Prelude.Exec.{throw, reads, modify, ◌>>=◌, ◌>>◌, for_each}
use optics_monorepo.Context.Ethers.{Ethers, Connection}
use optics_monorepo.Context.State.{Domain, Context, Method}
use optics_monorepo.Context.Domains.{register_domain, resolve_domain, domain_numbers}
use optics_monorepo.Context.Contracts.{
  CoreContracts, BridgeContracts, CoreInfo, BridgeInfo, connect_core, connect_bridge,
  core_from_object, bridge_from_object,
}
use optics_monorepo.Context.MultiProvider
use optics_monorepo.Context.MultiProvider.{get_connection}
use optics_monorepo.Messages.Bridge.{NameOrDomain, number}

-- `OpticsDomain`
pub record OpticsDomain : Type 0 where
  pub base : Domain
  pub core : CoreInfo
  pub bridge : BridgeInfo

module _ (E : Ethers) where
  unfoldable pub add_domains : List Domain → Context E → Context E
  unfolding register_domain
  add_domains [] s = s
  add_domains (d ∷ ds) s = add_domains ds (register_domain d s)

  unfoldable pub add_cores : List (CoreContracts E) → Map (CoreContracts E) → Map (CoreContracts E)
  add_cores [] m = m
  add_cores (c ∷ cs) m = add_cores cs (Map.set c.domain c m)

  unfoldable pub add_bridges :
      List (BridgeContracts E) → Map (BridgeContracts E) → Map (BridgeContracts E)
  add_bridges [] m = m
  add_bridges (b ∷ bs) m = add_bridges bs (Map.set b.domain b m)

  -- The constructor.
  unfoldable pub new_context :
      List Domain → List (CoreContracts E) → List (BridgeContracts E) → Context E
  unfolding add_domains add_cores add_bridges
  new_context domains cores bridges =
      record (add_domains domains
        (record { domains = []; providers = []; signers = []; cores = []; bridges = [] })) {
          cores = add_cores cores [];
          bridges = add_bridges bridges [];
        }

  unfoldable pub from_domains : List OpticsDomain → Result (Context E)
  unfolding new_context
  from_domains domains =
      traverse (λ (d : OpticsDomain). core_from_object E none d.core) domains then λ cores.
      traverse (λ (d : OpticsDomain). bridge_from_object E none d.bridge) domains then λ bridges.
      ok (new_context (map (λ (d : OpticsDomain). d.base) domains) cores bridges)

  -- The contracts of a domain, connected.
  abbrev pub connect_contracts : ℕ → Connection E.Provider E.Signer → Context E → Context E
  connect_contracts d c s = record s {
    cores = Map.update d (connect_core E c) s.cores;
    bridges = Map.update d (connect_bridge E c) s.bridges;
  }

  unfoldable pub reconnect_to : ℕ → Option (Connection E.Provider E.Signer) → Method E
  reconnect_to d none = throw reconnect_failed
  reconnect_to d (some c) = modify (connect_contracts d c)

  unfoldable pub reconnect : ℕ → Method E
  unfolding reconnect_to
  reconnect d = do found ← reads (get_connection E (number d)); reconnect_to d found

  unfoldable pub unregister_signer : NameOrDomain → Method E
  unregister_signer nod = do
    d ← reads (resolve_domain nod)
    MultiProvider.unregister_signer E (number d)
    reconnect d

  unfoldable pub register_provider : NameOrDomain → E.Provider → Method E
  register_provider nod p = do
    d ← reads (resolve_domain nod)
    MultiProvider.register_provider E (λ k. unregister_signer (number k)) (number d) p
    reconnect d

  unfoldable pub register_signer : NameOrDomain → E.Signer → Method E
  register_signer nod x = do
    d ← reads (resolve_domain nod)
    MultiProvider.register_signer E (λ k. register_provider (number k)) (number d) x
    reconnect d

  unfoldable pub clear_signers : Method E
  clear_signers s =
      (MultiProvider.clear_signers E (λ k. unregister_signer (number k)) >> λ t.
      for_each (domain_numbers t) reconnect t)
        s

  -- `registerRpcProvider` and `registerWalletSigner`, inherited: they call the methods above.
  unfoldable pub register_rpc_provider : NameOrDomain → Text → Method E
  register_rpc_provider nod rpc = do
    d ← reads (resolve_domain nod)
    register_provider (number d) (E.json_rpc_provider rpc)

  unfoldable pub register_wallet_signer : NameOrDomain → Text → Method E
  register_wallet_signer nod privkey = do
    d ← reads (resolve_domain nod)
    register_signer (number d) (E.wallet privkey)

  unfoldable pub get_core : NameOrDomain → Context E → Result (Option (CoreContracts E))
  get_core nod s = resolve_domain nod s then λ d. ok (Map.get d s.cores)

  unfoldable pub must_get_core : NameOrDomain → Context E → Result (CoreContracts E)
  unfolding get_core
  must_get_core nod s = get_core nod s then λ c. or_throw c missing_core

  unfoldable pub get_bridge : NameOrDomain → Context E → Result (Option (BridgeContracts E))
  get_bridge nod s = resolve_domain nod s then λ d. ok (Map.get d s.bridges)

  unfoldable pub must_get_bridge : NameOrDomain → Context E → Result (BridgeContracts E)
  unfolding get_bridge
  must_get_bridge nod s = get_bridge nod s then λ b. or_throw b missing_bridge

  -- The key of the replica is resolved only if there is a core.
  unfoldable pub replica_of :
      NameOrDomain → Context E → Option (CoreContracts E) → Result (Option E.Contract)
  replica_of home s none = ok none
  replica_of home s (some core) = resolve_domain home s then λ d.
      ok (elim (Map.get d core.replicas) [ none ↦ none | some (r) ↦ some r.contract ])

  unfoldable pub get_replica_for :
      NameOrDomain → NameOrDomain → Context E → Result (Option E.Contract)
  unfolding get_core replica_of
  get_replica_for home remote s = get_core remote s then λ core. replica_of home s core

  unfoldable pub must_get_replica_for : NameOrDomain → NameOrDomain → Context E → Result E.Contract
  unfolding get_replica_for
  must_get_replica_for home remote s =
      get_replica_for home remote s then λ r. or_throw r missing_replica

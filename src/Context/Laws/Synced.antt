-- ===== src/Context/Laws/Synced.antt =====
-- Synced contracts: how the contracts of a domain relate to its registered connection.
use optics_monorepo.Prelude.{
  ℕ, ◌≡◌, refl, subst, false, Option, none, some, ◌==◌, ==_iff, Bool-cases, inl, inr,
}
use optics_monorepo.Prelude.Map
use optics_monorepo.Context.Ethers.{Ethers, IsLawful, Connection}
use optics_monorepo.Context.State.{Context}
use optics_monorepo.Context.Domains.{resolve_domain}
use optics_monorepo.Context.Contracts.{
  CoreContracts, BridgeContracts, InternalReplica, connect_core, connect_bridge,
}
use optics_monorepo.Context.MultiProvider.{prefer, get_connection}
use optics_monorepo.Context.Optics.{reconnect, reconnect_to, connect_contracts}

module _ (E : Ethers) where
  abbrev pub CoreRuns : Option (Connection E.Provider E.Signer) → Option (CoreContracts E) → Type 0
  CoreRuns none o = Unit
  CoreRuns (some c) none = Unit
  CoreRuns (some c) (some core) =
      (E.runner core.home ≡ some c)
      × ((k : ℕ) (r : InternalReplica E)
          → Map.get k core.replicas ≡ some r
          → E.runner r.contract ≡ some c)

  abbrev pub HelperRuns : Connection E.Provider E.Signer → Option E.Contract → Type 0
  HelperRuns c none = Unit
  HelperRuns c (some h) = E.runner h ≡ some c

  abbrev pub BridgeRuns :
      Option (Connection E.Provider E.Signer) → Option (BridgeContracts E) → Type 0
  BridgeRuns none o = Unit
  BridgeRuns (some c) none = Unit
  BridgeRuns (some c) (some b) = (E.runner b.bridge_router ≡ some c) × HelperRuns c b.eth_helper

  -- The connection of a domain: its signer, else its provider.
  abbrev pub best : ℕ → Context E → Option (Connection E.Provider E.Signer)
  best k s = prefer E (Map.get k s.signers) (Map.get k s.providers)

  -- The contracts of domain `k` run on its connection, if it has one.
  abbrev pub SyncedAt : ℕ → Context E → Type 0
  SyncedAt k s =
      CoreRuns (best k s) (Map.get k s.cores) × BridgeRuns (best k s) (Map.get k s.bridges)

  abbrev pub IsSynced : Context E → Type 0
  IsSynced s = (k : ℕ) → SyncedAt k s

  abbrev pub SyncedBut : ℕ → Context E → Type 0
  SyncedBut d s = (k : ℕ) → (d == k) ≡ false → SyncedAt k s

module _ (E : Ethers) (L : IsLawful E) where
  connect_core-CoreRuns :
      (c : Connection E.Provider E.Signer) (core : CoreContracts E)
      → CoreRuns E (some c) (some (connect_core E c core))
  unfolding connect_core
  connect_core-CoreRuns c core = (
    L.runner-connect core.home c,
    λ k r e.
        let (x, _, q) = Map.get-map_values_inv _ k core.replicas e in
        rw (← q) (L.runner-connect x.contract c),
  )

  connect_bridge-BridgeRuns :
      (c : Connection E.Provider E.Signer) (b : BridgeContracts E)
      → BridgeRuns E (some c) (some (connect_bridge E c b))
  unfolding connect_bridge
  connect_bridge-BridgeRuns c b = (L.runner-connect b.bridge_router c, helper b.eth_helper)
    where
      helper :
          (o : Option E.Contract)
          → HelperRuns E c (elim o [ none ↦ none | some h ↦ some (E.connect h c) ])
      helper none = tt
      helper (some h) = L.runner-connect h c

  core_update-CoreRuns :
      (c : Connection E.Provider E.Signer) (o : Option (CoreContracts E))
      → CoreRuns E (some c) (elim o [ none ↦ none | some v ↦ some (connect_core E c v) ])
  core_update-CoreRuns c none = tt
  core_update-CoreRuns c (some core) = connect_core-CoreRuns c core

  bridge_update-BridgeRuns :
      (c : Connection E.Provider E.Signer) (o : Option (BridgeContracts E))
      → BridgeRuns E (some c) (elim o [ none ↦ none | some v ↦ some (connect_bridge E c v) ])
  bridge_update-BridgeRuns c none = tt
  bridge_update-BridgeRuns c (some b) = connect_bridge-BridgeRuns c b

  IsSynced-of_SyncedBut : (d : ℕ) (s : Context E) → SyncedAt E d s → SyncedBut E d s → IsSynced E s
  IsSynced-of_SyncedBut d s h but k = elim (Bool-cases (d == k)) [
    | inl e ↦ subst (λ (j : ℕ). SyncedAt E j s) ((==_iff d k).0 e) h
    | inr e ↦ but k e
  ]

  reconnect_to-IsSynced :
      (d : ℕ) (o : Option (Connection E.Provider E.Signer)) (s : Context E)
      → best E d s ≡ o
      → SyncedBut E d s
      → IsSynced E (reconnect_to E d o s).1
  unfolding reconnect_to
  reconnect_to-IsSynced d none s e but = IsSynced-of_SyncedBut d s (rw e (tt, tt)) but
  reconnect_to-IsSynced d (some c) s e but =
      IsSynced-of_SyncedBut d (connect_contracts E d c s)
        (rw
          (
            e,
            Map.get-update_self d (connect_core E c) s.cores,
            Map.get-update_self d (connect_bridge E c) s.bridges,
          )
          (
            core_update-CoreRuns c (Map.get d s.cores),
            bridge_update-BridgeRuns c (Map.get d s.bridges),
          ))
        (λ k ne.
          rw
            (
              Map.get-update_ne d k (connect_core E c) s.cores ne,
              Map.get-update_ne d k (connect_bridge E c) s.bridges ne,
            )
            (but k ne))

  -- After a change at `d` alone, reconnecting `d` synchronizes everything, or throws because there
  -- is nothing to connect to.
  pub reconnect-IsSynced :
      (d : ℕ) (s : Context E) → SyncedBut E d s → IsSynced E (reconnect E d s).1
  unfolding reconnect get_connection resolve_domain
  reconnect-IsSynced d s but = reconnect_to-IsSynced d (best E d s) s refl but

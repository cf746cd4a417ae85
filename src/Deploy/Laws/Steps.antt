-- ===== src/Deploy/Laws/Steps.antt =====
-- The steps of a deployment on one chain (typescript/optics-deploy/src/core/index.ts).
use optics_monorepo.Prelude.{
  ℕ, Bool, true, ltb, leb, ◌≡◌, refl, List, [], ◌∷◌, some, Text, text_eq, text_eq_refl, eq_refl, ok,
}
use optics_monorepo.Prelude.Map
use optics_monorepo.Prelude.Map.{Map}
use optics_monorepo.Prelude.Exec.{for_all}
use optics_monorepo.Deploy.Chain.{Chain}
use optics_monorepo.Deploy.Solidity.Storage.{Replica}
use optics_monorepo.Deploy.State.{CoreConfig, CoreDeploy, BeaconProxy, new_core_deploy}
use optics_monorepo.Deploy.Proxies.{Evm, IsLawful}
use optics_monorepo.Deploy.Suite.{deploy_optics}
use optics_monorepo.Deploy.Enroll.{
  deploy_unenrolled_replica, enroll_replica, enroll_watcher, enroll_watchers,
  enroll_governance_router,
}
use optics_monorepo.Deploy.Laws.Linked.{
  Links, peer, unlinked, owned, add_replica, add_replica_to, enroll_at, permit, link_router,
  new_replica,
}

-- What the contracts' constructors require of a deploy's chain and config: a domain of 32 bits, and
-- enough gas for the processing of a message and for what is kept back.
abbrev pub IsDeployable : CoreDeploy → Type 0
IsDeployable d =
    (ltb d.chain.domain 4294967296 ≡ true)
    × (leb 850000 d.config.process_gas ≡ true)
    × (leb 15000 d.config.reserve_gas ≡ true)

module _ (evm : Evm) where
  pub deploy_optics-new_core_deploy :
      (chain : Chain) (config : CoreConfig) (test : Bool)
      → ltb chain.domain 4294967296 ≡ true
      → deploy_optics evm (new_core_deploy chain config test) ≡ (
        ok tt,
        owned evm
            (new_core_deploy chain config test)
            (unlinked evm (new_core_deploy chain config test)),
      )
  unfolding deploy_optics new_core_deploy text_eq
  deploy_optics-new_core_deploy chain config test small =
      rw
        (
          small,
          text_eq_refl chain.deployer,
          small,
          text_eq_refl (evm.digits chain.deployer 5),
          eq_refl chain.domain,
        )
        refl

  module _ (d remote : CoreDeploy) where
    pub deploy_unenrolled_replica-owned :
        IsDeployable d
        → IsDeployable remote
        → (k : Links)
        → deploy_unenrolled_replica evm remote (owned evm d k)
          ≡ (ok tt, owned evm d (add_replica evm d (peer remote) k))
    unfolding deploy_unenrolled_replica add_replica_to
    deploy_unenrolled_replica-owned (small, gas, reserve) (remote_small, u, v) k =
        replica_step k.replicas refl
      where
        replica_step :
            (m : Map (BeaconProxy Replica))
            → k.replicas ≡ m
            → deploy_unenrolled_replica evm remote (owned evm d k)
              ≡ (ok tt, owned evm d (add_replica evm d (peer remote) k))
        replica_step [] e = rw (e, remote_small, small, gas, reserve) refl
        replica_step ((j, p) ∷ m) e = rw (e, remote_small) refl

    pub enroll_replica-owned :
        (k : Links) (r : BeaconProxy Replica)
        → Map.get remote.chain.domain k.replicas ≡ some r
        → enroll_replica remote (owned evm d k)
          ≡ (ok tt, owned evm d (enroll_at r.proxy.address remote.chain.domain k))
    unfolding enroll_replica enroll_at
    enroll_replica-owned k r e = rw (e, text_eq_refl d.chain.deployer) refl

    enroll_watcher-owned :
        (domain : ℕ) (watcher : Text) (k : Links)
        → enroll_watcher domain watcher (owned evm d k)
          ≡ (ok tt, owned evm d (permit (watcher ∷ []) domain k))
    unfolding enroll_watcher permit
    enroll_watcher-owned domain watcher k = rw (text_eq_refl d.chain.deployer) refl

    for_all_watchers :
        (domain : ℕ) (ws : List Text) (k : Links)
        → for_all ws (enroll_watcher domain) (owned evm d k)
          ≡ (ok tt, owned evm d (permit ws domain k))
    unfolding for_all permit
    for_all_watchers domain [] k = refl
    for_all_watchers domain (w ∷ ws) k =
        rw (enroll_watcher-owned domain w k, for_all_watchers domain ws (permit (w ∷ []) domain k))
          refl

    pub enroll_watchers-owned :
        (k : Links)
        → enroll_watchers remote (owned evm d k)
          ≡ (ok tt, owned evm d (permit d.config.watchers remote.chain.domain k))
    unfolding enroll_watchers
    enroll_watchers-owned k = for_all_watchers remote.chain.domain d.config.watchers k

    pub enroll_governance_router-owned :
        IsLawful evm
        → (k j : Links)
        → enroll_governance_router evm (owned evm remote j) (owned evm d k)
          ≡ (ok tt, owned evm d (link_router evm d (peer remote) k))
    unfolding enroll_governance_router link_router text_eq
    enroll_governance_router-owned L k j =
        rw (text_eq_refl d.chain.deployer, L.nonzero remote.chain.deployer 10) refl

    pub replicas-add_replica_to :
        (m : Map (BeaconProxy Replica)) (k : Links)
        → (add_replica_to evm m d (peer remote) k).replicas
          ≡ Map.set remote.chain.domain (new_replica evm m d (peer remote) k) k.replicas
    unfolding add_replica_to new_replica
    replicas-add_replica_to [] k = refl
    replicas-add_replica_to ((j, p) ∷ m) k = refl

    pub get-add_replica :
        (k : Links)
        → Map.get remote.chain.domain (add_replica evm d (peer remote) k).replicas
          ≡ some (new_replica evm k.replicas d (peer remote) k)
    get-add_replica k =
        rw
          (
            replicas-add_replica_to k.replicas k,
            Map.get-set remote.chain.domain remote.chain.domain
                (new_replica evm k.replicas d (peer remote) k) k.replicas,
            eq_refl remote.chain.domain,
          )
          refl

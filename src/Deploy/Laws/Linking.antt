-- ===== src/Deploy/Laws/Linking.antt =====
-- One enrollment keeps the links there are and adds its own
-- (`enrollRemote` of typescript/optics-deploy/src/core/index.ts).
use optics_monorepo.Prelude.{
  All-map, ℕ, suc, ◌≤◌, ◌<◌, Bool, false, ◌≡◌, ◌≢◌, refl, ◌∙◌, ap, [], ◌∷◌, Text, text_eq,
  text_eq_refl, ◌==◌, eq_refl, arith,
}
use optics_monorepo.Prelude.Map
use optics_monorepo.Prelude.Map.{Map}
use optics_monorepo.Deploy.Solidity.Storage.{Replica}
use optics_monorepo.Deploy.State.{BeaconProxy, CoreDeploy}
use optics_monorepo.Deploy.Proxies.{Evm, IsLawful}
use optics_monorepo.Deploy.Laws.Linked.{
  Links, Peer, nth, replica_for, add_replica, add_replica_to, new_replica, enroll_at, permit,
  link_router, link,
}
use optics_monorepo.Deploy.Laws.Links.{Connected, IsFresh, allow_keeps, permit_list_lem, bump_le}

module _ (evm : Evm) (d : CoreDeploy) (p : Peer) where
  -- The number of the transaction that creates the new replica.
  abbrev replica_number : Map (BeaconProxy Replica) → ℕ → ℕ
  replica_number [] n = suc (suc n)
  replica_number (e ∷ m) n = n

  new_replica-proxy :
      (m : Map (BeaconProxy Replica)) (k : Links)
      → (new_replica evm m d p k).proxy ≡ replica_for evm p (nth evm d (replica_number m k.nonce))
  unfolding new_replica
  new_replica-proxy [] k = refl
  new_replica-proxy (e ∷ m) k = refl

  -- The new replica's address is that of one of the new transactions.
  replica_number-bounds :
      (m : Map (BeaconProxy Replica)) (k : Links)
      → (k.nonce ≤ replica_number m k.nonce)
        × (replica_number m k.nonce < (add_replica_to evm m d p k).nonce)
  unfolding add_replica_to
  replica_number-bounds [] k = (omega arith, omega arith)
  replica_number-bounds (e ∷ m) k = (omega arith, omega arith)

  -- Adding a replica leaves the other links alone.
  add_replica_to-unchanged :
      (m : Map (BeaconProxy Replica)) (k : Links)
      → ((add_replica_to evm m d p k).replica_to_domain ≡ k.replica_to_domain)
        × ((add_replica_to evm m d p k).domain_to_replica ≡ k.domain_to_replica)
        × ((add_replica_to evm m d p k).watcher_permissions ≡ k.watcher_permissions)
        × ((add_replica_to evm m d p k).routers ≡ k.routers)
  unfolding add_replica_to
  add_replica_to-unchanged [] k = (refl, refl, refl, refl)
  add_replica_to-unchanged (e ∷ m) k = (refl, refl, refl, refl)

  replicas-add_replica_to :
      (m : Map (BeaconProxy Replica)) (k : Links)
      → (add_replica_to evm m d p k).replicas
        ≡ Map.set p.chain.domain (new_replica evm m d p k) k.replicas
  unfolding add_replica_to new_replica
  replicas-add_replica_to [] k = refl
  replicas-add_replica_to (e ∷ m) k = refl

  module _ (L : IsLawful evm) where
    -- Comparing the addresses of two transactions compares their numbers.
    nth-distinct : (m n : ℕ) → text_eq (nth evm d m) (nth evm d n) ≡ (m == n)
    unfolding text_eq
    nth-distinct m n = L.distinct d.chain.deployer m n

    pub link-IsFresh : (k : Links) → IsFresh evm d k → IsFresh evm d (link evm d p k)
    unfolding link_router permit enroll_at
    link-IsFresh k fresh n later =
        let number = replica_number k.replicas k.nonce in
        let (low, high) = replica_number-bounds k.replicas k in
        let grown = bump_le d.config.watchers (suc (add_replica evm d p k).nonce) in
        let apart : (number == n) ≡ false = ground arith in
        rw
          (
            new_replica-proxy k.replicas k,
            nth-distinct number n,
            apart,
            (add_replica_to-unchanged k.replicas k).0,
          )
          (fresh n (omega arith))

    -- The new link.
    pub link-Connected : (k : Links) → IsFresh evm d k → Connected evm d p (link evm d p k)
    unfolding link_router permit enroll_at
    link-Connected k fresh =
        let m = k.replicas in
        let number = replica_number m k.nonce in
        let t = p.chain.domain in
        let (low, high) = replica_number-bounds m k in
        let (rd, dr, wp, ro) = add_replica_to-unchanged m k in
        let grown = bump_le d.config.watchers (suc (add_replica evm d p k).nonce) in
        let here = new_replica-proxy m k in
        record {
          replica = new_replica evm m d p k;
          number = number;
          found =
              rw
                (
                  replicas-add_replica_to m k,
                  Map.get-set t t (new_replica evm m d p k) k.replicas,
                  eq_refl t,
                )
                refl;
          located = here;
          earlier = omega arith;
          enrolled = rw (eq_refl t, here) refl;
          is_replica = rw (here, text_eq_refl (nth evm d number)) refl;
          router = rw (eq_refl t) refl;
          watched = permit_list_lem d.config.watchers t (add_replica evm d p k).watcher_permissions;
        }

    -- The links to peers of other domains stay.
    pub link-keeps :
        (q : Peer) (k : Links)
        → IsFresh evm d k
        → (p.chain.domain == q.chain.domain) ≡ false
        → q.chain.domain ≢ 0
        → Connected evm d q k
        → Connected evm d q (link evm d p k)
    unfolding link_router permit enroll_at
    link-keeps q k fresh apart positive c =
        let m = k.replicas in
        let number = replica_number m k.nonce in
        let t = q.chain.domain in
        let (low, high) = replica_number-bounds m k in
        let (rd, dr, wp, ro) = add_replica_to-unchanged m k in
        let grown = bump_le d.config.watchers (suc (add_replica evm d p k).nonce) in
        let here = new_replica-proxy m k in
        let before = c.earlier in
        let other : (number == c.number) ≡ false = ground arith in
        let zero_apart : (0 == t) ≡ false = ground (arith, positive) in
        record {
          replica = c.replica;
          number = c.number;
          found =
              rw
                (
                  replicas-add_replica_to m k,
                  Map.get-set p.chain.domain t (new_replica evm m d p k) k.replicas,
                  apart,
                )
                c.found;
          located = c.located;
          earlier = omega arith;
          enrolled = rw (apart, here, rd, fresh number low, zero_apart, dr) c.enrolled;
          is_replica = rw (here, nth-distinct number c.number, other, rd) c.is_replica;
          router = rw (apart, ro) c.router;
          watched =
              All-map d.config.watchers
                (λ w h.
                  allow_keeps d.config.watchers p.chain.domain
                    (add_replica evm d p k).watcher_permissions w t
                    (ap (λ (f : Text → ℕ → Bool). f w t) wp ∙ h))
                c.watched;
        }

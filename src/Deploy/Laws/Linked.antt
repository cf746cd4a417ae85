-- ===== src/Deploy/Laws/Linked.antt =====
-- The links of a deploy after each enrollment (typescript/optics-deploy/src/core/index.ts).
use optics_monorepo.Prelude.{
  ℕ, suc, Bool, true, List, [], ◌∷◌, ◌++◌, Text, codes, text_eq, if◌then◌else◌,
}
use optics_monorepo.Prelude.Map
use optics_monorepo.Prelude.Map.{Map}
use optics_monorepo.Messages.Ids.{to_bytes32}
use optics_monorepo.Deploy.Solidity.Storage.{
  zero_address, zero_bytes32, assign, assign_at, set_router_message, Replica,
}
use optics_monorepo.Deploy.Solidity.Governance.{send_to_all}
use optics_monorepo.Deploy.State.{address, number, init_data, BeaconProxy, CoreDeploy, least_entry}
use optics_monorepo.Deploy.Proxies.{Evm, created_address}
pub use optics_monorepo.Deploy.Laws.Standing.{
  suite_inputs, Links, Peer, peer, input, proxy_input, nth, router_of, deployed, unlinked, owned,
}

module _ (evm : Evm) where
  -- The replica of a remote deploy, at its address.
  abbrev pub replica_for : Peer → Text → Replica
  replica_for remote at = record {
    address = at;
    remote_domain = remote.chain.domain;
    updater = remote.config.updater;
    committed_root = zero_bytes32;
    optimistic_seconds = remote.config.optimistic_seconds;
  }

  abbrev pub replica_text : Peer → Text
  replica_text remote = evm.encode_initialize (
      number remote.chain.domain
      ∷ address remote.config.updater
      ∷ init_data zero_bytes32
      ∷ number remote.config.optimistic_seconds
      ∷ [])

  -- The links with one more replica: with its implementation and beacon, or with those of another.
  unfoldable pub first_replica : CoreDeploy → Peer → Links → Links
  first_replica d remote k =
      let implementation = nth evm d k.nonce in
      let beacon = nth evm d (suc k.nonce) in
      let proxy = nth evm d (suc (suc k.nonce)) in
      record k {
        nonce = suc (suc (suc k.nonce));
        inputs =
            k.inputs
            ++ (input (codes "Replica Implementation") implementation (
                  number d.chain.domain
                  ∷ number d.config.process_gas
                  ∷ number d.config.reserve_gas
                  ∷ [])
                ∷ [])
            ++ (input (codes "Replica UpgradeBeacon") beacon
                  (address implementation ∷ address (nth evm d 0) ∷ [])
                ∷ [])
            ++ (proxy_input (codes "Replica Proxy") proxy beacon (replica_text remote) ∷ []);
        replicas =
            Map.set remote.chain.domain
              (record {
                implementation = implementation;
                beacon = beacon;
                proxy = replica_for remote proxy;
              })
              k.replicas;
      }

  unfoldable pub next_replica : CoreDeploy → Peer → BeaconProxy Replica → Links → Links
  next_replica d remote prev k = record k {
    nonce = suc k.nonce;
    inputs =
        k.inputs
        ++ (proxy_input (codes "Replica Proxy") (nth evm d k.nonce) prev.beacon
              (replica_text remote)
            ∷ []);
    replicas =
        Map.set remote.chain.domain
          (record {
            implementation = prev.implementation;
            beacon = prev.beacon;
            proxy = replica_for remote (nth evm d k.nonce);
          })
          k.replicas;
  }

  unfoldable pub add_replica_to : Map (BeaconProxy Replica) → CoreDeploy → Peer → Links → Links
  unfolding first_replica next_replica
  add_replica_to [] d remote k = first_replica d remote k
  add_replica_to ((j, p) ∷ m) d remote k = next_replica d remote (least_entry j p m).1 k

  abbrev pub add_replica : CoreDeploy → Peer → Links → Links
  add_replica d remote k = add_replica_to k.replicas d remote k

  -- The links with the governance router of a remote deploy, which the other routers hear of.
  unfoldable pub link_router : CoreDeploy → Peer → Links → Links
  unfolding send_to_all to_bytes32
  link_router d remote k =
      let domain = remote.chain.domain in
      let router = to_bytes32 (created_address evm remote.chain.deployer 10) in
      let changed : Links = record k {
        nonce = suc k.nonce;
        domains =
            if text_eq (k.routers domain) zero_bytes32
            then k.domains ++ (domain ∷ [])
            else k.domains;
        routers = assign domain router k.routers;
      } in
      record changed {
        dispatched =
            k.dispatched
            ++ send_to_all changed.domains (set_router_message domain router)
                (router_of evm d d.chain.deployer d.chain.domain changed);
      }

  -- The replica that this adds.
  unfoldable pub new_replica :
      Map (BeaconProxy Replica) → CoreDeploy → Peer → Links → BeaconProxy Replica
  new_replica [] d remote k = record {
    implementation = nth evm d k.nonce;
    beacon = nth evm d (suc k.nonce);
    proxy = replica_for remote (nth evm d (suc (suc k.nonce)));
  }
  new_replica ((j, p) ∷ m) d remote k =
      let prev = (least_entry j p m).1 in
      record {
        implementation = prev.implementation;
        beacon = prev.beacon;
        proxy = replica_for remote (nth evm d k.nonce);
      }

-- The replica at `at` enrolled for `domain`.
unfoldable pub enroll_at : Text → ℕ → Links → Links
enroll_at at domain k = record k {
  nonce = suc k.nonce;
  replica_to_domain = assign_at at domain (assign_at at 0 k.replica_to_domain);
  domain_to_replica =
      assign domain at (assign (k.replica_to_domain at) zero_address k.domain_to_replica);
}

-- The permissions once the watchers have that for `domain`, and the transactions of that.
unfoldable pub allow : List Text → ℕ → (Text → ℕ → Bool) → Text → ℕ → Bool
allow [] domain f = f
allow (w ∷ ws) domain f = allow ws domain (assign_at w (assign domain true (f w)) f)

unfoldable pub bump : List Text → ℕ → ℕ
bump [] n = n
bump (w ∷ ws) n = bump ws (suc n)

unfoldable pub permit : List Text → ℕ → Links → Links
unfolding allow bump
permit ws domain k = record k {
  nonce = bump ws k.nonce;
  watcher_permissions = allow ws domain k.watcher_permissions;
}

-- What `enrollRemote` makes of the local links.
abbrev pub link : Evm → CoreDeploy → Peer → Links → Links
link evm d remote k = link_router evm d remote (
    permit d.config.watchers remote.chain.domain (
      enroll_at (new_replica evm k.replicas d remote k).proxy.address remote.chain.domain
        (add_replica evm d remote k)))

unfoldable pub link_all : Evm → CoreDeploy → List Peer → Links → Links
link_all evm d [] k = k
link_all evm d (remote ∷ remotes) k = link_all evm d remotes (link evm d remote k)

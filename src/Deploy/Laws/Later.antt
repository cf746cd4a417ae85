-- ===== src/Deploy/Laws/Later.antt =====
-- Links outlast further transactions and messages.
use optics_monorepo.Prelude.{ℕ, ◌≤◌, refl, Option, none, some, List, [], ◌∷◌, All, Text, arith}
use optics_monorepo.Prelude.Map
use optics_monorepo.Deploy.Solidity.Storage.{Dispatched, Replica}
use optics_monorepo.Deploy.State.{ContractVerificationInput, BeaconProxy, CoreDeploy}
use optics_monorepo.Deploy.Proxies.{Evm}
use optics_monorepo.Deploy.Laws.Linked.{Links, Peer, deployed}
use optics_monorepo.Deploy.Laws.Links.{Connected, Setup, no_replicas, shared}
use optics_monorepo.Deploy.Laws.Checked.{domains_of}
use optics_monorepo.Deploy.Laws.Proxies.{Found}

abbrev pub later : ℕ → List Dispatched → List ContractVerificationInput → Links → Links
later n messages cs k = record k { nonce = n; dispatched = messages; inputs = cs }

module _ (evm : Evm) (d : CoreDeploy) (n : ℕ) (messages : List Dispatched) where
  pub Connected-later :
      (p : Peer) (k : Links) (cs : List ContractVerificationInput)
      → k.nonce ≤ n
      → Connected evm d p k
      → Connected evm d p (later n messages cs k)
  Connected-later p k cs grown c =
      let before = c.earlier in
      record {
        replica = c.replica;
        number = c.number;
        found = c.found;
        located = c.located;
        earlier = omega arith;
        enrolled = c.enrolled;
        is_replica = c.is_replica;
        router = c.router;
        watched = c.watched;
      }

  pub Setup-later : (k : Links) → Setup evm d k → Setup evm d (later n messages k.inputs k)
  Setup-later k (no_replicas e i) = no_replicas e i
  Setup-later k (shared a b c t args args' rest j prev others e s i) =
      shared a b c t args args' rest j prev others e s i

abbrev pub push_found :
    Option (BeaconProxy Replica) → List (BeaconProxy Replica) → List (BeaconProxy Replica)
push_found none rs = rs
push_found (some r) rs = r ∷ rs

-- The replicas of the connected peers.
abbrev pub replicas_of : Links → List Peer → List (BeaconProxy Replica)
replicas_of k [] = []
replicas_of k (p ∷ ps) = push_found (Map.get p.chain.domain k.replicas) (replicas_of k ps)

pub Found-Connected :
    (evm : Evm) (d : CoreDeploy) (owner governor : Text) (domain : ℕ) (k : Links) (ps : List Peer)
    → All (λ p. Connected evm d p k) ps
    → Found (deployed evm d owner governor domain k) (domains_of ps) (replicas_of k ps)
Found-Connected evm d owner governor domain k [] h = tt
Found-Connected evm d owner governor domain k (p ∷ ps) (c, h) =
    rw c.found (rw c.found refl, Found-Connected evm d owner governor domain k ps h)

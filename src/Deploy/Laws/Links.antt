-- ===== src/Deploy/Laws/Links.antt =====
-- The links of a deploy to the remote deploys it has enrolled
-- (`enrollRemote` of typescript/optics-deploy/src/core/index.ts).
use optics_monorepo.Prelude.{
  ℕ, suc, ◌≤◌, ◌<◌, Bool, true, ◌≡◌, refl, ◌∙◌, ap, inl, inr, some, List, [], ◌∷◌, ◌++◌, Text,
  text_eq, text_eq_refl, ◌==◌, eq_refl, Bool-cases, All, codes, arith,
}
use optics_monorepo.Prelude.Map
use optics_monorepo.Prelude.Map.{Map}
use optics_monorepo.Messages.Ids.{to_bytes32}
use optics_monorepo.Deploy.Solidity.Storage.{assign, assign_at, Replica}
use optics_monorepo.Deploy.State.{Argument, ContractVerificationInput, BeaconProxy, CoreDeploy}
use optics_monorepo.Deploy.Proxies.{Evm, created_address}
use optics_monorepo.Deploy.Laws.Linked.{
  Links, Peer, nth, input, proxy_input, suite_inputs, replica_for, allow, bump,
}

-- Texts that compare equal are equal.
pub text_eq_sound : (s t : Text) → text_eq s t ≡ true → s ≡ t
unfolding text_eq
text_eq_sound [] [] e = refl
text_eq_sound [] (b ∷ t) e = absurd cc
text_eq_sound (a ∷ s) [] e = absurd cc
text_eq_sound (a ∷ s) (b ∷ t) e = ground (arith, text_eq_sound s t)

-- A permission that is given stays, also of another watcher or for another domain.
pub allow_keeps :
    (ws : List Text) (domain : ℕ) (f : Text → ℕ → Bool) (w : Text) (t : ℕ)
    → f w t ≡ true
    → allow ws domain f w t ≡ true
unfolding allow
allow_keeps [] domain f w t h = h
allow_keeps (v ∷ vs) domain f w t h =
    allow_keeps vs domain (assign_at v (assign domain true (f v)) f) w t
      (elim (Bool-cases (text_eq v w)) [
        | inl e ↦ rw e (elim (Bool-cases (domain == t)) [
          | inl q ↦ rw q refl
          | inr q ↦ rw q (ap (λ (x : Text). f x t) (text_eq_sound v w e) ∙ h)
        ])
        | inr e ↦ rw e h
      ])

pub permit_list_lem :
    (ws : List Text) (domain : ℕ) (f : Text → ℕ → Bool)
    → All (λ w. allow ws domain f w domain ≡ true) ws
unfolding allow
permit_list_lem [] domain f = tt
permit_list_lem (w ∷ ws) domain f = (
  allow_keeps ws domain (assign_at w (assign domain true (f w)) f) w domain
      (rw (text_eq_refl w, eq_refl domain) refl),
  permit_list_lem ws domain (assign_at w (assign domain true (f w)) f),
)

pub bump_le : (ws : List Text) (n : ℕ) → n ≤ bump ws n
unfolding bump
bump_le [] n = omega arith
bump_le (w ∷ ws) n = omega (arith, bump_le ws (suc n))

module _ (evm : Evm) (d : CoreDeploy) where
  -- The deploy is connected to a peer: a replica at the address of one of its transactions follows
  -- the peer's home, the connection manager holds it under the peer's domain and no other, the
  -- governance router has the peer's, and every watcher may unenroll the replica.
  pub record Connected (p : Peer) (k : Links) : Type 0 where
    pub replica : BeaconProxy Replica
    pub number : ℕ
    pub found : Map.get p.chain.domain k.replicas ≡ some replica
    pub located : replica.proxy ≡ replica_for evm p (nth evm d number)
    pub earlier : number < k.nonce
    pub enrolled : k.domain_to_replica p.chain.domain ≡ nth evm d number
    pub is_replica : k.replica_to_domain (nth evm d number) ≡ p.chain.domain
    pub router : k.routers p.chain.domain ≡ to_bytes32 (created_address evm p.chain.deployer 10)
    pub watched : All (λ w. k.watcher_permissions w p.chain.domain ≡ true) d.config.watchers

  -- No contract at the address of a later transaction is a replica.
  abbrev pub IsFresh : Links → Type 0
  IsFresh k = (n : ℕ) → k.nonce ≤ n → k.replica_to_domain (nth evm d n) ≡ 0

  abbrev pub SharedBy : Text → Text → Map (BeaconProxy Replica) → Type 0
  SharedBy implementation beacon = All (λ (e : ℕ × BeaconProxy Replica).
      (e.1.implementation ≡ implementation) × (e.1.beacon ≡ beacon))

  -- All replicas share one implementation and one beacon, which the entries for Etherscan name.
  pub data Setup (k : Links) : Type 0 where
    no_replicas : k.replicas ≡ [] → k.inputs ≡ suite_inputs evm d → Setup k
    shared :
        (implementation beacon proxy proxy_text : Text) (args args' : List Argument)
        (rest : List ContractVerificationInput) (j : ℕ) (prev : BeaconProxy Replica)
        (others : Map (BeaconProxy Replica))
        → k.replicas ≡ (j, prev) ∷ others
        → SharedBy implementation beacon ((j, prev) ∷ others)
        → k.inputs
          ≡ suite_inputs evm d
            ++ (input (codes "Replica Implementation") implementation args
                ∷ input (codes "Replica UpgradeBeacon") beacon args'
                ∷ proxy_input (codes "Replica Proxy") proxy beacon proxy_text
                ∷ rest)
        → Setup k

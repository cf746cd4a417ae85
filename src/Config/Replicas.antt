-- ===== src/Config/Replicas.antt =====
-- The contexts that `OpticsContext.fromDomains` makes of the configured deployments, which
-- typescript/optics-provider/src/optics/OpticsContext.ts exports (`mainnet`, `dev`, …).
use optics_monorepo.Prelude.{
  ◌≡◌, ◌≢◌, refl, ap, ◌∙◌, Bool, true, false, ◌&&◌, ◌||◌, List, [], ◌∷◌, Result, ok, err, ◌>>=◌,
  ◌==◌, ==_iff, Bool-cases, inl, inr, arith,
}
use mathlib.Core.List.{Memᴰ}
use mathlib.Core.List.Memᴰ.{head, tail}
use optics_monorepo.Prelude.Map
use optics_monorepo.Context.Ethers.{Ethers}
use optics_monorepo.Context.Domains.{resolve_domain, register_domain}
use optics_monorepo.Context.Contracts.{
  core_from_object, create_core, bridge_from_object, create_bridge, new_core, new_bridge,
  enroll_replicas,
}
use optics_monorepo.Context.Optics.{
  OpticsDomain, from_domains, new_context, add_domains, add_cores, add_bridges,
  must_get_replica_for, get_replica_for, get_core, replica_of,
}
use optics_monorepo.Messages.Bridge.{number}
use optics_monorepo.Config.Mainnet.{mainnet_domains}
use optics_monorepo.Config.MainnetCommunity.{mainnet_community_domains}
use optics_monorepo.Config.Dev.{dev_domains}
use optics_monorepo.Config.Staging.{staging_domains}
use optics_monorepo.Config.StagingCommunity.{staging_community_domains}

-- The five lists that contexts are exported for.
abbrev pub configurations : List (List OpticsDomain)
configurations =
    mainnet_domains ∷ mainnet_community_domains ∷ dev_domains ∷ staging_domains
    ∷ staging_community_domains ∷ []

abbrev every : {A : Type 0} → (A → Bool) → List A → Bool
every p [] = true
every p (x ∷ xs) = p x && every p xs

every-Memᴰ :
    {A : Type 0} (p : A → Bool) {x : A} (xs : List A) → every p xs ≡ true → Memᴰ x xs → p x ≡ true
every-Memᴰ p [] h m = elim m [ ]
every-Memᴰ p (y ∷ ys) h (head e) = ap p e ∙ ground (arith, h)
every-Memᴰ p (y ∷ ys) h (tail m) = every-Memᴰ p ys (ground (arith, h)) m

abbrev is_ok : {A : Type 0} → Result A → Bool
is_ok (ok a) = true
is_ok (err e) = false

is_ok-eq : {A : Type 0} (r : Result A) → is_ok r ≡ true → (a : A) × (r ≡ ok a)
is_ok-eq (ok a) h = (a, refl)
is_ok-eq (err e) h = absurd cc

module _ (E : Ethers) where
  -- `fromDomains`, and then the replica of one domain's home on another.
  abbrev pub configured_replica :
      List OpticsDomain → OpticsDomain → OpticsDomain → Result E.Contract
  configured_replica ds home remote = from_domains E ds >>= λ s.
      must_get_replica_for E (number home.base.id) (number remote.base.id) s

  abbrev connects : List OpticsDomain → OpticsDomain → OpticsDomain → Bool
  connects ds home remote =
      home.base.id == remote.base.id || is_ok (configured_replica ds home remote)

  abbrev is_complete : List OpticsDomain → Bool
  is_complete ds = every (λ home. every (connects ds home) ds) ds

  configurations_complete : every is_complete configurations ≡ true
  unfolding mainnet_domains mainnet_community_domains dev_domains staging_domains
      staging_community_domains from_domains core_from_object create_core bridge_from_object
      create_bridge new_core new_bridge new_context add_domains add_cores add_bridges
      enroll_replicas register_domain must_get_replica_for get_replica_for get_core replica_of
      resolve_domain Map.get Map.set
  configurations_complete = refl

  -- Every exported context can be made, and in it, for any two of its domains with different numbers,
  -- there is a replica of the one's home on the other.
  pub configured_replica-exists :
      (ds : List OpticsDomain) (home remote : OpticsDomain)
      → Memᴰ ds configurations
      → Memᴰ home ds
      → Memᴰ remote ds
      → home.base.id ≢ remote.base.id
      → (c : E.Contract) × (configured_replica ds home remote ≡ ok c)
  configured_replica-exists ds home remote config mh mr differ =
      let complete = every-Memᴰ is_complete configurations configurations_complete config in
      let from_home = every-Memᴰ (λ h. every (connects ds h) ds) ds complete mh in
      let connected = every-Memᴰ (connects ds home) ds from_home mr in
      is_ok-eq (configured_replica ds home remote) (other_case connected)
    where
      other_case : connects ds home remote ≡ true → is_ok (configured_replica ds home remote) ≡ true
      other_case h = elim (Bool-cases (home.base.id == remote.base.id)) [
        | inl q ↦ absurd (differ ((==_iff home.base.id remote.base.id).0 q))
        | inr q ↦ rw q at h
      ]

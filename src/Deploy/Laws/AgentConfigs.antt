-- ===== src/Deploy/Laws/AgentConfigs.antt =====
-- The agents' configurations (`toRustConfigs` of typescript/optics-deploy/src/core/CoreDeploy.ts).
use optics_monorepo.Prelude.{
  Bool, false, ◌≡◌, refl, sym, ◌∙◌, ap, inl, inr, Option, some, List, [], ◌∷◌, map, filter, ◌==◌,
  Bool-cases, Text, text_eq, All, ok, or_throw, undefined_contract, ◌>>=◌,
}
use optics_monorepo.Deploy.Solidity.Storage.{Home}
use optics_monorepo.Deploy.State.{BeaconProxy, CoreDeploy}
use optics_monorepo.Deploy.Agents.{
  RustContractBlock, hex_signer, local_config, add_replicas, build_config, remotes_of, rust_configs,
  to_rust_configs,
}
use optics_monorepo.Deploy.Laws.AgentBlocks.{
  home_or_empty, agent_config, DistinctNames, AllUnnamed, HasReplica, add_replicas-map,
  signer_entry, block_entry, with_entries,
}

-- Deploys of which each has a home, and of any two of different domains each has a replica of the
-- other's home and another name.
abbrev pub Joined : List CoreDeploy → CoreDeploy → Type 0
Joined deploys local =
    ((h : BeaconProxy Home) × (local.contracts.home ≡ some h))
    × All
        (λ (remote : CoreDeploy).
          (remote.chain.domain == local.chain.domain) ≡ false
          → HasReplica local remote × (text_eq local.chain.name remote.chain.name ≡ false))
        deploys

remotes_of-Joined :
    (local : CoreDeploy) (ds : List CoreDeploy)
    → All
        (λ (remote : CoreDeploy).
          (remote.chain.domain == local.chain.domain) ≡ false
          → HasReplica local remote × (text_eq local.chain.name remote.chain.name ≡ false))
        ds
    → All (HasReplica local) (remotes_of local ds)
      × All
          (λ (d : CoreDeploy). text_eq local.chain.name d.chain.name ≡ false)
          (remotes_of local ds)
remotes_of-Joined local [] h = (tt, tt)
remotes_of-Joined local (d ∷ ds) (j, h) =
    let (rest, names) = remotes_of-Joined local ds h in
    elim (Bool-cases (d.chain.domain == local.chain.domain)) [
      | inl e ↦ rw e (rest, names)
      | inr e ↦ let (r, n) = j e in rw e ((r, rest), (n, names))
    ]

filter-All :
    (P : CoreDeploy → Type 0) (p : CoreDeploy → Bool) (ds : List CoreDeploy)
    → All P ds
    → All P (filter p ds)
filter-All P p [] h = tt
filter-All P p (d ∷ ds) (x, h) = elim (Bool-cases (p d)) [
  | inl e ↦ rw e (x, filter-All P p ds h)
  | inr e ↦ rw e (filter-All P p ds h)
]

filter-DistinctNames :
    (p : CoreDeploy → Bool) (ds : List CoreDeploy) → DistinctNames ds → DistinctNames (filter p ds)
filter-DistinctNames p [] h = tt
filter-DistinctNames p (d ∷ ds) (x, h) = elim (Bool-cases (p d)) [
  | inl e ↦ rw e (
    filter-All (λ q. text_eq d.chain.name q.chain.name ≡ false) p ds x,
    filter-DistinctNames p ds h,
  )
  | inr e ↦ rw e (filter-DistinctNames p ds h)
]

AllUnnamed-one :
    {V : Type 0} (name : Text) (v : V) (ds : List CoreDeploy)
    → All (λ (d : CoreDeploy). text_eq name d.chain.name ≡ false) ds
    → AllUnnamed ds ((name, v) ∷ [])
AllUnnamed-one name v [] h = tt
AllUnnamed-one name v (d ∷ ds) (e, h) = ((e, tt), AllUnnamed-one name v ds h)

AllUnnamed-none : (ds : List CoreDeploy) → AllUnnamed {V = RustContractBlock} ds []
AllUnnamed-none [] = tt
AllUnnamed-none (d ∷ ds) = (tt, AllUnnamed-none ds)

build_config-agent_config :
    (deploys : List CoreDeploy) (local : CoreDeploy)
    → DistinctNames deploys
    → Joined deploys local
    → build_config local (remotes_of local deploys)
      ≡ ok (agent_config local (remotes_of local deploys))
unfolding build_config agent_config
build_config-agent_config deploys local names ((h, e), joined) =
    let remotes = remotes_of local deploys in
    let (replicas, apart) = remotes_of-Joined local deploys joined in
    ap
      (λ (o : Option (BeaconProxy Home)). or_throw o undefined_contract >>= λ x.
        add_replicas local remotes (local_config local x.proxy.address))
      e
    ∙ add_replicas-map local remotes (local_config local h.proxy.address) replicas
        (filter-DistinctNames _ deploys names)
        (AllUnnamed-one local.chain.name hex_signer remotes apart) (AllUnnamed-none remotes)
    ∙ ap
        (λ (o : Option (BeaconProxy Home)). ok (
          with_entries local (local_config local (home_or_empty o))
            (map (signer_entry local) (local ∷ remotes)) (map (block_entry local) remotes)))
        (sym e)

rust_configs-map :
    (deploys locals : List CoreDeploy)
    → DistinctNames deploys
    → All (Joined deploys) locals
    → rust_configs deploys locals
      ≡ ok (map (λ (local : CoreDeploy). agent_config local (remotes_of local deploys)) locals)
rust_configs-map deploys [] names h = refl
rust_configs-map deploys (local ∷ locals) names (joined, h) =
    rw
      (
        build_config-agent_config deploys local names joined,
        rust_configs-map deploys locals names h,
      )
      refl

-- For deploys with homes and distinct names, of which any two of different domains have replicas of
-- each other's homes, `toRustConfigs` is a map: each deploy's configuration has its own home, the
-- replicas of that home on all chains of other domains in the order of the deploys, and a signer for
-- itself and for each of these.
pub to_rust_configs-agent_config :
    (deploys : List CoreDeploy)
    → DistinctNames deploys
    → All (Joined deploys) deploys
    → to_rust_configs deploys
      ≡ ok (map (λ (local : CoreDeploy). agent_config local (remotes_of local deploys)) deploys)
unfolding to_rust_configs
to_rust_configs-agent_config deploys names h = rust_configs-map deploys deploys names h

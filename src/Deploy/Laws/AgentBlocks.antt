-- ===== src/Deploy/Laws/AgentBlocks.antt =====
-- The loop of `buildConfig` (typescript/optics-deploy/src/core/CoreDeploy.ts).
use optics_monorepo.Prelude.{
  false, ◌≡◌, refl, ◌∙◌, ap, Option, none, some, List, [], ◌∷◌, ◌++◌, append_assoc, append-nil,
  All-append, map, Text, codes, text_eq, All, ok, or_throw, undefined_contract, ◌>>=◌,
}
use optics_monorepo.Prelude.Map
use optics_monorepo.Deploy.Solidity.Storage.{Home, Replica}
use optics_monorepo.Deploy.State.{BeaconProxy, CoreDeploy}
use optics_monorepo.Deploy.Agents.{
  RustSigner, RustConfig, RustContractBlock, hex_signer, contract_block, local_config, set_named,
  add_replica_block, add_replicas,
}

-- The address of a deploy's replica of a domain, and of its home.
abbrev address_or_empty : Option (BeaconProxy Replica) → Text
address_or_empty none = codes ""
address_or_empty (some r) = r.proxy.address

abbrev pub home_or_empty : Option (BeaconProxy Home) → Text
home_or_empty none = codes ""
home_or_empty (some h) = h.proxy.address

-- The configuration of a local deploy and its remotes, all at once: the local home, one replica for
-- each remote in order, and a signer for each of these.
unfoldable pub agent_config : CoreDeploy → List CoreDeploy → RustConfig
agent_config local remotes = record (local_config local (home_or_empty local.contracts.home)) {
  signers = map (λ (d : CoreDeploy). (d.chain.name, hex_signer)) (local ∷ remotes);
  replicas =
      map
        (λ (d : CoreDeploy). (
          d.chain.name,
          contract_block (address_or_empty (Map.get local.chain.domain d.contracts.replicas)) d,
        ))
        remotes;
}

abbrev Unnamed : {V : Type 0} → Text → List (Text × V) → Type 0
Unnamed {V} name = All (λ (e : Text × V). text_eq e.0 name ≡ false)

set_named-Unnamed :
    {V : Type 0} (name : Text) (v : V) (m : List (Text × V))
    → Unnamed name m
    → set_named name v m ≡ m ++ ((name, v) ∷ [])
unfolding set_named
set_named-Unnamed name v [] h = refl
set_named-Unnamed name v ((other, w) ∷ m) (e, h) = rw (e, set_named-Unnamed name v m h) refl

-- Chains of different names.
abbrev pub DistinctNames : List CoreDeploy → Type 0
DistinctNames [] = Unit
DistinctNames (d ∷ ds) =
    All (λ (e : CoreDeploy). text_eq d.chain.name e.chain.name ≡ false) ds × DistinctNames ds

abbrev pub AllUnnamed : {V : Type 0} → List CoreDeploy → List (Text × V) → Type 0
AllUnnamed ds m = All (λ (d : CoreDeploy). Unnamed d.chain.name m) ds

AllUnnamed-append :
    {V : Type 0} (name : Text) (v : V) (m : List (Text × V)) (ds : List CoreDeploy)
    → All (λ (e : CoreDeploy). text_eq name e.chain.name ≡ false) ds
    → AllUnnamed ds m
    → AllUnnamed ds (m ++ ((name, v) ∷ []))
AllUnnamed-append name v m [] h u = tt
AllUnnamed-append {V} name v m (d ∷ ds) (e, h) (u, us) = (
  All-append (λ (x : Text × V). text_eq x.0 d.chain.name ≡ false) m ((name, v) ∷ []) u (e, tt),
  AllUnnamed-append name v m ds h us,
)

abbrev pub HasReplica : CoreDeploy → CoreDeploy → Type 0
HasReplica local remote =
    (r : BeaconProxy Replica) × (Map.get local.chain.domain remote.contracts.replicas ≡ some r)

module _ (local : CoreDeploy) where
  abbrev pub signer_entry : CoreDeploy → Text × RustSigner
  signer_entry d = (d.chain.name, hex_signer)

  abbrev pub block_entry : CoreDeploy → Text × RustContractBlock
  block_entry d = (
    d.chain.name,
    contract_block (address_or_empty (Map.get local.chain.domain d.contracts.replicas)) d,
  )

  -- A configuration with other signers and replicas.
  abbrev pub with_entries :
      RustConfig → List (Text × RustSigner) → List (Text × RustContractBlock) → RustConfig
  with_entries config signers replicas = record config { signers = signers; replicas = replicas }

  abbrev extended : CoreDeploy → RustConfig → RustConfig
  extended d config =
      with_entries config (config.signers ++ (signer_entry d ∷ []))
        (config.replicas ++ (block_entry d ∷ []))

  add_replica_block-extended :
      (r : CoreDeploy) (found : BeaconProxy Replica) (config : RustConfig)
      → Map.get local.chain.domain r.contracts.replicas ≡ some found
      → Unnamed r.chain.name config.signers
      → Unnamed r.chain.name config.replicas
      → add_replica_block r found config ≡ extended r config
  unfolding add_replica_block
  add_replica_block-extended r found config e s b =
      rw
        (
          e,
          set_named-Unnamed r.chain.name hex_signer config.signers s,
          set_named-Unnamed r.chain.name (contract_block found.proxy.address r) config.replicas b,
        )
        refl

  pub add_replicas-map :
      (remotes : List CoreDeploy) (config : RustConfig)
      → All (HasReplica local) remotes
      → DistinctNames remotes
      → AllUnnamed remotes config.signers
      → AllUnnamed remotes config.replicas
      → add_replicas local remotes config
        ≡ ok (
            with_entries config
              (config.signers ++ map signer_entry remotes)
              (config.replicas ++ map block_entry remotes))
  unfolding add_replicas
  add_replicas-map [] config h n s b =
      rw (append-nil config.signers, append-nil config.replicas) refl
  add_replicas-map (r ∷ rs) config ((found, e), h) (apart, n) (s, ss) (b, bs) =
      let step : add_replicas local (r ∷ rs) config ≡ add_replicas local rs (extended r config) =
        ap
          (λ (o : Option (BeaconProxy Replica)). or_throw o undefined_contract >>= λ x.
            add_replicas local rs (add_replica_block r x config))
          e
        ∙ ap (add_replicas local rs) (add_replica_block-extended r found config e s b) in
      step
      ∙ add_replicas-map rs (extended r config) h n
          (AllUnnamed-append r.chain.name hex_signer config.signers rs apart ss)
          (AllUnnamed-append r.chain.name (block_entry r).1 config.replicas rs apart bs)
      ∙ rw
          (
            append_assoc config.signers (signer_entry r ∷ []) (map signer_entry rs),
            append_assoc config.replicas (block_entry r ∷ []) (map block_entry rs),
          )
          refl

-- ===== src/Deploy/Laws/Written.antt =====
-- The files of a finished deployment (`writeDeployOutput` of
-- typescript/optics-deploy/src/core/index.ts).
use optics_monorepo.Prelude.{
  ℕ, Bool, true, false, not, ◌≡◌, refl, ◌∙◌, ap, List, [], ◌∷◌, ◌++◌, map, ◌==◌, ==_sym, Text, ok,
  All,
}
use optics_monorepo.Prelude.Exec.{for_each}
use optics_monorepo.Deploy.State.{
  CoreDeploy, CoreDeployAddresses, home, replica, BeaconProxy, contract_output, to_object,
}
use optics_monorepo.Deploy.Solidity.Storage.{Home, Replica}
use optics_monorepo.Deploy.Proxies.{Evm}
use optics_monorepo.Deploy.Agents.{
  RustConfig, add_replicas, build_config, local_config, add_replica_block,
}
use optics_monorepo.Deploy.Networks.{
  Fleet, File, config_file, contracts_file, verification_file, domain_of, remotes_in, write_outputs,
  write_deploy_output, unless_test,
}
use optics_monorepo.Deploy.Laws.Linked.{Links, deployed}
use optics_monorepo.Deploy.Laws.Links.{Connected}
use optics_monorepo.Deploy.Laws.Enrolled.{>>-eq}
use optics_monorepo.Deploy.Laws.Rounds.{
  elem, elem_head, elem_tail, elem-filter, elem-filter_intro, filter_cong, Each,
}
use optics_monorepo.Deploy.Laws.Connected.{others_of, peers_of}
use optics_monorepo.Deploy.Laws.Phases.{All-peers}

abbrev pub HasReplica : CoreDeploy → CoreDeploy → Type 0
HasReplica local remote = (r : BeaconProxy Replica) × (replica remote local.chain.domain ≡ ok r)

pub add_replicas-HasReplica :
    (local : CoreDeploy) (remotes : List CoreDeploy) (config : RustConfig)
    → All (HasReplica local) remotes
    → (c : RustConfig) × (add_replicas local remotes config ≡ ok c)
unfolding add_replicas
add_replicas-HasReplica local [] config h = (config, refl)
add_replicas-HasReplica local (remote ∷ remotes) config ((r, e), h) =
    let (c, q) = add_replicas-HasReplica local remotes (add_replica_block remote r config) h in
    (c, rw e q)

pub build_config-HasReplica :
    (local : CoreDeploy) (remotes : List CoreDeploy) (h : BeaconProxy Home)
    → home local ≡ ok h
    → All (HasReplica local) remotes
    → (c : RustConfig) × (build_config local remotes ≡ ok c)
unfolding build_config
build_config-HasReplica local remotes h e all =
    let (c, q) = add_replicas-HasReplica local remotes (local_config local h.proxy.address) all in
    (c, rw e q)

contract_output-deployed :
    (evm : Evm) (d : CoreDeploy) (owner governor : Text) (domain : ℕ) (k : Links)
    → (addresses : CoreDeployAddresses) × (contract_output (deployed evm d owner governor domain k)
        ≡ ok addresses)
unfolding contract_output to_object
contract_output-deployed evm d owner governor domain k = (_, refl)

-- A fleet with other files.
abbrev pub with_files : Fleet → List File → Fleet
with_files fleet files = record fleet { written = files }

module _ (refs : List ℕ) (fleet : Fleet) where
  -- A deploy whose files can be written.
  abbrev pub IsWritable : ℕ → Type 0
  IsWritable i =
      (config : RustConfig) × (addresses : CoreDeployAddresses) × (build_config (fleet.deploys i)
          (map fleet.deploys (remotes_in fleet refs i))
        ≡ ok config)
      × (contract_output (fleet.deploys i) ≡ ok addresses)

  write_outputs-IsWritable :
      (i : ℕ) (files : List File)
      → IsWritable i
      → (files' : List File) × (write_outputs refs i (with_files fleet files)
          ≡ (ok tt, with_files fleet files'))
  unfolding write_outputs
  write_outputs-IsWritable i files (config, addresses, e, q) =
      let d = fleet.deploys i in
      (
        files
            ++ (config_file d.chain.name config ∷ [])
            ++ (contracts_file d.chain.name addresses ∷ [])
            ++ (verification_file d.chain.name d.verification_input ∷ []),
        rw (e, q) refl,
      )

  write_rounds :
      (is : List ℕ) (files : List File)
      → Each is IsWritable
      → (files' : List File) × (for_each is (write_outputs refs) (with_files fleet files)
          ≡ (ok tt, with_files fleet files'))
  unfolding for_each
  write_rounds [] files h = (files, refl)
  write_rounds (i ∷ is) files h =
      let (files1, e1) = write_outputs-IsWritable i files (h i (elem_head i is)) in
      let (files2, e2) = write_rounds is files1 (λ j m. h j (elem_tail j i is m)) in
      (
        files2,
        >>-eq (write_outputs refs i) (for_each is (write_outputs refs)) (with_files fleet files) e1
            ∙ e2,
      )

  pub write_deploy_output-IsWritable :
      Each refs IsWritable
      → (files : List File) × (write_deploy_output refs fleet ≡ (ok tt, with_files fleet files))
  unfolding write_deploy_output
  write_deploy_output-IsWritable h = write_rounds refs fleet.written h

-- Writing is left out in a test, and changes nothing but the files.
pub unless_test-IsWritable :
    (refs : List ℕ) (fleet : Fleet) (test : Bool)
    → Each refs (IsWritable refs fleet)
    → (files : List File) × (unless_test test (write_deploy_output refs) fleet
        ≡ (ok tt, with_files fleet files))
unless_test-IsWritable refs fleet true h = (fleet.written, refl)
unless_test-IsWritable refs fleet false h = write_deploy_output-IsWritable refs fleet h

module _ (evm : Evm) (base : ℕ → CoreDeploy) (refs : List ℕ) (fleet : Fleet)
    (owners governors : ℕ → Text) (domain : ℕ) (links : ℕ → Links)
    (stands : Each refs (λ i.
      (fleet.deploys i ≡ deployed evm (base i) (owners i) (governors i) domain (links i))
      × All
          (λ p. Connected evm (base i) p (links i))
          (peers_of base (others_of base refs i)))) where
  same_domain : Each refs (λ i. domain_of fleet i ≡ (base i).chain.domain)
  same_domain i m = ap (λ (d : CoreDeploy). d.chain.domain) (stands i m).0

  -- Of two deploys of different domains each is another of the other.
  others_of-sym :
      (i r : ℕ)
      → elem i refs ≡ true
      → elem r (others_of base refs i) ≡ true
      → elem i (others_of base refs r) ≡ true
  others_of-sym i r m h =
      let (there, differs) = elem-filter _ r refs h in
      elem-filter_intro _ i refs m (rw (==_sym (base i).chain.domain (base r).chain.domain) differs)

  has_replicas :
      (i : ℕ) (rs : List ℕ)
      → elem i refs ≡ true
      → Each rs (λ r. elem r (others_of base refs i) ≡ true)
      → All (HasReplica (fleet.deploys i)) (map fleet.deploys rs)
  has_replicas i [] m h = tt
  has_replicas i (r ∷ rs) m h =
      let there = h r (elem_head r rs) in
      let (state, connected) = stands r (elem-filter _ r refs there).0 in
      let c =
        All-peers base (λ p. Connected evm (base r) p (links r)) (others_of base refs r) connected i
          (others_of-sym i r m there) in
      (
        (c.replica, rw (same_domain i m, state, c.found) refl),
        has_replicas i rs m (λ j n. h j (elem_tail j r rs n)),
      )

  -- Connected deploys have all that is written.
  pub IsWritable-stands : Each refs (IsWritable refs fleet)
  IsWritable-stands i m =
      let d = fleet.deploys i in
      let (state, connected) = stands i m in
      let remotes : remotes_in fleet refs i ≡ others_of base refs i = filter_cong _ _ refs (λ r n.
        ap (λ (t : ℕ). not (t == domain_of fleet i)) (same_domain r n)
        ∙ ap (λ (t : ℕ). not ((base r).chain.domain == t)) (same_domain i m)) in
      let (config, e) =
        build_config-HasReplica d (map fleet.deploys (others_of base refs i)) _ (ap home state)
          (has_replicas i (others_of base refs i) m (λ r h. h)) in
      let (addresses, q) =
        contract_output-deployed evm (base i) (owners i) (governors i) domain (links i) in
      (
        config,
        addresses,
        ap (λ (rs : List ℕ). build_config d (map fleet.deploys rs)) remotes ∙ e,
        ap contract_output state ∙ q,
      )

-- ===== src/Deploy/Laws/Bridged.antt =====
-- The bridge of one chain, from its deployment to its checks
-- (typescript/optics-deploy/src/bridge/index.ts and checks.ts).
use optics_monorepo.Prelude.{
  ℕ, suc, Bool, true, false, ltb, not, ◌≡◌, refl, ◌∙◌, inl, inr, Option, none, some, List, [], ◌∷◌,
  map, Text, text_eq, text_eq_refl, ◌==◌, eq_refl, Bool-cases, All, ok,
}
use optics_monorepo.Prelude.Exec.{◌>>◌, for_each}
use optics_monorepo.Messages.Ids.{to_bytes32}
use optics_monorepo.Deploy.Chain.{Chain}
use optics_monorepo.Deploy.Solidity.Storage.{zero_address, zero_bytes32, assign}
use optics_monorepo.Deploy.Solidity.Routers.{BridgeRouter}
use optics_monorepo.Deploy.State.{BeaconProxy, CoreContractAddresses}
use optics_monorepo.Deploy.Proxies.{Evm}
use optics_monorepo.Deploy.Checks.{check_each, expect, check_verification_input, first_named}
use optics_monorepo.Deploy.Bridges.{
  BridgeDeploy, new_bridge_deploy, deploy_bridge, router, enroll_bridge_router,
  transfer_ownership_to_governance,
}
use optics_monorepo.Deploy.BridgeChecks.{check_bridge_deploy, check_bridge_inputs}
use optics_monorepo.Deploy.Laws.Enrolled.{>>-eq}
use optics_monorepo.Deploy.Laws.BridgeSteps.{
  HasWeth, nth, bridge_inputs, bridged, helper_nonce, deploy_bridge-new,
  enroll_bridge_router-bridged, transfer_ownership-bridged,
}

module _ (evm : Evm) where
  -- A remote deploy of a domain of 32 bits whose router has an address that is not zero.
  abbrev pub HasRouter : BridgeDeploy → Type 0
  HasRouter remote =
      (there : BeaconProxy BridgeRouter) × (router remote ≡ ok there)
      × (text_eq (to_bytes32 there.proxy.address) zero_bytes32 ≡ false)
      × (ltb remote.chain.domain 4294967296 ≡ true)

  -- The remote routers and the transactions after all enrollments.
  unfoldable enrolled :
      (remotes : List BridgeDeploy) → All HasRouter remotes → (ℕ → Text) → ℕ → Text
  enrolled [] h f = f
  enrolled (r ∷ rs) ((there, e, nonzero, small), h) f =
      enrolled rs h (assign r.chain.domain (to_bytes32 there.proxy.address) f)

  unfoldable sent : List BridgeDeploy → ℕ → ℕ
  sent [] n = n
  sent (r ∷ rs) n = sent rs (suc n)

  for_each-bridged :
      (d : BridgeDeploy) (rs : List BridgeDeploy) (h : All HasRouter rs) (f : ℕ → Text) (n : ℕ)
      → for_each rs enroll_bridge_router (bridged evm d d.chain.deployer f n)
        ≡ (ok tt, bridged evm d d.chain.deployer (enrolled rs h f) (sent rs n))
  unfolding for_each enrolled sent
  for_each-bridged d [] h f n = refl
  for_each-bridged d (r ∷ rs) ((there, e, nonzero, small), h) f n =
      rw (enroll_bridge_router-bridged evm d r f n there e small)
        (for_each-bridged d rs h (assign r.chain.domain (to_bytes32 there.proxy.address) f) (suc n))

  -- A domain with a router keeps one.
  enrolled_keeps :
      (rs : List BridgeDeploy) (h : All HasRouter rs) (f : ℕ → Text) (t : ℕ)
      → text_eq (f t) zero_bytes32 ≡ false
      → text_eq (enrolled rs h f t) zero_bytes32 ≡ false
  unfolding enrolled
  enrolled_keeps [] h f t e = e
  enrolled_keeps (r ∷ rs) ((there, found, nonzero, small), h) f t e =
      enrolled_keeps rs h (assign r.chain.domain (to_bytes32 there.proxy.address) f) t
        (elim (Bool-cases (r.chain.domain == t)) [ inl q ↦ rw q nonzero | inr q ↦ rw q e ])

  check_remotes-enrolled :
      (rs : List BridgeDeploy) (h : All HasRouter rs) (f g : ℕ → Text)
      → ((t : ℕ)
          → text_eq (enrolled rs h f t) zero_bytes32 ≡ false
          → text_eq (g t) zero_bytes32 ≡ false)
      → check_each
          (map (λ (r : BridgeDeploy). r.chain.domain) rs)
          (λ domain. expect (not (text_eq (g domain) zero_bytes32)))
        ≡ ok tt
  unfolding check_each enrolled
  check_remotes-enrolled [] h f g covers = refl
  check_remotes-enrolled (r ∷ rs) ((there, found, nonzero, small), h) f g covers =
      let next = assign r.chain.domain (to_bytes32 there.proxy.address) f in
      let mine : text_eq (next r.chain.domain) zero_bytes32 ≡ false =
        rw (eq_refl r.chain.domain) nonzero in
      rw
        (
          covers r.chain.domain (enrolled_keeps rs h next r.chain.domain mine),
          check_remotes-enrolled rs h next g covers,
        )
        refl

  digits_refl :
      (d : BridgeDeploy) (n : ℕ)
      → text_eq (evm.digits d.chain.deployer n) (evm.digits d.chain.deployer n) ≡ true
  digits_refl d n = text_eq_refl (evm.digits d.chain.deployer n)

  check_bridge_inputs-bridged :
      (d : BridgeDeploy) (owner : Text) (f : ℕ → Text)
      → check_bridge_inputs
          (bridge_inputs evm d)
          (record {
            implementation = nth evm d 0;
            beacon = nth evm d 1;
            proxy = record { address = nth evm d 2 };
          })
          (record {
            implementation = nth evm d 3;
            beacon = nth evm d 4;
            proxy = record {
              address = nth evm d 5;
              owner = owner;
              token_beacon = nth evm d 1;
              xapp_connection_manager = d.core_contract_addresses.xapp_connection_manager;
              remotes = f;
            };
          })
        ≡ ok tt
  unfolding check_bridge_inputs check_verification_input first_named text_eq
  check_bridge_inputs-bridged d owner f =
      rw
        (
          digits_refl d 0,
          digits_refl d 1,
          digits_refl d 2,
          digits_refl d 3,
          digits_refl d 4,
          digits_refl d 5,
        )
        refl

  check_bridge_deploy-bridged :
      (chain : Chain) (weth : Option Text) (path : Text) (test : Bool)
      (core : CoreContractAddresses) (rs : List BridgeDeploy) (h : All HasRouter rs) (n : ℕ)
      → check_bridge_deploy
          (bridged evm
            (new_bridge_deploy chain weth path test core)
            core.governance.proxy
            (enrolled rs h (λ _. zero_bytes32))
            n)
          (map (λ (r : BridgeDeploy). r.chain.domain) rs)
        ≡ ok tt
  unfolding check_bridge_deploy new_bridge_deploy
  check_bridge_deploy-bridged chain none path test core rs h n =
      let d = new_bridge_deploy chain none path test core in
      let f = λ (t : ℕ). zero_bytes32 in
      rw
        (
          check_remotes-enrolled rs h f (enrolled rs h f) (λ t e. e),
          text_eq_refl core.governance.proxy,
          check_bridge_inputs-bridged d core.governance.proxy (enrolled rs h f),
        )
        refl
  check_bridge_deploy-bridged chain (some weth) path test core rs h n =
      let d = new_bridge_deploy chain (some weth) path test core in
      let f = λ (t : ℕ). zero_bytes32 in
      rw
        (
          check_remotes-enrolled rs h f (enrolled rs h f) (λ t e. e),
          text_eq_refl core.governance.proxy,
          check_bridge_inputs-bridged d core.governance.proxy (enrolled rs h f),
          text_eq_refl (nth evm d 6),
        )
        refl

  -- A new bridge deploy with a governance router whose address is not zero, and with an address of WETH,
  -- if it has one, at which a contract accepts `approve`: its contracts are deployed, the routers of any remote deploys that have one, on domains of 32 bits, are enrolled and the ownership is
  -- transferred, all without an error, and then `checkBridgeDeploy` passes for the remotes' domains.
  pub check_bridge_deploy-deploy_bridge :
      (chain : Chain) (weth : Option Text) (path : Text) (test : Bool)
      (core : CoreContractAddresses) (remotes : List BridgeDeploy)
      → HasWeth evm chain weth
      → All HasRouter remotes
      → text_eq core.governance.proxy zero_address ≡ false
      → (final : BridgeDeploy) × ((deploy_bridge evm
              >> (for_each remotes enroll_bridge_router >> transfer_ownership_to_governance))
            (new_bridge_deploy chain weth path test core)
          ≡ (ok tt, final))
        × (check_bridge_deploy final (map (λ (r : BridgeDeploy). r.chain.domain) remotes) ≡ ok tt)
  unfolding new_bridge_deploy
  check_bridge_deploy-deploy_bridge chain weth path test core remotes accepted h nonzero =
      let d = new_bridge_deploy chain weth path test core in
      let f = λ (t : ℕ). zero_bytes32 in
      let n = sent remotes (helper_nonce evm weth) in
      let enrolls = for_each remotes enroll_bridge_router in
      (
        bridged evm d core.governance.proxy (enrolled remotes h f) (suc n),
        >>-eq (deploy_bridge evm) (enrolls >> transfer_ownership_to_governance) d
              (deploy_bridge-new evm chain weth path test core accepted)
            ∙ >>-eq enrolls transfer_ownership_to_governance
                (bridged evm d chain.deployer f (helper_nonce evm weth))
                (for_each-bridged d remotes h f (helper_nonce evm weth))
            ∙ transfer_ownership-bridged evm d (enrolled remotes h f) n nonzero,
        check_bridge_deploy-bridged chain weth path test core remotes h (suc n),
      )

-- ===== src/Deploy/Proxies.antt =====
-- Proxies behind upgrade beacons, for any `Deploy` (typescript/optics-deploy/src/proxyUtils.ts).
use optics_monorepo.Prelude.{
  ℕ, suc, ◌≡◌, Bool, true, false, Option, none, some, List, [], ◌∷◌, ◌++◌, length, replicate, Text,
  codes, text_eq, ◌==◌, Result, ok, err,
}
use optics_monorepo.Prelude.Exec.{Exec, pure, reads, modify, ◌>>=◌, ◌>>◌}
use optics_monorepo.Deploy.Chain.{Chain}
use optics_monorepo.Deploy.State.{
  Argument, address, init_data, ContractVerificationInput, BeaconProxy,
}

-- What the chains and `ethers` provide: the 40 digits of the address of the contract that an account
-- creates with its n-th transaction, the time of the block of that transaction, the encoding of
-- a call of `initialize`, and whether the contract at an address on the account's chain accepts a call
-- of `approve`, as WETH does.
pub record Evm : Type 0 where
  pub digits : Text → ℕ → Text
  pub timestamp : Text → ℕ → ℕ
  pub encode_initialize : List Argument → Text
  pub approves : Text → Text → Bool

-- An address has 40 digits, not all of them zero, and two transactions of an account create contracts
-- at different addresses.
pub record IsLawful (evm : Evm) : Type 0 where
  pub sized : (account : Text) (n : ℕ) → length (evm.digits account n) ≡ 40
  pub nonzero :
      (account : Text) (n : ℕ) → text_eq (evm.digits account n) (replicate 40 b'0') ≡ false
  pub distinct :
      (account : Text) (m n : ℕ) → text_eq (evm.digits account m) (evm.digits account n) ≡ (m == n)

abbrev pub created_address : Evm → Text → ℕ → Text
created_address evm deployer nonce = codes "0x" ++ evm.digits deployer nonce

-- What an unwaited transaction leaves of a contract: if it reverts nothing, and nobody is told.
abbrev pub submitted : {C : Type 0} → Result C → C → C
submitted (ok changed) c = changed
submitted (err thrown) c = c

-- What `deployProxy` and `duplicate` use of a `CoreDeploy` or a `BridgeDeploy`.
pub record Deployment (D : Type 0) : Type 0 where
  pub chain : D → Chain
  pub nonce : D → ℕ
  pub inputs : D → List ContractVerificationInput
  pub ubc_address : D → Result Text
  pub with_nonce : ℕ → D → D
  pub with_inputs : List ContractVerificationInput → D → D

module _ {D : Type 0} (I : Deployment D) where
  -- `deploy.verificationInput.push({...})`
  abbrev pub verify_later : Text → Text → List Argument → Option Bool → D → D
  verify_later name at args is_proxy d =
      I.with_inputs
        (I.inputs d
          ++ (record {
            name = name;
            address = at;
            constructor_arguments = args;
            is_proxy = is_proxy;
          }
              ∷ []))
        d

  -- A transaction of the deployer: its number.
  abbrev pub send : Exec D ℕ
  send d = (ok (I.nonce d), I.with_nonce (suc (I.nonce d)) d)

module _ (evm : Evm) {D : Type 0} (I : Deployment D) where
  -- A transaction that creates a contract: its address.
  abbrev pub create : Exec D Text
  create d =
      (ok (created_address evm (I.chain d).deployer (I.nonce d)), I.with_nonce (suc (I.nonce d)) d)

  -- `initialize` is what the proxy's storage holds once its constructor has run the initializer.
  unfoldable pub deploy_proxy :
      {C : Type 0} → Text → Text → List Argument → (Text → Result C) → Exec D (BeaconProxy C)
  deploy_proxy name init_data_text deploy_args initialize = do
    implementation ← create
    controller ← reads I.ubc_address
    beacon ← create
    proxy ← create
    contract ← reads (λ _. initialize proxy)
    modify (verify_later I (name ++ codes " Implementation") implementation deploy_args none)
    modify (
        verify_later I (name ++ codes " UpgradeBeacon") beacon
          (address implementation ∷ address controller ∷ []) none)
    modify (
        verify_later I (name ++ codes " Proxy") proxy
          (address beacon ∷ init_data init_data_text ∷ []) (some true))
    pure (record { implementation = implementation; proxy = contract; beacon = beacon })

  unfoldable pub duplicate :
      {C : Type 0} → Text → BeaconProxy C → Text → (Text → Result C) → Exec D (BeaconProxy C)
  duplicate name prev init_data_text initialize = do
    proxy ← create
    contract ← reads (λ _. initialize proxy)
    modify (
        verify_later I (name ++ codes " Proxy") proxy
          (address prev.beacon ∷ init_data init_data_text ∷ []) (some true))
    pure (record { implementation = prev.implementation; proxy = contract; beacon = prev.beacon })

-- ===== src/Context/Ethers.antt =====
-- What the program uses of `ethers`' providers, signers and contract handles, as a parameter with
-- its documented behaviour as laws.
use optics_monorepo.Prelude.{◌≡◌, Option, some, Text}

-- `ethers.Signer | ethers.providers.Provider`
pub data Connection (P S : Type 0) : Type 0 where
  provider : P → Connection P S
  signer : S → Connection P S

pub record Ethers : Type 1 where
  pub Provider : Type 0
  pub Signer : Type 0
  pub Contract : Type 0
  -- `signer.provider`, and `signer.connect(provider)`, where `none` is an exception.
  pub provider_of : Signer → Option Provider
  pub connect_signer : Signer → Provider → Option Signer
  pub address_of : Signer → Text
  -- `new StaticJsonRpcProvider(rpc)` and `new Wallet(privkey)`
  pub json_rpc_provider : Text → Provider
  pub wallet : Text → Signer
  -- `new Factory(signer).attach(address)`, `contract.address`, `contract.connect(c)`, and what the
  -- handle is connected to.
  pub attach : Option Signer → Text → Contract
  pub address : Contract → Text
  pub connect : Contract → Connection Provider Signer → Contract
  pub runner : Contract → Option (Connection Provider Signer)

pub record IsLawful (E : Ethers) : Type 0 where
  pub connect_signer-provider :
      (s t : E.Signer) (p : E.Provider) → E.connect_signer s p ≡ some t → E.provider_of t ≡ some p
  pub address-attach : (s : Option E.Signer) (a : Text) → E.address (E.attach s a) ≡ a
  pub address-connect :
      (c : E.Contract) (x : Connection E.Provider E.Signer)
      → E.address (E.connect c x) ≡ E.address c
  pub runner-connect :
      (c : E.Contract) (x : Connection E.Provider E.Signer) → E.runner (E.connect c x) ≡ some x

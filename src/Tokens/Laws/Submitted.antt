-- ===== src/Tokens/Laws/Submitted.antt =====
-- The transactions that `send` submits (typescript/optics-provider/src/optics/OpticsContext.ts).
use optics_monorepo.Prelude.{ℕ, ◌≤◌, ◌<◌, ◌≡◌, some, List, [], ◌∷◌, ◌++◌, Text, ok}
use optics_monorepo.Wire.Hex.{HexLib}
use optics_monorepo.Context.Ethers.{Ethers}
use optics_monorepo.Context.State.{Context}
use optics_monorepo.Context.Contracts.{BridgeContracts}
use optics_monorepo.Context.Domains.{resolve_domain}
use optics_monorepo.Context.MultiProvider.{get_signer}
use optics_monorepo.Context.Optics.{must_get_bridge}
use optics_monorepo.Messages.Ids.{text, canonize_id}
use optics_monorepo.Messages.Bridge.{NameOrDomain, TokenIdentifier}
use optics_monorepo.Events.Chain.{Chain, Transaction, approve}
use optics_monorepo.Tokens.Resolve.{resolve_representation}
use optics_monorepo.Tokens.Send.{send}

-- A list that grew by transactions of a certain form.
abbrev pub Grew :
    {E : Ethers}
    → (List (Transaction E) → Type 0)
    → List (Transaction E)
    → List (Transaction E)
    → Type 0
Grew {E} P out out' = (txs : List (Transaction E)) × (out' ≡ out ++ txs) × P txs

module _ {E : Ethers} (H : HexLib) (C : Chain E) (from to : NameOrDomain) (token : TokenIdentifier)
    (amount : ℕ) (recipient : Text) (s : Context E) where
  -- What `send` looks up: the bridge of the domain it is sent from, the token's representation there,
  -- that domain's signer, and the allowance that it gives the bridge's router.
  pub record Parties : Type 0 where
    pub bridge : BridgeContracts E
    pub from_token : E.Contract
    pub sender : E.Signer
    pub allowed : ℕ
    pub has_bridge : must_get_bridge E from s ≡ ok bridge
    pub represents : resolve_representation H C from token s ≡ ok (some from_token)
    pub signs : get_signer E from s ≡ ok (some sender)
    pub allows :
        C.allowance from_token (E.address_of sender) (E.address bridge.bridge_router) ≡ ok allowed

  abbrev pub approval : Parties → Transaction E
  approval p = approve p.from_token (E.address p.bridge.bridge_router) amount

  abbrev pub sending : Parties → ℕ → List ℕ → Transaction E
  sending p domain id =
      Transaction.send p.bridge.bridge_router (E.address p.from_token) amount domain id

  -- The domain and the identifier that the router is told are those of the destination and the
  -- recipient.
  abbrev pub IsAddressed : ℕ → List ℕ → Type 0
  IsAddressed domain id =
      (resolve_domain to s ≡ ok domain) × (canonize_id H (text recipient) ≡ ok id)

  -- The transactions of one `send`: with an allowance that suffices, at most the router's `send`; else
  -- first an approval of the amount for that router, of the token that it sends.
  pub data IsSend : List (Transaction E) → Type 0 where
    nothing : IsSend []
    approved : (p : Parties) → p.allowed < amount → IsSend (approval p ∷ [])
    sent :
        (p : Parties) (domain : ℕ) (id : List ℕ)
        → amount ≤ p.allowed
        → IsAddressed domain id
        → IsSend (sending p domain id ∷ [])
    approved_and_sent :
        (p : Parties) (domain : ℕ) (id : List ℕ)
        → p.allowed < amount
        → IsAddressed domain id
        → IsSend (approval p ∷ sending p domain id ∷ [])

-- ===== src/Tokens/Send.antt =====
-- `send` and `sendNative` of typescript/optics-provider/src/optics/OpticsContext.ts. The state is the
-- list of the transactions submitted so far.
use optics_monorepo.Prelude.{
  ℕ, Bool, true, false, List, [], ◌∷◌, ◌++◌, Text, token_unavailable, no_signer, no_eth_helper,
  or_throw, ltb,
}
use optics_monorepo.Prelude.Exec.{Exec, pure, reads, ◌>>=◌, ◌>>◌}
use optics_monorepo.Wire.Hex.{HexLib}
use optics_monorepo.Context.Ethers.{Ethers}
use optics_monorepo.Context.State.{Context}
use optics_monorepo.Context.Domains.{resolve_domain}
use optics_monorepo.Context.MultiProvider.{get_signer}
use optics_monorepo.Context.Optics.{must_get_bridge}
use optics_monorepo.Messages.Ids.{text, canonize_id}
use optics_monorepo.Messages.Bridge.{NameOrDomain, TokenIdentifier}
use optics_monorepo.Events.Annotated.{Receipt}
use optics_monorepo.Events.Chain.{Chain, Transaction, approve, send_to_evm_like}
use optics_monorepo.Lifecycle.Bridge.{BridgeMessage, bridge_single_from_receipt}
use optics_monorepo.Tokens.Resolve.{resolve_representation}

module _ {E : Ethers} (C : Chain E) where
  unfoldable pub submit : Transaction E → Exec (List (Transaction E)) Receipt
  submit tx out = (C.transact tx, out ++ (tx ∷ []))

  -- `if (approved.lt(amount))`
  unfoldable pub approve_if : Bool → E.Contract → Text → ℕ → Exec (List (Transaction E)) (Unit {0})
  unfolding submit
  approve_if false token spender amount = pure tt
  approve_if true token spender amount = submit (approve token spender amount) >> pure tt

module _ {E : Ethers} (H : HexLib) (C : Chain E) where
  unfoldable pub send :
      NameOrDomain
      → NameOrDomain
      → TokenIdentifier
      → ℕ
      → Text
      → Context E
      → Exec (List (Transaction E)) (BridgeMessage E)
  unfolding approve_if submit
  send from to token amount recipient s = do
    bridge ← reads (λ _. must_get_bridge E from s)
    found ← reads (λ _. resolve_representation H C from token s)
    from_token ← reads (λ _. or_throw found token_unavailable)
    signer ← reads (λ _. get_signer E from s)
    sender ← reads (λ _. or_throw signer no_signer)
    let spender = E.address bridge.bridge_router
    approved ← reads (λ _. C.allowance from_token (E.address_of sender) spender)
    approve_if C (ltb approved amount) from_token spender amount
    domain ← reads (λ _. resolve_domain to s)
    id ← reads (λ _. canonize_id H (text recipient))
    receipt ←
        submit C (Transaction.send bridge.bridge_router (E.address from_token) amount domain id)
    reads (λ _. bridge_single_from_receipt H C from s receipt)

  unfoldable pub send_native :
      NameOrDomain
      → NameOrDomain
      → ℕ
      → Text
      → Context E
      → Exec (List (Transaction E)) (BridgeMessage E)
  unfolding submit
  send_native from to amount recipient s = do
    bridge ← reads (λ _. must_get_bridge E from s)
    helper ← reads (λ _. or_throw bridge.eth_helper no_eth_helper)
    domain ← reads (λ _. resolve_domain to s)
    receipt ← submit C (send_to_evm_like helper domain recipient amount)
    reads (λ _. bridge_single_from_receipt H C from s receipt)

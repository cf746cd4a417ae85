-- ===== src/Lifecycle/Bridge.antt =====
-- The bridge messages of typescript/optics-provider/src/optics/messages/BridgeMessage.ts. The classes
-- `TransferMessage`, `DetailsMessage` and `RequestDetailsMessage` are told apart by their action.
use optics_monorepo.Prelude.{
  ℕ, Bool, true, false, not, some, List, [], ◌∷◌, Text, codes, text_eq, Result, ok, err,
  direct_instantiation, ◌>>=◌,
}
use optics_monorepo.Wire.Hex.{HexLib}
use optics_monorepo.Context.Ethers.{Ethers}
use optics_monorepo.Context.State.{Context}
use optics_monorepo.Context.Contracts.{BridgeContracts}
use optics_monorepo.Context.Optics.{must_get_bridge}
use optics_monorepo.Messages.Bridge.{NameOrDomain, number, Action, ParsedBridgeMessage, parse_body}
use optics_monorepo.Events.Annotated.{Annotated, DispatchArgs, Receipt}
use optics_monorepo.Events.Chain.{Chain}
use optics_monorepo.Lifecycle.Message.{OpticsMessage, new_message, body_hash}
use optics_monorepo.Lifecycle.Receipts.{push, exactly_one, from_receipt, fetch_receipt}

pub record BridgeMessage (E : Ethers) : Type 0 where
  pub base : OpticsMessage E
  pub token_domain : ℕ
  pub token_id : Text
  pub from_bridge : BridgeContracts E
  pub to_bridge : BridgeContracts E
  pub action : Action

-- `ethers.constants.AddressZero`
abbrev pub address_zero : Text
address_zero = codes "0x0000000000000000000000000000000000000000"

module _ {E : Ethers} (H : HexLib) where
  -- The constructors of the three classes, which call that of `BridgeMessage` with `caller` true.
  unfoldable pub new_bridge_message :
      Annotated DispatchArgs → ParsedBridgeMessage → Bool → Context E → Result (BridgeMessage E)
  new_bridge_message dispatch parsed false s = err direct_instantiation
  new_bridge_message dispatch parsed true s = do
    base ← new_message H dispatch s
    from_bridge ← must_get_bridge E (number base.message.from) s
    to_bridge ← must_get_bridge E (number base.message.destination) s
    ok (record {
      base = base;
      token_domain = parsed.token_domain;
      token_id = parsed.token_id;
      from_bridge = from_bridge;
      to_bridge = to_bridge;
      action = parsed.action;
    })

  unfoldable pub from_optics_message : OpticsMessage E → Context E → Result (BridgeMessage E)
  unfolding new_bridge_message
  from_optics_message m s = do
    parsed ← parse_body H m.message.body
    new_bridge_message m.dispatch parsed true s

  -- The loop of `fromReceipt`, whose `try` block drops what is no bridge message.
  unfoldable pub bridge_messages : List (OpticsMessage E) → Context E → List (BridgeMessage E)
  unfolding from_optics_message
  bridge_messages [] s = []
  bridge_messages (m ∷ ms) s =
      push (from_optics_message m s >>= λ b. ok (some b)) (bridge_messages ms s)

  module _ (C : Chain E) (nod : NameOrDomain) (s : Context E) where
    unfoldable pub bridge_from_receipt : Receipt → List (BridgeMessage E)
    unfolding bridge_messages
    bridge_from_receipt receipt = bridge_messages (from_receipt H C nod s receipt) s

    unfoldable pub bridge_single_from_receipt : Receipt → Result (BridgeMessage E)
    unfolding bridge_from_receipt
    bridge_single_from_receipt receipt = exactly_one (bridge_from_receipt receipt)

    unfoldable pub bridge_from_transaction_hash : Text → Result (List (BridgeMessage E))
    unfolding bridge_from_receipt
    bridge_from_transaction_hash hash = do
      receipt ← fetch_receipt H C nod s hash
      ok (bridge_from_receipt receipt)

    unfoldable pub bridge_single_from_transaction_hash : Text → Result (BridgeMessage E)
    unfolding bridge_single_from_receipt
    bridge_single_from_transaction_hash hash = do
      receipt ← fetch_receipt H C nod s hash
      bridge_single_from_receipt receipt

  -- `bodyHash`
  abbrev pub prefill_id : BridgeMessage E → Text
  prefill_id b = body_hash H b.base

  unfoldable pub currently_prefilled : Chain E → BridgeMessage E → Context E → Result Bool
  unfolding body_hash
  currently_prefilled C b s = do
    bridge ← must_get_bridge E (number b.base.message.destination) s
    lp_address ← C.liquidity_provider bridge.bridge_router (prefill_id b)
    ok (not (text_eq lp_address address_zero))

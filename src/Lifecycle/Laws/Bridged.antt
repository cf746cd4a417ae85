-- ===== src/Lifecycle/Laws/Bridged.antt =====
-- Bridge messages from their serialization to `singleFromReceipt`
-- (typescript/optics-provider/src/optics/messages/BridgeMessage.ts, typescript/optics-tests/lib/bridge.ts).
use optics_monorepo.Prelude.{
  ℕ, ◌^◌, ◌<◌, ◌≡◌, refl, sym, ◌∙◌, subst, inl, inr, some, List, [], ◌∷◌, Text, Result, ok, err,
  ◌>>=◌, >>=-eq-ok, ok-eq-ok, All, length, Result-cases,
}
use optics_monorepo.Wire.Hex.{HexLib, IsLawful}
use optics_monorepo.Context.Ethers.{Ethers}
use optics_monorepo.Context.State.{Context}
use optics_monorepo.Context.Contracts.{BridgeContracts}
use optics_monorepo.Context.Optics.{must_get_bridge}
use optics_monorepo.Messages.Bridge.{
  NameOrDomain, number, Action, FormatAction, ParsedBridgeMessage, parse_body, serialize_message,
}
use optics_monorepo.Messages.BridgeRoundTrip.{Encodes, parse_body-serialize_message}
use optics_monorepo.Messages.Ids.{text}
use optics_monorepo.Messages.Optics.{ParsedMessage}
use optics_monorepo.Events.Annotated.{Receipt}
use optics_monorepo.Events.Chain.{Chain}
use optics_monorepo.Lifecycle.Message.{OpticsMessage, new_message}
use optics_monorepo.Lifecycle.Receipts.{push, exactly_one, from_receipt, single_from_receipt}
use optics_monorepo.Lifecycle.Bridge.{
  BridgeMessage, new_bridge_message, from_optics_message, bridge_messages, bridge_from_receipt,
  bridge_single_from_receipt,
}
use optics_monorepo.Lifecycle.Laws.Dispatched.{IsBuilt, from_receipt-IsBuilt}
use optics_monorepo.Lifecycle.Laws.Sent.{Finds}

exactly_one-eq-ok : {A : Type 0} (xs : List A) {a : A} → exactly_one xs ≡ ok a → xs ≡ a ∷ []
exactly_one-eq-ok [] h = absurd cc
exactly_one-eq-ok (x ∷ []) h = rw (ok-eq-ok h) refl
exactly_one-eq-ok (x ∷ y ∷ xs) h = absurd cc

-- `parseBody` depends on the bytes of its text alone.
parse_body_bytes :
    (H : HexLib) (t t' : Text) → H.arrayify t ≡ H.arrayify t' → parse_body H t ≡ parse_body H t'
unfolding parse_body
parse_body_bytes H t t' h = rw h refl

module _ {E : Ethers} (H : HexLib) (C : Chain E) (nod : NameOrDomain) (s : Context E)
    (receipt : Receipt) where
  -- A message that was built from its dispatch is built from it again.
  new_message-IsBuilt :
      (m : OpticsMessage E) → IsBuilt H C nod s receipt m → new_message H m.dispatch s ≡ ok m
  unfolding new_message
  new_message-IsBuilt m h = rw (h.parsed, h.found, h.replica, sym h.home, sym h.fresh) refl

  -- `fromOpticsMessage` keeps the message it is given, adds the parsed body and the two bridges, and
  -- fails if one of these does.
  pub from_optics_message-IsBuilt :
      (m : OpticsMessage E)
      → IsBuilt H C nod s receipt m
      → from_optics_message H m s ≡ (
          parse_body H m.message.body >>= λ parsed.
          must_get_bridge E (number m.message.from) s >>= λ from.
          must_get_bridge E (number m.message.destination) s >>= λ to. ok (record {
            base = m;
            token_domain = parsed.token_domain;
            token_id = parsed.token_id;
            from_bridge = from;
            to_bridge = to;
            action = parsed.action;
          }))
  unfolding from_optics_message new_bridge_message
  from_optics_message-IsBuilt m h = elim (Result-cases (parse_body H m.message.body)) [
    | inl (parsed, q) ↦ rw (q, new_message-IsBuilt m h) refl
    | inr (e, q) ↦ rw q refl
  ]

  -- A bridge message in the receipt: its Optics message was built from it, its token and action are
  -- what the body holds, and its bridges are those of the two domains.
  pub record IsBridge (b : BridgeMessage E) : Type 0 where
    pub base : IsBuilt H C nod s receipt b.base
    pub body :
        parse_body H b.base.message.body
        ≡ ok (record { token_domain = b.token_domain; token_id = b.token_id; action = b.action })
    pub from_bridge : must_get_bridge E (number b.base.message.from) s ≡ ok b.from_bridge
    pub to_bridge : must_get_bridge E (number b.base.message.destination) s ≡ ok b.to_bridge

  from_optics_message-IsBridge :
      (m : OpticsMessage E) (b : BridgeMessage E)
      → IsBuilt H C nod s receipt m
      → from_optics_message H m s ≡ ok b
      → IsBridge b
  from_optics_message-IsBridge m b h e =
      let (parsed, parses, e1) =
        >>=-eq-ok (parse_body H m.message.body) _ (sym (from_optics_message-IsBuilt m h) ∙ e) in
      let (from, found, e2) = >>=-eq-ok (must_get_bridge E (number m.message.from) s) _ e1 in
      let (to, found', e3) = >>=-eq-ok (must_get_bridge E (number m.message.destination) s) _ e2 in
      subst IsBridge (ok-eq-ok e3)
        (record { base = h; body = parses; from_bridge = found; to_bridge = found' })

  push-IsBridge :
      (m : OpticsMessage E) (rest : List (BridgeMessage E)) (r : Result (BridgeMessage E))
      → IsBuilt H C nod s receipt m
      → from_optics_message H m s ≡ r
      → All IsBridge rest
      → All IsBridge (push (r >>= λ b. ok (some b)) rest)
  push-IsBridge m rest (ok b) h e k = (from_optics_message-IsBridge m b h e, k)
  push-IsBridge m rest (err x) h e k = k

  bridge_messages-IsBridge :
      (ms : List (OpticsMessage E))
      → All (IsBuilt H C nod s receipt) ms
      → All IsBridge (bridge_messages H ms s)
  unfolding bridge_messages
  bridge_messages-IsBridge [] h = tt
  bridge_messages-IsBridge (m ∷ ms) (h, hs) =
      push-IsBridge m (bridge_messages H ms s) _ h refl (bridge_messages-IsBridge ms hs)

  -- Every message that `BridgeMessage.fromReceipt` returns is a message of the receipt, with the token
  -- and the action that its body holds and the bridges of its origin and its destination.
  pub bridge_from_receipt-IsBridge : All IsBridge (bridge_from_receipt H C nod s receipt)
  unfolding bridge_from_receipt
  bridge_from_receipt-IsBridge =
      bridge_messages-IsBridge (from_receipt H C nod s receipt)
        (from_receipt-IsBuilt H C nod s receipt)

  -- A message that `OpticsMessage.singleFromReceipt` returns, whose body parses and whose domains
  -- have bridges, is also what `BridgeMessage.singleFromReceipt` returns.
  pub bridge_single_from_receipt-single :
      (m : OpticsMessage E) (parsed : ParsedBridgeMessage) (from to : BridgeContracts E)
      → single_from_receipt H C nod s receipt ≡ ok m
      → parse_body H m.message.body ≡ ok parsed
      → must_get_bridge E (number m.message.from) s ≡ ok from
      → must_get_bridge E (number m.message.destination) s ≡ ok to
      → bridge_single_from_receipt H C nod s receipt
        ≡ ok (record {
          base = m;
          token_domain = parsed.token_domain;
          token_id = parsed.token_id;
          from_bridge = from;
          to_bridge = to;
          action = parsed.action;
        })
  unfolding bridge_single_from_receipt bridge_from_receipt single_from_receipt bridge_messages
  bridge_single_from_receipt-single m parsed from to single parses found found' =
      let only = exactly_one-eq-ok (from_receipt H C nod s receipt) single in
      let built =
        subst (All (IsBuilt H C nod s receipt)) only (from_receipt-IsBuilt H C nod s receipt) in
      rw (only, from_optics_message-IsBuilt m built.0, parses, found, found') refl

  -- A transfer, details or request, serialized and sent as the body of a message that
  -- `OpticsMessage.singleFromReceipt` finds between two domains with bridges, is what
  -- `BridgeMessage.singleFromReceipt` finds there: the same token and action.
  pub bridge_single_from_receipt-serialize_message :
      (L : IsLawful H) (contents : ParsedMessage) (h r : E.Contract) (token_domain : ℕ)
      (id body : Text) (a : FormatAction) {bs zs act : List ℕ} {b : Action}
      (from to : BridgeContracts E)
      → token_domain < 2 ^ 32
      → H.arrayify id ≡ ok bs
      → length bs ≡ 32
      → Encodes H a act b
      → serialize_message H
          (record { token_id = record { domain = number token_domain; id = text id }; action = a })
        ≡ ok body
      → H.arrayify body ≡ ok zs
      → contents.body ≡ H.hexlify zs
      → must_get_bridge E (number contents.from) s ≡ ok from
      → must_get_bridge E (number contents.destination) s ≡ ok to
      → (found : Finds H C nod s receipt contents h r)
      → bridge_single_from_receipt H C nod s receipt
        ≡ ok (record {
          base = found.message;
          token_domain = token_domain;
          token_id = H.hexlify bs;
          from_bridge = from;
          to_bridge = to;
          action = b;
        })
  bridge_single_from_receipt-serialize_message L contents h r d id body a {bs} {zs} {act} {b} from
        to small hid size enc serialized hbody same hf ht found =
      let round = rw serialized at (parse_body-serialize_message H L d id a small hid size enc) in
      let again = L.arrayify-hexlify zs (L.arrayify-AreBytes body zs hbody) ∙ sym hbody in
      bridge_single_from_receipt-single found.message _ from to found.single
        (rw (found.parsed, same) (parse_body_bytes H _ body again ∙ round)) (rw found.parsed hf)
        (rw found.parsed ht)

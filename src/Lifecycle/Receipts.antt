-- ===== src/Lifecycle/Receipts.antt =====
-- `fromReceipt`, `fromTransactionHash` and their single variants, of
-- typescript/optics-provider/src/optics/messages/OpticsMessage.ts.
use optics_monorepo.Prelude.{
  true, Option, none, some, List, [], ◌∷◌, Text, Result, ok, err, expected_single, no_receipt,
  ◌>>=◌, or_throw,
}
use optics_monorepo.Wire.Hex.{HexLib}
use optics_monorepo.Context.Ethers.{Ethers}
use optics_monorepo.Context.State.{Context}
use optics_monorepo.Context.Domains.{resolve_domain}
use optics_monorepo.Context.MultiProvider.{must_get_provider}
use optics_monorepo.Messages.Bridge.{NameOrDomain}
use optics_monorepo.Events.Annotated.{Event, DispatchArgs, Receipt, Log, new_annotated}
use optics_monorepo.Events.Chain.{Chain, LogDescription, dispatch, other}
use optics_monorepo.Lifecycle.Message.{OpticsMessage, new_message}

-- What a `try` block that pushes at most one element leaves of the list.
abbrev pub push {ℓ} : {A : Type ℓ} → Result (Option A) → List A → List A
push (ok (some a)) rest = a ∷ rest
push (ok none) rest = rest
push (err e) rest = rest

-- `if (messages.length !== 1) throw`
abbrev pub exactly_one {ℓ} : {A : Type ℓ} → List A → Result A
exactly_one (a ∷ []) = ok a
exactly_one _ = err expected_single

module _ {E : Ethers} (H : HexLib) (C : Chain E) (nod : NameOrDomain) (s : Context E) where
  -- The `DispatchEvent` that the cast makes of a `LogDescription`; a receipt that is missing counts
  -- as a failure of `getTransactionReceipt`.
  unfoldable pub dispatch_event : Receipt → Log → DispatchArgs → Event DispatchArgs
  dispatch_event receipt log args = record {
    args = args;
    block_number = receipt.block_number;
    log_index = none;
    transaction_hash = none;
    event_signature = none;
    get_receipt = must_get_provider E nod s >>= λ p.
        C.get_transaction_receipt p log.transaction_hash >>= λ r. or_throw r no_receipt;
  }

  unfoldable pub described : Receipt → Log → LogDescription → Result (Option (OpticsMessage E))
  unfolding dispatch_event
  described receipt log (other _) = ok none
  described receipt log (dispatch args) = resolve_domain nod s >>= λ domain.
      new_annotated domain receipt (dispatch_event receipt log args) true >>= λ annotated.
      new_message H annotated s >>= λ message. ok (some message)

  -- The `try` block.
  unfoldable pub message_of_log : Receipt → Log → Result (Option (OpticsMessage E))
  unfolding described
  message_of_log receipt log = C.parse_log log >>= λ parsed. described receipt log parsed

  unfoldable pub messages_of_logs : Receipt → List Log → List (OpticsMessage E)
  unfolding message_of_log
  messages_of_logs receipt [] = []
  messages_of_logs receipt (log ∷ logs) =
      push (message_of_log receipt log) (messages_of_logs receipt logs)

  unfoldable pub from_receipt : Receipt → List (OpticsMessage E)
  unfolding messages_of_logs
  from_receipt receipt = messages_of_logs receipt receipt.logs

  unfoldable pub single_from_receipt : Receipt → Result (OpticsMessage E)
  unfolding from_receipt
  single_from_receipt receipt = exactly_one (from_receipt receipt)

  unfoldable pub fetch_receipt : Text → Result Receipt
  fetch_receipt hash = do
    provider ← must_get_provider E nod s
    receipt ← C.get_transaction_receipt provider hash
    or_throw receipt no_receipt

  unfoldable pub from_transaction_hash : Text → Result (List (OpticsMessage E))
  unfolding from_receipt fetch_receipt
  from_transaction_hash hash = do receipt ← fetch_receipt hash; ok (from_receipt receipt)

  unfoldable pub single_from_transaction_hash : Text → Result (OpticsMessage E)
  unfolding single_from_receipt fetch_receipt
  single_from_transaction_hash hash = do receipt ← fetch_receipt hash; single_from_receipt receipt

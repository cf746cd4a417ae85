-- ===== src/Lifecycle/Message.antt =====
-- The class `OpticsMessage` of typescript/optics-provider/src/optics/messages/OpticsMessage.ts: its
-- fields, constructor and getters. The context it refers to is passed where it is read.
use optics_monorepo.Prelude.{ℕ, Option, none, Text, Result, ok, ◌>>=◌}
use optics_monorepo.Wire.Hex.{HexLib}
use optics_monorepo.Context.Ethers.{Ethers}
use optics_monorepo.Context.State.{Context}
use optics_monorepo.Context.Optics.{must_get_core, must_get_replica_for}
use optics_monorepo.Messages.Bridge.{number}
use optics_monorepo.Messages.Optics.{ParsedMessage, parse_message}
use optics_monorepo.Events.Annotated.{Annotated, DispatchArgs, UpdateArgs, ProcessArgs, Receipt}

pub record EventCache : Type 0 where
  pub home_update : Option (Annotated UpdateArgs)
  pub replica_update : Option (Annotated UpdateArgs)
  pub process : Option (Annotated ProcessArgs)

abbrev pub empty_cache : EventCache
empty_cache = record { home_update = none; replica_update = none; process = none }

pub record OpticsMessage (E : Ethers) : Type 0 where
  pub dispatch : Annotated DispatchArgs
  pub message : ParsedMessage
  pub home : E.Contract
  pub replica : E.Contract
  pub cache : EventCache

module _ {E : Ethers} (H : HexLib) where
  unfoldable pub new_message : Annotated DispatchArgs → Context E → Result (OpticsMessage E)
  new_message dispatch s = do
    message ← parse_message H dispatch.event.args.message
    core ← must_get_core E (number message.from) s
    replica ← must_get_replica_for E (number message.from) (number message.destination) s
    ok (record {
      dispatch = dispatch;
      message = message;
      home = core.home;
      replica = replica;
      cache = empty_cache;
    })

  unfoldable pub body_hash : OpticsMessage E → Text
  body_hash m = H.keccak256 m.message.body

module _ {E : Ethers} where
  unfoldable pub message_receipt : OpticsMessage E → Receipt
  message_receipt m = m.dispatch.receipt

  abbrev pub origin : OpticsMessage E → ℕ
  origin m = m.message.from

  abbrev pub destination : OpticsMessage E → ℕ
  destination m = m.message.destination

  abbrev pub leaf : OpticsMessage E → Text
  leaf m = m.dispatch.event.args.message_hash

  abbrev pub leaf_index : OpticsMessage E → ℕ
  leaf_index m = m.dispatch.event.args.leaf_index

  abbrev pub committed_root : OpticsMessage E → Text
  committed_root m = m.dispatch.event.args.committed_root

  -- `dispatch.event.transactionHash`, where `none` is undefined.
  unfoldable pub message_transaction_hash : OpticsMessage E → Option Text
  message_transaction_hash m = m.dispatch.event.transaction_hash

  abbrev pub sender : OpticsMessage E → Text
  sender m = m.message.sender

  abbrev pub nonce : OpticsMessage E → ℕ
  nonce m = m.message.nonce

  abbrev pub recipient : OpticsMessage E → Text
  recipient m = m.message.recipient

  abbrev pub body : OpticsMessage E → Text
  body m = m.message.body

  abbrev pub message_destination_and_nonce : OpticsMessage E → ℕ
  message_destination_and_nonce m = m.dispatch.event.args.destination_and_nonce

-- ===== src/Lifecycle/Getters.antt =====
-- The getters of `TransferMessage` and `DetailsMessage`
-- (typescript/optics-provider/src/optics/messages/BridgeMessage.ts). A message of another class has no
-- such property: it is `none`, for `undefined`.
use optics_monorepo.Prelude.{ℕ, Option, none, some, Text}
use optics_monorepo.Context.Ethers.{Ethers}
use optics_monorepo.Messages.Bridge.{transfer, details, request_details}
use optics_monorepo.Lifecycle.Bridge.{BridgeMessage}

module _ (E : Ethers) (b : BridgeMessage E) where
  abbrev pub amount : Option ℕ
  amount = elim b.action [
    | transfer receiver n ↦ some n
    | details n s d ↦ none
    | request_details ↦ none
  ]

  abbrev pub to : Option Text
  to = elim b.action [
    | transfer receiver n ↦ some receiver
    | details n s d ↦ none
    | request_details ↦ none
  ]

  abbrev pub name : Option Text
  name = elim b.action [
    | transfer receiver n ↦ none
    | details n s d ↦ some n
    | request_details ↦ none
  ]

  abbrev pub symbol : Option Text
  symbol = elim b.action [
    | transfer receiver n ↦ none
    | details n s d ↦ some s
    | request_details ↦ none
  ]

  abbrev pub decimals : Option ℕ
  decimals = elim b.action [
    | transfer receiver n ↦ none
    | details n s d ↦ d
    | request_details ↦ none
  ]

-- ===== src/Messages/Bridge.antt =====
-- Bridge messages: the serializers of typescript/optics-tests/lib/bridge.ts, and `parseAction` and
-- `parseBody` of typescript/optics-provider/src/optics/messages/BridgeMessage.ts.
use optics_monorepo.Prelude.{
  ℕ, zero, suc, Option, none, some, List, [], ◌∷◌, Text, Result, ok, err, bad_action, bad_types,
  ◌>>=◌, length, drop, slice, ◌==◌, if◌then◌else◌,
}
use optics_monorepo.Wire.Bytes.{read_uint32}
use optics_monorepo.Wire.Hex.{HexLib, Value, uint, fixed, dynamic, num, hex}
use optics_monorepo.Messages.Ids.{BytesLike, text, bytes}

-- `string | number`, in which the API takes domains.
pub data NameOrDomain : Type 0 where
  name : Text → NameOrDomain
  number : ℕ → NameOrDomain

pub record TokenIdentifier : Type 0 where
  pub domain : NameOrDomain
  pub id : BytesLike

-- `BridgeMessageTypes`
pub data BridgeMessageType : Type 0 where
  invalid token_id message transfer details request_details : BridgeMessageType

abbrev pub type_code : BridgeMessageType → ℕ
type_code invalid = 0
type_code token_id = 1
type_code message = 2
type_code transfer = 3
type_code details = 4
type_code request_details = 5

-- `types.Action`, the constructor in place of the field `type`.
pub data FormatAction : Type 0 where
  transfer : Text → Value → FormatAction
  details : Text → Text → ℕ → FormatAction
  request_details : FormatAction

pub record FormatMessage : Type 0 where
  pub token_id : TokenIdentifier
  pub action : FormatAction

module _ (H : HexLib) where
  unfoldable pub format_transfer : Text → Value → Result Text
  format_transfer to amnt = H.solidity_pack (
      (fixed 1, num (type_code BridgeMessageType.transfer))
      ∷ (fixed 32, hex to)
      ∷ (uint 32, amnt)
      ∷ [])

  unfoldable pub format_details : Text → Text → ℕ → Result Text
  format_details token_name symbol decimals = H.solidity_pack (
      (fixed 1, num (type_code BridgeMessageType.details))
      ∷ (fixed 32, hex token_name)
      ∷ (fixed 32, hex symbol)
      ∷ (uint 1, num decimals)
      ∷ [])

  unfoldable pub format_request_details : Result Text
  format_request_details =
      H.solidity_pack ((fixed 1, num (type_code BridgeMessageType.request_details)) ∷ [])

  unfoldable pub format_token_id : ℕ → Text → Result Text
  format_token_id domain id = H.solidity_pack ((uint 4, num domain) ∷ (fixed 32, hex id) ∷ [])

  unfoldable pub format_message : Text → Text → Result Text
  format_message token action = H.solidity_pack ((dynamic, hex token) ∷ (dynamic, hex action) ∷ [])

  -- Each serializer's `assert` on the type holds by its constructor.
  unfoldable pub serialize_action : FormatAction → Result Text
  unfolding format_transfer format_details format_request_details
  serialize_action (transfer recipient amount) = format_transfer recipient amount
  serialize_action (details token_name symbol decimals) = format_details token_name symbol decimals
  serialize_action request_details = format_request_details

  -- The `typeof` tests on both fields.
  check_types : NameOrDomain → BytesLike → Result Text
  unfolding format_token_id
  check_types (number d) (text id) = format_token_id d id
  check_types (number d) (bytes _) = err bad_types
  check_types (name _) _ = err bad_types

  unfoldable pub serialize_token_id : TokenIdentifier → Result Text
  unfolding check_types
  serialize_token_id t = check_types t.domain t.id

  unfoldable pub serialize_message : FormatMessage → Result Text
  unfolding serialize_action serialize_token_id format_message
  serialize_message m = do
    token ← serialize_token_id m.token_id
    action ← serialize_action m.action
    format_message token action

pub record ActionLen : Type 0 where
  pub identifier : ℕ
  pub token_id : ℕ
  pub transfer : ℕ
  pub details : ℕ
  pub request_details : ℕ

abbrev pub action_len : ActionLen
action_len = record {
  identifier = 1;
  token_id = 36;
  transfer = 65;
  details = 66;
  request_details = 1;
}

-- The parsed `Action`. `decimals` is `buf[64]`, which is undefined past the end.
pub data Action : Type 0 where
  transfer : Text → ℕ → Action
  details : Text → Text → Option ℕ → Action
  request_details : Action

pub record ParsedBridgeMessage : Type 0 where
  pub token_domain : ℕ
  pub token_id : Text
  pub action : Action

abbrev pub get_elem? : List ℕ → ℕ → Option ℕ
get_elem? [] i = none
get_elem? (x ∷ xs) zero = some x
get_elem? (x ∷ xs) (suc i) = get_elem? xs i

module _ (H : HexLib) where
  unfoldable pub parse_action : List ℕ → Result Action
  parse_action buf =
      if length buf == action_len.request_details
      then ok request_details
      else if length buf == action_len.transfer
      then (let trimmed = drop action_len.identifier buf in
          H.big_number (H.hexlify (drop 32 trimmed)) >>= λ amount.
          ok (transfer (H.hexlify (slice 0 32 trimmed)) amount))
      else if length buf == action_len.details
      then (let trimmed = drop action_len.identifier buf in
          ok (
            details (H.hexlify (slice 0 32 trimmed)) (H.hexlify (slice 32 64 trimmed))
              (get_elem? trimmed 64)))
      else err bad_action

  unfoldable pub parse_body : Text → Result ParsedBridgeMessage
  unfolding parse_action
  parse_body message_body = do
    buf ← H.arrayify message_body
    let token = slice 0 36 buf
    domain ← read_uint32 token 0
    let id = H.hexlify (slice 4 36 token)
    action ← parse_action (drop 36 buf)
    ok (record { token_domain = domain; token_id = id; action = action })

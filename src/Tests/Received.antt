-- ===== src/Tests/Received.antt =====
-- The theorems on messages read from receipts at concrete inputs.
use optics_monorepo.Prelude.{
  ℕ, ◌≡◌, refl, none, List, [], ◌∷◌, ◌++◌, Text, codes, ok, err, external, arith, replicate, All,
  to_lower_case,
}
use optics_monorepo.Prelude.Map
use optics_monorepo.Wire.Bytes.{be}
use optics_monorepo.Wire.HexText.{hex_text, hex_text-IsLawful}
use optics_monorepo.Context.Domains.{resolve_domain}
use optics_monorepo.Context.Optics.{
  must_get_core, get_core, must_get_replica_for, get_replica_for, replica_of, must_get_bridge,
  get_bridge,
}
use optics_monorepo.Messages.Ids.{text, ethers_address_to_bytes32}
use optics_monorepo.Messages.Bridge.{
  number, FormatAction, Action, serialize_message, serialize_token_id, serialize_action,
  format_request_details, format_token_id,
}
use optics_monorepo.Messages.BridgeRoundTrip.{Encodes}
use optics_monorepo.Messages.Optics.{ParsedMessage, format_message}
use optics_monorepo.Messages.OpticsRoundTrip.{padded}
use optics_monorepo.Events.Annotated.{DispatchArgs, Receipt}
use optics_monorepo.Events.Chain.{Chain}
use optics_monorepo.Lifecycle.Receipts.{from_receipt}
use optics_monorepo.Lifecycle.Bridge.{bridge_from_receipt, bridge_single_from_receipt}
use optics_monorepo.Lifecycle.Laws.Dispatched.{IsBuilt, from_receipt-IsBuilt}
use optics_monorepo.Lifecycle.Laws.Sent.{
  AreForeign, unparsed, Finds, single_from_receipt-format_message,
}
use optics_monorepo.Lifecycle.Laws.Bridged.{
  IsBridge, bridge_from_receipt-IsBridge, bridge_single_from_receipt-serialize_message,
}
use optics_monorepo.Samples.{toy, ready, core_of, bridge_of, chain_of, log_at, receipt_of}

abbrev word : Text
word = codes "0x" ++ replicate 64 b'1'

-- A request for the details of the token `0x11…` of domain 7.
abbrev request_bytes : List ℕ
request_bytes = 0 ∷ 0 ∷ 0 ∷ 7 ∷ replicate 32 17 ++ (5 ∷ [])

abbrev request_body : Text
request_body = codes "0x00000007" ++ replicate 64 b'1' ++ codes "05"

-- What the home packs for it, from domain 7 to domain 9 with the nonce 3.
abbrev message_text : Text
message_text =
    codes "0x00000007"
    ++ replicate 60 b'0'
    ++ codes "0a0b"
    ++ codes "0000000300000009"
    ++ replicate 64 b'1'
    ++ codes "00000007"
    ++ replicate 64 b'1'
    ++ codes "05"

abbrev args : DispatchArgs
args = record {
  message_hash = codes "0x05";
  leaf_index = 0;
  destination_and_nonce = 38654705667;
  committed_root = codes "0x01";
  message = message_text;
}

abbrev chain : Chain toy
chain = chain_of args 0 []

-- Log 1 is the dispatch.
abbrev receipt : Receipt
receipt = receipt_of (log_at 0 ∷ log_at 1 ∷ log_at 2 ∷ [])

from_receipt-IsBuilt_example :
    All
      (IsBuilt hex_text chain (number 7) ready receipt)
      (from_receipt hex_text chain (number 7) ready receipt)
from_receipt-IsBuilt_example = from_receipt-IsBuilt hex_text chain (number 7) ready receipt

bridge_from_receipt-IsBridge_example :
    All
      (IsBridge hex_text chain (number 7) ready receipt)
      (bridge_from_receipt hex_text chain (number 7) ready receipt)
bridge_from_receipt-IsBridge_example =
    bridge_from_receipt-IsBridge hex_text chain (number 7) ready receipt

abbrev contents : ParsedMessage
contents = record {
  from = 7;
  sender = hex_text.hexlify (padded (10 ∷ 11 ∷ []));
  nonce = 3;
  destination = 9;
  recipient = hex_text.hexlify (padded (replicate 32 17));
  body = hex_text.hexlify request_bytes;
}

formatted : format_message hex_text 7 (codes "0x0a0b") 3 9 word request_body ≡ ok message_text
unfolding hex_text format_message ethers_address_to_bytes32 to_lower_case be
formatted = refl

foreign : (i : ℕ) → chain.parse_log (log_at i) ≡ err external → AreForeign chain (log_at i ∷ [])
foreign i h = (unparsed external h, tt)

single_from_receipt_example :
    Finds hex_text chain (number 7) ready receipt contents (core_of 7 9).home (codes "0x22", none)
unfolding hex_text resolve_domain must_get_core get_core must_get_replica_for get_replica_for
    replica_of Map.get
single_from_receipt_example =
    single_from_receipt-format_message hex_text chain (number 7) ready receipt hex_text-IsLawful
      (log_at 0 ∷ []) (log_at 2 ∷ []) (log_at 1) args 7 7 3 9 (codes "0x0a0b") word request_body
      (core_of 7 9) (codes "0x22", none) (omega arith) (omega arith) (omega arith) refl refl refl
      (omega arith) (omega arith) formatted refl (foreign 0 refl) (foreign 2 refl) refl refl refl
      refl

-- The same, for the bridge message.
found :
    Finds hex_text chain (number 7) ready receipt contents (core_of 7 9).home (codes "0x22", none)
unfolding hex_text resolve_domain must_get_core get_core must_get_replica_for get_replica_for
    replica_of Map.get
found =
    single_from_receipt-format_message hex_text chain (number 7) ready receipt hex_text-IsLawful
      (log_at 0 ∷ []) (log_at 2 ∷ []) (log_at 1) args 7 7 3 9 (codes "0x0a0b") word request_body
      (core_of 7 9) (codes "0x22", none) (omega arith) (omega arith) (omega arith) refl refl refl
      (omega arith) (omega arith) formatted refl (foreign 0 refl) (foreign 2 refl) refl refl refl
      refl

request-Encodes : Encodes hex_text FormatAction.request_details (5 ∷ []) Action.request_details
request-Encodes = Encodes.request_details

serialized :
    serialize_message hex_text (record {
      token_id = record { domain = number 7; id = text word };
      action = FormatAction.request_details;
    })
    ≡ ok request_body
unfolding hex_text serialize_message serialize_token_id serialize_action format_request_details
    format_token_id be
serialized = refl

bridge_single_from_receipt_example :
    bridge_single_from_receipt hex_text chain (number 7) ready receipt
    ≡ ok (record {
      base = found.message;
      token_domain = 7;
      token_id = hex_text.hexlify (replicate 32 17);
      from_bridge = bridge_of 7;
      to_bridge = bridge_of 9;
      action = Action.request_details;
    })
unfolding hex_text resolve_domain must_get_bridge get_bridge Map.get
bridge_single_from_receipt_example =
    bridge_single_from_receipt-serialize_message hex_text chain (number 7) ready receipt
      hex_text-IsLawful contents (codes "0x11", none) (codes "0x22", none) 7 word request_body
      FormatAction.request_details (bridge_of 7) (bridge_of 9) (omega arith) refl refl
      request-Encodes serialized refl refl refl refl found

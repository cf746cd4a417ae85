-- ===== src/Messages/Optics.antt =====
-- Optics messages: `formatMessage` and `destinationAndNonce` of
-- typescript/optics-tests/lib/core.ts, which write them, and `parseMessage` of
-- typescript/optics-provider/src/optics/messages/OpticsMessage.ts, which reads them.
use optics_monorepo.Prelude.{
  ℕ, ◌+◌, ◌-◌, ◌*◌, ◌^◌, [], ◌∷◌, Text, Result, ok, assertion, ◌>>=◌, ◌>>◌, guard, ltb, slice, drop,
}
use optics_monorepo.Wire.Bytes.{read_uint32}
use optics_monorepo.Wire.Hex.{HexLib, uint, fixed, dynamic, num, hex}
use optics_monorepo.Messages.Ids.{ethers_address_to_bytes32}

pub record ParsedMessage : Type 0 where
  pub from : ℕ
  pub sender : Text
  pub nonce : ℕ
  pub destination : ℕ
  pub recipient : Text
  pub body : Text

module _ (H : HexLib) where
  unfoldable pub parse_message : Text → Result ParsedMessage
  parse_message message = do
    buf ← H.arrayify message
    from ← read_uint32 buf 0
    let sender = H.hexlify (slice 4 36 buf)
    nonce ← read_uint32 buf 36
    destination ← read_uint32 buf 40
    let recipient = H.hexlify (slice 44 76 buf)
    let body = H.hexlify (drop 76 buf)
    ok (record {
      from = from;
      sender = sender;
      nonce = nonce;
      destination = destination;
      recipient = recipient;
      body = body;
    })

  unfoldable pub format_message : ℕ → Text → ℕ → ℕ → Text → Text → Result Text
  format_message local_domain sender_addr sequence destination_domain recipient_addr body =
      let sender = ethers_address_to_bytes32 H sender_addr in
      let recipient = ethers_address_to_bytes32 H recipient_addr in
      H.solidity_pack (
        (uint 4, num local_domain)
        ∷ (fixed 32, hex sender)
        ∷ (uint 4, num sequence)
        ∷ (uint 4, num destination_domain)
        ∷ (fixed 32, hex recipient)
        ∷ (dynamic, hex body)
        ∷ [])

-- `assert(destination < Math.pow(2, 32) - 1)`, the same for the sequence number, and the packing.
unfoldable pub destination_and_nonce : ℕ → ℕ → Result ℕ
destination_and_nonce destination sequence = do
  guard (ltb destination (2 ^ 32 - 1)) assertion
  guard (ltb sequence (2 ^ 32 - 1)) assertion
  ok (destination * 2 ^ 32 + sequence)

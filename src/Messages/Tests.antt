-- ===== src/Messages/Tests.antt =====
-- The theorems on the wire formats at concrete inputs.
use optics_monorepo.Prelude.{
  ℕ, ◌≡◌, ◌↔◌, ◌⊎◌, refl, List, [], ◌∷◌, ◌++◌, Text, codes, ok, ◌>>=◌, length, replicate, arith,
  ◌^◌, ◌<◌,
}
use optics_monorepo.Wire.Bytes.{be}
use optics_monorepo.Wire.Hex.{num}
use optics_monorepo.Wire.HexText.{hex_text, hex_text-IsLawful}
use optics_monorepo.Messages.Ids.{
  bytes, canonize_id, canonize_id-eq-ok_iff, evm_id, evm_id-canonize_id,
}
use optics_monorepo.Messages.Optics.{format_message, parse_message, destination_and_nonce}
use optics_monorepo.Messages.OpticsRoundTrip.{
  padded, parse_message-format_message, destination_and_nonce_injective,
}
use optics_monorepo.Messages.Governance.{
  format_transfer_governor, format_set_router, format_transfer_governor_lem, CallData, IsCall,
  none_left, one_more, format_calls, format_calls_lem,
}
use optics_monorepo.Messages.Bridge.{number, FormatAction, Action, parse_body, serialize_message}
use optics_monorepo.Messages.BridgeRoundTrip.{plain, Encodes, parse_body-serialize_message}
use optics_monorepo.Messages.Ids.{text}

abbrev twenty : List ℕ
twenty = replicate 20 5

abbrev word : Text
word = codes "0x" ++ replicate 64 b'1'

canonize_id-eq-ok_iff_example :
    (canonize_id hex_text (bytes twenty) ≡ ok (replicate 12 0 ++ twenty)) ↔ (
      ((length twenty ≡ 20) ⊎ (length twenty ≡ 32))
      × (replicate 12 0 ++ twenty ≡ replicate 12 0 ++ twenty))
canonize_id-eq-ok_iff_example =
    canonize_id-eq-ok_iff hex_text hex_text-IsLawful (bytes twenty) twenty refl
      (replicate 12 0 ++ twenty)

evm_id-canonize_id_example :
    (canonize_id hex_text (bytes twenty) >>= λ c. evm_id hex_text (bytes c))
    ≡ ok (hex_text.hexlify twenty)
evm_id-canonize_id_example =
    evm_id-canonize_id hex_text hex_text-IsLawful (bytes twenty) twenty refl refl

parse_message-format_message_example :
    (format_message hex_text 1000 (codes "0x0a0b") 3 2000 word (codes "0x0102")
      >>= parse_message hex_text)
    ≡ ok (record {
      from = 1000;
      sender = hex_text.hexlify (padded (10 ∷ 11 ∷ []));
      nonce = 3;
      destination = 2000;
      recipient = hex_text.hexlify (padded (replicate 32 17));
      body = hex_text.hexlify (1 ∷ 2 ∷ []);
    })
unfolding hex_text
parse_message-format_message_example =
    parse_message-format_message hex_text hex_text-IsLawful 1000 3 2000 (codes "0x0a0b") word
      (codes "0x0102") (omega arith) (omega arith) (omega arith) refl refl refl (omega arith)
      (omega arith)

abbrev five : ℕ
five = 5

abbrev six : ℕ
six = 6

destination_and_nonce_injective_example : (five ≡ 5) × (six ≡ 6) × (21474836486 < 2 ^ 64)
unfolding destination_and_nonce
destination_and_nonce_injective_example =
    destination_and_nonce_injective 5 6 5 6 21474836486 refl refl

format_transfer_governor_example :
    (format_transfer_governor hex_text 1000 word
      ≡ ok (hex_text.hexlify (2 ∷ be 4 1000 ++ replicate 32 17)))
    × (format_set_router hex_text 1000 word
        ≡ ok (hex_text.hexlify (3 ∷ be 4 1000 ++ replicate 32 17)))
unfolding hex_text
format_transfer_governor_example =
    format_transfer_governor_lem hex_text hex_text-IsLawful 1000 word (replicate 32 17)
      (omega arith) refl refl

abbrev pay : FormatAction
pay = FormatAction.transfer word (num 77)

pay-Encodes :
    Encodes hex_text pay
      (3 ∷ (replicate 32 17 ++ be 32 77))
      (Action.transfer (hex_text.hexlify (replicate 32 17)) 77)
unfolding hex_text
pay-Encodes = Encodes.transfer word (num 77) (replicate 32 17) 77 refl refl (plain 77) (omega arith)

parse_body-serialize_message_example :
    (serialize_message hex_text
        (record { token_id = record { domain = number 1000; id = text word }; action = pay })
      >>= parse_body hex_text)
    ≡ ok (record {
      token_domain = 1000;
      token_id = hex_text.hexlify (replicate 32 17);
      action = Action.transfer (hex_text.hexlify (replicate 32 17)) 77;
    })
unfolding hex_text
parse_body-serialize_message_example =
    parse_body-serialize_message hex_text hex_text-IsLawful 1000 word pay (omega arith) refl refl
      pay-Encodes

abbrev two_bytes : List ℕ
two_bytes = 1 ∷ 2 ∷ []

abbrev call_data : CallData
call_data = record { to = word; data_hex = codes "0x0102" }

call_data-IsCall : IsCall hex_text hex_text-IsLawful call_data (replicate 32 17) (1 ∷ 2 ∷ [])
unfolding hex_text
call_data-IsCall = record {
  to_bytes = refl;
  to_size = refl;
  input_bytes = refl;
  input_size = omega arith;
}

format_calls_example :
    format_calls hex_text (call_data ∷ [])
    ≡ ok (hex_text.hexlify (1 ∷ 1 ∷ (replicate 32 17 ++ (be 32 2 ++ (1 ∷ 2 ∷ []))) ++ []))
format_calls_example =
    format_calls_lem hex_text hex_text-IsLawful (call_data ∷ []) _
      (one_more call_data-IsCall none_left) (omega arith)

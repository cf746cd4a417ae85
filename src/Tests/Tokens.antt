-- ===== src/Tests/Tokens.antt =====
-- The theorems on the token methods at concrete inputs.
use optics_monorepo.Prelude.{◌≡◌, refl, some, [], ◌∷◌, ◌++◌, Text, codes, ok, replicate}
use mathlib.Core.List.Memᴰ.{head}
use optics_monorepo.Prelude.Map
use optics_monorepo.Wire.HexText.{hex_text}
use optics_monorepo.Context.Ethers.{Connection, signer}
use optics_monorepo.Context.Domains.{resolve_domain, domain_numbers}
use optics_monorepo.Context.MultiProvider.{get_connection, get_signer, get_provider}
use optics_monorepo.Context.Optics.{get_bridge}
use optics_monorepo.Messages.Ids.{text, canonize_id, evm_id}
use optics_monorepo.Messages.Bridge.{number, TokenIdentifier}
use optics_monorepo.Events.Annotated.{DispatchArgs}
use optics_monorepo.Events.Chain.{Chain}
use optics_monorepo.Tokens.Resolve.{
  ResolvedTokenInfo, resolve_representation, resolve_representations, local_address, attach_token,
}
use optics_monorepo.Tokens.Laws.Represented.{
  resolve_representation-address, resolve_representations-get,
}
use optics_monorepo.Samples.{toy, toy-IsLawful, ready, bridge_of, chain_of}

abbrev word : Text
word = codes "0x" ++ replicate 64 b'1'

abbrev token : TokenIdentifier
token = record { domain = number 7; id = text word }

abbrev args : DispatchArgs
args = record {
  message_hash = codes "0x05";
  leaf_index = 0;
  destination_and_nonce = 0;
  committed_root = codes "0x01";
  message = codes "0x";
}

abbrev chain : Chain toy
chain = chain_of args 0 []

abbrev token_address : Text
token_address = codes "0x" ++ replicate 40 b'4'

resolve_representation-address_example :
    (c : toy.Contract) × (resolve_representation hex_text chain (number 7) token ready
      ≡ ok (some c))
    × (toy.address c ≡ token_address)
unfolding hex_text resolve_domain get_bridge get_connection get_signer get_provider Map.get
    canonize_id evm_id
resolve_representation-address_example =
    resolve_representation-address toy-IsLawful hex_text chain (number 7) token ready 7 7
      (replicate 32 17) (bridge_of 7) token_address token_address (some (signer (some 70))) refl
      refl refl refl refl (λ e. cc) refl refl

abbrev info : ResolvedTokenInfo toy
info = record {
  domain = 7;
  id = text word;
  tokens =
      (7, (token_address, some (signer (some 70))))
      ∷ (9, (token_address, some (Connection.provider 90)))
      ∷ [];
}

resolve_representations-get_example :
    (Map.get 7 info.tokens ≡ some (token_address, some (signer (some 70))))
    × (info.id ≡ token.id)
    × (resolve_domain token.domain ready ≡ ok info.domain)
unfolding hex_text resolve_representations resolve_representation local_address attach_token
    resolve_domain get_bridge get_connection get_signer get_provider Map.get Map.set domain_numbers
    Map.keys canonize_id evm_id
resolve_representations-get_example =
    resolve_representations-get hex_text chain token ready info 7 _ refl (head refl) refl

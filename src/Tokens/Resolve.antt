-- ===== src/Tokens/Resolve.antt =====
-- `resolveRepresentation`, `resolveRepresentations`, `resolveCanonicalIdentifier` and
-- `resolveCanonicalToken` of typescript/optics-provider/src/optics/OpticsContext.ts.
use optics_monorepo.Prelude.{
  ℕ, Option, none, some, List, [], ◌∷◌, Text, text_eq, Result, ok, err, token_unknown, no_canonical,
  or_throw, traverse, ◌>>=◌, ◌==◌, if◌then◌else◌,
}
use optics_monorepo.Prelude.Map
use optics_monorepo.Prelude.Map.{Map}
use optics_monorepo.Wire.Hex.{HexLib}
use optics_monorepo.Context.Ethers.{Ethers, Connection}
use optics_monorepo.Context.State.{Context}
use optics_monorepo.Context.Domains.{resolve_domain, domain_numbers}
use optics_monorepo.Context.MultiProvider.{get_connection}
use optics_monorepo.Context.Contracts.{BridgeContracts}
use optics_monorepo.Context.Optics.{get_bridge, must_get_bridge}
use optics_monorepo.Messages.Ids.{BytesLike, text, bytes, canonize_id, evm_id}
use optics_monorepo.Messages.Bridge.{NameOrDomain, number, TokenIdentifier}
use optics_monorepo.Events.Chain.{Chain}
use optics_monorepo.Lifecycle.Bridge.{address_zero}

pub record ResolvedTokenInfo (E : Ethers) : Type 0 where
  pub domain : ℕ
  pub id : BytesLike
  pub tokens : Map E.Contract

module _ {E : Ethers} (H : HexLib) (C : Chain E) where
  -- `bridge?.bridgeRouter[…](…)`, where `none` is undefined.
  unfoldable pub local_address : Option (BridgeContracts E) → ℕ → List ℕ → Result (Option Text)
  local_address none domain id = ok none
  local_address (some b) domain id =
      C.get_local_address b.bridge_router domain (bytes id) >>= λ a. ok (some a)

  abbrev pub connected : E.Contract → Option (Connection E.Provider E.Signer) → E.Contract
  connected c none = c
  connected c (some x) = E.connect c x

  -- `if (!address) return`, where undefined and the empty text are falsy, and the rest.
  unfoldable pub attach_token : ℕ → Context E → Option Text → Result (Option E.Contract)
  attach_token domain s none = ok none
  attach_token domain s (some []) = ok none
  attach_token domain s (some (c ∷ t)) = do
    address ← evm_id H (text (c ∷ t))
    connection ← get_connection E (number domain) s
    ok (some (connected (E.attach none address) connection))

  unfoldable pub resolve_representation :
      NameOrDomain → TokenIdentifier → Context E → Result (Option E.Contract)
  unfolding local_address attach_token
  resolve_representation nod token s = do
    domain ← resolve_domain nod s
    bridge ← get_bridge E (number domain) s
    token_domain ← resolve_domain token.domain s
    token_id ← canonize_id H token.id
    address ← local_address bridge token_domain token_id
    attach_token domain s address

  abbrev pub collect : List (ℕ × Option E.Contract) → Map E.Contract → Map E.Contract
  collect [] m = m
  collect ((d, none) ∷ rest) m = collect rest m
  collect ((d, some t) ∷ rest) m = collect rest (Map.set d t m)

  abbrev pub resolve_on : TokenIdentifier → Context E → ℕ → Result (ℕ × Option E.Contract)
  resolve_on token s d = resolve_representation (number d) token s >>= λ t. ok (d, t)

  unfoldable pub resolve_representations :
      TokenIdentifier → Context E → Result (ResolvedTokenInfo E)
  unfolding resolve_representation
  resolve_representations token s = do
    found ← traverse (resolve_on token s) (domain_numbers s)
    domain ← resolve_domain token.domain s
    ok (record { domain = domain; id = token.id; tokens = collect found [] })

  -- The test on the router's local address, and the end of `resolveCanonicalIdentifier`.
  local_identifier : ℕ → Text → Result TokenIdentifier
  local_identifier domain address =
      if text_eq address address_zero
      then err token_unknown
      else (canonize_id H (text address) >>= λ id.
          ok (record { domain = number domain; id = text (H.hexlify id) }))

  identifier : ℕ → BridgeContracts E → Text → ℕ × Text → Result TokenIdentifier
  unfolding local_identifier
  identifier domain bridge repr (canonical_domain, canonical_id) =
      if canonical_domain == 0
      then (C.get_local_address bridge.bridge_router domain (text repr) >>= λ local.
          local_identifier domain local)
      else ok (record { domain = number canonical_domain; id = text canonical_id })

  unfoldable pub resolve_canonical_identifier :
      NameOrDomain → Text → Context E → Result TokenIdentifier
  unfolding identifier
  resolve_canonical_identifier nod representation s = do
    domain ← resolve_domain nod s
    bridge ← must_get_bridge E nod s
    id ← canonize_id H (text representation)
    canonical ← C.representation_to_canonical bridge.bridge_router representation
    identifier domain bridge (H.hexlify id) canonical

  unfoldable pub resolve_canonical_token : NameOrDomain → Text → Context E → Result E.Contract
  unfolding resolve_canonical_identifier resolve_representation
  resolve_canonical_token nod representation s = do
    canonical ← resolve_canonical_identifier nod representation s
    token ← resolve_representation canonical.domain canonical s
    or_throw token no_canonical

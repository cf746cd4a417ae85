-- ===== src/Tokens/Laws/Represented.antt =====
-- What the token lookups return (typescript/optics-provider/src/optics/OpticsContext.ts).
use optics_monorepo.Prelude.{
  ℕ, ◌≡◌, ◌≢◌, refl, sym, subst, ap, ◌∙◌, Option, none, some, List, [], ◌∷◌, Text, ok, >>=-eq-ok,
  ok-eq-ok, arith, inl, inr, Bool-cases, traverse, ◌==◌, ==_iff,
}
use mathlib.Core.List.{Memᴰ}
use mathlib.Core.List.Memᴰ.{head, tail}
use optics_monorepo.Prelude.Map
use optics_monorepo.Prelude.Map.{Map}
use optics_monorepo.Wire.Hex.{HexLib}
use optics_monorepo.Context.Ethers.{Ethers, Connection, IsLawful}
use optics_monorepo.Context.State.{Context}
use optics_monorepo.Context.Domains.{resolve_domain, domain_numbers}
use optics_monorepo.Context.MultiProvider.{get_connection}
use optics_monorepo.Context.Contracts.{BridgeContracts}
use optics_monorepo.Context.Optics.{get_bridge}
use optics_monorepo.Messages.Ids.{text, bytes, canonize_id, evm_id}
use optics_monorepo.Messages.Bridge.{NameOrDomain, number, TokenIdentifier}
use optics_monorepo.Events.Chain.{Chain}
use optics_monorepo.Tokens.Resolve.{
  local_address, attach_token, connected, collect, resolve_on, resolve_representation,
  resolve_representations, ResolvedTokenInfo,
}

module _ {E : Ethers} (L : IsLawful E) (H : HexLib) (C : Chain E) where
  address-connected :
      (c : E.Contract) (x : Option (Connection E.Provider E.Signer))
      → E.address (connected H C c x) ≡ E.address c
  address-connected c none = refl
  address-connected c (some x) = L.address-connect c x

  attach_token-address :
      (domain : ℕ) (s : Context E) (answer address : Text)
      (x : Option (Connection E.Provider E.Signer))
      → answer ≢ []
      → evm_id H (text answer) ≡ ok address
      → get_connection E (number domain) s ≡ ok x
      → (c : E.Contract) × (attach_token H C domain s (some answer) ≡ ok (some c))
        × (E.address c ≡ address)
  unfolding attach_token
  attach_token-address domain s [] address x n h k = absurd (n refl)
  attach_token-address domain s (d ∷ t) address x n h k = (
    _,
    rw (h, k) refl,
    address-connected (E.attach none address) x ∙ L.address-attach none address,
  )

  -- Where the domain has a bridge whose router answers with an address, the zero address included,
  -- `resolveRepresentation` returns a handle of that address.
  pub resolve_representation-address :
      (nod : NameOrDomain) (token : TokenIdentifier) (s : Context E) (domain token_domain : ℕ)
      (id : List ℕ) (bridge : BridgeContracts E) (answer address : Text)
      (x : Option (Connection E.Provider E.Signer))
      → resolve_domain nod s ≡ ok domain
      → get_bridge E (number domain) s ≡ ok (some bridge)
      → resolve_domain token.domain s ≡ ok token_domain
      → canonize_id H token.id ≡ ok id
      → C.get_local_address bridge.bridge_router token_domain (bytes id) ≡ ok answer
      → answer ≢ []
      → evm_id H (text answer) ≡ ok address
      → get_connection E (number domain) s ≡ ok x
      → (c : E.Contract) × (resolve_representation H C nod token s ≡ ok (some c))
        × (E.address c ≡ address)
  unfolding resolve_representation local_address
  resolve_representation-address nod token s domain token_domain id bridge answer address x hd hb ht
        hi ha n he hx =
      let (c, attached, same) = attach_token-address domain s answer address x n he hx in
      (c, rw (hd, hb, ht, hi, ha) attached, same)

module _ {E : Ethers} (H : HexLib) (C : Chain E) (token : TokenIdentifier) (s : Context E) where
  resolved_first :
      (k : ℕ) (ds : List ℕ) {found : List (ℕ × Option E.Contract)}
      → traverse (resolve_on H C token s) (k ∷ ds) ≡ ok found
      → (o : Option E.Contract) × (rest : List (ℕ × Option E.Contract)) × (resolve_representation H
            C
            (number k)
            token
            s
          ≡ ok o)
        × (traverse (resolve_on H C token s) ds ≡ ok rest)
        × (found ≡ (k, o) ∷ rest)
  resolved_first k ds e =
      let (pair, e1, e2) = >>=-eq-ok (resolve_on H C token s k) _ e in
      let (o, resolved, e3) = >>=-eq-ok (resolve_representation H C (number k) token s) _ e1 in
      let (rest, later, e4) = >>=-eq-ok (traverse (resolve_on H C token s) ds) _ e2 in
      (o, rest, resolved, later, sym (ok-eq-ok e4) ∙ ap (λ p. p ∷ rest) (sym (ok-eq-ok e3)))

  get-set_same :
      (d k : ℕ) (t : Option E.Contract) (x : E.Contract) (m : Map E.Contract)
      → resolve_representation H C (number d) token s ≡ ok t
      → resolve_representation H C (number k) token s ≡ ok (some x)
      → (k ≢ d → Map.get d m ≡ t)
      → Map.get d (Map.set k x m) ≡ t
  get-set_same d k t x m r r' h = elim (Bool-cases (k == d)) [
    | inl q ↦
        let same = (==_iff k d).0 q in
        rw (Map.get-set k d x m, q)
          (ok-eq-ok (
            sym (subst (λ k. resolve_representation H C (number k) token s ≡ ok (some x)) same r')
            ∙ r))
    | inr q ↦ rw (Map.get-set k d x m, q) (h (λ e. absurd (ground (arith, q, e))))
  ]

  collect_next :
      (d k : ℕ) (t o : Option E.Contract) (rest : List (ℕ × Option E.Contract)) (m : Map E.Contract)
      → resolve_representation H C (number d) token s ≡ ok t
      → resolve_representation H C (number k) token s ≡ ok o
      → ((m : Map E.Contract) → Map.get d m ≡ t → Map.get d (collect H C rest m) ≡ t)
      → Map.get d m ≡ t
      → Map.get d (collect H C ((k, o) ∷ rest) m) ≡ t
  collect_next d k t none rest m r r' keeps h = keeps m h
  collect_next d k t (some x) rest m r r' keeps h =
      keeps (Map.set k x m) (get-set_same d k t x m r r' (λ _. h))

  -- A domain that is in the map with its representation keeps it.
  collect_keeps :
      (d : ℕ) (t : Option E.Contract)
      → resolve_representation H C (number d) token s ≡ ok t
      → (ds : List ℕ) {found : List (ℕ × Option E.Contract)} (m : Map E.Contract)
      → traverse (resolve_on H C token s) ds ≡ ok found
      → Map.get d m ≡ t
      → Map.get d (collect H C found m) ≡ t
  collect_keeps d t r [] {found} m e h = rw (sym (ok-eq-ok e)) h
  collect_keeps d t r (k ∷ ds) {found} m e h =
      let (o, rest, resolved, later, same) = resolved_first k ds e in
      rw same (collect_next d k t o rest m r resolved (λ m. collect_keeps d t r ds m later) h)

  -- The domain's own turn.
  collect_own :
      (d k : ℕ) (t o : Option E.Contract) (rest : List (ℕ × Option E.Contract)) (m : Map E.Contract)
      → d ≡ k
      → resolve_representation H C (number d) token s ≡ ok t
      → resolve_representation H C (number k) token s ≡ ok o
      → ((m : Map E.Contract) → Map.get d m ≡ t → Map.get d (collect H C rest m) ≡ t)
      → Map.get d m ≡ none
      → Map.get d (collect H C ((k, o) ∷ rest) m) ≡ t
  collect_own d k t none rest m q r r' keeps h =
      let t_none : none ≡ t = ok-eq-ok (
        sym (subst (λ k. resolve_representation H C (number k) token s ≡ ok none) (sym q) r')
        ∙ r) in
      keeps m (h ∙ t_none)
  collect_own d k t (some x) rest m q r r' keeps h =
      keeps (Map.set k x m) (get-set_same d k t x m r r' (λ n. absurd (n (sym q))))

  -- Another domain's turn.
  collect_other :
      (d k : ℕ) (t o : Option E.Contract) (rest : List (ℕ × Option E.Contract)) (m : Map E.Contract)
      → resolve_representation H C (number d) token s ≡ ok t
      → resolve_representation H C (number k) token s ≡ ok o
      → ((m : Map E.Contract) → Map.get d m ≡ none → Map.get d (collect H C rest m) ≡ t)
      → ((m : Map E.Contract) → Map.get d m ≡ t → Map.get d (collect H C rest m) ≡ t)
      → Map.get d m ≡ none
      → Map.get d (collect H C ((k, o) ∷ rest) m) ≡ t
  collect_other d k t none rest m r r' finds keeps h = finds m h
  collect_other d k t (some x) rest m r r' finds keeps h = elim (Bool-cases (k == d)) [
    | inl q ↦
        keeps (Map.set k x m) (get-set_same d k t x m r r' (λ n. absurd (n ((==_iff k d).0 q))))
    | inr q ↦ finds (Map.set k x m) (rw (Map.get-set k d x m, q) h)
  ]

  collect-Memᴰ :
      (d : ℕ) (t : Option E.Contract)
      → resolve_representation H C (number d) token s ≡ ok t
      → (ds : List ℕ) {found : List (ℕ × Option E.Contract)} (m : Map E.Contract) → Memᴰ d ds
      → traverse (resolve_on H C token s) ds ≡ ok found
      → Map.get d m ≡ none
      → Map.get d (collect H C found m) ≡ t
  collect-Memᴰ d t r [] m mem e h = elim mem [ ]
  collect-Memᴰ d t r (k ∷ ds) m (head q) e h =
      let (o, rest, resolved, later, same) = resolved_first k ds e in
      rw same (collect_own d k t o rest m q r resolved (λ m. collect_keeps d t r ds m later) h)
  collect-Memᴰ d t r (k ∷ ds) m (tail mem) e h =
      let (o, rest, resolved, later, same) = resolved_first k ds e in
      rw same (
        collect_other d k t o rest m r resolved (λ m. collect-Memᴰ d t r ds m mem later)
          (λ m. collect_keeps d t r ds m later) h)

  -- If `resolveRepresentations` returns, then with the token's domain and identifier and, under each
  -- registered domain, what `resolveRepresentation` returns for it: its handle, or no entry.
  pub resolve_representations-get :
      (info : ResolvedTokenInfo E) (d : ℕ) (t : Option E.Contract)
      → resolve_representations H C token s ≡ ok info
      → Memᴰ d (domain_numbers s)
      → resolve_representation H C (number d) token s ≡ ok t
      → (Map.get d info.tokens ≡ t)
        × (info.id ≡ token.id)
        × (resolve_domain token.domain s ≡ ok info.domain)
  unfolding resolve_representations
  resolve_representations-get info d t e mem r =
      let (found, all, e1) = >>=-eq-ok (traverse (resolve_on H C token s) (domain_numbers s)) _ e in
      let (domain, resolved, e2) = >>=-eq-ok (resolve_domain token.domain s) _ e1 in
      subst
        (λ (i : ResolvedTokenInfo E).
          (Map.get d i.tokens ≡ t)
          × (i.id ≡ token.id)
          × (resolve_domain token.domain s ≡ ok i.domain))
        (ok-eq-ok e2)
        (collect-Memᴰ d t r (domain_numbers s) [] mem all (unfold Map.get in refl), refl, resolved)

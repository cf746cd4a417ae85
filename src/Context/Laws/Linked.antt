-- ===== src/Context/Laws/Linked.antt =====
-- Linked signers: how the signer and the provider that are registered for a domain relate.
use optics_monorepo.Prelude.{
  ℕ, ◌≡◌, refl, sym, ap, Option, none, some, Result, ok, err, ◌==◌, ==_iff, if◌then◌else◌,
  Bool-cases, Result-cases, inl, inr, arith,
}
use optics_monorepo.Prelude.Map
use optics_monorepo.Prelude.Exec.{Keeps, Keeps-bind, reads, continue, continue-eq-ok, modify}
use optics_monorepo.Context.Ethers.{Ethers, IsLawful, Connection}
use optics_monorepo.Context.State.{Context, Method}
use optics_monorepo.Context.Domains.{resolve_domain, must_get_domain}
use optics_monorepo.Context.MultiProvider
use optics_monorepo.Context.MultiProvider.{
  drop_signer, drop_found, rebound, rebind_found, rebind_signer, register_fallback, connected_twice,
  connected_once, choose_provider, set_provider, set_signer, get_connection, get_signer,
  get_provider,
}
use optics_monorepo.Context.Optics
use optics_monorepo.Context.Optics.{reconnect, reconnect_to}
use optics_monorepo.Messages.Bridge.{NameOrDomain, number}

module _ (E : Ethers) where
  -- What is registered for one domain.
  abbrev pub Linked : Option E.Signer → Option E.Provider → Type 0
  Linked none p = Unit
  Linked (some x) none = ⊥
  Linked (some x) (some p) = E.provider_of x ≡ some p

  abbrev pub IsLinked : Context E → Type 0
  IsLinked s = (k : ℕ) → Linked (Map.get k s.signers) (Map.get k s.providers)

module _ (E : Ethers) (L : IsLawful E) where
  drop_signer-IsLinked :
      (d : ℕ) (x : E.Signer) (o : Option E.Provider) (s : Context E)
      → E.provider_of x ≡ o
      → Map.get d s.signers ≡ some x
      → IsLinked E s
      → IsLinked E (drop_signer E d o s).1
  unfolding drop_signer
  drop_signer-IsLinked d x none s q e h k = h k
  drop_signer-IsLinked d x (some p) s q e h k =
      ground (arith, q, e, Map.get-delete d k s.signers, Map.get-set d k p s.providers, h k)

  drop_found-IsLinked :
      (d : ℕ) (o : Option E.Signer) (s : Context E)
      → Map.get d s.signers ≡ o
      → IsLinked E s
      → IsLinked E (drop_found E d o s).1
  unfolding drop_found
  drop_found-IsLinked d none s e h = h
  drop_found-IsLinked d (some x) s e h = drop_signer-IsLinked d x (E.provider_of x) s refl e h

  unregister_signer-IsLinked :
      (nod : NameOrDomain) → Keeps (IsLinked E) (MultiProvider.unregister_signer E nod)
  unfolding MultiProvider.unregister_signer
  unregister_signer-IsLinked nod =
      Keeps-bind (IsLinked E) (reads (resolve_domain nod)) _ (λ s h. h)
        (λ d s h. drop_found-IsLinked d (Map.get d s.signers) s refl h)

  pub reconnect_to-IsLinked :
      (d : ℕ) (c : Option (Connection E.Provider E.Signer))
      → Keeps (IsLinked E) (reconnect_to E d c)
  unfolding reconnect_to
  reconnect_to-IsLinked d none s h = h
  reconnect_to-IsLinked d (some c) s h = h

  pub reconnect-IsLinked : (d : ℕ) → Keeps (IsLinked E) (reconnect E d)
  unfolding reconnect
  reconnect-IsLinked d =
      Keeps-bind (IsLinked E) (reads (get_connection E (number d))) _ (λ s h. h)
        (reconnect_to-IsLinked d)

  pub optics_unregister-IsLinked :
      (nod : NameOrDomain) → Keeps (IsLinked E) (Optics.unregister_signer E nod)
  unfolding Optics.unregister_signer
  optics_unregister-IsLinked nod =
      Keeps-bind (IsLinked E) (reads (resolve_domain nod)) _ (λ s h. h)
        (λ d.
          Keeps-bind (IsLinked E) (MultiProvider.unregister_signer E (number d)) _
            (unregister_signer-IsLinked (number d)) (λ _. reconnect-IsLinked d))

  -- What `registerProvider` needs of the `unregisterSigner` that it calls.
  pub record Unregisters (unregister : ℕ → Method E) : Type 0 where
    pub keeps : (d : ℕ) → Keeps (IsLinked E) (unregister d)
    pub removes :
        (d : ℕ) (s : Context E)
        → (unregister d s).0 ≡ ok tt
        → Map.get d (unregister d s).1.signers ≡ none

  -- The signers are linked, once `p` is the provider of `d`.
  abbrev AlmostLinked : ℕ → E.Provider → Context E → Type 0
  AlmostLinked d p s =
      (k : ℕ) → Linked E (Map.get k s.signers) (if d == k then some p else Map.get k s.providers)

  abbrev After : ℕ → E.Provider → Result (Unit {0}) × Context E → Type 0
  After d p (ok _, s) = AlmostLinked d p s
  After d p (err _, s) = IsLinked E s

  AlmostLinked-of_none :
      (d : ℕ) (p : E.Provider) (s : Context E)
      → Map.get d s.signers ≡ none
      → IsLinked E s
      → AlmostLinked d p s
  AlmostLinked-of_none d p s e h k = elim (Bool-cases (d == k)) [
    | inl q ↦ rw (q, sym ((==_iff d k).0 q), e) tt
    | inr q ↦ rw q (h k)
  ]

  AlmostLinked-set_signer :
      (d : ℕ) (p : E.Provider) (x : E.Signer) (s : Context E)
      → E.provider_of x ≡ some p
      → IsLinked E s
      → AlmostLinked d p (set_signer E d x s)
  AlmostLinked-set_signer d p x s e h k = elim (Bool-cases (d == k)) [
    | inl q ↦ rw (Map.get-set d k x s.signers, q) e
    | inr q ↦ rw (Map.get-set d k x s.signers, q) (h k)
  ]

  module _ (unregister : ℕ → Method E) (U : Unregisters unregister) where
    unregister-After :
        (d : ℕ) (p : E.Provider) (s : Context E) → IsLinked E s → After d p (unregister d s)
    unregister-After d p s h = go (unregister d s) refl (U.keeps d s h)
      where
        go : (r : Result (Unit {0}) × Context E) → unregister d s ≡ r → IsLinked E r.1 → After d p r
        go (err e, s') q k = k
        go (ok tt, s') q k =
            AlmostLinked-of_none d p s'
              (rw q at (U.removes d s (ap (λ (r : Result (Unit {0}) × Context E). r.0) q))) k

    rebound-After :
        (d : ℕ) (p : E.Provider) (x : E.Signer) (o : Option E.Signer) (s : Context E)
        → E.connect_signer x p ≡ o
        → IsLinked E s
        → After d p (rebound E unregister d o s)
    unfolding rebound
    rebound-After d p x none s e h = unregister-After d p s h
    rebound-After d p x (some y) s e h =
        AlmostLinked-set_signer d p y s (L.connect_signer-provider x y p e) h

    rebind_found-After :
        (d : ℕ) (p : E.Provider) (o : Option E.Signer) (s : Context E)
        → Map.get d s.signers ≡ o
        → IsLinked E s
        → After d p (rebind_found E unregister d p o s)
    unfolding rebind_found
    rebind_found-After d p none s e h = AlmostLinked-of_none d p s e h
    rebind_found-After d p (some x) s e h = rebound-After d p x (E.connect_signer x p) s refl h

    set_provider-IsLinked :
        (d : ℕ) (p : E.Provider) (s : Context E)
        → AlmostLinked d p s
        → IsLinked E (set_provider E d p s)
    set_provider-IsLinked d p s h k = rw (Map.get-set d k p s.providers) (h k)

    register_provider-IsLinked :
        (nod : NameOrDomain) (p : E.Provider)
        → Keeps (IsLinked E) (MultiProvider.register_provider E unregister nod p)
    unfolding MultiProvider.register_provider rebind_signer
    register_provider-IsLinked nod p =
        Keeps-bind (IsLinked E) (reads (must_get_domain nod)) _ (λ s h. h)
          (λ domain s h.
            finish domain.id (rebind_found E unregister domain.id p (Map.get domain.id s.signers) s)
              (rebind_found-After domain.id p (Map.get domain.id s.signers) s refl h))
      where
        finish :
            (d : ℕ) (r : Result (Unit {0}) × Context E)
            → After d p r
            → IsLinked E (continue r.0 (λ _. modify (set_provider E d p)) r.1).1
        finish d (err e, s) h = h
        finish d (ok tt, s) h = set_provider-IsLinked d p s h

  pub signers-reconnect :
      (d : ℕ) (s : Context E)
      → ((reconnect E d s).1.signers ≡ s.signers) × ((reconnect E d s).1.providers ≡ s.providers)
  unfolding reconnect
  signers-reconnect d s = elim (Result-cases (get_connection E (number d) s)) [
    | inr (e, q) ↦ rw q (refl, refl)
    | inl (none, q) ↦ rw q (refl, refl)
    | inl (some c, q) ↦ rw q (refl, refl)
  ]

  drop_found-removes :
      (d : ℕ) (o : Option E.Signer) (s : Context E)
      → Map.get d s.signers ≡ o
      → (drop_found E d o s).0 ≡ ok tt
      → Map.get d (drop_found E d o s).1.signers ≡ none
  unfolding drop_found drop_signer
  drop_found-removes d none s e h = e
  drop_found-removes d (some x) s e h = ground (arith, Map.get-delete d d s.signers)

  optics_unregister-removes :
      (d : ℕ) (s : Context E)
      → (Optics.unregister_signer E (number d) s).0 ≡ ok tt
      → Map.get d (Optics.unregister_signer E (number d) s).1.signers ≡ none
  unfolding Optics.unregister_signer MultiProvider.unregister_signer resolve_domain
  optics_unregister-removes d s h =
      let r = drop_found E d (Map.get d s.signers) s in
      let (_, dropped, whole) = continue-eq-ok r.0 (λ _. reconnect E d) r.1 h in
      rw (whole, (signers-reconnect d r.1).0)
        (drop_found-removes d (Map.get d s.signers) s refl dropped)

  pub optics-Unregisters : Unregisters (λ k. Optics.unregister_signer E (number k))
  optics-Unregisters = record {
    keeps = λ d. optics_unregister-IsLinked (number d);
    removes = optics_unregister-removes;
  }

  pub optics_register_provider-IsLinked :
      (nod : NameOrDomain) (p : E.Provider) → Keeps (IsLinked E) (Optics.register_provider E nod p)
  unfolding Optics.register_provider
  optics_register_provider-IsLinked nod p =
      Keeps-bind (IsLinked E) (reads (resolve_domain nod)) _ (λ s h. h)
        (λ d.
          Keeps-bind (IsLinked E) (MultiProvider.register_provider E _ (number d) p) _
            (register_provider-IsLinked _ optics-Unregisters (number d) p)
            (λ _. reconnect-IsLinked d))

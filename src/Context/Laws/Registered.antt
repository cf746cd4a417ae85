-- ===== src/Context/Laws/Registered.antt =====
-- Registering signers with `MultiProvider` and `OpticsContext` (typescript/optics-provider/src).
use optics_monorepo.Prelude.{
  ℕ, ◌≡◌, refl, sym, ◌∙◌, Option, none, some, Result, ok, err, ◌==◌, ==_iff, eq_refl, Bool-cases,
  inl, inr, arith,
}
use optics_monorepo.Prelude.Map
use optics_monorepo.Prelude.Exec.{
  Keeps, Keeps-for_each, Keeps-bind, reads, continue, continue-eq-ok, modify,
}
use optics_monorepo.Context.Ethers.{Ethers, IsLawful}
use optics_monorepo.Context.State.{Context, Method, Domain}
use optics_monorepo.Context.Domains.{resolve_domain, must_get_domain, domain_numbers}
use optics_monorepo.Context.MultiProvider
use optics_monorepo.Context.MultiProvider.{
  rebind_signer, register_fallback, connected_twice, connected_once, choose_provider, set_provider,
  set_signer,
}
use optics_monorepo.Context.Optics
use optics_monorepo.Context.Optics.{reconnect}
use optics_monorepo.Context.Laws.Linked.{
  IsLinked, optics_unregister-IsLinked, reconnect-IsLinked, signers-reconnect,
  optics_register_provider-IsLinked,
}
use optics_monorepo.Context.Laws.Domains.{
  optics_unregister-HasDomains, optics_register_provider-HasDomains, optics_clear-HasDomains,
  reconnect-HasDomains,
}
use optics_monorepo.Messages.Bridge.{NameOrDomain, number}

module _ (E : Ethers) where
  -- Domains stand under their own numbers, and signers are linked.
  pub record IsSound (s : Context E) : Type 0 where
    pub keyed : (k : ℕ) (d : Domain) → Map.get k s.domains ≡ some d → d.id ≡ k
    pub linked : IsLinked E s

module _ (E : Ethers) (L : IsLawful E) where
  pub IsSound-Keeps :
      (m : Method E)
      → ((D : Map.Map Domain) → Keeps (λ (s : Context E). s.domains ≡ D) m)
      → Keeps (IsLinked E) m
      → Keeps (IsSound E) m
  IsSound-Keeps m same keeps s h = record {
    keyed = λ k d e. h.keyed k d (rw (same s.domains s refl) at e);
    linked = keeps s h.linked;
  }

  base-provides :
      (u : ℕ → Method E) (nod : NameOrDomain) (p : E.Provider) (s : Context E)
      → (MultiProvider.register_provider E u nod p s).0 ≡ ok tt
      → (dom : Domain) × (must_get_domain nod s ≡ ok dom)
        × (Map.get dom.id (MultiProvider.register_provider E u nod p s).1.providers ≡ some p)
  unfolding MultiProvider.register_provider
  base-provides u nod p s e =
      let (dom, found, first) = continue-eq-ok (must_get_domain nod s) _ s e in
      let r = rebind_signer E u dom.id p s in
      let e' : (continue r.0 (λ _. modify (set_provider E dom.id p)) r.1).0 ≡ ok tt =
        rw (← first) e in
      let (_, _, second) = continue-eq-ok r.0 (λ _. modify (set_provider E dom.id p)) r.1 e' in
      (dom, found, rw (first, second) (Map.get-set dom.id dom.id p r.1.providers ∙ rw eq_refl))

  -- The provider is registered under the number that was asked for.
  provides :
      (d : ℕ) (p : E.Provider) (s : Context E)
      → IsSound E s
      → (Optics.register_provider E (number d) p s).0 ≡ ok tt
      → Map.get d (Optics.register_provider E (number d) p s).1.providers ≡ some p
  unfolding Optics.register_provider must_get_domain resolve_domain
  provides d p s h e =
      let r =
        MultiProvider.register_provider E (λ k. Optics.unregister_signer E (number k)) (number d) p
          s in
      let (_, base, whole) = continue-eq-ok r.0 (λ _. reconnect E d) r.1 e in
      let (dom, found, set) = base-provides _ (number d) p s base in
      let keyed : dom.id ≡ d = h.keyed d dom (ground arith) in
      rw (whole, (signers-reconnect E L d r.1).1) (rw keyed at set)

  set_signer-IsSound :
      (d : ℕ) (x : E.Signer) (p : E.Provider) (s : Context E)
      → E.provider_of x ≡ some p
      → Map.get d s.providers ≡ some p
      → IsSound E s
      → IsSound E (set_signer E d x s)
  set_signer-IsSound d x p s e q h = record {
    keyed = h.keyed;
    linked = λ k. elim (Bool-cases (d == k)) [
      | inl z ↦ rw (Map.get-set d k x s.signers, z, sym ((==_iff d k).0 z), q) e
      | inr z ↦ rw (Map.get-set d k x s.signers, z) (h.linked k)
    ];
  }

  -- What `registerSigner` needs of the `registerProvider` that it calls.
  record Registers (register_p : ℕ → E.Provider → Method E) : Type 0 where
    keeps : (d : ℕ) (p : E.Provider) → Keeps (IsSound E) (register_p d p)
    gives :
        (d : ℕ) (p : E.Provider) (s : Context E)
        → IsSound E s
        → (register_p d p s).0 ≡ ok tt
        → Map.get d (register_p d p s).1.providers ≡ some p

  module _ (register_p : ℕ → E.Provider → Method E) (R : Registers register_p) where
    fallback-IsSound :
        (d : ℕ) (x : E.Signer) (o : Option E.Provider)
        → E.provider_of x ≡ o
        → Keeps (IsSound E) (register_fallback E register_p d x o)
    unfolding register_fallback
    fallback-IsSound d x none e s h = h
    fallback-IsSound d x (some p) e s h =
        finish (register_p d p s) (R.keeps d p s h) (R.gives d p s h)
      where
        finish :
            (r : Result (Unit {0}) × Context E)
            → IsSound E r.1
            → (r.0 ≡ ok tt → Map.get d r.1.providers ≡ some p)
            → IsSound E (continue r.0 (λ _. modify (set_signer E d x)) r.1).1
        finish (err q, t) k g = k
        finish (ok tt, t) k g = set_signer-IsSound d x p t e (g refl) k

    connected_twice-IsSound :
        (d : ℕ) (y : E.Signer) (p : E.Provider) (o : Option E.Signer) (s : Context E)
        → E.connect_signer y p ≡ o
        → Map.get d s.providers ≡ some p
        → IsSound E s
        → IsSound E (connected_twice E register_p d y o s).1
    unfolding connected_twice
    connected_twice-IsSound d y p none s e q h = fallback-IsSound d y (E.provider_of y) refl s h
    connected_twice-IsSound d y p (some z) s e q h =
        set_signer-IsSound d z p s (L.connect_signer-provider y z p e) q h

    connected_once-IsSound :
        (d : ℕ) (x : E.Signer) (p : E.Provider) (o : Option E.Signer) (s : Context E)
        → Map.get d s.providers ≡ some p
        → IsSound E s
        → IsSound E (connected_once E register_p d x p o s).1
    unfolding connected_once
    connected_once-IsSound d x p none s q h = fallback-IsSound d x (E.provider_of x) refl s h
    connected_once-IsSound d x p (some y) s q h =
        connected_twice-IsSound d y p (E.connect_signer y p) s refl q h

    choose-IsSound :
        (d : ℕ) (x : E.Signer) (o q : Option E.Provider) (s : Context E)
        → Map.get d s.providers ≡ o
        → E.provider_of x ≡ q
        → IsSound E s
        → IsSound E (choose_provider E register_p d x o q s).1
    unfolding choose_provider
    choose-IsSound d x none none s e f h = h
    choose-IsSound d x none (some q) s e f h = fallback-IsSound d x (some q) f s h
    choose-IsSound d x (some p) q s e f h =
        connected_once-IsSound d x p (E.connect_signer x p) s e h

    register_signer-IsSound :
        (nod : NameOrDomain) (x : E.Signer)
        → Keeps (IsSound E) (MultiProvider.register_signer E register_p nod x)
    unfolding MultiProvider.register_signer
    register_signer-IsSound nod x =
        Keeps-bind (IsSound E) (reads (resolve_domain nod)) _ (λ s h. h)
          (λ d s h. choose-IsSound d x (Map.get d s.providers) (E.provider_of x) s refl refl h)

  pub optics_register_provider-IsSound :
      (nod : NameOrDomain) (p : E.Provider) → Keeps (IsSound E) (Optics.register_provider E nod p)
  optics_register_provider-IsSound nod p =
      IsSound-Keeps (Optics.register_provider E nod p)
        (λ D. optics_register_provider-HasDomains E D nod p)
        (optics_register_provider-IsLinked E L nod p)

  optics-Registers : Registers (λ k. Optics.register_provider E (number k))
  optics-Registers = record {
    keeps = λ d p. optics_register_provider-IsSound (number d) p;
    gives = provides;
  }

  pub optics_register_signer-IsSound :
      (nod : NameOrDomain) (x : E.Signer) → Keeps (IsSound E) (Optics.register_signer E nod x)
  unfolding Optics.register_signer
  optics_register_signer-IsSound nod x =
      Keeps-bind (IsSound E) (reads (resolve_domain nod)) _ (λ s h. h)
        (λ d.
          Keeps-bind (IsSound E) (MultiProvider.register_signer E _ (number d) x) _
            (register_signer-IsSound _ optics-Registers (number d) x)
            (λ _.
              IsSound-Keeps (reconnect E d) (λ D. reconnect-HasDomains E D d)
                (reconnect-IsLinked E L d)))

  pub optics_unregister-IsSound :
      (nod : NameOrDomain) → Keeps (IsSound E) (Optics.unregister_signer E nod)
  optics_unregister-IsSound nod =
      IsSound-Keeps (Optics.unregister_signer E nod) (λ D. optics_unregister-HasDomains E D nod)
        (optics_unregister-IsLinked E L nod)

  clear-IsLinked : Keeps (IsLinked E) (Optics.clear_signers E)
  unfolding Optics.clear_signers MultiProvider.clear_signers
  clear-IsLinked =
      Keeps-bind (IsLinked E) (MultiProvider.clear_signers E _) _
        (λ s.
          Keeps-for_each (IsLinked E) (domain_numbers s) _
            (λ k. optics_unregister-IsLinked E L (number k)) s)
        (λ _ s.
          Keeps-for_each (IsLinked E) (domain_numbers s) (reconnect E) (reconnect-IsLinked E L) s)

  pub optics_clear-IsSound : Keeps (IsSound E) (Optics.clear_signers E)
  optics_clear-IsSound =
      IsSound-Keeps (Optics.clear_signers E) (λ D. optics_clear-HasDomains E D) clear-IsLinked

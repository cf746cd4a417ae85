-- ===== src/Context/Laws/Domains.antt =====
-- Keyed domains: what the connection methods of typescript/optics-provider/src keep of the registry.
use optics_monorepo.Prelude.{ℕ, ◌≡◌, Option, none, some, arith}
use optics_monorepo.Prelude.Map
use optics_monorepo.Prelude.Map.{Map}
use optics_monorepo.Prelude.Exec.{Keeps, Keeps-for_each, Keeps-bind, reads}
use optics_monorepo.Context.Ethers.{Ethers, Connection}
use optics_monorepo.Context.State.{Context, Method, Domain}
use optics_monorepo.Context.Domains.{resolve_domain, must_get_domain, domain_numbers}
use optics_monorepo.Context.MultiProvider
use optics_monorepo.Context.MultiProvider.{
  drop_signer, drop_found, rebound, rebind_found, rebind_signer, register_fallback, connected_twice,
  connected_once, choose_provider, set_provider, set_signer, get_connection,
}
use optics_monorepo.Context.Optics
use optics_monorepo.Context.Optics.{reconnect, reconnect_to}
use optics_monorepo.Messages.Bridge.{NameOrDomain, number}

module _ (E : Ethers) (D : Map Domain) where
  abbrev pub HasDomains : Context E → Type 0
  HasDomains s = s.domains ≡ D

  drop_found-HasDomains : (d : ℕ) (o : Option E.Signer) → Keeps HasDomains (drop_found E d o)
  unfolding drop_found drop_signer
  drop_found-HasDomains d none = λ s h. h
  drop_found-HasDomains d (some x) = dropped (E.provider_of x)
    where
      dropped : (o : Option E.Provider) → Keeps HasDomains (drop_signer E d o)
      dropped none = λ s h. h
      dropped (some p) = λ s h. ground arith

  unregister_signer-HasDomains :
      (nod : NameOrDomain) → Keeps HasDomains (MultiProvider.unregister_signer E nod)
  unfolding MultiProvider.unregister_signer
  unregister_signer-HasDomains nod =
      Keeps-bind HasDomains (reads (resolve_domain nod)) _ (λ s h. h)
        (λ d s h. drop_found-HasDomains d (Map.get d s.signers) s h)

  reconnect_to-HasDomains :
      (d : ℕ) (c : Option (Connection E.Provider E.Signer)) → Keeps HasDomains (reconnect_to E d c)
  unfolding reconnect_to
  reconnect_to-HasDomains d none = λ s h. h
  reconnect_to-HasDomains d (some c) = λ s h. h

  pub reconnect-HasDomains : (d : ℕ) → Keeps HasDomains (reconnect E d)
  unfolding reconnect
  reconnect-HasDomains d =
      Keeps-bind HasDomains (reads (get_connection E (number d))) _ (λ s h. h)
        (reconnect_to-HasDomains d)

  pub optics_unregister-HasDomains :
      (nod : NameOrDomain) → Keeps HasDomains (Optics.unregister_signer E nod)
  unfolding Optics.unregister_signer
  optics_unregister-HasDomains nod =
      Keeps-bind HasDomains (reads (resolve_domain nod)) _ (λ s h. h)
        (λ d.
          Keeps-bind HasDomains (MultiProvider.unregister_signer E (number d)) _
            (unregister_signer-HasDomains (number d)) (λ _. reconnect-HasDomains d))

  module _ (unregister : ℕ → Method E) (keeps : (d : ℕ) → Keeps HasDomains (unregister d)) where
    rebound-HasDomains : (d : ℕ) (o : Option E.Signer) → Keeps HasDomains (rebound E unregister d o)
    unfolding rebound
    rebound-HasDomains d none = keeps d
    rebound-HasDomains d (some y) = λ s h. h

    rebind_found-HasDomains :
        (d : ℕ) (p : E.Provider) (o : Option E.Signer)
        → Keeps HasDomains (rebind_found E unregister d p o)
    unfolding rebind_found
    rebind_found-HasDomains d p none = λ s h. h
    rebind_found-HasDomains d p (some x) = rebound-HasDomains d (E.connect_signer x p)

    register_provider-HasDomains :
        (nod : NameOrDomain) (p : E.Provider)
        → Keeps HasDomains (MultiProvider.register_provider E unregister nod p)
    unfolding MultiProvider.register_provider rebind_signer
    register_provider-HasDomains nod p =
        Keeps-bind HasDomains (reads (must_get_domain nod)) _ (λ s h. h)
          (λ domain.
            Keeps-bind HasDomains (rebind_signer E unregister domain.id p) _
              (λ s h. rebind_found-HasDomains domain.id p (Map.get domain.id s.signers) s h)
              (λ _ s h. h))

  pub optics_register_provider-HasDomains :
      (nod : NameOrDomain) (p : E.Provider) → Keeps HasDomains (Optics.register_provider E nod p)
  unfolding Optics.register_provider
  optics_register_provider-HasDomains nod p =
      Keeps-bind HasDomains (reads (resolve_domain nod)) _ (λ s h. h)
        (λ d.
          Keeps-bind HasDomains (MultiProvider.register_provider E _ (number d) p) _
            (register_provider-HasDomains _ (λ k. optics_unregister-HasDomains (number k))
              (number d) p)
            (λ _. reconnect-HasDomains d))

  module _ (register_p : ℕ → E.Provider → Method E)
      (keeps : (d : ℕ) (p : E.Provider) → Keeps HasDomains (register_p d p)) where
    fallback-HasDomains :
        (d : ℕ) (x : E.Signer) (o : Option E.Provider)
        → Keeps HasDomains (register_fallback E register_p d x o)
    unfolding register_fallback
    fallback-HasDomains d x none = λ s h. h
    fallback-HasDomains d x (some p) =
        Keeps-bind HasDomains (register_p d p) _ (keeps d p) (λ _ s h. h)

    connected_twice-HasDomains :
        (d : ℕ) (y : E.Signer) (o : Option E.Signer)
        → Keeps HasDomains (connected_twice E register_p d y o)
    unfolding connected_twice
    connected_twice-HasDomains d y none = fallback-HasDomains d y (E.provider_of y)
    connected_twice-HasDomains d y (some z) = λ s h. h

    connected_once-HasDomains :
        (d : ℕ) (x : E.Signer) (p : E.Provider) (o : Option E.Signer)
        → Keeps HasDomains (connected_once E register_p d x p o)
    unfolding connected_once
    connected_once-HasDomains d x p none = fallback-HasDomains d x (E.provider_of x)
    connected_once-HasDomains d x p (some y) = connected_twice-HasDomains d y (E.connect_signer y p)

    choose-HasDomains :
        (d : ℕ) (x : E.Signer) (o q : Option E.Provider)
        → Keeps HasDomains (choose_provider E register_p d x o q)
    unfolding choose_provider
    choose-HasDomains d x none none = λ s h. h
    choose-HasDomains d x none (some q) = fallback-HasDomains d x (some q)
    choose-HasDomains d x (some p) q = connected_once-HasDomains d x p (E.connect_signer x p)

  pub optics_register_signer-HasDomains :
      (nod : NameOrDomain) (x : E.Signer) → Keeps HasDomains (Optics.register_signer E nod x)
  unfolding Optics.register_signer MultiProvider.register_signer
  optics_register_signer-HasDomains nod x =
      Keeps-bind HasDomains (reads (resolve_domain nod)) _ (λ s h. h)
        (λ d.
          Keeps-bind HasDomains (MultiProvider.register_signer E _ (number d) x) _
            (Keeps-bind HasDomains (reads (resolve_domain (number d))) _ (λ s h. h)
              (λ k s h.
                choose-HasDomains (λ k. Optics.register_provider E (number k))
                  (λ k. optics_register_provider-HasDomains (number k)) k x (Map.get k s.providers)
                  (E.provider_of x) s h))
            (λ _. reconnect-HasDomains d))

  pub optics_clear-HasDomains : Keeps HasDomains (Optics.clear_signers E)
  unfolding Optics.clear_signers MultiProvider.clear_signers
  optics_clear-HasDomains =
      Keeps-bind HasDomains (MultiProvider.clear_signers E _) _
        (λ s.
          Keeps-for_each HasDomains (domain_numbers s) _
            (λ k. optics_unregister-HasDomains (number k)) s)
        (λ _ s. Keeps-for_each HasDomains (domain_numbers s) (reconnect E) reconnect-HasDomains s)

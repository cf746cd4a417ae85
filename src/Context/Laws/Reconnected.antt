-- ===== src/Context/Laws/Reconnected.antt =====
-- Synced contracts under the methods of `OpticsContext`
-- (typescript/optics-provider/src/optics/OpticsContext.ts), also where they throw.
use optics_monorepo.Prelude.{
  ℕ, ◌≡◌, Option, none, some, Result, ok, err, Option-cases, Result-cases, inl, inr, arith,
}
use optics_monorepo.Prelude.Map
use optics_monorepo.Prelude.Exec.{Keeps, Keeps-bind, Keeps-for_each, reads, continue, modify}
use optics_monorepo.Context.Ethers.{Ethers, IsLawful}
use optics_monorepo.Context.State.{Context, Method, Domain}
use optics_monorepo.Context.Domains.{resolve_domain, must_get_domain, domain_numbers}
use optics_monorepo.Context.MultiProvider
use optics_monorepo.Context.MultiProvider.{
  drop_signer, keep_provider, drop_found, rebound, rebind_found, rebind_signer, register_fallback,
  connected_twice, connected_once, choose_provider, set_provider, set_signer,
}
use optics_monorepo.Context.Optics
use optics_monorepo.Context.Optics.{reconnect}
use optics_monorepo.Context.Laws.Registered.{IsSound}
use optics_monorepo.Context.Laws.Synced.{IsSynced, SyncedBut, reconnect-IsSynced}
use optics_monorepo.Messages.Bridge.{NameOrDomain, number}

module _ (E : Ethers) where
  -- After the part of a method that precedes its `reconnect(d)`.
  abbrev Then : ℕ → Result (Unit {0}) × Context E → Type 0
  Then d (ok _, s) = SyncedBut E d s
  Then d (err _, s) = IsSynced E s

  Then-of_IsSynced : (d : ℕ) (r : Result (Unit {0}) × Context E) → IsSynced E r.1 → Then d r
  Then-of_IsSynced d (ok _, s) h = λ k _. h k
  Then-of_IsSynced d (err _, s) h = h

  set_signer-SyncedBut :
      (d : ℕ) (x : E.Signer) (s : Context E) → SyncedBut E d s → SyncedBut E d (set_signer E d x s)
  set_signer-SyncedBut d x s h k ne = rw (Map.get-set d k x s.signers, ne) (h k ne)

  set_provider-SyncedBut :
      (d : ℕ) (p : E.Provider) (s : Context E)
      → SyncedBut E d s
      → SyncedBut E d (set_provider E d p s)
  set_provider-SyncedBut d p s h k ne = rw (Map.get-set d k p s.providers, ne) (h k ne)

  delete-SyncedBut :
      (d : ℕ) (s : Context E)
      → SyncedBut E d s
      → SyncedBut E d (record s { signers = Map.delete d s.signers })
  delete-SyncedBut d s h k ne = rw (Map.get-delete d k s.signers, ne) (h k ne)

  keep_provider-SyncedBut :
      (d : ℕ) (p : E.Provider) (o : Option E.Provider) (s : Context E)
      → SyncedBut E d s
      → SyncedBut E d (keep_provider E d p o s)
  unfolding keep_provider
  keep_provider-SyncedBut d p none s h = set_provider-SyncedBut d p s h
  keep_provider-SyncedBut d p (some _) s h = h

  drop_signer-Then :
      (d : ℕ) (o : Option E.Provider) (s : Context E) → IsSynced E s → Then d (drop_signer E d o s)
  unfolding drop_signer
  drop_signer-Then d none s h = h
  drop_signer-Then d (some p) s h =
      keep_provider-SyncedBut d p (Map.get d s.providers) _ (delete-SyncedBut d s (λ k _. h k))

  drop_found-Then :
      (d : ℕ) (o : Option E.Signer) (s : Context E) → IsSynced E s → Then d (drop_found E d o s)
  unfolding drop_found
  drop_found-Then d none s h = λ k _. h k
  drop_found-Then d (some x) s h = drop_signer-Then d (E.provider_of x) s h

module _ (E : Ethers) (L : IsLawful E) where
  Then-reconnect :
      (d : ℕ) (r : Result (Unit {0}) × Context E)
      → Then E d r
      → IsSynced E (continue r.0 (λ _. reconnect E d) r.1).1
  Then-reconnect d (ok tt, s) h = reconnect-IsSynced E L d s h
  Then-reconnect d (err e, s) h = h

  pub optics_unregister-IsSynced :
      (nod : NameOrDomain) → Keeps (IsSynced E) (Optics.unregister_signer E nod)
  unfolding Optics.unregister_signer MultiProvider.unregister_signer resolve_domain
  optics_unregister-IsSynced nod =
      Keeps-bind (IsSynced E) (reads (resolve_domain nod)) _ (λ s h. h)
        (λ d s h.
          Then-reconnect d (drop_found E d (Map.get d s.signers) s)
            (drop_found-Then E d (Map.get d s.signers) s h))

  module _ (unregister : ℕ → Method E) (keeps : (d : ℕ) → Keeps (IsSynced E) (unregister d)) where
    rebind_found-Then :
        (d : ℕ) (p : E.Provider) (o : Option E.Signer) (s : Context E)
        → IsSynced E s
        → Then E d (rebind_found E unregister d p o s)
    unfolding rebind_found rebound
    rebind_found-Then d p none s h = λ k _. h k
    rebind_found-Then d p (some x) s h = elim (Option-cases (E.connect_signer x p)) [
      | inl q ↦ rw (q, rebound) (Then-of_IsSynced E d (unregister d s) (keeps d s h))
      | inr (y, q) ↦ rw (q, rebound) (set_signer-SyncedBut E d y s (λ k _. h k))
    ]

    provider_set-Then :
        (d : ℕ) (p : E.Provider) (r : Result (Unit {0}) × Context E)
        → Then E d r
        → Then E d (continue r.0 (λ _. modify (set_provider E d p)) r.1)
    provider_set-Then d p (ok tt, s) h = set_provider-SyncedBut E d p s h
    provider_set-Then d p (err e, s) h = h

    register_provider-Then :
        (d : ℕ) (p : E.Provider) (s : Context E)
        → IsSound E s
        → IsSynced E s
        → Then E d (MultiProvider.register_provider E unregister (number d) p s)
    unfolding MultiProvider.register_provider rebind_signer
    register_provider-Then d p s v h = elim (Result-cases (must_get_domain (number d) s)) [
      | inr (e, q) ↦ rw q h
      | inl (dom, q) ↦
          let keyed : dom.id ≡ d = v.keyed d dom (found dom q) in
          rw (q, keyed)
            (provider_set-Then d p (rebind_found E unregister d p (Map.get d s.signers) s)
              (rebind_found-Then d p (Map.get d s.signers) s h))
    ]
      where
        found :
            (dom : Domain) → must_get_domain (number d) s ≡ ok dom → Map.get d s.domains ≡ some dom
        found dom q = unfold must_get_domain resolve_domain in ground arith

  pub optics_register_provider-IsSynced :
      (nod : NameOrDomain) (p : E.Provider) (s : Context E)
      → IsSound E s
      → IsSynced E s
      → IsSynced E (Optics.register_provider E nod p s).1
  unfolding Optics.register_provider
  optics_register_provider-IsSynced nod p s v h = elim (Result-cases (resolve_domain nod s)) [
    | inr (e, q) ↦ rw q h
    | inl (d, q) ↦ rw q (
        Then-reconnect d
          (MultiProvider.register_provider E (λ k. Optics.unregister_signer E (number k)) (number d)
            p s)
          (register_provider-Then (λ k. Optics.unregister_signer E (number k))
            (λ k. optics_unregister-IsSynced (number k)) d p s v h))
  ]

  module _ (register_p : ℕ → E.Provider → Method E)
      (keeps : (d : ℕ) (p : E.Provider) (s : Context E)
        → IsSound E s
        → IsSynced E s
        → IsSynced E (register_p d p s).1) where
    signer_set-Then :
        (d : ℕ) (x : E.Signer) (r : Result (Unit {0}) × Context E)
        → IsSynced E r.1
        → Then E d (continue r.0 (λ _. modify (set_signer E d x)) r.1)
    signer_set-Then d x (ok tt, s) h = set_signer-SyncedBut E d x s (λ k _. h k)
    signer_set-Then d x (err e, s) h = h

    fallback-Then :
        (d : ℕ) (x : E.Signer) (o : Option E.Provider) (s : Context E)
        → IsSound E s
        → IsSynced E s
        → Then E d (register_fallback E register_p d x o s)
    unfolding register_fallback
    fallback-Then d x none s v h = h
    fallback-Then d x (some p) s v h = signer_set-Then d x (register_p d p s) (keeps d p s v h)

    connected_twice-Then :
        (d : ℕ) (y : E.Signer) (o : Option E.Signer) (s : Context E)
        → IsSound E s
        → IsSynced E s
        → Then E d (connected_twice E register_p d y o s)
    unfolding connected_twice
    connected_twice-Then d y none s v h = fallback-Then d y (E.provider_of y) s v h
    connected_twice-Then d y (some z) s v h = set_signer-SyncedBut E d z s (λ k _. h k)

    connected_once-Then :
        (d : ℕ) (x : E.Signer) (p : E.Provider) (o : Option E.Signer) (s : Context E)
        → IsSound E s
        → IsSynced E s
        → Then E d (connected_once E register_p d x p o s)
    unfolding connected_once
    connected_once-Then d x p none s v h = fallback-Then d x (E.provider_of x) s v h
    connected_once-Then d x p (some y) s v h = connected_twice-Then d y (E.connect_signer y p) s v h

    choose-Then :
        (d : ℕ) (x : E.Signer) (o q : Option E.Provider) (s : Context E)
        → IsSound E s
        → IsSynced E s
        → Then E d (choose_provider E register_p d x o q s)
    unfolding choose_provider
    choose-Then d x none none s v h = h
    choose-Then d x none (some q) s v h = fallback-Then d x (some q) s v h
    choose-Then d x (some p) q s v h = connected_once-Then d x p (E.connect_signer x p) s v h

  pub optics_register_signer-IsSynced :
      (nod : NameOrDomain) (x : E.Signer) (s : Context E)
      → IsSound E s
      → IsSynced E s
      → IsSynced E (Optics.register_signer E nod x s).1
  unfolding Optics.register_signer MultiProvider.register_signer resolve_domain
  optics_register_signer-IsSynced nod x s v h = elim (Result-cases (resolve_domain nod s)) [
    | inr (e, q) ↦ rw q h
    | inl (d, q) ↦ rw q (
        Then-reconnect d
          (choose_provider E (λ k. Optics.register_provider E (number k)) d x
            (Map.get d s.providers) (E.provider_of x) s)
          (choose-Then (λ k. Optics.register_provider E (number k))
            (λ k. optics_register_provider-IsSynced (number k)) d x (Map.get d s.providers)
            (E.provider_of x) s v h))
  ]

  reconnect_all-IsSynced : (d : ℕ) → Keeps (IsSynced E) (reconnect E d)
  reconnect_all-IsSynced d s h = reconnect-IsSynced E L d s (λ k _. h k)

  pub optics_clear-IsSynced : Keeps (IsSynced E) (Optics.clear_signers E)
  unfolding Optics.clear_signers MultiProvider.clear_signers
  optics_clear-IsSynced =
      Keeps-bind (IsSynced E) (MultiProvider.clear_signers E _) _
        (λ s.
          Keeps-for_each (IsSynced E) (domain_numbers s) _
            (λ k. optics_unregister-IsSynced (number k)) s)
        (λ _ s.
          Keeps-for_each (IsSynced E) (domain_numbers s) (reconnect E) reconnect_all-IsSynced s)

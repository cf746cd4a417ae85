-- ===== src/Context/Laws/Effective.antt =====
-- What a registration achieves (typescript/optics-provider/src/optics/OpticsContext.ts).
use optics_monorepo.Prelude.{
  ℕ, ◌≡◌, refl, sym, ap, subst, ◌∙◌, Option, none, some, Result, ok, err, eq_refl,
}
use optics_monorepo.Prelude.Map
use optics_monorepo.Prelude.Exec.{continue, modify}
use optics_monorepo.Context.Ethers.{Ethers, Connection}
use optics_monorepo.Context.State.{Context, Method}
use optics_monorepo.Context.Domains.{resolve_domain}
use optics_monorepo.Context.MultiProvider
use optics_monorepo.Context.MultiProvider.{
  set_signer, register_fallback, connected_twice, connected_once, choose_provider, get_connection,
  get_signer,
}
use optics_monorepo.Context.Optics
use optics_monorepo.Context.Optics.{reconnect, reconnect_to}
use optics_monorepo.Messages.Bridge.{NameOrDomain, number}

module _ (E : Ethers) where
  -- A signer connected to a provider, or the signer itself where that throws.
  abbrev connected_or : Option E.Signer → E.Signer → E.Signer
  connected_or none x = x
  connected_or (some y) x = y

  abbrev settled : E.Provider → E.Signer → E.Signer
  settled p x = connected_or (E.connect_signer x p) x

  settled-eq :
      (p : E.Provider) (x : E.Signer) (o : Option E.Signer)
      → E.connect_signer x p ≡ o
      → settled p x ≡ connected_or o x
  settled-eq p x o h = ap (λ (c : Option E.Signer). connected_or c x) h

  -- The signer that stands for `x` on a domain: `x` connected to the domain's provider, twice, as far as
  -- it can be; on a domain with no provider `x` itself.
  unfoldable pub domain_signer : Option E.Provider → E.Signer → E.Signer
  domain_signer none x = x
  domain_signer (some p) x = settled p (settled p x)

  abbrev HasSigner : ℕ → E.Signer → Context E → Type 0
  HasSigner d x s = Map.get d s.signers ≡ some x

  -- What holds of the state if a method returned.
  abbrev OnReturn : (Context E → Type 0) → Result (Unit {0}) × Context E → Type 0
  OnReturn P (r, s) = r ≡ ok tt → P s

  set_signer-HasSigner : (d : ℕ) (x : E.Signer) (s : Context E) → HasSigner d x (set_signer E d x s)
  set_signer-HasSigner d x s = rw (Map.get-set d d x s.signers, eq_refl d) refl

  set_signer_after :
      (d : ℕ) (x : E.Signer) (step : Result (Unit {0}) × Context E)
      → OnReturn (HasSigner d x) (continue step.0 (λ _. modify (set_signer E d x)) step.1)
  set_signer_after d x (ok tt, s) e = set_signer-HasSigner d x s
  set_signer_after d x (err e', s) e = absurd cc

  module _ (register_p : ℕ → E.Provider → Method E) where
    fallback-HasSigner :
        (d : ℕ) (x : E.Signer) (o : Option E.Provider) (s : Context E)
        → OnReturn (HasSigner d x) (register_fallback E register_p d x o s)
    unfolding register_fallback
    fallback-HasSigner d x none s e = absurd cc
    fallback-HasSigner d x (some p) s e = set_signer_after d x (register_p d p s) e

    abbrev Stores : ℕ → Result (Unit {0}) × Context E → E.Signer → Type 0
    Stores d step y = OnReturn (HasSigner d y) step

    twice-HasSigner :
        (d : ℕ) (y : E.Signer) (p : E.Provider) (o : Option E.Signer) (s : Context E)
        → E.connect_signer y p ≡ o
        → Stores d (connected_twice E register_p d y o s) (settled p y)
    unfolding connected_twice
    twice-HasSigner d y p none s h =
        subst (Stores d (connected_twice E register_p d y none s)) (sym (settled-eq p y none h))
          (fallback-HasSigner d y (E.provider_of y) s)
    twice-HasSigner d y p (some z) s h =
        subst (Stores d (connected_twice E register_p d y (some z) s))
          (sym (settled-eq p y (some z) h)) (λ e. set_signer-HasSigner d z s)

    once-HasSigner :
        (d : ℕ) (x : E.Signer) (p : E.Provider) (o : Option E.Signer) (s : Context E)
        → E.connect_signer x p ≡ o
        → Stores d (connected_once E register_p d x p o s) (domain_signer (some p) x)
    unfolding connected_once domain_signer
    once-HasSigner d x p none s h =
        subst (Stores d (connected_once E register_p d x p none s))
          (sym (ap (settled p) (settled-eq p x none h) ∙ settled-eq p x none h))
          (fallback-HasSigner d x (E.provider_of x) s)
    once-HasSigner d x p (some y) s h =
        subst (Stores d (connected_once E register_p d x p (some y) s))
          (sym (ap (settled p) (settled-eq p x (some y) h)))
          (twice-HasSigner d y p (E.connect_signer y p) s refl)

    choose-HasSigner :
        (d : ℕ) (x : E.Signer) (o q : Option E.Provider) (s : Context E)
        → OnReturn (HasSigner d (domain_signer o x)) (choose_provider E register_p d x o q s)
    unfolding choose_provider domain_signer
    choose-HasSigner d x none none s e = absurd cc
    choose-HasSigner d x none (some q) s e = fallback-HasSigner d x (some q) s e
    choose-HasSigner d x (some p) q s e = once-HasSigner d x p (E.connect_signer x p) s refl e

  reconnect_to-signers :
      (d : ℕ) (c : Option (Connection E.Provider E.Signer)) (s : Context E)
      → (reconnect_to E d c s).1.signers ≡ s.signers
  unfolding reconnect_to
  reconnect_to-signers d none s = refl
  reconnect_to-signers d (some c) s = refl

  continue_reconnect :
      (d : ℕ) (s : Context E) (r : Result (Option (Connection E.Provider E.Signer)))
      → (continue r (reconnect_to E d) s).1.signers ≡ s.signers
  continue_reconnect d s (ok c) = reconnect_to-signers d c s
  continue_reconnect d s (err e) = refl

  reconnect-signers : (d : ℕ) (s : Context E) → (reconnect E d s).1.signers ≡ s.signers
  unfolding reconnect
  reconnect-signers d s = continue_reconnect d s (get_connection E (number d) s)

  reconnect_after :
      (d : ℕ) (y : E.Signer) (step : Result (Unit {0}) × Context E)
      → OnReturn (HasSigner d y) step
      → OnReturn (HasSigner d y) (continue step.0 (λ _. reconnect E d) step.1)
  reconnect_after d y (ok tt, s) h e = rw (reconnect-signers d s) (h refl)
  reconnect_after d y (err e', s) h e = absurd cc

  registered-HasSigner :
      (x : E.Signer) (s : Context E) (d : ℕ)
      → OnReturn (HasSigner d (domain_signer (Map.get d s.providers) x)) (
          MultiProvider.register_signer E
            (λ k. Optics.register_provider E (number k))
            (number d)
            x
            s)
  unfolding MultiProvider.register_signer resolve_domain
  registered-HasSigner x s d =
      choose-HasSigner (λ k. Optics.register_provider E (number k)) d x (Map.get d s.providers)
        (E.provider_of x) s

  -- If `registerSigner` returns, the signer of the domain that it was called for is the given one,
  -- connected twice to the provider that the domain had, as far as that can be connected to, and as it
  -- was given where the domain had no provider.
  pub register_signer-HasSigner :
      (nod : NameOrDomain) (x : E.Signer) (s : Context E) (d : ℕ)
      → resolve_domain nod s ≡ ok d
      → (Optics.register_signer E nod x s).0 ≡ ok tt
      → Map.get d (Optics.register_signer E nod x s).1.signers
        ≡ some (domain_signer (Map.get d s.providers) x)
  unfolding Optics.register_signer
  register_signer-HasSigner nod x s d resolved e =
      let there =
        reconnect_after d (domain_signer (Map.get d s.providers) x)
          (MultiProvider.register_signer E (λ k. Optics.register_provider E (number k)) (number d) x
            s)
          (registered-HasSigner x s d) (rw resolved at e) in
      rw resolved there

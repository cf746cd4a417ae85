-- ===== src/Context/MultiProvider.antt =====
-- The providers and signers of `MultiProvider` (typescript/optics-provider/src/provider.ts). A
-- method that calls another one which `OpticsContext` overrides takes it as an argument, since
-- `this.registerProvider` and `this.unregisterSigner` are those of the object's own class.
use optics_monorepo.Prelude.{
  ℕ, Option, none, some, Text, Result, ok, err, unregistered, missing_signer_provider, no_reconnect,
  signer_lost_provider, or_throw, ◌>>=◌ as ◌then◌,
}
use optics_monorepo.Prelude.Map
use optics_monorepo.Prelude.Exec.{pure, throw, reads, modify, ◌>>=◌, ◌>>◌, for_each}
use optics_monorepo.Context.Ethers.{Ethers, Connection, provider, signer}
use optics_monorepo.Context.State.{Context, Method}
use optics_monorepo.Context.Domains.{resolve_domain, must_get_domain, domain_numbers}
use optics_monorepo.Messages.Bridge.{NameOrDomain}

module _ (E : Ethers) where
  unfoldable pub get_provider : NameOrDomain → Context E → Result (Option E.Provider)
  get_provider nod s = resolve_domain nod s then λ d. ok (Map.get d s.providers)

  unfoldable pub must_get_provider : NameOrDomain → Context E → Result E.Provider
  unfolding get_provider
  must_get_provider nod s = get_provider nod s then λ p. or_throw p unregistered

  unfoldable pub get_signer : NameOrDomain → Context E → Result (Option E.Signer)
  get_signer nod s = resolve_domain nod s then λ d. ok (Map.get d s.signers)

  -- `this.getSigner(…) ?? this.getProvider(…)`
  abbrev pub prefer : Option E.Signer → Option E.Provider → Option (Connection E.Provider E.Signer)
  prefer (some x) p = some (signer x)
  prefer none (some p) = some (provider p)
  prefer none none = none

  unfoldable pub get_connection :
      NameOrDomain → Context E → Result (Option (Connection E.Provider E.Signer))
  unfolding get_signer get_provider
  get_connection nod s = get_signer nod s then λ x. get_provider nod s then λ p. ok (prefer x p)

  unfoldable pub get_address : NameOrDomain → Context E → Result (Option Text)
  unfolding get_signer
  get_address nod s =
      get_signer nod s then λ x. ok (elim x [ none ↦ none | some (x) ↦ some (E.address_of x) ])

  abbrev pub set_provider : ℕ → E.Provider → Context E → Context E
  set_provider d p s = record s { providers = Map.set d p s.providers }

  abbrev pub set_signer : ℕ → E.Signer → Context E → Context E
  set_signer d x s = record s { signers = Map.set d x s.signers }

  -- The end of `unregisterSigner`: the signer goes, its provider stays.
  unfoldable pub keep_provider : ℕ → E.Provider → Option E.Provider → Context E → Context E
  keep_provider d p none t = set_provider d p t
  keep_provider d p (some _) t = t

  unfoldable pub drop_signer : ℕ → Option E.Provider → Method E
  unfolding keep_provider
  drop_signer d none s = (err signer_lost_provider, s)
  drop_signer d (some p) s = (
    ok tt,
    keep_provider d p (Map.get d s.providers) (record s { signers = Map.delete d s.signers }),
  )

  unfoldable pub drop_found : ℕ → Option E.Signer → Method E
  unfolding drop_signer
  drop_found d none = pure tt
  drop_found d (some x) = drop_signer d (E.provider_of x)

  unfoldable pub unregister_signer : NameOrDomain → Method E
  unregister_signer nod = do
    d ← reads (resolve_domain nod)
    λ s. drop_found d (Map.get d s.signers) s

  module _ (unregister : ℕ → Method E) where
    -- The `try` block of `registerProvider`, and its handler.
    unfoldable pub rebound : ℕ → Option E.Signer → Method E
    rebound d none = unregister d
    rebound d (some y) = modify (set_signer d y)

    unfoldable pub rebind_found : ℕ → E.Provider → Option E.Signer → Method E
    rebind_found d p none = pure tt
    rebind_found d p (some x) = rebound d (E.connect_signer x p)

    unfoldable pub rebind_signer : ℕ → E.Provider → Method E
    rebind_signer d p s = rebind_found d p (Map.get d s.signers) s

    unfoldable pub register_provider : NameOrDomain → E.Provider → Method E
    register_provider nod p = do
      domain ← reads (must_get_domain nod)
      rebind_signer domain.id p
      modify (set_provider domain.id p)

    unfoldable pub clear_signers : Method E
    clear_signers s = for_each (domain_numbers s) unregister s

  module _ (register_p : ℕ → E.Provider → Method E) where
    -- The fallback at the end of `registerSigner`, with `signer.provider`.
    unfoldable pub register_fallback : ℕ → E.Signer → Option E.Provider → Method E
    register_fallback d x none = throw no_reconnect
    register_fallback d x (some p) = register_p d p >> modify (set_signer d x)

    -- The `try` block of `registerSigner`: the signer is connected, and connected again where it is
    -- stored. If only the second attempt fails, the fallback has the signer of the first.
    unfoldable pub connected_twice : ℕ → E.Signer → Option E.Signer → Method E
    connected_twice d y none = register_fallback d y (E.provider_of y)
    connected_twice d y (some z) = modify (set_signer d z)

    unfoldable pub connected_once : ℕ → E.Signer → E.Provider → Option E.Signer → Method E
    connected_once d x p none = register_fallback d x (E.provider_of x)
    connected_once d x p (some y) = connected_twice d y (E.connect_signer y p)

    unfoldable pub choose_provider : ℕ → E.Signer → Option E.Provider → Option E.Provider → Method E
    choose_provider d x none none = throw missing_signer_provider
    choose_provider d x none (some q) = register_fallback d x (some q)
    choose_provider d x (some p) q = connected_once d x p (E.connect_signer x p)

    unfoldable pub register_signer : NameOrDomain → E.Signer → Method E
    register_signer nod x = do
      d ← reads (resolve_domain nod)
      λ s. choose_provider d x (Map.get d s.providers) (E.provider_of x) s

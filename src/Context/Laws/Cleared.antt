-- ===== src/Context/Laws/Cleared.antt =====
-- What `clearSigners` of typescript/optics-provider/src/optics/OpticsContext.ts does.
use optics_monorepo.Prelude.{
  ℕ, ◌≡◌, refl, sym, ap, ◌∙◌, Option, none, some, List, [], ◌∷◌, ok, err, reconnect_failed, ◌==◌,
  ==_iff, eq_refl, if◌then◌else◌, Bool-cases, Option-cases, inl, inr, arith,
}
use mathlib.Core.List.{Memᴰ}
use mathlib.Core.List.Memᴰ
use mathlib.Core.List.Memᴰ.{head, tail}
use optics_monorepo.Prelude.Map
use optics_monorepo.Prelude.Exec.{for_each}
use optics_monorepo.Context.Ethers.{Ethers}
use optics_monorepo.Context.State.{Context}
use optics_monorepo.Context.Domains.{resolve_domain, domain_numbers}
use optics_monorepo.Context.MultiProvider
use optics_monorepo.Context.MultiProvider.{
  drop_signer, drop_found, keep_provider, get_connection, get_signer, get_provider,
}
use optics_monorepo.Context.Optics
use optics_monorepo.Context.Optics.{reconnect, reconnect_to}
use optics_monorepo.Context.Laws.Linked.{IsLinked}
use optics_monorepo.Messages.Bridge.{number}

module _ (E : Ethers) where
  -- The signer of one domain is gone, and nothing else of providers, signers and domains changed.
  record Drops (d : ℕ) (s s' : Context E) : Type 0 where
    domains : s'.domains ≡ s.domains
    providers : s'.providers ≡ s.providers
    signers : (k : ℕ) → Map.get k s'.signers ≡ (if d == k then none else Map.get k s.signers)

  drop_found-Drops :
      (d : ℕ) (o : Option E.Signer) (p : E.Provider) (s : Context E)
      → Map.get d s.signers ≡ o
      → Map.get d s.providers ≡ some p
      → IsLinked E s
      → ((drop_found E d o s).0 ≡ ok tt) × Drops d s (drop_found E d o s).1
  unfolding drop_found drop_signer keep_provider
  drop_found-Drops d none p s e hp linked =
      (refl, record { domains = refl; providers = refl; signers = λ k. ground (arith, e) })
  drop_found-Drops d (some x) p s e hp linked =
      let link : E.provider_of x ≡ some p = rw (e, hp) at (linked d) in
      rw (link, hp)
        (
          refl,
          record { domains = refl; providers = refl; signers = λ k. Map.get-delete d k s.signers },
        )

  reconnect-provider :
      (d : ℕ) (p : E.Provider) (s : Context E)
      → Map.get d s.providers ≡ some p
      → ((reconnect E d s).0 ≡ ok tt)
        × ((reconnect E d s).1.domains ≡ s.domains)
        × ((reconnect E d s).1.providers ≡ s.providers)
        × ((reconnect E d s).1.signers ≡ s.signers)
  unfolding reconnect reconnect_to get_connection get_signer get_provider resolve_domain
  reconnect-provider d p s hp = elim (Option-cases (Map.get d s.signers)) [
    | inl none_there ↦ rw (none_there, hp) (refl, refl, refl, refl)
    | inr (x, there) ↦ rw there (refl, refl, refl, refl)
  ]

  optics_unregister-Drops :
      (d : ℕ) (p : E.Provider) (s : Context E)
      → Map.get d s.providers ≡ some p
      → IsLinked E s
      → ((Optics.unregister_signer E (number d) s).0 ≡ ok tt)
        × Drops d s (Optics.unregister_signer E (number d) s).1
  unfolding Optics.unregister_signer MultiProvider.unregister_signer resolve_domain
  optics_unregister-Drops d p s hp linked =
      let (done, drops) = drop_found-Drops d (Map.get d s.signers) p s refl hp linked in
      let (again, same, same', same'') =
        reconnect-provider d p (drop_found E d (Map.get d s.signers) s).1 (rw drops.providers hp) in
      rw done (
        again,
        record {
          domains = same ∙ drops.domains;
          providers = same' ∙ drops.providers;
          signers = λ k. ap (Map.get k) same'' ∙ drops.signers k;
        },
      )

  Drops-IsLinked : (d : ℕ) (s s' : Context E) → Drops d s s' → IsLinked E s → IsLinked E s'
  Drops-IsLinked d s s' h linked k = elim (Bool-cases (d == k)) [
    | inl q ↦ rw (h.signers k, q) tt
    | inr q ↦ rw (h.signers k, q, h.providers) (linked k)
  ]

  abbrev pub HaveProviders : List ℕ → Context E → Type 0
  HaveProviders ds s = (k : ℕ) → Memᴰ k ds → (p : E.Provider) × (Map.get k s.providers ≡ some p)

  -- The signers of the listed domains are gone, and nothing else of providers, signers and domains
  -- changed.
  pub record Clears (ds : List ℕ) (s s' : Context E) : Type 0 where
    pub domains : s'.domains ≡ s.domains
    pub providers : s'.providers ≡ s.providers
    pub gone : (k : ℕ) → Memᴰ k ds → Map.get k s'.signers ≡ none
    pub kept : (k : ℕ) → ¬ Memᴰ k ds → Map.get k s'.signers ≡ Map.get k s.signers

  still_none :
      (k d : ℕ) (s s' : Context E)
      → Drops d s s'
      → Map.get k s.signers ≡ none
      → Map.get k s'.signers ≡ none
  still_none k d s s' h e = elim (Bool-cases (d == k)) [
    | inl q ↦ rw (h.signers k, q) refl
    | inr q ↦ rw (h.signers k, q) e
  ]

  other_kept :
      (k d : ℕ) (s s' : Context E)
      → Drops d s s'
      → ¬ (k ≡ d)
      → Map.get k s'.signers ≡ Map.get k s.signers
  other_kept k d s s' h n = elim (Bool-cases (d == k)) [
    | inl q ↦ absurd (n (sym ((==_iff d k).0 q)))
    | inr q ↦ rw (h.signers k, q) refl
  ]

  unregister_all :
      (ds : List ℕ) (s : Context E)
      → HaveProviders ds s
      → IsLinked E s
      → ((for_each ds (λ d. Optics.unregister_signer E (number d)) s).0 ≡ ok tt)
        × Clears ds s (for_each ds (λ d. Optics.unregister_signer E (number d)) s).1
        × ((k : ℕ)
            → Map.get k s.signers ≡ none
            → Map.get k (for_each ds (λ d. Optics.unregister_signer E (number d)) s).1.signers
              ≡ none)
  unfolding for_each
  unregister_all [] s have linked = (
    refl,
    record { domains = refl; providers = refl; gone = λ k m. elim m [ ]; kept = λ k n. refl },
    λ k e. e,
  )
  unregister_all (d ∷ ds) s have linked =
      let (p, hp) = have d (head refl) in
      let (done, drops) = optics_unregister-Drops d p s hp linked in
      let s' = (Optics.unregister_signer E (number d) s).1 in
      let (all, clears, nones) =
        unregister_all ds s' (λ k m. let (q, hq) = have k (tail m) in (q, rw drops.providers hq))
          (Drops-IsLinked d s s' drops linked) in
      rw done (
        all,
        record {
          domains = clears.domains ∙ drops.domains;
          providers = clears.providers ∙ drops.providers;
          gone = λ k m. elim (Memᴰ.cases_cons m) [
            | inl e ↦ nones k (rw (drops.signers k, e, eq_refl d) refl)
            | inr m' ↦ clears.gone k m'
          ];
          kept =
              λ k n. clears.kept k (λ m. n (tail m)) ∙ other_kept k d s s' drops (λ e. n (head e));
        },
        λ k e. nones k (still_none k d s s' drops e),
      )

  reconnect_all :
      (ds : List ℕ) (s : Context E)
      → HaveProviders ds s
      → ((for_each ds (reconnect E) s).0 ≡ ok tt)
        × ((for_each ds (reconnect E) s).1.domains ≡ s.domains)
        × ((for_each ds (reconnect E) s).1.providers ≡ s.providers)
        × ((for_each ds (reconnect E) s).1.signers ≡ s.signers)
  unfolding for_each
  reconnect_all [] s have = (refl, refl, refl, refl)
  reconnect_all (d ∷ ds) s have =
      let (p, hp) = have d (head refl) in
      let (done, domains, providers, signers) = reconnect-provider d p s hp in
      let (all, domains', providers', signers') =
        reconnect_all ds (reconnect E d s).1
          (λ k m. let (q, hq) = have k (tail m) in (q, rw providers hq)) in
      rw done (all, domains' ∙ domains, providers' ∙ providers, signers' ∙ signers)

  -- If every registered domain has a provider, and its signer is connected to it, `clearSigners`
  -- returns: the signers of all registered domains are gone, and no provider, domain or other signer
  -- changed.
  pub clear_signers-Clears :
      (s : Context E)
      → HaveProviders (domain_numbers s) s
      → IsLinked E s
      → ((Optics.clear_signers E s).0 ≡ ok tt)
        × Clears (domain_numbers s) s (Optics.clear_signers E s).1
  unfolding Optics.clear_signers MultiProvider.clear_signers domain_numbers
  clear_signers-Clears s have linked =
      let ds = domain_numbers s in
      let (done, clears, _) = unregister_all ds s have linked in
      let s' = (for_each ds (λ d. Optics.unregister_signer E (number d)) s).1 in
      let have' : HaveProviders ds s' =
        λ k m. let (q, hq) = have k m in (q, rw clears.providers hq) in
      let (again, domains, providers, signers) = reconnect_all ds s' have' in
      rw (done, clears.domains)
        (
          again,
          record {
            domains = domains ∙ clears.domains;
            providers = providers ∙ clears.providers;
            gone = λ k m. ap (Map.get k) signers ∙ clears.gone k m;
            kept = λ k n. ap (Map.get k) signers ∙ clears.kept k n;
          },
        )

  -- If the first registered domain has neither a signer nor a provider, `clearSigners` throws and
  -- unregisters nothing, whatever the other domains have.
  pub clear_signers-unconnected :
      (d : ℕ) (ds : List ℕ) (s : Context E)
      → domain_numbers s ≡ d ∷ ds
      → Map.get d s.signers ≡ none
      → Map.get d s.providers ≡ none
      → Optics.clear_signers E s ≡ (err reconnect_failed, s)
  unfolding Optics.clear_signers MultiProvider.clear_signers for_each Optics.unregister_signer
      MultiProvider.unregister_signer resolve_domain drop_found reconnect reconnect_to
      get_connection get_signer get_provider
  clear_signers-unconnected d ds s e no_signer no_provider =
      rw (e, no_signer) (rw (no_signer, no_provider) refl)

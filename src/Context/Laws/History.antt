-- ===== src/Context/Laws/History.antt =====
-- Histories of calls on a fresh context, in which the caller catches what a call throws.
use optics_monorepo.Prelude.{
  ◌≡◌, refl, ◌∙◌, List, [], ◌∷◌, ◌==◌, ==_iff, Bool-cases, inl, inr, arith, Text,
}
use optics_monorepo.Prelude.Map
use optics_monorepo.Prelude.Exec.{Keeps-bind, reads}
use optics_monorepo.Context.Ethers.{Ethers, IsLawful}
use optics_monorepo.Context.State.{Context, Domain}
use optics_monorepo.Context.Domains.{resolve_domain, register_domain as add_domain}
use optics_monorepo.Context.Contracts.{CoreContracts, BridgeContracts}
use optics_monorepo.Context.Optics
use optics_monorepo.Context.Optics.{add_domains, new_context}
use optics_monorepo.Context.Laws.Registered.{
  IsSound, optics_register_provider-IsSound, optics_register_signer-IsSound,
  optics_unregister-IsSound, optics_clear-IsSound,
}
use optics_monorepo.Context.Laws.Synced.{IsSynced}
use optics_monorepo.Context.Laws.Reconnected.{
  optics_register_provider-IsSynced, optics_register_signer-IsSynced, optics_unregister-IsSynced,
  optics_clear-IsSynced,
}
use optics_monorepo.Messages.Bridge.{NameOrDomain, number}

module _ (E : Ethers) where
  pub data Call : Type 0 where
    register_domain : Domain → Call
    register_provider : NameOrDomain → E.Provider → Call
    register_rpc_provider : NameOrDomain → Text → Call
    register_signer : NameOrDomain → E.Signer → Call
    register_wallet_signer : NameOrDomain → Text → Call
    unregister_signer : NameOrDomain → Call
    clear_signers : Call

  abbrev pub run : Call → Context E → Context E
  run (register_domain d) s = add_domain d s
  run (register_provider nod p) s = (Optics.register_provider E nod p s).1
  run (register_rpc_provider nod rpc) s = (Optics.register_rpc_provider E nod rpc s).1
  run (register_signer nod x) s = (Optics.register_signer E nod x s).1
  run (register_wallet_signer nod key) s = (Optics.register_wallet_signer E nod key s).1
  run (unregister_signer nod) s = (Optics.unregister_signer E nod s).1
  run clear_signers s = (Optics.clear_signers E s).1

  abbrev pub history : List Call → Context E → Context E
  history [] s = s
  history (c ∷ cs) s = history cs (run c s)

  -- Both invariants.
  pub record IsConsistent (s : Context E) : Type 0 where
    pub sound : IsSound E s
    pub synced : IsSynced E s

  abbrev blank : Context E
  blank = record { domains = []; providers = []; signers = []; cores = []; bridges = [] }

  add_domain-IsSound : (d : Domain) (s : Context E) → IsSound E s → IsSound E (add_domain d s)
  unfolding add_domain
  add_domain-IsSound d s h = record {
    keyed = λ k x e. elim (Bool-cases (d.id == k)) [
      | inl q ↦
          let found = rw (Map.get-set d.id k d s.domains, q) at e in
          let same : d ≡ x = ground (arith, found) in rw (← same) ((==_iff d.id k).0 q)
      | inr q ↦ h.keyed k x (rw (Map.get-set d.id k d s.domains, q) at e)
    ];
    linked = h.linked;
  }

  add_domains-fresh :
      (ds : List Domain) (s : Context E)
      → (IsSound E s → IsSound E (add_domains E ds s))
        × ((add_domains E ds s).signers ≡ s.signers)
        × ((add_domains E ds s).providers ≡ s.providers)
  unfolding add_domains
  add_domains-fresh [] s = (λ h. h, refl, refl)
  add_domains-fresh (d ∷ ds) s =
      let (sound, same, same') = add_domains-fresh ds (add_domain d s) in
      (
        λ h. sound (add_domain-IsSound d s h),
        same ∙ unfold add_domain in refl,
        same' ∙ unfold add_domain in refl,
      )

  new_context-IsConsistent :
      (ds : List Domain) (cs : List (CoreContracts E)) (bs : List (BridgeContracts E))
      → IsConsistent (new_context E ds cs bs)
  unfolding new_context Map.get
  new_context-IsConsistent ds cs bs =
      let (sound, no_signers, no_providers) = add_domains-fresh ds blank in
      record {
        sound = record {
          keyed = (sound (record { keyed = λ k d e. cc; linked = λ k. tt })).keyed;
          linked = λ k. rw no_signers tt;
        };
        synced = λ k. rw (no_signers, no_providers) (tt, tt);
      }

module _ (E : Ethers) (L : IsLawful E) where
  register_provider-IsConsistent :
      (nod : NameOrDomain) (p : E.Provider) (s : Context E)
      → IsConsistent E s
      → IsConsistent E (Optics.register_provider E nod p s).1
  register_provider-IsConsistent nod p s h = record {
    sound = optics_register_provider-IsSound E L nod p s h.sound;
    synced = optics_register_provider-IsSynced E L nod p s h.sound h.synced;
  }

  register_signer-IsConsistent :
      (nod : NameOrDomain) (x : E.Signer) (s : Context E)
      → IsConsistent E s
      → IsConsistent E (Optics.register_signer E nod x s).1
  register_signer-IsConsistent nod x s h = record {
    sound = optics_register_signer-IsSound E L nod x s h.sound;
    synced = optics_register_signer-IsSynced E L nod x s h.sound h.synced;
  }

  run-IsConsistent : (c : Call E) (s : Context E) → IsConsistent E s → IsConsistent E (run E c s)
  unfolding Optics.register_rpc_provider Optics.register_wallet_signer
  run-IsConsistent (register_domain d) s h = record {
    sound = add_domain-IsSound E d s h.sound;
    synced = unfold add_domain in h.synced;
  }
  run-IsConsistent (register_provider nod p) s h = register_provider-IsConsistent nod p s h
  run-IsConsistent (register_rpc_provider nod rpc) s h =
      Keeps-bind (IsConsistent E) (reads (resolve_domain nod)) _ (λ s h. h)
        (λ d. register_provider-IsConsistent (number d) (E.json_rpc_provider rpc)) s h
  run-IsConsistent (register_signer nod x) s h = register_signer-IsConsistent nod x s h
  run-IsConsistent (register_wallet_signer nod key) s h =
      Keeps-bind (IsConsistent E) (reads (resolve_domain nod)) _ (λ s h. h)
        (λ d. register_signer-IsConsistent (number d) (E.wallet key)) s h
  run-IsConsistent (unregister_signer nod) s h = record {
    sound = optics_unregister-IsSound E L nod s h.sound;
    synced = optics_unregister-IsSynced E L nod s h.synced;
  }
  run-IsConsistent clear_signers s h = record {
    sound = optics_clear-IsSound E L s h.sound;
    synced = optics_clear-IsSynced E L s h.synced;
  }

  history_keeps :
      (cs : List (Call E)) (s : Context E) → IsConsistent E s → IsConsistent E (history E cs s)
  history_keeps [] s h = h
  history_keeps (c ∷ cs) s h = history_keeps cs (run E c s) (run-IsConsistent c s h)

  -- After any calls on a fresh context, also ones that threw: domains stand under their numbers, each
  -- registered signer is connected to the provider registered for its domain, and the home, the
  -- replicas, the bridge router and the helper of a domain with a connection are connected to its
  -- signer, or to its provider if it has no signer.
  pub history-IsConsistent :
      (ds : List Domain) (cores : List (CoreContracts E)) (bridges : List (BridgeContracts E))
      (calls : List (Call E))
      → IsConsistent E (history E calls (new_context E ds cores bridges))
  history-IsConsistent ds cores bridges calls =
      history_keeps calls (new_context E ds cores bridges)
        (new_context-IsConsistent E ds cores bridges)

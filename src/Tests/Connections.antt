-- ===== src/Tests/Connections.antt =====
-- The theorems on the connection management at concrete inputs.
use optics_monorepo.Prelude.{
  ℕ, ◌≡◌, refl, true, none, some, List, [], ◌∷◌, codes, text_eq, to_lower_case, ok, err,
  reconnect_failed, Bool-cases, inl, inr, ◌==◌,
}
use mathlib.Core.List.{Memᴰ}
use mathlib.Core.List.Memᴰ.{head, tail}
use optics_monorepo.Prelude.Map
use optics_monorepo.Context.State.{Domain}
use optics_monorepo.Context.Domains.{resolve_domain, domain_numbers}
use optics_monorepo.Context.Optics.{new_context, clear_signers}
use optics_monorepo.Context.Optics
use optics_monorepo.Context.Optics.{reconnect, reconnect_to}
use optics_monorepo.Context.MultiProvider
use optics_monorepo.Context.MultiProvider.{
  choose_provider, connected_once, connected_twice, get_connection, get_signer, get_provider,
}
use optics_monorepo.Context.Laws.Effective.{domain_signer, register_signer-HasSigner}
use optics_monorepo.Context.Laws.Linked.{IsLinked}
use optics_monorepo.Context.Laws.History.{
  Call, register_provider, register_signer, unregister_signer, history, IsConsistent,
  history-IsConsistent,
}
use optics_monorepo.Context.Laws.Cleared.{
  Clears, HaveProviders, clear_signers-Clears, clear_signers-unconnected,
}
use optics_monorepo.Context.Laws.Resolved.{resolve_domain_sound, resolve_domain_complete}
use optics_monorepo.Messages.Bridge.{name, number}
use optics_monorepo.Samples.{toy, toy-IsLawful, celo, polygon, cores, bridges, fresh, ready}

-- The second call throws, since a context has no connection on a domain without a provider.
abbrev calls : List (Call toy)
calls =
    register_provider (name (codes "Celo")) 70
    ∷ unregister_signer (number 9)
    ∷ register_signer (number 7) none
    ∷ register_provider (number 7) 71
    ∷ []

history-IsConsistent_example :
    IsConsistent toy (history toy calls (new_context toy (celo ∷ polygon ∷ []) cores bridges))
history-IsConsistent_example =
    history-IsConsistent toy toy-IsLawful (celo ∷ polygon ∷ []) cores bridges calls

ready-HaveProviders : HaveProviders toy (7 ∷ 9 ∷ []) ready
unfolding Map.get
ready-HaveProviders k (head e) = (70, rw e refl)
ready-HaveProviders k (tail (head e)) = (90, rw e refl)
ready-HaveProviders k (tail (tail m)) = elim m [ ]

ready-IsLinked : IsLinked toy ready
unfolding Map.get
ready-IsLinked k = elim (Bool-cases (7 == k)) [ inl q ↦ rw q refl | inr q ↦ rw q tt ]

clear_signers-Clears_example :
    ((clear_signers toy ready).0 ≡ ok tt)
    × Clears toy (7 ∷ 9 ∷ []) ready (clear_signers toy ready).1
unfolding domain_numbers Map.keys
clear_signers-Clears_example = clear_signers-Clears toy ready ready-HaveProviders ready-IsLinked

clear_signers-unconnected_example : clear_signers toy fresh ≡ (err reconnect_failed, fresh)
unfolding domain_numbers Map.keys Map.get
clear_signers-unconnected_example = clear_signers-unconnected toy 7 (9 ∷ []) fresh refl refl refl

resolve_domain_sound_example :
    (d : Domain) × Memᴰ d (Map.values fresh.domains)
    × (text_eq (to_lower_case d.name) (to_lower_case (codes "Celo")) ≡ true)
    × (d.id ≡ 7)
unfolding resolve_domain Map.values text_eq to_lower_case
resolve_domain_sound_example = resolve_domain_sound fresh (codes "Celo") 7 refl

resolve_domain_complete_example :
    (k : ℕ) × (resolve_domain (name (codes "CELO")) fresh ≡ ok k)
    × (resolve_domain (name (to_lower_case (codes "CELO"))) fresh ≡ ok k)
unfolding Map.values text_eq to_lower_case
resolve_domain_complete_example = resolve_domain_complete fresh (codes "CELO") celo (head refl) refl

register_signer-HasSigner_example :
    Map.get 9 (Optics.register_signer toy (number 9) none ready).1.signers
    ≡ some (domain_signer toy (Map.get 9 ready.providers) none)
unfolding resolve_domain Optics.register_signer MultiProvider.register_signer connected_once
    choose_provider connected_twice reconnect reconnect_to get_connection get_signer get_provider
    Map.get Map.set
register_signer-HasSigner_example = register_signer-HasSigner toy (number 9) none ready 9 refl refl

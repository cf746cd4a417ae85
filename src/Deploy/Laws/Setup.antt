-- ===== src/Deploy/Laws/Setup.antt =====
-- The replicas of a deploy share an implementation and a beacon
-- (`deployUnenrolledReplica` of typescript/optics-deploy/src/core/index.ts).
use optics_monorepo.Prelude.{
  ℕ, suc, ◌≡◌, refl, subst, inl, inr, some, [], ◌∷◌, ◌++◌, codes, ltb, ◌==◌, Bool-cases, All,
}
use optics_monorepo.Prelude.Map
use optics_monorepo.Prelude.Map.{Map}
use optics_monorepo.Deploy.State.{address, number, BeaconProxy, CoreDeploy, least_entry}
use optics_monorepo.Deploy.Solidity.Storage.{Replica}
use optics_monorepo.Deploy.Proxies.{Evm}
use optics_monorepo.Deploy.Laws.Linked.{
  Links, Peer, nth, proxy_input, unlinked, replica_text, add_replica_to, new_replica, link_router,
  permit, enroll_at, link,
}
use optics_monorepo.Deploy.Laws.Links.{Setup, no_replicas, shared}

abbrev pub Every : (BeaconProxy Replica → Type 0) → Map (BeaconProxy Replica) → Type 0
Every P = All (λ (e : ℕ × BeaconProxy Replica). P e.1)

module _ (P : BeaconProxy Replica → Type 0) where
  -- What holds of all entries holds of the least one, and of what is found.
  least_entry-Every :
      (j : ℕ) (prev : BeaconProxy Replica) (m : Map (BeaconProxy Replica))
      → P prev
      → Every P m
      → P (least_entry j prev m).1
  unfolding least_entry
  least_entry-Every j prev [] h hs = h
  least_entry-Every j prev ((i, r) ∷ m) h (p, hs) = elim (Bool-cases (ltb i j)) [
    | inl e ↦ rw (least_entry, e) (least_entry-Every i r m p hs)
    | inr e ↦ rw (least_entry, e) (least_entry-Every j prev m h hs)
  ]

  pub get-Every :
      (t : ℕ) (m : Map (BeaconProxy Replica)) {r : BeaconProxy Replica}
      → Map.get t m ≡ some r
      → Every P m
      → P r
  unfolding Map.get
  get-Every t [] e hs = absurd cc
  get-Every t ((i, s) ∷ m) e (p, hs) = elim (Bool-cases (i == t)) [
    | inl q ↦ subst P (some-eq-some (rw q at e)) p
    | inr q ↦ get-Every t m (rw q at e) hs
  ]
    where
      some-eq-some : {a b : BeaconProxy Replica} → some a ≡ some b → a ≡ b
      some-eq-some h = cc

  set-Every :
      (t : ℕ) (r : BeaconProxy Replica) (m : Map (BeaconProxy Replica))
      → P r
      → Every P m
      → Every P (Map.set t r m)
  unfolding Map.set
  set-Every t r [] h hs = (h, tt)
  set-Every t r ((i, s) ∷ m) h (p, hs) = elim (Bool-cases (i == t)) [
    | inl q ↦ rw q (h, hs)
    | inr q ↦ rw q (p, set-Every t r m h hs)
  ]

-- Setting a key leaves a first entry.
set-head :
    (t : ℕ) (r : BeaconProxy Replica) (m : Map (BeaconProxy Replica))
    → (e : ℕ × BeaconProxy Replica) × (rest : Map (BeaconProxy Replica)) × (Map.set t r m
        ≡ e ∷ rest)
unfolding Map.set
set-head t r [] = ((t, r), [], refl)
set-head t r ((i, s) ∷ m) = elim (Bool-cases (i == t)) [
  | inl q ↦ ((t, r), m, rw q refl)
  | inr q ↦ ((i, s), Map.set t r m, rw q refl)
]

module _ (evm : Evm) (d : CoreDeploy) where
  pub unlinked-Setup : Setup evm d (unlinked evm d)
  unlinked-Setup = no_replicas refl refl

  pub link-Setup : (p : Peer) (k : Links) → Setup evm d k → Setup evm d (link evm d p k)
  unfolding link_router permit enroll_at add_replica_to new_replica Map.set
  link-Setup p k (no_replicas e i) =
      shared (nth evm d k.nonce) (nth evm d (suc k.nonce)) (nth evm d (suc (suc k.nonce)))
        (replica_text evm p)
        (number d.chain.domain ∷ number d.config.process_gas ∷ number d.config.reserve_gas ∷ [])
        (address (nth evm d k.nonce) ∷ address (nth evm d 0) ∷ []) [] p.chain.domain
        (new_replica evm [] d p k) [] (rw e refl) ((refl, refl), tt) (rw (e, i) refl)
  link-Setup p k (shared impl beacon proxy proxy_text args args' rest j prev others e s i) =
      let t = p.chain.domain in
      let P = λ (r : BeaconProxy Replica). (r.implementation ≡ impl) × (r.beacon ≡ beacon) in
      let added = new_replica evm ((j, prev) ∷ others) d p k in
      let ((i', r'), rest', e') = set-head t added ((j, prev) ∷ others) in
      shared impl beacon proxy proxy_text args args'
        (rest
          ++ (proxy_input (codes "Replica Proxy") (nth evm d k.nonce)
                (least_entry j prev others).1.beacon (replica_text evm p)
              ∷ []))
        i' r' rest' (rw e (rw e'))
        (subst (Every P) e'
          (set-Every P t added ((j, prev) ∷ others) (least_entry-Every P j prev others s.0 s.1) s))
        (rw (e, i) refl)

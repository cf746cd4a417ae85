-- ===== src/Deploy/Laws/Checked.antt =====
-- The checks pass on a connected deploy (typescript/optics-deploy/src/core/checks.ts).
use optics_monorepo.Prelude.{
  All-map, ℕ, true, false, ◌≡◌, refl, sym, ◌∙◌, subst, inl, inr, none, some, List, [], ◌∷◌, map,
  length, replicate, length-replicate, Text, text_eq, text_eq_refl, ◌==◌, eq_refl, Bool-cases, All,
  ok, arith,
}
use optics_monorepo.Prelude.Map
use optics_monorepo.Prelude.Map.{Map}
use optics_monorepo.Messages.Ids.{to_bytes32}
use optics_monorepo.Deploy.Solidity.Storage.{zero_address, Replica}
use optics_monorepo.Deploy.State.{BeaconProxy, CoreDeploy}
use optics_monorepo.Deploy.Proxies.{Evm, IsLawful, created_address}
use optics_monorepo.Deploy.Checks.{
  check_remote, check_each, same_setup, check_same_setup, check_defined, check_governor,
  check_ownership, check_inputs, check_replica_inputs, check_contracts, check_verification_input,
  first_named,
}
use optics_monorepo.Deploy.Laws.Linked.{Links, Peer, nth, router_of, deployed}
use optics_monorepo.Deploy.Laws.Links.{Connected, Setup, no_replicas, shared}
use optics_monorepo.Deploy.Laws.Setup.{Every, get-Every}

pub text_eq-length : (s t : Text) → text_eq s t ≡ true → length s ≡ length t
unfolding text_eq
text_eq-length [] [] e = refl
text_eq-length [] (b ∷ t) e = absurd cc
text_eq-length (a ∷ s) [] e = absurd cc
text_eq-length (a ∷ s) (b ∷ t) e = ground (arith, text_eq-length s t)

abbrev pub domains_of : List Peer → List ℕ
domains_of = map (λ (p : Peer). p.chain.domain)

module _ (evm : Evm) (L : IsLawful evm) where
  -- An address in 32 bytes has another length than the empty address.
  to_bytes32-zero_address :
      (account : Text) (n : ℕ)
      → text_eq (to_bytes32 (created_address evm account n)) zero_address ≡ false
  unfolding to_bytes32 text_eq
  to_bytes32-zero_address account n =
      elim (Bool-cases (text_eq (evm.digits account n) (replicate 16 b'0'))) [
        | inl e ↦ absurd (
            omega (
              arith,
              text_eq-length (evm.digits account n) (replicate 16 b'0') e,
              L.sized account n,
              length-replicate {A = ℕ} 16 b'0',
            ))
        | inr e ↦ e
      ]

  nth-zero_address : (d : CoreDeploy) (n : ℕ) → text_eq (nth evm d n) zero_address ≡ false
  unfolding text_eq
  nth-zero_address d n = L.nonzero d.chain.deployer n

  module _ (d : CoreDeploy) (governor : Text) (domain : ℕ) (k : Links) where
    abbrev pub finished : CoreDeploy
    finished = deployed evm d (nth evm d 10) governor domain k

    check_remotes-Connected :
        (ps : List Peer)
        → All (λ p. Connected evm d p k) ps
        → check_each (domains_of ps) (check_remote finished (router_of evm d governor domain k))
          ≡ ok tt
    unfolding check_each check_remote
    check_remotes-Connected [] h = refl
    check_remotes-Connected (p ∷ ps) (c, h) =
        rw
          (
            c.found,
            c.router,
            to_bytes32-zero_address p.chain.deployer 10,
            c.enrolled,
            nth-zero_address d c.number,
            check_remotes-Connected ps h,
          )
          refl

    -- Replicas with the implementation and the beacon of all replicas.
    check_others :
        (first : BeaconProxy Replica) (ps : List Peer)
        → Every
            (λ r. (r.implementation ≡ first.implementation) × (r.beacon ≡ first.beacon))
            k.replicas
        → All (λ p. Connected evm d p k) ps
        → check_each (domains_of ps) (λ other. same_setup finished first other) ≡ ok tt
    unfolding check_each same_setup
    check_others first [] same h = refl
    check_others first (p ∷ ps) same (c, h) =
        let (i, b) =
          get-Every (λ r. (r.implementation ≡ first.implementation) × (r.beacon ≡ first.beacon))
            p.chain.domain k.replicas c.found same in
        rw
          (
            c.found,
            i,
            b,
            text_eq_refl first.implementation,
            text_eq_refl first.beacon,
            check_others first ps same h,
          )
          refl

    shared_first :
        (implementation beacon : Text) (first : BeaconProxy Replica) (m : Map (BeaconProxy Replica))
        → (first.implementation ≡ implementation) × (first.beacon ≡ beacon)
        → Every (λ r. (r.implementation ≡ implementation) × (r.beacon ≡ beacon)) m
        → Every (λ r. (r.implementation ≡ first.implementation) × (r.beacon ≡ first.beacon)) m
    shared_first implementation beacon first m (i, b) =
        All-map m (λ e (i', b'). (i' ∙ sym i, b' ∙ sym b))

    check_same_setup-Connected :
        (ps : List Peer)
        → Setup evm d k
        → All (λ p. Connected evm d p k) ps
        → (check_same_setup finished (domains_of ps) ≡ ok tt)
          × (check_replica_inputs finished (domains_of ps) ≡ ok tt)
    unfolding check_same_setup check_replica_inputs check_verification_input first_named text_eq
        Map.get
    check_same_setup-Connected [] setup h = (refl, refl)
    check_same_setup-Connected (p ∷ ps) (no_replicas e i) (c, h) =
        absurd (none_some (rw e at c.found))
      where
        none_some : {r : BeaconProxy Replica} → none ≡ some r → ⊥
        none_some e = cc
    check_same_setup-Connected (p ∷ ps) (shared impl beacon q t args args' rest j prev others e s i)
          (c, h) =
        let P = λ (r : BeaconProxy Replica). (r.implementation ≡ impl) × (r.beacon ≡ beacon) in
        let all : Every P k.replicas = subst (Every P) (sym e) s in
        let mine = get-Every P p.chain.domain k.replicas c.found all in
        (
          rw
              (
                c.found,
                check_others c.replica ps (shared_first impl beacon c.replica k.replicas mine all)
                    h,
              )
              refl,
          rw (c.found, i, mine.0, mine.1, text_eq_refl impl, text_eq_refl beacon) refl,
        )

    digits_refl :
        (n : ℕ) → text_eq (evm.digits d.chain.deployer n) (evm.digits d.chain.deployer n) ≡ true
    digits_refl n = text_eq_refl (evm.digits d.chain.deployer n)

    check_ownership-finished : check_ownership finished ≡ ok tt
    unfolding check_ownership
    check_ownership-finished = rw (text_eq_refl (nth evm d 5), text_eq_refl (nth evm d 10)) refl

    check_inputs-finished : Setup evm d k → check_inputs finished ≡ ok tt
    unfolding check_inputs check_verification_input first_named text_eq
    check_inputs-finished (no_replicas e i) =
        rw
          (
            i,
            digits_refl 0,
            digits_refl 2,
            digits_refl 1,
            digits_refl 3,
            digits_refl 4,
            digits_refl 5,
            digits_refl 8,
            digits_refl 9,
            digits_refl 10,
          )
          refl
    check_inputs-finished (shared impl beacon q t args args' rest j prev others e s i) =
        rw
          (
            i,
            digits_refl 0,
            digits_refl 2,
            digits_refl 1,
            digits_refl 3,
            digits_refl 4,
            digits_refl 5,
            digits_refl 8,
            digits_refl 9,
            digits_refl 10,
          )
          refl

    -- Who governs: a governor on the governing chain, none elsewhere.
    check_governor-finished :
        (governing : ℕ)
        → domain ≡ governing
        → ((governing == d.chain.domain) ≡ true → text_eq governor zero_address ≡ false)
        → ((governing == d.chain.domain) ≡ false → governor ≡ zero_address)
        → check_governor finished governing ≡ ok tt
    unfolding check_governor
    check_governor-finished governing same here there =
        elim (Bool-cases (governing == d.chain.domain)) [
          | inl e ↦ rw (e, here e, same, eq_refl governing) refl
          | inr e ↦ rw (e, there e, text_eq_refl zero_address, same, eq_refl governing) refl
        ]

    -- All checks that only read pass.
    pub check_contracts-finished :
        (ps : List Peer) (governing : ℕ)
        → Setup evm d k
        → All (λ p. Connected evm d p k) ps
        → domain ≡ governing
        → ((governing == d.chain.domain) ≡ true → text_eq governor zero_address ≡ false)
        → ((governing == d.chain.domain) ≡ false → governor ≡ zero_address)
        → check_contracts finished (domains_of ps) governing ≡ ok tt
    unfolding check_contracts check_defined
    check_contracts-finished ps governing setup connected same here there =
        let (one, two) = check_same_setup-Connected ps setup connected in
        rw
          (
            text_eq_refl (nth evm d 1),
            check_remotes-Connected ps connected,
            one,
            check_governor-finished governing same here there,
            check_ownership-finished,
            check_inputs-finished setup,
          )
          two

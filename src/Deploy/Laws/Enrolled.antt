-- ===== src/Deploy/Laws/Enrolled.antt =====
-- `enrollRemote` on a fleet (typescript/optics-deploy/src/core/index.ts).
use mathlib.Core.Path.{fun_ext}
use optics_monorepo.Prelude.{
  ℕ, false, ◌≡◌, refl, ◌∙◌, ap, inl, inr, ◌==◌, ==_iff, eq_refl, Bool-cases, ok, arith,
}
use optics_monorepo.Prelude.Exec.{Exec, ◌>>◌}
use optics_monorepo.Deploy.Solidity.Storage.{assign}
use optics_monorepo.Deploy.State.{CoreDeploy}
use optics_monorepo.Deploy.Proxies.{Evm, IsLawful}
use optics_monorepo.Deploy.Enroll.{
  deploy_unenrolled_replica, enroll_replica, enroll_watchers, enroll_governance_router,
}
use optics_monorepo.Deploy.Networks.{Fleet, at, with_remote, enroll_remote}
use optics_monorepo.Deploy.Laws.Linked.{
  Links, peer, owned, add_replica, new_replica, enroll_at, permit, link,
}
use optics_monorepo.Deploy.Laws.Steps.{
  IsDeployable, deploy_unenrolled_replica-owned, enroll_replica-owned, enroll_watchers-owned,
  enroll_governance_router-owned, get-add_replica,
}

-- A fleet after one of its deploys has changed.
abbrev pub put : ℕ → CoreDeploy → Fleet → Fleet
put i d fleet = record fleet { deploys = assign i d fleet.deploys }

pub assign_self : {V : Type 0} (i : ℕ) (f : ℕ → V) → assign i (f i) f ≡ f
assign_self i f =
    fun_ext
      λ j. elim (Bool-cases (i == j)) [ inl e ↦ rw e (ap f ((==_iff i j).0 e)) | inr e ↦ rw e refl ]

pub assign-assign :
    {V : Type 0} (i : ℕ) (a b : V) (f : ℕ → V) → assign i a (assign i b f) ≡ assign i a f
assign-assign i a b f = fun_ext λ j. ground arith

pub put_self : (i : ℕ) (fleet : Fleet) → put i (fleet.deploys i) fleet ≡ fleet
put_self i fleet =
    ap (λ (f : ℕ → CoreDeploy). record fleet { deploys = f }) (assign_self i fleet.deploys)

pub put-put : (i : ℕ) (d e : CoreDeploy) (fleet : Fleet) → put i d (put i e fleet) ≡ put i d fleet
put-put i d e fleet =
    ap (λ (f : ℕ → CoreDeploy). record fleet { deploys = f }) (assign-assign i d e fleet.deploys)

-- The rest of a method after a step that returns.
pub >>-eq {ℓ κ} :
    {S : Type ℓ} {V : Type κ} (step : Exec S (Unit {0})) (rest : Exec S V) (s : S) {s' : S}
    → step s ≡ (ok tt, s')
    → (step >> rest) s ≡ rest s'
>>-eq step rest s e = rw e refl

pub at-eq :
    (method : Exec CoreDeploy (Unit {0})) (i : ℕ) (fleet : Fleet) {d d' : CoreDeploy}
    → fleet.deploys i ≡ d
    → method d ≡ (ok tt, d')
    → at i method fleet ≡ (ok tt, put i d' fleet)
at-eq method i fleet hd e = rw (hd, e) refl

pub with_remote-eq :
    (method : CoreDeploy → Exec CoreDeploy (Unit {0})) (i j : ℕ) (fleet : Fleet)
    {d d' e : CoreDeploy}
    → fleet.deploys i ≡ d
    → fleet.deploys j ≡ e
    → method e d ≡ (ok tt, d')
    → with_remote method i j fleet ≡ (ok tt, put i d' fleet)
with_remote-eq method i j fleet hd he e = rw (hd, he, e) refl

pub put_here : (i : ℕ) (d : CoreDeploy) (fleet : Fleet) → (put i d fleet).deploys i ≡ d
put_here i d fleet = rw (eq_refl i) refl

pub put_there :
    (i j : ℕ) (d : CoreDeploy) (fleet : Fleet)
    → (i == j) ≡ false
    → (put i d fleet).deploys j ≡ fleet.deploys j
put_there i j d fleet apart = rw apart refl

-- Four steps of one deploy against one remote deploy.
four_steps :
    (m1 m2 m3 m4 : CoreDeploy → Exec CoreDeploy (Unit {0})) (i j : ℕ) (fleet : Fleet)
    {d0 d1 d2 d3 d4 e : CoreDeploy}
    → (i == j) ≡ false
    → fleet.deploys i ≡ d0
    → fleet.deploys j ≡ e
    → m1 e d0 ≡ (ok tt, d1)
    → m2 e d1 ≡ (ok tt, d2)
    → m3 e d2 ≡ (ok tt, d3)
    → m4 e d3 ≡ (ok tt, d4)
    → (with_remote m1 i j >> (with_remote m2 i j >> (with_remote m3 i j >> with_remote m4 i j)))
        fleet
      ≡ (ok tt, put i d4 fleet)
four_steps m1 m2 m3 m4 i j fleet {d0} {d1} {d2} {d3} {d4} {e} apart hi hj e1 e2 e3 e4 =
    let next =
      λ (m : CoreDeploy → Exec CoreDeploy (Unit {0})) (a b : CoreDeploy)
          (step : m e a ≡ (ok tt, b)).
        with_remote-eq m i j (put i a fleet) (put_here i a fleet) (put_there i j a fleet apart ∙ hj)
          step
        ∙ ap (λ (f : Fleet). (ok tt, f)) (put-put i b a fleet) in
    >>-eq (with_remote m1 i j) (with_remote m2 i j >> (with_remote m3 i j >> with_remote m4 i j))
      fleet (with_remote-eq m1 i j fleet hi hj e1)
    ∙ >>-eq (with_remote m2 i j) (with_remote m3 i j >> with_remote m4 i j) (put i d1 fleet)
        (next m2 d1 d2 e2)
    ∙ >>-eq (with_remote m3 i j) (with_remote m4 i j) (put i d2 fleet) (next m3 d2 d3 e3)
    ∙ next m4 d3 d4 e4

module _ (evm : Evm) (L : IsLawful evm) where
  pub enroll_remote-owned :
      (d e : CoreDeploy) (k j : Links) (local remote : ℕ) (fleet : Fleet)
      → IsDeployable d
      → IsDeployable e
      → (local == remote) ≡ false
      → fleet.deploys local ≡ owned evm d k
      → fleet.deploys remote ≡ owned evm e j
      → enroll_remote evm local remote fleet
        ≡ (ok tt, put local (owned evm d (link evm d (peer e) k)) fleet)
  unfolding enroll_remote
  enroll_remote-owned d e k j local remote fleet able there apart hl hr =
      let added = add_replica evm d (peer e) k in
      let fresh = new_replica evm k.replicas d (peer e) k in
      let enrolled = enroll_at fresh.proxy.address e.chain.domain added in
      four_steps (deploy_unenrolled_replica evm) enroll_replica enroll_watchers
        (enroll_governance_router evm) local remote fleet apart hl hr
        (deploy_unenrolled_replica-owned evm d (owned evm e j) able there k)
        (enroll_replica-owned evm d (owned evm e j) added fresh
          (get-add_replica evm d (owned evm e j) k))
        (enroll_watchers-owned evm d (owned evm e j) enrolled)
        (enroll_governance_router-owned evm d e L (permit d.config.watchers e.chain.domain enrolled)
          j)

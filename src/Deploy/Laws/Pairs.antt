-- ===== src/Deploy/Laws/Pairs.antt =====
-- Two deploys of a fleet (`deployTwoChains` of typescript/optics-deploy/src/core/index.ts).
use mathlib.Core.Path.{fun_ext}
use optics_monorepo.Prelude.{ℕ, false, ◌≡◌, refl, ◌∙◌, ap, [], ◌∷◌, ◌==◌, ==_sym, ok, arith}
use optics_monorepo.Prelude.Exec.{Exec, ◌>>◌, for_all}
use optics_monorepo.Deploy.Solidity.Storage.{assign}
use optics_monorepo.Deploy.State.{CoreDeploy}
use optics_monorepo.Deploy.Proxies.{Evm, IsLawful}
use optics_monorepo.Deploy.Enroll.{
  deploy_unenrolled_replica, enroll_replica, enroll_watchers, enroll_governance_router,
}
use optics_monorepo.Deploy.Networks.{Fleet, with_remote, both_ways}
use optics_monorepo.Deploy.Laws.Linked.{
  Links, peer, owned, add_replica, new_replica, enroll_at, permit, link,
}
use optics_monorepo.Deploy.Laws.Steps.{
  IsDeployable, deploy_unenrolled_replica-owned, enroll_replica-owned, enroll_watchers-owned,
  enroll_governance_router-owned, get-add_replica,
}
use optics_monorepo.Deploy.Laws.Enrolled.{put, put-put, put_here, put_there, >>-eq, with_remote-eq}

pub for_all-two :
    {A : Type 0} (step : A → Exec Fleet (Unit {0})) (x y : A) (s : Fleet) {s1 s2 : Fleet}
    → step x s ≡ (ok tt, s1)
    → step y s1 ≡ (ok tt, s2)
    → for_all (x ∷ y ∷ []) step s ≡ (ok tt, s2)
unfolding for_all
for_all-two step x y s e1 e2 = rw (e1, e2) refl

assign_comm :
    {V : Type 0} (i j : ℕ) (a b : V) (f : ℕ → V)
    → (i == j) ≡ false
    → assign i a (assign j b f) ≡ assign j b (assign i a f)
assign_comm i j a b f apart = fun_ext λ t. ground arith

put_comm :
    (i j : ℕ) (d e : CoreDeploy) (fleet : Fleet)
    → (i == j) ≡ false
    → put i d (put j e fleet) ≡ put j e (put i d fleet)
put_comm i j d e fleet apart =
    ap (λ (f : ℕ → CoreDeploy). record fleet { deploys = f })
      (assign_comm i j d e fleet.deploys apart)

module _ (gov non : ℕ) (apart : (gov == non) ≡ false) (start : Fleet) where
  abbrev pub pair : CoreDeploy → CoreDeploy → Fleet
  pair a b = put non b (put gov a start)

  pub pair_gov : (a b : CoreDeploy) → (pair a b).deploys gov ≡ a
  pair_gov a b =
      put_there non gov b (put gov a start) (==_sym non gov ∙ apart) ∙ put_here gov a start

  pub pair_non : (a b : CoreDeploy) → (pair a b).deploys non ≡ b
  pair_non a b = put_here non b (put gov a start)

  pub put_gov : (a a' b : CoreDeploy) → put gov a' (pair a b) ≡ pair a' b
  put_gov a a' b =
      put_comm gov non a' b (put gov a start) apart ∙ ap (put non b) (put-put gov a' a start)

  pub put_non : (a b b' : CoreDeploy) → put non b' (pair a b) ≡ pair a b'
  put_non a b b' = put-put non b' b (put gov a start)

  -- A step of each of the deploys that reads the other one.
  pub both_ways-pair :
      (m : CoreDeploy → Exec CoreDeploy (Unit {0})) (a b : CoreDeploy) {a' b' : CoreDeploy}
      → m b a ≡ (ok tt, a')
      → m a' b ≡ (ok tt, b')
      → both_ways (with_remote m) gov non (pair a b) ≡ (ok tt, pair a' b')
  both_ways-pair m a b {a'} {b'} e1 e2 =
      for_all-two (λ (p : ℕ × ℕ). with_remote m p.0 p.1) (gov, non) (non, gov) (pair a b)
        (with_remote-eq m gov non (pair a b) (pair_gov a b) (pair_non a b) e1
          ∙ ap (λ (f : Fleet). (ok tt, f)) (put_gov a a' b))
        (with_remote-eq m non gov (pair a' b) (pair_non a' b) (pair_gov a' b) e2
          ∙ ap (λ (f : Fleet). (ok tt, f)) (put_non a' b b'))

  module _ (evm : Evm) (L : IsLawful evm) (d e : CoreDeploy) where
    -- The four enrollments in both directions.
    pub both_ways-owned :
        IsDeployable d
        → IsDeployable e
        → (k j : Links) (rest : Exec Fleet (Unit {0}))
        → (both_ways (with_remote (deploy_unenrolled_replica evm)) gov non
              >> (both_ways (with_remote enroll_replica) gov non
                  >> (both_ways (with_remote enroll_watchers) gov non
                      >> (both_ways (with_remote (enroll_governance_router evm)) gov non >> rest))))
            (pair (owned evm d k) (owned evm e j))
          ≡ rest (pair (owned evm d (link evm d (peer e) k)) (owned evm e (link evm e (peer d) j)))
    both_ways-owned able there k j rest =
        let ways =
          λ (m : CoreDeploy → Exec CoreDeploy (Unit {0})). both_ways (with_remote m) gov non in
        let k1 = add_replica evm d (peer e) k in
        let j1 = add_replica evm e (peer d) j in
        let r = new_replica evm k.replicas d (peer e) k in
        let s = new_replica evm j.replicas e (peer d) j in
        let k2 = enroll_at r.proxy.address e.chain.domain k1 in
        let j2 = enroll_at s.proxy.address d.chain.domain j1 in
        let k3 = permit d.config.watchers e.chain.domain k2 in
        let j3 = permit e.config.watchers d.chain.domain j2 in
        let last = ways (enroll_governance_router evm) >> rest in
        >>-eq (ways (deploy_unenrolled_replica evm))
          (ways enroll_replica >> (ways enroll_watchers >> last))
          (pair (owned evm d k) (owned evm e j))
          (both_ways-pair (deploy_unenrolled_replica evm) (owned evm d k) (owned evm e j)
            (deploy_unenrolled_replica-owned evm d (owned evm e j) able there k)
            (deploy_unenrolled_replica-owned evm e (owned evm d k1) there able j))
        ∙ >>-eq (ways enroll_replica) (ways enroll_watchers >> last)
            (pair (owned evm d k1) (owned evm e j1))
            (both_ways-pair enroll_replica (owned evm d k1) (owned evm e j1)
              (enroll_replica-owned evm d (owned evm e j1) k1 r
                (get-add_replica evm d (owned evm e j1) k))
              (enroll_replica-owned evm e (owned evm d k2) j1 s
                (get-add_replica evm e (owned evm d k2) j)))
        ∙ >>-eq (ways enroll_watchers) last (pair (owned evm d k2) (owned evm e j2)) (
            both_ways-pair enroll_watchers (owned evm d k2) (owned evm e j2)
              (enroll_watchers-owned evm d (owned evm e j2) k2)
              (enroll_watchers-owned evm e (owned evm d k3) j2))
        ∙ >>-eq (ways (enroll_governance_router evm)) rest (pair (owned evm d k3) (owned evm e j3))
            (both_ways-pair (enroll_governance_router evm) (owned evm d k3) (owned evm e j3)
              (enroll_governance_router-owned evm d e L k3 j3)
              (enroll_governance_router-owned evm e d L j3 (link evm d (peer e) k)))

-- ===== src/Deploy/Laws/Connected.antt =====
-- The enrollment loops of `deployNChains` (typescript/optics-deploy/src/core/index.ts).
use optics_monorepo.Prelude.{
  ℕ, true, false, not, ◌≡◌, sym, ◌∙◌, ap, inl, inr, List, [], ◌∷◌, map, filter, ◌==◌, ==_iff,
  eq_refl, Bool-cases, ok,
}
use optics_monorepo.Prelude.Exec.{for_each}
use optics_monorepo.Deploy.State.{CoreDeploy}
use optics_monorepo.Deploy.Proxies.{Evm, IsLawful}
use optics_monorepo.Deploy.Networks.{Fleet, domain_of, remotes_in, enroll_remote, enroll_remotes}
use optics_monorepo.Deploy.Laws.Linked.{Links, Peer, peer, owned, link, link_all}
use optics_monorepo.Deploy.Laws.Steps.{IsDeployable}
use optics_monorepo.Deploy.Laws.Enrolled.{
  put, put_self, put-put, put_here, >>-eq, enroll_remote-owned,
}
use optics_monorepo.Deploy.Laws.Rounds.{elem, elem_head, elem_tail, elem-filter, filter_cong, Each}

-- The references of the deploys of other domains, and what is read of them.
abbrev pub others_of : (ℕ → CoreDeploy) → List ℕ → ℕ → List ℕ
others_of base refs local =
    filter (λ r. not ((base r).chain.domain == (base local).chain.domain)) refs

abbrev pub peers_of : (ℕ → CoreDeploy) → List ℕ → List Peer
peers_of base rs = map (λ r. peer (base r)) rs

module _ (evm : Evm) (L : IsLawful evm) (base : ℕ → CoreDeploy) where
  -- The suite under this reference stands, with some links, and its constructors are content.
  abbrev pub Stands : Fleet → ℕ → Type 0
  Stands fleet i = (k : Links) × (fleet.deploys i ≡ owned evm (base i) k) × IsDeployable (base i)

  pub put-Stands :
      (i j : ℕ) (k : Links) (fleet : Fleet)
      → Stands fleet j
      → Stands (put i (owned evm (base i) k) fleet) j
  put-Stands i j k fleet (k', e, able) = elim (Bool-cases (i == j)) [
    | inl same ↦ (k, rw same (ap (λ (r : ℕ). owned evm (base r) k) ((==_iff i j).0 same)), able)
    | inr apart ↦ (k', rw apart e, able)
  ]

  pub domain-Stands :
      (fleet : Fleet) (i : ℕ) → Stands fleet i → domain_of fleet i ≡ (base i).chain.domain
  domain-Stands fleet i (k, e, able) = ap (λ (d : CoreDeploy). d.chain.domain) e

  remotes_in-Stands :
      (refs : List ℕ) (local : ℕ) (fleet : Fleet)
      → Stands fleet local
      → Each refs (Stands fleet)
      → remotes_in fleet refs local ≡ others_of base refs local
  remotes_in-Stands refs local fleet h all = filter_cong _ _ refs (λ r m.
      ap (λ (t : ℕ). not (t == domain_of fleet local)) (domain-Stands fleet r (all r m))
      ∙ ap (λ (t : ℕ). not ((base r).chain.domain == t)) (domain-Stands fleet local h))

  link_rounds :
      (local : ℕ) (rs : List ℕ) (k : Links) (fleet : Fleet)
      → IsDeployable (base local)
      → fleet.deploys local ≡ owned evm (base local) k
      → Each rs (λ r. ((local == r) ≡ false) × Stands fleet r)
      → for_each rs (enroll_remote evm local) fleet ≡ (
        ok tt,
        put local (owned evm (base local) (link_all evm (base local) (peers_of base rs) k)) fleet,
      )
  unfolding for_each link_all
  link_rounds local [] k fleet able h all =
      ap (λ (f : Fleet). (ok tt, f))
        (sym (ap (λ (d : CoreDeploy). put local d fleet) (sym h) ∙ put_self local fleet))
  link_rounds local (r ∷ rs) k fleet able h all =
      let (apart, (j, stands, there)) = all r (elem_head r rs) in
      let linked = link evm (base local) (peer (base r)) k in
      let changed = put local (owned evm (base local) linked) fleet in
      >>-eq (enroll_remote evm local r) (for_each rs (enroll_remote evm local)) fleet (
        enroll_remote-owned evm L (base local) (base r) k j local r fleet able there apart h stands)
      ∙ link_rounds local rs linked changed able
          (put_here local (owned evm (base local) linked) fleet)
          (λ i m.
            let (apart', stands') = all i (elem_tail i r rs m) in
            (apart', put-Stands local i linked fleet stands'))
      ∙ ap (λ (f : Fleet). (ok tt, f))
          (put-put local
            (owned evm (base local) (link_all evm (base local) (peers_of base rs) linked))
            (owned evm (base local) linked) fleet)

  -- A deploy of another domain is another deploy.
  others_apart :
      (refs : List ℕ) (local : ℕ) (r : ℕ)
      → elem r (others_of base refs local) ≡ true
      → ((local == r) ≡ false) × (elem r refs ≡ true)
  others_apart refs local r m =
      let (there, differs) =
        elem-filter (λ r. not ((base r).chain.domain == (base local).chain.domain)) r refs m in
      (
        elim (Bool-cases (local == r)) [
          | inl e ↦ absurd (
              true_false (
                sym differs
                ∙ ap (λ (t : ℕ). not ((base t).chain.domain == (base local).chain.domain))
                    (sym ((==_iff local r).0 e))
                ∙ ap not (eq_refl (base local).chain.domain)))
          | inr e ↦ e
        ],
        there,
      )
    where
      true_false : true ≡ false → ⊥
      true_false e = cc

  -- One round of the loop over the deploys connects the local deploy to all the others.
  pub enroll_remotes-Stands :
      (refs : List ℕ) (local : ℕ) (k : Links) (fleet : Fleet)
      → IsDeployable (base local)
      → fleet.deploys local ≡ owned evm (base local) k
      → Each refs (Stands fleet)
      → enroll_remotes evm refs local fleet ≡ (
        ok tt,
        put local
            (owned evm
              (base local)
              (link_all evm (base local) (peers_of base (others_of base refs local)) k))
            fleet,
      )
  unfolding enroll_remotes
  enroll_remotes-Stands refs local k fleet able h all =
      rw (remotes_in-Stands refs local fleet (k, h, able) all) (
        link_rounds local (others_of base refs local) k fleet able h
          (λ r m. let (apart, there) = others_apart refs local r m in (apart, all r there)))

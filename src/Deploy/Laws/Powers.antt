-- ===== src/Deploy/Laws/Powers.antt =====
-- The governance phases of `deployNChains` (typescript/optics-deploy/src/core/index.ts).
use optics_monorepo.Prelude.{
  ℕ, suc, false, ◌≡◌, ◌∙◌, Option, none, some, List, ◌==◌, if◌then◌else◌, Text, text_eq, ok, arith,
}
use optics_monorepo.Prelude.Exec.{for_all}
use optics_monorepo.Messages.Ids.{to_bytes32}
use optics_monorepo.Deploy.Solidity.Storage.{zero_address, zero_bytes32}
use optics_monorepo.Deploy.State.{Governor, CoreDeploy}
use optics_monorepo.Deploy.Proxies.{Evm, IsLawful, created_address}
use optics_monorepo.Deploy.Enroll.{transfer_governorship, relinquish}
use optics_monorepo.Deploy.Networks.{Fleet, at, with_remote}
use optics_monorepo.Deploy.Laws.Linked.{Links, Peer, peer, nth, deployed, owned}
use optics_monorepo.Deploy.Laws.Links.{Connected, Setup}
use optics_monorepo.Deploy.Laws.Later.{Connected-later, Setup-later}
use optics_monorepo.Deploy.Laws.Governed.{
  appointed, announced, sent_more, transfer_governorship-owned, relinquish-deployed,
}
use optics_monorepo.Deploy.Laws.Enrolled.{put_there, at-eq, with_remote-eq}
use optics_monorepo.Deploy.Laws.Rounds.{Each, Distinct, put_all, for_all-rounds}

-- The governor of a deploy under reference `i`, and its links, once `gov` governs.
abbrev pub governor_at : ℕ → Text → ℕ → Text
governor_at gov governor i = if gov == i then governor else zero_address

module _ (evm : Evm) (L : IsLawful evm) where
  to_bytes32-zero_bytes32 :
      (account : Text) (n : ℕ)
      → text_eq (to_bytes32 (created_address evm account n)) zero_bytes32 ≡ false
  unfolding to_bytes32 text_eq
  to_bytes32-zero_bytes32 account n = L.nonzero account n

  -- A router that is connected to the governing chain can name it.
  pub router-Connected :
      (d gov : CoreDeploy) (k : Links)
      → Connected evm d (peer gov) k
      → text_eq (k.routers gov.chain.domain) zero_bytes32 ≡ false
  router-Connected d gov k c = rw c.router (to_bytes32-zero_bytes32 gov.chain.deployer 10)

  -- The links that outlast the governance phases.
  pub appointed-Connected :
      (d : CoreDeploy) (o : Option Governor) (p : Peer) (k : Links)
      → Connected evm d p k
      → Connected evm d p (appointed evm o k)
  appointed-Connected d none p k c = c
  appointed-Connected d (some g) p k c =
      Connected-later evm d (suc k.nonce) k.dispatched p k k.inputs (omega arith) c

  pub appointed-Setup :
      (d : CoreDeploy) (o : Option Governor) (k : Links)
      → Setup evm d k
      → Setup evm d (appointed evm o k)
  appointed-Setup d none k s = s
  appointed-Setup d (some g) k s = Setup-later evm d (suc k.nonce) k.dispatched k s

  pub announced-Connected :
      (d : CoreDeploy) (governor : Text) (domain : ℕ) (p : Peer) (k : Links)
      → Connected evm d p k
      → Connected evm d p (announced evm d governor domain k)
  unfolding announced
  announced-Connected d governor domain p k c =
      Connected-later evm d (suc k.nonce) _ p k k.inputs (omega arith) c

  pub announced-Setup :
      (d : CoreDeploy) (governor : Text) (domain : ℕ) (k : Links)
      → Setup evm d k
      → Setup evm d (announced evm d governor domain k)
  unfolding announced
  announced-Setup d governor domain k s = Setup-later evm d (suc k.nonce) _ k s

  module _ (base : ℕ → CoreDeploy) (gov : ℕ) (governor : Text) where
    -- Every other chain learns who governs.
    pub transfers :
        (others : List ℕ) (domain : ℕ) (j : Links) (links : ℕ → Links) (fleet : Fleet)
        → Distinct others
        → Each others (λ i.
          ((i == gov) ≡ false)
          × (((base gov).chain.domain == (base i).chain.domain) ≡ false)
          × Connected evm (base i) (peer (base gov)) (links i))
        → Each others (λ i. fleet.deploys i ≡ owned evm (base i) (links i))
        → fleet.deploys gov ≡ deployed evm (base gov) (base gov).chain.deployer governor domain j
        → for_all others (λ non. with_remote (transfer_governorship evm) non gov) fleet ≡ (
          ok tt,
          put_all others
              (λ i.
                deployed evm
                  (base i)
                  (base i).chain.deployer
                  zero_address
                  (base gov).chain.domain
                  (announced evm (base i) governor (base gov).chain.domain (links i)))
              fleet,
        )
    transfers others domain j links fleet distinct ready here governing =
        (for_all-rounds
          (λ i.
            ((i == gov) ≡ false)
            × (((base gov).chain.domain == (base i).chain.domain) ≡ false)
            × Connected evm (base i) (peer (base gov)) (links i))
          (λ f. f.deploys gov ≡ deployed evm (base gov) (base gov).chain.deployer governor domain j)
          (λ i. owned evm (base i) (links i))
          (λ i.
            deployed evm (base i) (base i).chain.deployer zero_address (base gov).chain.domain
              (announced evm (base i) governor (base gov).chain.domain (links i)))
          (λ non. with_remote (transfer_governorship evm) non gov)
          (λ i f (apart, differs, c) inv e. (
            with_remote-eq (transfer_governorship evm) i gov f e inv (
                transfer_governorship-owned evm (base gov) (base i) governor domain j (links i)
                  differs (router-Connected (base i) (base gov) (links i) c)),
            put_there i gov _ f apart ∙ inv,
          ))
          others fleet distinct ready here governing).0

    -- Every chain gives its contracts to its governance router.
    pub gifts :
        (refs : List ℕ) (links : ℕ → Links) (fleet : Fleet)
        → Distinct refs
        → Each refs (λ i.
          fleet.deploys i
          ≡ deployed evm
              (base i)
              (base i).chain.deployer
              (governor_at gov governor i)
              (base gov).chain.domain
              (links i))
        → for_all refs (λ i. at i relinquish) fleet ≡ (
          ok tt,
          put_all refs
              (λ i.
                deployed evm
                  (base i)
                  (nth evm (base i) 10)
                  (governor_at gov governor i)
                  (base gov).chain.domain
                  (sent_more (suc (suc (suc (suc (links i).nonce)))) (links i)))
              fleet,
        )
    gifts refs links fleet distinct here =
        (for_all-rounds (λ i. Unit {0}) (λ f. Unit {0})
          (λ i.
            deployed evm (base i) (base i).chain.deployer (governor_at gov governor i)
              (base gov).chain.domain (links i))
          (λ i.
            deployed evm (base i) (nth evm (base i) 10) (governor_at gov governor i)
              (base gov).chain.domain (sent_more (suc (suc (suc (suc (links i).nonce)))) (links i)))
          (λ i. at i relinquish)
          (λ i f q inv e. (
            at-eq relinquish i f e (
                relinquish-deployed evm L (base i) (governor_at gov governor i)
                  (base gov).chain.domain (links i)),
            tt,
          ))
          refs fleet distinct (λ i m. tt) here tt).0

-- ===== src/Deploy/Laws/Governed.antt =====
-- Governorship and ownership (`appointGovernor`, `transferGovernorship` and `relinquish` of
-- typescript/optics-deploy/src/core/index.ts).
use optics_monorepo.Prelude.{
  ℕ, suc, false, ◌≡◌, refl, Option, none, some, ◌++◌, append-nil, Text, text_eq, text_eq_refl, ◌==◌,
  eq_refl, ok, err, failed_check,
}
use optics_monorepo.Deploy.Solidity.Storage.{zero_address, zero_bytes32, transfer_governor_message}
use optics_monorepo.Deploy.Solidity.Governance.{send_to_all}
use optics_monorepo.Deploy.State.{Governor, CoreDeploy, governor_or, configured_governor}
use optics_monorepo.Deploy.Proxies.{Evm, IsLawful}
use optics_monorepo.Deploy.Enroll.{transfer_governorship, appoint, appoint_governor, relinquish}
use optics_monorepo.Deploy.Checks.{check_governor}
use optics_monorepo.Deploy.Laws.Linked.{Links, nth, router_of, deployed, owned}

-- The links after `sent` more transactions and these messages of the home.
abbrev pub sent_more : ℕ → Links → Links
sent_more n k = record k { nonce = n }

module _ (evm : Evm) where
  -- A configured governor is one of the deploy's own domain.
  abbrev pub HasLocalGovernor : CoreDeploy → Type 0
  HasLocalGovernor d = (g : Governor) → d.config.governor ≡ some g → g.domain ≡ d.chain.domain

  abbrev pub appointed : Option Governor → Links → Links
  appointed none k = k
  appointed (some g) k = sent_more (suc k.nonce) k

  appoint-owned :
      (d : CoreDeploy) (k : Links) (o : Option Governor)
      → ((g : Governor) → o ≡ some g → g.domain ≡ d.chain.domain)
      → appoint evm o (owned evm d k) ≡ (
        ok tt,
        deployed evm d d.chain.deployer
            (governor_or o d.chain.deployer)
            d.chain.domain
            (appointed o k),
      )
  unfolding appoint
  appoint-owned d k none h = refl
  appoint-owned d k (some g) h =
      rw (h g refl, text_eq_refl d.chain.deployer, eq_refl d.chain.domain, append-nil k.dispatched)
        refl

  -- The configured governor, or the deployer, governs.
  pub appoint_governor-owned :
      (d : CoreDeploy) (k : Links)
      → HasLocalGovernor d
      → appoint_governor evm (owned evm d k) ≡ (
        ok tt,
        deployed evm d d.chain.deployer
            (configured_governor d)
            d.chain.domain
            (appointed d.config.governor k),
      )
  unfolding appoint_governor
  appoint_governor-owned d k h = appoint-owned d k d.config.governor h

  -- The links once the governor of another deploy has been announced to all remote routers.
  unfoldable pub announced : CoreDeploy → Text → ℕ → Links → Links
  unfolding send_to_all
  announced d governor domain k = record k {
    nonce = suc k.nonce;
    dispatched =
        k.dispatched
        ++ send_to_all k.domains (transfer_governor_message domain governor)
            (router_of evm d zero_address domain k);
  }

  pub transfer_governorship-owned :
      (gov d : CoreDeploy) (governor : Text) (domain : ℕ) (j k : Links)
      → (gov.chain.domain == d.chain.domain) ≡ false
      → text_eq (k.routers gov.chain.domain) zero_bytes32 ≡ false
      → transfer_governorship evm
          (deployed evm gov gov.chain.deployer governor domain j)
          (owned evm d k)
        ≡ (
          ok tt,
          deployed evm d d.chain.deployer zero_address gov.chain.domain
              (announced d governor gov.chain.domain k),
        )
  unfolding transfer_governorship announced
  transfer_governorship-owned gov d governor domain j k apart linked =
      rw (text_eq_refl d.chain.deployer, apart, linked) refl

  -- All contracts of the suite belong to the governance router.
  pub relinquish-deployed :
      IsLawful evm
      → (d : CoreDeploy) (governor : Text) (domain : ℕ) (k : Links)
      → relinquish (deployed evm d d.chain.deployer governor domain k) ≡ (
        ok tt,
        deployed evm d (nth evm d 10) governor domain (sent_more (suc (suc (suc (suc k.nonce)))) k),
      )
  unfolding relinquish text_eq
  relinquish-deployed L d governor domain k =
      rw (text_eq_refl d.chain.deployer, L.nonzero d.chain.deployer 10) refl

  announce :
      (d : CoreDeploy) (k : Links) (g : Governor)
      → (g.domain == d.chain.domain) ≡ false
      → text_eq (k.routers g.domain) zero_bytes32 ≡ false
      → appoint evm (some g) (owned evm d k) ≡ (
        ok tt,
        deployed evm d d.chain.deployer zero_address g.domain (announced d g.address g.domain k),
      )
  unfolding appoint announced
  announce d k g apart linked = rw (text_eq_refl d.chain.deployer, apart, linked) refl

  -- A governor that is configured for another, connected domain is appointed without an error, and
  -- then the check of who governs fails on the governing chain: it has no governor any more.
  pub check_governor-appoint :
      (d : CoreDeploy) (k : Links) (g : Governor)
      → (g.domain == d.chain.domain) ≡ false
      → text_eq (k.routers g.domain) zero_bytes32 ≡ false
      → (final : CoreDeploy) × (appoint evm (some g) (owned evm d k) ≡ (ok tt, final))
        × (check_governor final d.chain.domain ≡ err failed_check)
  unfolding appoint check_governor
  check_governor-appoint d k g apart linked = (
    deployed evm d d.chain.deployer zero_address g.domain (announced d g.address g.domain k),
    announce d k g apart linked,
    rw (eq_refl d.chain.domain, text_eq_refl zero_address) refl,
  )

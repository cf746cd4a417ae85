-- ===== src/Tests/Configured.antt =====
-- The theorem on the configured deployments at one of them.
use optics_monorepo.Prelude.{◌≡◌, ok, arith}
use mathlib.Core.List.Memᴰ.{head, tail}
use optics_monorepo.Prelude.{refl}
use optics_monorepo.Config.Mainnet.{ethereum, celo, mainnet_domains}
use optics_monorepo.Config.Replicas.{configured_replica, configured_replica-exists}
use optics_monorepo.Samples.{toy}

configured_replica-exists_example :
    (c : toy.Contract) × (configured_replica toy mainnet_domains ethereum celo ≡ ok c)
unfolding mainnet_domains ethereum celo
configured_replica-exists_example =
    configured_replica-exists toy mainnet_domains ethereum celo (head refl) (head refl)
      (tail (head refl)) (omega arith)

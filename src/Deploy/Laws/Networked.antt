-- ===== src/Deploy/Laws/Networked.antt =====
-- The networks of a deployment's directory
-- (`getNetworksFromDeploy` of typescript/optics-deploy/src/verification/readDeployOutput.ts).
use optics_monorepo.Prelude.{
  false, ◌≡◌, refl, ap, List, [], ◌∷◌, ◌++◌, map, Text, codes, ◌==◌, ==_sym, All,
}
use optics_monorepo.Deploy.Outputs.{
  DirEntry, contains, before_underscore, contracts_suffix, get_networks_from_deploy,
}

-- A name with no underscore, and no part of the suffix.
abbrev pub NoUnderscore : Text → Type 0
NoUnderscore = All (λ c. (c == b'_') ≡ false)

before_underscore-append :
    (name rest : Text) → NoUnderscore name → before_underscore (name ++ (b'_' ∷ rest)) ≡ name
unfolding before_underscore
before_underscore-append [] rest h = refl
before_underscore-append (c ∷ cs) rest (e, h) =
    rw e (ap (λ t. c ∷ t) (before_underscore-append cs rest h))

-- The suffix starts with an underscore, and so cannot start in the name.
contains-append :
    (name rest : Text)
    → NoUnderscore name
    → contains contracts_suffix (name ++ rest) ≡ contains contracts_suffix rest
unfolding contains
contains-append [] rest h = refl
contains-append (c ∷ cs) rest (e, h) = rw (==_sym b'_' c, e) (contains-append cs rest h)

-- The files of a deployment: three for each chain, and the partial configurations of the agents.
pub data Output : Type 0 where
  config_of contracts_of verification_of : Text → Output
  partial_of : Text → Output

abbrev pub file : Output → Text
file (config_of n) = n ++ codes "_config.json"
file (contracts_of n) = n ++ codes "_contracts.json"
file (verification_of n) = n ++ codes "_verification.json"
file (partial_of n) = n ++ codes "-partial.json"

abbrev pub owner : Output → Text
owner (config_of n) = n
owner (contracts_of n) = n
owner (verification_of n) = n
owner (partial_of n) = n

abbrev pub entry_of : Output → DirEntry
entry_of o = record { name = file o; is_directory = false }

-- The chains whose contracts were written, in the order of the directory.
unfoldable pub with_contracts : List Output → List Text
with_contracts [] = []
with_contracts (contracts_of n ∷ os) = n ∷ with_contracts os
with_contracts (config_of n ∷ os) = with_contracts os
with_contracts (verification_of n ∷ os) = with_contracts os
with_contracts (partial_of n ∷ os) = with_contracts os

-- Of a directory with the files that deployments write, in any order, where no name has an underscore,
-- `getNetworksFromDeploy` returns the chains of the contract files alone, in the same order.
pub get_networks_from_deploy-names :
    (outputs : List Output)
    → All (λ o. NoUnderscore (owner o)) outputs
    → get_networks_from_deploy (map entry_of outputs) ≡ with_contracts outputs
unfolding get_networks_from_deploy with_contracts contains
get_networks_from_deploy-names [] h = refl
get_networks_from_deploy-names (contracts_of n ∷ os) (e, h) =
    rw
      (
        contains-append n (codes "_contracts.json") e,
        before_underscore-append n (codes "contracts.json") e,
      )
      (ap (λ ns. n ∷ ns) (get_networks_from_deploy-names os h))
get_networks_from_deploy-names (config_of n ∷ os) (e, h) =
    rw (contains-append n (codes "_config.json") e) (get_networks_from_deploy-names os h)
get_networks_from_deploy-names (verification_of n ∷ os) (e, h) =
    rw (contains-append n (codes "_verification.json") e) (get_networks_from_deploy-names os h)
get_networks_from_deploy-names (partial_of n ∷ os) (e, h) =
    rw (contains-append n (codes "-partial.json") e) (get_networks_from_deploy-names os h)

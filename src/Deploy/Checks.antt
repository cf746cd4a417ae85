-- ===== src/Deploy/Checks.antt =====
-- The checks of a finished deployment (typescript/optics-deploy/src/core/checks.ts). An assertion that
-- fails is `failed_check`; reading a field of `undefined` is `undefined_contract`.
use optics_monorepo.Prelude.{
  ℕ, Bool, true, false, not, Option, none, some, List, [], ◌∷◌, Text, codes, text_eq, Result, ok,
  err, undefined_contract, failed_check, guard, ◌>>=◌, ◌>>◌, ◌==◌, if◌then◌else◌,
}
use optics_monorepo.Prelude.Exec.{Exec}
use optics_monorepo.Deploy.Solidity.Storage.{zero_address, Replica, GovernanceRouter}
use optics_monorepo.Deploy.State.{
  ContractVerificationInput, BeaconProxy, CoreDeploy, ubc, xapp, updater_manager, governance, home,
  replica,
}

abbrev pub expect : Bool → Result (Unit {0})
expect condition = guard condition failed_check

abbrev pub is_defined : {C : Type 0} → Option C → Bool
is_defined none = false
is_defined (some c) = true

-- `expect(actual).to.equal(expected)`, where `expected` may be `undefined`.
abbrev pub expect_address : Text → Option Text → Result (Unit {0})
expect_address actual none = err failed_check
expect_address actual (some expected) = expect (text_eq actual expected)

-- `verificationInput.filter((contract) => contract.name == name)[0]`
unfoldable pub first_named :
    Text → List ContractVerificationInput → Option ContractVerificationInput
first_named name [] = none
first_named name (c ∷ cs) = if text_eq c.name name then some c else first_named name cs

unfoldable pub check_verification_input :
    List ContractVerificationInput → Text → Text → Result (Unit {0})
unfolding first_named
check_verification_input inputs name addr = elim (first_named name inputs) [
  | none ↦ err undefined_contract
  | some c ↦ expect (text_eq c.address addr)
]

-- The body of the loop over the remote domains. The callback on the watchers is asynchronous and not
-- awaited, so that what it expects does not fail the check. The empty address has 20 bytes.
unfoldable pub check_remote : CoreDeploy → GovernanceRouter → ℕ → Result (Unit {0})
check_remote d g domain = do
  r ← replica d domain
  expect (not (text_eq (g.routers domain) zero_address))
  elim d.contracts.xapp_connection_manager [
    | none ↦ ok tt
    | some x ↦ expect (not (text_eq (x.domain_to_replica domain) zero_address))
  ]

unfoldable pub check_each : {A : Type 0} → List A → (A → Result (Unit {0})) → Result (Unit {0})
check_each [] check = ok tt
check_each (x ∷ xs) check = check x >> check_each xs check

-- Has this replica the implementation and the beacon of the first?
unfoldable pub same_setup : CoreDeploy → BeaconProxy Replica → ℕ → Result (Unit {0})
same_setup d first other = do
  r ← replica d other
  expect (text_eq r.implementation first.implementation)
  expect (text_eq r.beacon first.beacon)

-- The implementation and the beacon of every replica are those of the first.
unfoldable pub check_same_setup : CoreDeploy → List ℕ → Result (Unit {0})
unfolding check_each same_setup
check_same_setup d [] = ok tt
check_same_setup d (domain ∷ domains) = do
  first ← replica d domain
  check_each domains (λ other. same_setup d first other)

-- The three contracts without a proxy are not undefined.
unfoldable pub check_defined : CoreDeploy → Result (Unit {0})
check_defined d = do
  expect (is_defined d.contracts.updater_manager)
  expect (is_defined d.contracts.upgrade_beacon_controller)
  expect (is_defined d.contracts.xapp_connection_manager)

unfoldable pub check_governor : CoreDeploy → ℕ → Result (Unit {0})
check_governor d governor_domain = do
  g ← governance d
  h ← home d
  expect (
      if governor_domain == h.proxy.local_domain
      then not (text_eq g.proxy.governor zero_address)
      else text_eq g.proxy.governor zero_address)
  expect (g.proxy.governor_domain == governor_domain)

unfoldable pub check_ownership : CoreDeploy → Result (Unit {0})
check_ownership d = do
  x ← xapp d
  h ← home d
  m ← updater_manager d
  u ← ubc d
  g ← governance d
  expect (text_eq x.home h.proxy.address)
  expect (text_eq m.owner g.proxy.address)
  expect (text_eq x.owner g.proxy.address)
  expect (text_eq u.owner g.proxy.address)
  expect (text_eq h.proxy.owner g.proxy.address)

unfoldable pub check_inputs : CoreDeploy → Result (Unit {0})
unfolding check_verification_input
check_inputs d = do
  u ← ubc d
  check_verification_input d.verification_input (codes "UpgradeBeaconController") u.address
  x ← xapp d
  check_verification_input d.verification_input (codes "XAppConnectionManager") x.address
  m ← updater_manager d
  check_verification_input d.verification_input (codes "UpdaterManager") m.address
  h ← home d
  check_verification_input d.verification_input (codes "Home Implementation") h.implementation
  check_verification_input d.verification_input (codes "Home UpgradeBeacon") h.beacon
  check_verification_input d.verification_input (codes "Home Proxy") h.proxy.address
  g ← governance d
  check_verification_input d.verification_input (codes "Governance Implementation") g.implementation
  check_verification_input d.verification_input (codes "Governance UpgradeBeacon") g.beacon
  check_verification_input d.verification_input (codes "Governance Proxy") g.proxy.address

unfoldable pub check_replica_inputs : CoreDeploy → List ℕ → Result (Unit {0})
unfolding check_verification_input
check_replica_inputs d [] = ok tt
check_replica_inputs d (domain ∷ domains) = do
  r ← replica d domain
  check_verification_input d.verification_input (codes "Replica Implementation") r.implementation
  check_verification_input d.verification_input (codes "Replica UpgradeBeacon") r.beacon

-- The checks that only read, in their order.
unfoldable pub check_contracts : CoreDeploy → List ℕ → ℕ → Result (Unit {0})
unfolding check_remote check_each check_same_setup check_defined check_governor check_ownership
    check_inputs check_replica_inputs
check_contracts d remote_domains governor_domain = do
  h ← home d
  expect_address h.proxy.updater_manager
      (elim d.contracts.updater_manager [ none ↦ none | some m ↦ some m.address ])
  g ← governance d
  check_each remote_domains (check_remote d g.proxy)
  check_same_setup d remote_domains
  check_defined d
  check_governor d governor_domain
  check_ownership d
  check_inputs d
  check_replica_inputs d remote_domains

-- `proxy.address = ...` in the callback of `find`: an assignment, whose value, a text that is not
-- empty, ends the search at the first entry.
unfoldable pub overwrite_first :
    Text → Text → List ContractVerificationInput → List ContractVerificationInput
overwrite_first name addr [] = []
overwrite_first name addr (c ∷ cs) =
    if text_eq c.name name
    then record c { address = addr } ∷ cs
    else c ∷ overwrite_first name addr cs

abbrev pub replica_proxy_name : Text
replica_proxy_name = codes "Replica Proxy"

-- One round of the last loop. With no entry to find, the round fails.
unfoldable pub find_proxy :
    Exec CoreDeploy (Unit {0}) → Result (BeaconProxy Replica) → Exec CoreDeploy (Unit {0})
unfolding overwrite_first first_named
find_proxy rest (err thrown) d = (err thrown, d)
find_proxy rest (ok r) d =
    let found = first_named replica_proxy_name d.verification_input in
    let marked = record d {
      verification_input = overwrite_first replica_proxy_name r.proxy.address d.verification_input;
    } in
    elim found [ none ↦ (err failed_check, d) | some c ↦ rest marked ]

unfoldable pub find_proxies : List ℕ → Exec CoreDeploy (Unit {0})
unfolding find_proxy
find_proxies [] d = (ok tt, d)
find_proxies (domain ∷ domains) d = find_proxy (find_proxies domains) (replica d domain) d

-- The last loop, once the checks before it have passed.
abbrev pub finish : Result (Unit {0}) → Exec CoreDeploy (Unit {0}) → Exec CoreDeploy (Unit {0})
finish (err thrown) rest d = (err thrown, d)
finish (ok _) rest d = rest d

unfoldable pub check_core_deploy : List ℕ → ℕ → Exec CoreDeploy (Unit {0})
unfolding check_contracts find_proxies
check_core_deploy remote_domains governor_domain d =
    finish (check_contracts d remote_domains governor_domain) (find_proxies remote_domains) d

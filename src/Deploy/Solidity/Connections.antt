-- ===== src/Deploy/Solidity/Connections.antt =====
-- solidity/optics-core/contracts/XAppConnectionManager.sol
use optics_monorepo.Prelude.{ℕ, Bool, Text, Result, ok, ◌>>◌}
use optics_monorepo.Deploy.Solidity.Storage.{
  zero_address, assign, assign_at, only, may_transfer, XAppConnectionManager,
}

unfoldable pub set_home : Text → Text → XAppConnectionManager → Result XAppConnectionManager
set_home sender home x = only sender x.owner >> ok (record x { home = home })

unfoldable pub unenroll_replica : Text → XAppConnectionManager → XAppConnectionManager
unenroll_replica replica x = record x {
  domain_to_replica = assign (x.replica_to_domain replica) zero_address x.domain_to_replica;
  replica_to_domain = assign_at replica 0 x.replica_to_domain;
}

unfoldable pub owner_enroll_replica :
    Text → Text → ℕ → XAppConnectionManager → Result XAppConnectionManager
unfolding unenroll_replica
owner_enroll_replica sender replica domain x =
    only sender x.owner
    >> (let y = unenroll_replica replica x in
        ok (record y {
          replica_to_domain = assign_at replica domain y.replica_to_domain;
          domain_to_replica = assign domain replica y.domain_to_replica;
        }))

unfoldable pub set_watcher_permission :
    Text → Text → ℕ → Bool → XAppConnectionManager → Result XAppConnectionManager
set_watcher_permission sender watcher domain access x =
    only sender x.owner
    >> ok (record x {
      watcher_permissions =
          assign_at watcher (assign domain access (x.watcher_permissions watcher))
            x.watcher_permissions;
    })

unfoldable pub transfer_ownership :
    Text → Text → XAppConnectionManager → Result XAppConnectionManager
transfer_ownership sender new_owner x =
    may_transfer sender x.owner new_owner >> ok (record x { owner = new_owner })

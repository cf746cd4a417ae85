-- ===== src/Deploy/Solidity/Governance.antt =====
-- solidity/optics-core/contracts/governance/GovernanceRouter.sol, with its calls of the home
use optics_monorepo.Prelude.{
  ℕ, Bool, not, ◌&&◌, List, [], ◌∷◌, ◌++◌, Text, text_eq, Result, ok, reverted, guard, ◌>>=◌, ◌>>◌,
  ◌==◌, leb, if◌then◌else◌,
}
use optics_monorepo.Deploy.Solidity.Storage.{
  zero_address, zero_bytes32, assign, only, GovernanceMessage, transfer_governor_message,
  set_router_message, Dispatched, GovernanceRouter,
}

unfoldable pub in_recovery : ℕ → GovernanceRouter → Bool
in_recovery timestamp g = not (g.recovery_active_at == 0) && leb g.recovery_active_at timestamp

unfoldable pub must_have_router : ℕ → GovernanceRouter → Result Text
must_have_router domain g =
    guard (not (text_eq (g.routers domain) zero_bytes32)) reverted >> ok (g.routers domain)

-- `_transferGovernor`, `_isLocalGovernor` being what `is_local` holds.
unfoldable pub assign_governor : ℕ → Text → Bool → GovernanceRouter → Result GovernanceRouter
unfolding must_have_router
assign_governor new_domain new_governor is_local g =
    (if is_local then ok (g.routers new_domain) else must_have_router new_domain g)
    >> ok (record g {
      governor_domain = new_domain;
      governor = if is_local then new_governor else zero_address;
    })

-- The loop of `_sendToAllRemoteRouters`, over the domains that are not deleted.
unfoldable pub send_to_all : List ℕ → GovernanceMessage → GovernanceRouter → List Dispatched
send_to_all [] message g = []
send_to_all (domain ∷ domains) message g =
    let rest = send_to_all domains message g in
    if domain == 0
    then rest
    else record { destination = domain; recipient = g.routers domain; body = message } ∷ rest

-- `transferGovernor`: the router's storage, and what its home dispatches.
unfoldable pub transfer_governor :
    ℕ → Text → ℕ → Text → GovernanceRouter → Result (GovernanceRouter × List Dispatched)
unfolding in_recovery assign_governor send_to_all
transfer_governor timestamp sender new_domain new_governor g =
    only sender g.governor
    >> guard (not (in_recovery timestamp g)) reverted
    >> (let is_local = new_domain == g.local_domain in
        assign_governor new_domain new_governor is_local g >>= λ changed. ok (
          changed,
          if is_local
              then []
              else send_to_all changed.domains (transfer_governor_message new_domain new_governor)
                  changed,
        ))

-- `_removeDomain`: its entry becomes 0.
unfoldable pub remove_domain : ℕ → List ℕ → List ℕ
remove_domain domain [] = []
remove_domain domain (d ∷ ds) =
    let rest = remove_domain domain ds in if d == domain then 0 ∷ ds else d ∷ rest

-- `_setRouter`
unfoldable pub assign_router : ℕ → Text → GovernanceRouter → GovernanceRouter
unfolding remove_domain
assign_router domain new_router g =
    if text_eq new_router zero_bytes32
    then record g {
      routers = assign domain zero_bytes32 g.routers;
      domains = remove_domain domain g.domains;
    }
    else record g {
      domains =
          if text_eq (g.routers domain) zero_bytes32 then g.domains ++ (domain ∷ []) else g.domains;
      routers = assign domain new_router g.routers;
    }

unfoldable pub set_router :
    ℕ → Text → ℕ → Text → GovernanceRouter → Result (GovernanceRouter × List Dispatched)
unfolding in_recovery assign_router send_to_all
set_router timestamp sender domain router g =
    only sender g.governor
    >> guard (not (in_recovery timestamp g)) reverted
    >> (let changed = assign_router domain router g in
        ok (changed, send_to_all changed.domains (set_router_message domain router) changed))

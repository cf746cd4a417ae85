-- ===== src/Deploy/Solidity/Storage.antt =====
-- The storage of the contracts that a deployment calls, and the calls it makes
-- (solidity/optics-core/contracts: XAppConnectionManager.sol, UpdaterManager.sol, Home.sol, Replica.sol,
-- governance/GovernanceRouter.sol). An address is its text, a mapping is a function, a revert is an
-- error, and `sender` is `msg.sender`. Requirements that an address has code are left out, since a
-- deployment passes only addresses of contracts it has deployed before.
use optics_monorepo.Prelude.{
  ℕ, Bool, not, List, ◌++◌, Text, codes, text_eq, Result, reverted, guard, ◌>>◌, ◌==◌,
  if◌then◌else◌, replicate,
}

abbrev pub zero_address : Text
zero_address = codes "0x" ++ replicate 40 b'0'

abbrev pub zero_bytes32 : Text
zero_bytes32 = codes "0x" ++ replicate 64 b'0'

-- A mapping after an assignment, with a number or with a text for its key.
abbrev pub assign {ℓ} : {V : Type ℓ} → ℕ → V → (ℕ → V) → ℕ → V
assign k v f j = if k == j then v else f j

abbrev pub assign_at {ℓ} : {V : Type ℓ} → Text → V → (Text → V) → Text → V
assign_at k v f t = if text_eq k t then v else f t

-- `onlyOwner`, `onlyGovernor`
abbrev pub only : Text → Text → Result (Unit {0})
only sender allowed = guard (text_eq sender allowed) reverted

-- OpenZeppelin's `Ownable`, as far as the deployment relies on it: the owner alone may transfer the
-- ownership, and not to the zero address.
abbrev pub may_transfer : Text → Text → Text → Result (Unit {0})
may_transfer sender owner new_owner =
    only sender owner >> guard (not (text_eq new_owner zero_address)) reverted

pub record UpgradeBeaconController : Type 0 where
  pub address : Text
  pub owner : Text

pub record UpdaterManager : Type 0 where
  pub address : Text
  pub owner : Text
  pub home : Text
  pub updater : Text

-- `watcher_permissions` is indexed by the watcher and the domain.
pub record XAppConnectionManager : Type 0 where
  pub address : Text
  pub owner : Text
  pub home : Text
  pub replica_to_domain : Text → ℕ
  pub domain_to_replica : ℕ → Text
  pub watcher_permissions : Text → ℕ → Bool

-- What the governance router has the home dispatch: `formatTransferGovernor`, `formatSetRouter`.
pub data GovernanceMessage : Type 0 where
  transfer_governor_message : (domain : ℕ) (governor : Text) → GovernanceMessage
  set_router_message : (domain : ℕ) (router : Text) → GovernanceMessage

pub record Dispatched : Type 0 where
  pub destination : ℕ
  pub recipient : Text
  pub body : GovernanceMessage

-- Of the home's queue and tree, the messages in the order of their dispatch.
pub record Home : Type 0 where
  pub address : Text
  pub local_domain : ℕ
  pub owner : Text
  pub updater_manager : Text
  pub updater : Text
  pub dispatched : List Dispatched

pub record Replica : Type 0 where
  pub address : Text
  pub remote_domain : ℕ
  pub updater : Text
  pub committed_root : Text
  pub optimistic_seconds : ℕ

pub record GovernanceRouter : Type 0 where
  pub address : Text
  pub local_domain : ℕ
  pub recovery_timelock : ℕ
  pub recovery_active_at : ℕ
  pub recovery_manager : Text
  pub governor : Text
  pub governor_domain : ℕ
  pub xapp_connection_manager : Text
  pub routers : ℕ → Text
  pub domains : List ℕ

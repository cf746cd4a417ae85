-- ===== src/Context/State.antt =====
-- The fields of an `OpticsContext`: those of `MultiProvider` and its own. A `MultiProvider` alone
-- has no contracts.
use optics_monorepo.Prelude.{ℕ, Option, Text}
use optics_monorepo.Prelude.Map.{Map}
use optics_monorepo.Prelude.Exec.{Exec}
use optics_monorepo.Context.Ethers.{Ethers}
use optics_monorepo.Context.Contracts.{CoreContracts, BridgeContracts}

-- typescript/optics-provider/src/domains.ts
pub record Pagination : Type 0 where
  pub blocks : ℕ
  pub from : ℕ

pub record Domain : Type 0 where
  pub id : ℕ
  pub name : Text
  pub paginate : Option Pagination

pub record Context (E : Ethers) : Type 0 where
  pub domains : Map Domain
  pub providers : Map E.Provider
  pub signers : Map E.Signer
  pub cores : Map (CoreContracts E)
  pub bridges : Map (BridgeContracts E)

-- A method that returns nothing, or throws.
abbrev pub Method : Ethers → Type 0
Method E = Exec (Context E) (Unit {0})

-- ===== src/Events/Chain.antt =====
-- What the program asks of the chains through `ethers` and the generated contract bindings, as a
-- parameter: one value is what the chains answer at one moment.
use optics_monorepo.Prelude.{ℕ, Option, List, Text, Result}
use optics_monorepo.Context.Ethers.{Ethers}
use optics_monorepo.Messages.Ids.{BytesLike}
use optics_monorepo.Events.Annotated.{Event, UpdateArgs, ProcessArgs, DispatchArgs, Receipt, Log}

-- What `parseLog` of the home's interface makes of a log.
pub data LogDescription : Type 0 where
  dispatch : DispatchArgs → LogDescription
  other : Text → LogDescription

-- `queryFilter(filter, from, to)` of one contract and one filter.
abbrev pub Query : Type 0 → Type 0
Query A = Option ℕ → Option ℕ → Result (List (Event A))

-- The transactions that the program submits: `approve(spender, amount)` of a token,
-- `send(token, amount, domain, recipient)` of a bridge router, and `sendToEVMLike(domain, recipient)`
-- of a helper with a value.
pub data Transaction (E : Ethers) : Type 0 where
  approve : E.Contract → Text → ℕ → Transaction E
  send : E.Contract → Text → ℕ → ℕ → List ℕ → Transaction E
  send_to_evm_like : E.Contract → ℕ → Text → ℕ → Transaction E

pub record Chain (E : Ethers) : Type 0 where
  pub get_block_number : E.Provider → Result ℕ
  pub get_transaction_receipt : E.Provider → Text → Result (Option Receipt)
  pub parse_log : Log → Result LogDescription
  -- The queries with the filters `Update(undefined, root)` and `Process(leaf)`.
  pub updates : E.Contract → Text → Query UpdateArgs
  pub processes : E.Contract → Text → Query ProcessArgs
  -- Views of the replica and of the bridge router.
  pub confirm_at : E.Contract → Text → Result ℕ
  pub messages : E.Contract → Text → Result ℕ
  pub liquidity_provider : E.Contract → Text → Result Text
  pub get_local_address : E.Contract → ℕ → BytesLike → Result Text
  pub representation_to_canonical : E.Contract → Text → Result (ℕ × Text)
  pub allowance : E.Contract → Text → Text → Result ℕ
  -- What a transaction comes to once it is mined.
  pub transact : Transaction E → Result Receipt

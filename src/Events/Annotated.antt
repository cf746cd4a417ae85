-- ===== src/Events/Annotated.antt =====
-- The events of typescript/optics-provider/src/optics/events/opticsEvents.ts, with the class
-- `Annotated` that pairs an event with its domain and receipt.
use optics_monorepo.Prelude.{
  ℕ, Bool, true, false, Option, none, some, List, [], ◌∷◌, Text, Result, ok, err,
  direct_instantiation, missing_log, ◌>>=◌, traverse, ◌==◌, if◌then◌else◌,
}

pub record DispatchArgs : Type 0 where
  pub message_hash : Text
  pub leaf_index : ℕ
  pub destination_and_nonce : ℕ
  pub committed_root : Text
  pub message : Text

pub record UpdateArgs : Type 0 where
  pub home_domain : ℕ
  pub old_root : Text
  pub new_root : Text
  pub signature : Text

pub record ProcessArgs : Type 0 where
  pub message_hash : Text
  pub success : Bool
  pub return_data : Text

-- What the program reads of `ethers`' logs and receipts.
pub record Log : Type 0 where
  pub log_index : ℕ
  pub address : Text
  pub transaction_hash : Text
  pub topics : List Text
  pub data_field : Text

pub record Receipt : Type 0 where
  pub transaction_hash : Text
  pub block_number : ℕ
  pub block_hash : Text
  pub logs : List Log

-- `TypedEvent`. A `LogDescription` that is cast to one has no log index, no transaction hash and
-- no signature. `get_receipt` is what `getTransactionReceipt()` resolves to.
pub record Event (A : Type 0) : Type 0 where
  pub args : A
  pub block_number : ℕ
  pub log_index : Option ℕ
  pub transaction_hash : Option Text
  pub event_signature : Option Text
  pub get_receipt : Result Receipt

-- `split('(')[0]`
abbrev before_paren : Text → Text
before_paren [] = []
before_paren (c ∷ s) = let rest = before_paren s in if c == 40 then [] else c ∷ rest

abbrev find_log : Option ℕ → List Log → Option Log
find_log none logs = none
find_log (some i) [] = none
find_log (some i) (l ∷ ls) =
    let rest = find_log (some i) ls in if l.log_index == i then some l else rest

abbrev log_address : Option Log → Result Text
log_address none = err missing_log
log_address (some l) = elim l.address [ [] ↦ err missing_log | (c ∷ s) ↦ ok (c ∷ s) ]

pub record Annotated (A : Type 0) : Type 0 where
  pub domain : ℕ
  pub event_name : Option Text
  pub event : Event A
  pub receipt : Receipt

module _ {A : Type 0} where
  unfoldable pub new_annotated : ℕ → Receipt → Event A → Bool → Result (Annotated A)
  new_annotated domain receipt event false = err direct_instantiation
  new_annotated domain receipt event true = ok (record {
    domain = domain;
    event_name = elim event.event_signature [ none ↦ none | some (s) ↦ some (before_paren s) ];
    event = event;
    receipt = receipt;
  })

  unfoldable pub from_event : ℕ → Event A → Result (Annotated A)
  unfolding new_annotated
  from_event domain event = do receipt ← event.get_receipt; new_annotated domain receipt event true

  unfoldable pub from_events : ℕ → List (Event A) → Result (List (Annotated A))
  from_events domain events = traverse (from_event domain) events

  unfoldable pub contract_address : Annotated A → Result Text
  contract_address a = log_address (find_log a.event.log_index a.receipt.logs)

  unfoldable pub transaction_hash : Annotated A → Text
  transaction_hash a = a.receipt.transaction_hash

  unfoldable pub block_number : Annotated A → ℕ
  block_number a = a.receipt.block_number

  unfoldable pub block_hash : Annotated A → Text
  block_hash a = a.receipt.block_hash

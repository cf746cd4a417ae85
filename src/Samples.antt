-- ===== src/Samples.antt =====
-- Concrete data for the tests: a toy `ethers`, a context with two domains, and a chain. A provider
-- is a number, a signer the provider it is connected to, and a contract its address and its runner.
pub mod Fleets
use optics_monorepo.Prelude.{
  ℕ, Bool, true, ◌&&◌, Option, none, some, List, [], ◌∷◌, ◌++◌, Text, codes, Result, ok, err,
  external, refl, filter, leb, ◌==◌, if◌then◌else◌, length, replicate,
}
use optics_monorepo.Context.Ethers.{Ethers, IsLawful, Connection, signer}
use optics_monorepo.Context.State.{Context, Domain}
use optics_monorepo.Context.Contracts.{CoreContracts, BridgeContracts}
use optics_monorepo.Events.Annotated.{Event, DispatchArgs, UpdateArgs, Receipt, Log}
use optics_monorepo.Events.Chain.{Chain, dispatch}

abbrev runner_of : Option (Option ℕ) → Option (Connection ℕ (Option ℕ))
runner_of none = none
runner_of (some x) = some (signer x)

abbrev pub toy : Ethers
toy = record {
  Provider = ℕ;
  Signer = Option ℕ;
  Contract = Text × Option (Connection ℕ (Option ℕ));
  provider_of = λ x. x;
  connect_signer = λ x p. some (some p);
  address_of = λ x. codes "0x52";
  json_rpc_provider = λ rpc. length rpc;
  wallet = λ key. none;
  attach = λ x a. (a, runner_of x);
  address = λ c. c.0;
  connect = λ c x. (c.0, some x);
  runner = λ c. c.1;
}

pub toy-IsLawful : IsLawful toy
toy-IsLawful = record {
  connect_signer-provider = λ s t p e. cc;
  address-attach = λ s a. refl;
  address-connect = λ c x. refl;
  runner-connect = λ c x. refl;
}

abbrev pub celo : Domain
celo = record { id = 7; name = codes "celo"; paginate = none }

abbrev pub polygon : Domain
polygon = record {
  id = 9;
  name = codes "polygon";
  paginate = some (record { blocks = 10; from = 100 });
}

abbrev contract : Text → toy.Contract
contract a = (a, none)

abbrev pub core_of : ℕ → ℕ → CoreContracts toy
core_of d r = record {
  domain = d;
  home = contract (codes "0x11");
  replicas = (r, record { domain = r; contract = contract (codes "0x22") }) ∷ [];
}

abbrev pub bridge_of : ℕ → BridgeContracts toy
bridge_of d = record { domain = d; bridge_router = contract (codes "0x33"); eth_helper = none }

abbrev pub cores : List (CoreContracts toy)
cores = core_of 7 9 ∷ core_of 9 7 ∷ []

abbrev pub bridges : List (BridgeContracts toy)
bridges = bridge_of 7 ∷ bridge_of 9 ∷ []

abbrev pub fresh : Context toy
fresh = record {
  domains = (7, celo) ∷ (9, polygon) ∷ [];
  providers = [];
  signers = [];
  cores = (7, core_of 7 9) ∷ (9, core_of 9 7) ∷ [];
  bridges = (7, bridge_of 7) ∷ (9, bridge_of 9) ∷ [];
}

-- Both domains have a provider, and the first has a signer that is connected to it.
abbrev pub ready : Context toy
ready = record fresh { providers = (7, 70) ∷ (9, 90) ∷ []; signers = (7, some 70) ∷ [] }

abbrev pub receipt_of : List Log → Receipt
receipt_of logs = record {
  transaction_hash = codes "0x99";
  block_number = 120;
  block_hash = codes "0x98";
  logs = logs;
}

abbrev pub update_at : ℕ → Event UpdateArgs
update_at b = record {
  args = record {
    home_domain = 7;
    old_root = codes "0x01";
    new_root = codes "0x02";
    signature = codes "0x03";
  };
  block_number = b;
  log_index = some 0;
  transaction_hash = some (codes "0x99");
  event_signature = some (codes "Update(uint32,bytes32,bytes32,bytes)");
  get_receipt = ok (receipt_of []);
}

-- The updates of a contract, of which one stands at the end of a page.
abbrev pub update_log : List (Event UpdateArgs)
update_log = update_at 105 ∷ update_at 110 ∷ []

abbrev at_least : Option ℕ → ℕ → Bool
at_least none b = true
at_least (some from) b = leb from b

abbrev at_most : Option ℕ → ℕ → Bool
at_most none b = true
at_most (some to) b = leb b to

abbrev pub update_query : Option ℕ → Option ℕ → Result (List (Event UpdateArgs))
update_query from to = ok (
    filter (λ (e : Event UpdateArgs). at_least from e.block_number && at_most to e.block_number)
      update_log)

-- A chain at block 120 on which one log is a dispatch, and a token is known everywhere.
abbrev pub chain_of : DispatchArgs → ℕ → List (Event UpdateArgs) → Chain toy
chain_of args status updates = record {
  get_block_number = λ p. ok 120;
  get_transaction_receipt = λ p h. ok none;
  parse_log = λ l. if l.log_index == 1 then ok (dispatch args) else err external;
  updates = λ c root from to. ok updates;
  processes = λ c leaf from to. ok [];
  confirm_at = λ c root. ok 5;
  messages = λ c leaf. ok status;
  liquidity_provider = λ c id. ok (codes "0x");
  get_local_address = λ c d id. ok (codes "0x" ++ replicate 40 b'4');
  representation_to_canonical = λ c a. ok (0, codes "0x");
  allowance = λ t o r. ok 5;
  transact = λ tx. ok (receipt_of []);
}

abbrev pub log_at : ℕ → Log
log_at i = record {
  log_index = i;
  address = codes "0x44";
  transaction_hash = codes "0x99";
  topics = [];
  data_field = [];
}

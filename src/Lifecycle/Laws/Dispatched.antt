-- ===== src/Lifecycle/Laws/Dispatched.antt =====
-- What `fromReceipt` and `singleFromReceipt` find in a receipt
-- (typescript/optics-provider/src/optics/messages/OpticsMessage.ts).
use optics_monorepo.Prelude.{
  ◌≡◌, refl, Option, none, some, List, [], ◌∷◌, Result, ok, err, subst, ok-eq-ok, >>=-eq-ok, All,
}
use optics_monorepo.Wire.Hex.{HexLib}
use optics_monorepo.Context.Ethers.{Ethers}
use optics_monorepo.Context.State.{Context}
use optics_monorepo.Context.Contracts.{CoreContracts}
use optics_monorepo.Context.Domains.{resolve_domain}
use optics_monorepo.Context.Optics.{must_get_core, must_get_replica_for}
use optics_monorepo.Messages.Bridge.{NameOrDomain, number}
use optics_monorepo.Messages.Optics.{parse_message}
use optics_monorepo.Events.Annotated.{Annotated, DispatchArgs, Receipt, Log, new_annotated}
use optics_monorepo.Events.Chain.{Chain, LogDescription, dispatch, other}
use optics_monorepo.Lifecycle.Message.{OpticsMessage, new_message, empty_cache}
use optics_monorepo.Lifecycle.Receipts.{
  push, described, message_of_log, messages_of_logs, from_receipt,
}

module _ {E : Ethers} (H : HexLib) (C : Chain E) (nod : NameOrDomain) (s : Context E) where
  -- A message as the constructor builds it from a dispatch in the receipt.
  pub record IsBuilt (receipt : Receipt) (m : OpticsMessage E) : Type 0 where
    pub of_receipt : m.dispatch.receipt ≡ receipt
    pub domain : resolve_domain nod s ≡ ok m.dispatch.domain
    pub parsed : parse_message H m.dispatch.event.args.message ≡ ok m.message
    pub core : CoreContracts E
    pub found : must_get_core E (number m.message.from) s ≡ ok core
    pub home : m.home ≡ core.home
    pub replica :
        must_get_replica_for E (number m.message.from) (number m.message.destination) s
        ≡ ok m.replica
    pub fresh : m.cache ≡ empty_cache

  new_message-IsBuilt :
      (receipt : Receipt) (a : Annotated DispatchArgs) (m : OpticsMessage E)
      → a.receipt ≡ receipt
      → resolve_domain nod s ≡ ok a.domain
      → new_message H a s ≡ ok m
      → IsBuilt receipt m
  unfolding new_message
  new_message-IsBuilt receipt a m of_receipt domain e =
      let (parsed, parses, e1) = >>=-eq-ok (parse_message H a.event.args.message) _ e in
      let (core, found, e2) = >>=-eq-ok (must_get_core E (number parsed.from) s) _ e1 in
      let (replica, found', e3) =
        >>=-eq-ok (must_get_replica_for E (number parsed.from) (number parsed.destination) s) _
          e2 in
      subst (IsBuilt receipt) (ok-eq-ok e3) (record {
        of_receipt = of_receipt;
        domain = domain;
        parsed = parses;
        core = core;
        found = found;
        home = refl;
        replica = found';
        fresh = refl;
      })

  described-IsBuilt :
      (receipt : Receipt) (log : Log) (parsed : LogDescription) (m : OpticsMessage E)
      → described H C nod s receipt log parsed ≡ ok (some m)
      → IsBuilt receipt m
  unfolding described new_annotated
  described-IsBuilt receipt log (other n) m e = absurd cc
  described-IsBuilt receipt log (dispatch args) m e =
      let (domain, resolved, e1) = >>=-eq-ok (resolve_domain nod s) _ e in
      let (message, built, e2) = >>=-eq-ok (new_message H _ s) _ e1 in
      let same : message ≡ m = cc in
      subst (IsBuilt receipt) same (new_message-IsBuilt receipt _ message refl resolved built)

  push-IsBuilt :
      (receipt : Receipt) (log : Log) (rest : List (OpticsMessage E))
      (r : Result (Option (OpticsMessage E)))
      → message_of_log H C nod s receipt log ≡ r
      → All (IsBuilt receipt) rest
      → All (IsBuilt receipt) (push r rest)
  unfolding message_of_log
  push-IsBuilt receipt log rest (ok (some m)) e h =
      let (parsed, _, e') = >>=-eq-ok (C.parse_log log) _ e in
      (described-IsBuilt receipt log parsed m e', h)
  push-IsBuilt receipt log rest (ok none) e h = h
  push-IsBuilt receipt log rest (err x) e h = h

  messages_of_logs-IsBuilt :
      (receipt : Receipt) (logs : List Log)
      → All (IsBuilt receipt) (messages_of_logs H C nod s receipt logs)
  unfolding messages_of_logs
  messages_of_logs-IsBuilt receipt [] = tt
  messages_of_logs-IsBuilt receipt (log ∷ logs) =
      push-IsBuilt receipt log (messages_of_logs H C nod s receipt logs) _ refl
        (messages_of_logs-IsBuilt receipt logs)

  -- Every message that `fromReceipt` returns carries the receipt and the domain it was asked for, the
  -- message parsed from its own dispatch event, the home of the message's origin, and the replica of
  -- that origin on the message's destination; its cache is empty.
  pub from_receipt-IsBuilt :
      (receipt : Receipt) → All (IsBuilt receipt) (from_receipt H C nod s receipt)
  unfolding from_receipt
  from_receipt-IsBuilt receipt = messages_of_logs-IsBuilt receipt receipt.logs

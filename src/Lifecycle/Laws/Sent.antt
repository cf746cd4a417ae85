-- ===== src/Lifecycle/Laws/Sent.antt =====
-- A message from its formatting to `singleFromReceipt`
-- (typescript/optics-provider/src/optics/messages/OpticsMessage.ts, typescript/optics-tests/lib/core.ts).
use optics_monorepo.Prelude.{
  ℕ, ◌^◌, ◌≤◌, ◌<◌, ◌≡◌, refl, ap, ◌∙◌, none, List, [], ◌∷◌, ◌++◌, Text, ok, err, Error, All,
  length,
}
use optics_monorepo.Wire.Hex.{HexLib, IsLawful}
use optics_monorepo.Context.Ethers.{Ethers}
use optics_monorepo.Context.State.{Context}
use optics_monorepo.Context.Contracts.{CoreContracts}
use optics_monorepo.Context.Domains.{resolve_domain}
use optics_monorepo.Context.Optics.{must_get_core, must_get_replica_for}
use optics_monorepo.Messages.Bridge.{NameOrDomain, number}
use optics_monorepo.Messages.Optics.{ParsedMessage, parse_message, format_message}
use optics_monorepo.Messages.OpticsRoundTrip.{padded, parse_message-format_message}
use optics_monorepo.Events.Annotated.{DispatchArgs, Receipt, Log, new_annotated}
use optics_monorepo.Events.Chain.{Chain, dispatch, other}
use optics_monorepo.Lifecycle.Message.{OpticsMessage, new_message, empty_cache}
use optics_monorepo.Lifecycle.Receipts.{
  exactly_one, described, message_of_log, messages_of_logs, from_receipt, single_from_receipt,
  dispatch_event,
}

module _ {E : Ethers} (C : Chain E) where
  -- A log that the home's interface cannot parse, or of another event.
  pub data IsForeign (log : Log) : Type 0 where
    unparsed : (e : Error) → C.parse_log log ≡ err e → IsForeign log
    event_of : (n : Text) → C.parse_log log ≡ ok (other n) → IsForeign log

  abbrev pub AreForeign : List Log → Type 0
  AreForeign = All IsForeign

module _ {E : Ethers} (H : HexLib) (C : Chain E) (nod : NameOrDomain) (s : Context E)
    (receipt : Receipt) where
  foreign-skip :
      (log : Log) (logs : List Log)
      → IsForeign C log
      → messages_of_logs H C nod s receipt (log ∷ logs) ≡ messages_of_logs H C nod s receipt logs
  unfolding messages_of_logs message_of_log described
  foreign-skip log logs (unparsed e h) = rw h refl
  foreign-skip log logs (event_of n h) = rw h refl

  messages_of_logs-foreign :
      (pre logs : List Log)
      → AreForeign C pre
      → messages_of_logs H C nod s receipt (pre ++ logs) ≡ messages_of_logs H C nod s receipt logs
  messages_of_logs-foreign [] logs h = refl
  messages_of_logs-foreign (log ∷ pre) logs (f, h) =
      foreign-skip log (pre ++ logs) f ∙ messages_of_logs-foreign pre logs h

  messages_of_logs-none :
      (logs : List Log) → AreForeign C logs → messages_of_logs H C nod s receipt logs ≡ []
  unfolding messages_of_logs
  messages_of_logs-none [] h = refl
  messages_of_logs-none (log ∷ logs) (f, h) = foreign-skip log logs f ∙ messages_of_logs-none logs h

  -- What `singleFromReceipt` returns for a message: its contents, the receipt, the home and the
  -- replica.
  pub record Finds (contents : ParsedMessage) (h r : E.Contract) : Type 0 where
    pub message : OpticsMessage E
    pub single : single_from_receipt H C nod s receipt ≡ ok message
    pub parsed : message.message ≡ contents
    pub of_receipt : message.dispatch.receipt ≡ receipt
    pub home : message.home ≡ h
    pub replica : message.replica ≡ r

  abbrev built : Log → DispatchArgs → ParsedMessage → ℕ → E.Contract → E.Contract → OpticsMessage E
  built log args contents domain h r = record {
    dispatch = record {
      domain = domain;
      event_name = none;
      event = dispatch_event H C nod s receipt log args;
      receipt = receipt;
    };
    message = contents;
    home = h;
    replica = r;
    cache = empty_cache;
  }

  found_after :
      (log : Log) (post : List Log) (args : DispatchArgs) (contents : ParsedMessage) (domain : ℕ)
      (core : CoreContracts E) (replica : E.Contract)
      → AreForeign C post
      → C.parse_log log ≡ ok (dispatch args)
      → parse_message H args.message ≡ ok contents
      → resolve_domain nod s ≡ ok domain
      → must_get_core E (number contents.from) s ≡ ok core
      → must_get_replica_for E (number contents.from) (number contents.destination) s ≡ ok replica
      → messages_of_logs H C nod s receipt (log ∷ post)
        ≡ built log args contents domain core.home replica ∷ []
  unfolding messages_of_logs message_of_log described new_annotated new_message
  found_after log post args contents domain core replica after event parses resolved cored
        replicated =
      rw (event, resolved, parses, cored, replicated, messages_of_logs-none post after) refl

  single-Finds :
      (pre post : List Log) (log : Log) (args : DispatchArgs) (contents : ParsedMessage)
      (domain : ℕ) (core : CoreContracts E) (replica : E.Contract)
      → receipt.logs ≡ pre ++ (log ∷ post)
      → AreForeign C pre
      → AreForeign C post
      → C.parse_log log ≡ ok (dispatch args)
      → parse_message H args.message ≡ ok contents
      → resolve_domain nod s ≡ ok domain
      → must_get_core E (number contents.from) s ≡ ok core
      → must_get_replica_for E (number contents.from) (number contents.destination) s ≡ ok replica
      → Finds contents core.home replica
  unfolding single_from_receipt from_receipt
  single-Finds pre post log args contents domain core replica logs before after event parses
        resolved cored replicated =
      record {
        message = built log args contents domain core.home replica;
        single = ap exactly_one (
            ap (λ ls. messages_of_logs H C nod s receipt ls) logs
            ∙ messages_of_logs-foreign pre (log ∷ post) before
            ∙ found_after log post args contents domain core replica after event parses resolved
                cored replicated);
        parsed = refl;
        of_receipt = refl;
        home = refl;
        replica = refl;
      }

  -- A message that is formatted for 32-bit domains and nonce, and dispatched in a receipt whose other
  -- logs are none of the home's dispatches, is what `singleFromReceipt` returns: with the numbers it
  -- was formatted from, the addresses padded to 32 bytes, the body, the home of its origin, and the
  -- replica of its origin on its destination, if the context has these.
  pub single_from_receipt-format_message :
      (L : IsLawful H) (pre post : List Log) (log : Log) (args : DispatchArgs) (domain o n d : ℕ)
      (sender recipient body : Text) {xs ys zs : List ℕ} (core : CoreContracts E)
      (replica : E.Contract)
      → o < 2 ^ 32
      → n < 2 ^ 32
      → d < 2 ^ 32
      → H.arrayify sender ≡ ok xs
      → H.arrayify recipient ≡ ok ys
      → H.arrayify body ≡ ok zs
      → length xs ≤ 32
      → length ys ≤ 32
      → format_message H o sender n d recipient body ≡ ok args.message
      → receipt.logs ≡ pre ++ (log ∷ post)
      → AreForeign C pre
      → AreForeign C post
      → C.parse_log log ≡ ok (dispatch args)
      → resolve_domain nod s ≡ ok domain
      → must_get_core E (number o) s ≡ ok core
      → must_get_replica_for E (number o) (number d) s ≡ ok replica
      → Finds
          (record {
            from = o;
            sender = H.hexlify (padded xs);
            nonce = n;
            destination = d;
            recipient = H.hexlify (padded ys);
            body = H.hexlify zs;
          })
          core.home
          replica
  single_from_receipt-format_message L pre post log args domain o n d sender recipient body {xs}
        {ys} core replica ho hn hd hs hr hb ls lr formatted logs before after event resolved cored
        replicated =
      let round =
        parse_message-format_message H L o n d sender recipient body ho hn hd hs hr hb ls lr in
      single-Finds pre post log args _ domain core replica logs before after event
        (rw formatted at round) resolved cored replicated

-- ===== src/Tests/Queries.antt =====
-- The theorems on event queries and on the life cycle of a message at concrete inputs.
use optics_monorepo.Prelude.{
  ℕ, ◌*◌, ◌-◌, ◌≡◌, ◌↔◌, refl, Bool, true, none, some, List, [], ◌∷◌, codes, ok, err, out_of_fuel,
  arith, if◌then◌else◌,
}
use optics_monorepo.Prelude.Map
use optics_monorepo.Context.Domains.{must_get_domain, get_domain, resolve_domain}
use optics_monorepo.Context.MultiProvider.{must_get_provider, get_provider}
use optics_monorepo.Messages.Bridge.{number}
use optics_monorepo.Events.Annotated.{
  Annotated, Event, UpdateArgs, DispatchArgs, from_events, from_event, new_annotated,
}
use optics_monorepo.Events.Chain.{Chain}
use optics_monorepo.Events.Fetch.{
  get_events, events_of, last_block, page_bounds, query_annotated_events,
}
use optics_monorepo.Events.Coverage.{count, in_block, expected, within}
use optics_monorepo.Events.Paging.{get_events-count, page_bounds-zero}
use optics_monorepo.Lifecycle.Message.{OpticsMessage, empty_cache}
use optics_monorepo.Lifecycle.Status
use optics_monorepo.Lifecycle.Status.{
  OpticsStatus, events, get_home_update, get_replica_update, get_event, remember, after_home,
  after_replica, wait, delivered, replica_status,
}
use optics_monorepo.Lifecycle.Laws.Answered.{events-listed}
use optics_monorepo.Lifecycle.Laws.Progress.{report_of, Grows, report}
use optics_monorepo.Lifecycle.Laws.Reports.{events-report}
use optics_monorepo.Lifecycle.Laws.History.{IsLater, confirm_at, events-IsLater}
use optics_monorepo.Lifecycle.Laws.Polling.{ProcessedAt, wait_iff}
use optics_monorepo.Samples.{
  toy, ready, polygon, chain_of, update_at, update_log, update_query, receipt_of,
}

abbrev args : DispatchArgs
args = record {
  message_hash = codes "0x05";
  leaf_index = 0;
  destination_and_nonce = 0;
  committed_root = codes "0x01";
  message = codes "0x";
}

abbrev quiet : Chain toy
quiet = chain_of args 0 []

abbrev updated : Chain toy
updated = chain_of args 0 (update_at 110 ∷ [])

abbrev any_event : Event UpdateArgs → Bool
any_event e = true

-- The event at block 110, the end of the first page, comes twice.
get_events-count_example :
    (es : List (Event UpdateArgs)) × (get_events quiet 30 update_query none none (number 9) ready
      ≡ ok es)
    × (count (in_block 110 any_event) es ≡ (
        if within 100 120 110
        then expected (110 - 100) 10 * count (in_block 110 any_event) update_log
        else 0))
unfolding must_get_domain get_domain resolve_domain Map.get last_block must_get_provider
    get_provider
get_events-count_example =
    get_events-count quiet update_query none none 30 (number 9) ready polygon
      (record { blocks = 10; from = 100 }) 120 110 update_log any_event refl refl refl (omega arith)
      (omega arith) (λ from to. refl)

page_bounds-zero_example : page_bounds 50 3 8 0 ≡ err out_of_fuel
page_bounds-zero_example = page_bounds-zero 50 3 8 (omega arith)

abbrev sent : OpticsMessage toy
sent = record {
  dispatch = record {
    domain = 7;
    event_name = none;
    event = record {
      args = args;
      block_number = 100;
      log_index = none;
      transaction_hash = none;
      event_signature = none;
      get_receipt = ok (receipt_of []);
    };
    receipt = receipt_of [];
  };
  message = record {
    from = 7;
    sender = codes "0x";
    nonce = 0;
    destination = 7;
    recipient = codes "0x";
    body = codes "0x";
  };
  home = (codes "0x11", none);
  replica = (codes "0x22", none);
  cache = empty_cache;
}

-- The first call finds no update, the second one finds it at home.
events-IsLater_example : IsLater (report sent) (report (events 30 ready updated quiet quiet sent).1)
unfolding events get_home_update get_replica_update get_event remember after_home after_replica
    query_annotated_events get_events events_of must_get_domain get_domain resolve_domain Map.get
    from_events from_event new_annotated Status.confirm_at
events-IsLater_example =
    events-IsLater 30 ready ready quiet quiet quiet updated quiet quiet sent
      (confirm_at ready quiet quiet ∷ []) (report sent) _ refl refl

events-report_example :
    (report sent ≡ report (events 30 ready quiet quiet quiet sent).1)
    × Grows sent (events 30 ready quiet quiet quiet sent).1
unfolding events get_home_update get_event remember after_home query_annotated_events get_events
    events_of must_get_domain get_domain resolve_domain Map.get from_events
events-report_example = events-report 30 ready quiet quiet quiet sent (report sent) refl

abbrev processed_at_two : ℕ → Chain toy
processed_at_two n = if within 2 9 n then chain_of args 2 [] else chain_of args 1 []

wait_iff_example : (wait 5 processed_at_two sent ≡ ok 2) ↔ ProcessedAt sent processed_at_two 2
wait_iff_example = wait_iff sent 5 2 processed_at_two (omega arith)

abbrev found_update : Annotated UpdateArgs
found_update = record {
  domain = 7;
  event_name = some (codes "Update");
  event = update_at 110;
  receipt = receipt_of [];
}

events-listed_example :
    (events 30 ready updated quiet quiet sent).0
    ≡ ok (report_of sent.dispatch (some found_update) none none)
unfolding query_annotated_events get_events events_of must_get_domain get_domain resolve_domain
    Map.get from_events from_event new_annotated
events-listed_example =
    events-listed 30 ready sent refl updated quiet quiet (some found_update) none none refl refl
      refl

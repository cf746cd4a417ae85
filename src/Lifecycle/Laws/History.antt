-- ===== src/Lifecycle/Laws/History.antt =====
-- Sequences of calls on one message (typescript/optics-provider/src/optics/messages/OpticsMessage.ts).
use optics_monorepo.Prelude.{ℕ, ◌≤◌, ◌≡◌, refl, Option, none, some, List, [], ◌∷◌, ◌++◌, ok, arith}
use optics_monorepo.Context.Ethers.{Ethers}
use optics_monorepo.Context.State.{Context}
use optics_monorepo.Events.Annotated.{Annotated, DispatchArgs, UpdateArgs, ProcessArgs}
use optics_monorepo.Events.Chain.{Chain}
use optics_monorepo.Lifecycle.Message.{OpticsMessage}
use optics_monorepo.Lifecycle.Status
use optics_monorepo.Lifecycle.Status.{LifecycleEvent, OpticsStatus, status_code}
use optics_monorepo.Lifecycle.Laws.Progress.{Grows, Grows-refl, Grows-trans, report_of}
use optics_monorepo.Lifecycle.Laws.Reports.{
  get_home_update-Reads, get_replica_update-Reads, get_process-Reads, events-Reports,
  confirm_at-Grows,
}

-- A call, with the context it finds and the chains its awaits see.
pub data Call (E : Ethers) : Type 0 where
  get_home_update get_replica_update get_process : Context E → Chain E → Call E
  events : Context E → Chain E → Chain E → Chain E → Call E
  confirm_at : Context E → Chain E → Chain E → Call E

module _ {E : Ethers} (fuel : ℕ) where
  abbrev pub run : Call E → OpticsMessage E → OpticsMessage E
  run (get_home_update s C) m = (Status.get_home_update fuel s C m).1
  run (get_replica_update s C) m = (Status.get_replica_update fuel s C m).1
  run (get_process s C) m = (Status.get_process fuel s C m).1
  run (events s B C D) m = (Status.events fuel s B C D m).1
  run (confirm_at s B C) m = (Status.confirm_at fuel s B C m).1

  abbrev pub history : List (Call E) → OpticsMessage E → OpticsMessage E
  history [] m = m
  history (c ∷ cs) m = history cs (run c m)

  run-Grows : (c : Call E) (m : OpticsMessage E) → Grows m (run c m)
  run-Grows (get_home_update s C) m = (get_home_update-Reads fuel s C m).0
  run-Grows (get_replica_update s C) m = (get_replica_update-Reads fuel s C m).0
  run-Grows (get_process s C) m = (get_process-Reads fuel s C m).0
  run-Grows (events s B C D) m = (events-Reports fuel s B C D m).0
  run-Grows (confirm_at s B C) m = confirm_at-Grows fuel s B C m

  history-Grows : (cs : List (Call E)) (m : OpticsMessage E) → Grows m (history cs m)
  history-Grows [] m = Grows-refl m
  history-Grows (c ∷ cs) m = Grows-trans (run-Grows c m) (history-Grows cs (run c m))

-- A later status: no lower, with the same events first.
pub record IsLater (a b : OpticsStatus) : Type 0 where
  pub status : status_code a.status ≤ status_code b.status
  pub more : List LifecycleEvent
  pub events : b.events ≡ a.events ++ more

report_of-IsLater :
    (d : Annotated DispatchArgs) (u u' r r' : Option (Annotated UpdateArgs))
    (p p' : Option (Annotated ProcessArgs))
    → ((x : Annotated UpdateArgs) → u ≡ some x → u' ≡ some x)
    → ((x : Annotated UpdateArgs) → r ≡ some x → r' ≡ some x)
    → ((x : Annotated ProcessArgs) → p ≡ some x → p' ≡ some x)
    → IsLater (report_of d u r p) (report_of d u' r' p')
report_of-IsLater d none none r r' p p' hu hr hp = record {
  status = omega arith;
  more = [];
  events = refl;
}
report_of-IsLater d none (some y) r none p p' hu hr hp = record {
  status = omega arith;
  more = _;
  events = refl;
}
report_of-IsLater d none (some y) r (some z) p none hu hr hp = record {
  status = omega arith;
  more = _;
  events = refl;
}
report_of-IsLater d none (some y) r (some z) p (some w) hu hr hp = record {
  status = omega arith;
  more = _;
  events = refl;
}
report_of-IsLater d (some x) u' none none p p' hu hr hp =
    rw (hu x refl) (record { status = omega arith; more = []; events = refl })
report_of-IsLater d (some x) u' none (some z) p none hu hr hp =
    rw (hu x refl) (record { status = omega arith; more = _; events = refl })
report_of-IsLater d (some x) u' none (some z) p (some w) hu hr hp =
    rw (hu x refl) (record { status = omega arith; more = _; events = refl })
report_of-IsLater d (some x) u' (some y) r' none none hu hr hp =
    rw (hu x refl, hr y refl) (record { status = omega arith; more = []; events = refl })
report_of-IsLater d (some x) u' (some y) r' none (some w) hu hr hp =
    rw (hu x refl, hr y refl) (record { status = omega arith; more = _; events = refl })
report_of-IsLater d (some x) u' (some y) r' (some z) p' hu hr hp =
    rw (hu x refl, hr y refl, hp z refl) (record { status = omega arith; more = []; events = refl })

module _ {E : Ethers} (fuel : ℕ) where
  -- Between two calls of `events()` that return, with any calls on the message between them and
  -- whatever the chains answered meanwhile: the status does not go back, and the events that the
  -- first reported come first in the second, unchanged.
  pub events-IsLater :
      (s s' : Context E) (B C D B' C' D' : Chain E) (m : OpticsMessage E) (calls : List (Call E))
      (a b : OpticsStatus)
      → (Status.events fuel s B C D m).0 ≡ ok a
      → (Status.events fuel s' B' C' D' (history fuel calls (Status.events fuel s B C D m).1)).0
        ≡ ok b
      → IsLater a b
  events-IsLater s s' B C D B' C' D' m calls a b ha hb =
      let (first, reported) = events-Reports fuel s B C D m in
      let m' = (Status.events fuel s B C D m).1 in
      let (second, reported') = events-Reports fuel s' B' C' D' (history fuel calls m') in
      let grows = Grows-trans (history-Grows fuel calls m') second in
      rw (reported a ha, reported' b hb, grows.dispatch)
        (report_of-IsLater m'.dispatch _ _ _ _ _ _ grows.home_update grows.replica_update
          grows.process)

-- ===== src/Lifecycle/Laws/Answered.antt =====
-- What `events()` returns on chains that answer
-- (typescript/optics-provider/src/optics/messages/OpticsMessage.ts).
use optics_monorepo.Prelude.{ℕ, ◌≡◌, refl, ap, Option, none, some, List, [], ◌∷◌, Result, ok}
use optics_monorepo.Context.Ethers.{Ethers}
use optics_monorepo.Context.State.{Context}
use optics_monorepo.Messages.Bridge.{number}
use optics_monorepo.Events.Annotated.{Annotated, UpdateArgs, ProcessArgs}
use optics_monorepo.Events.Chain.{Chain}
use optics_monorepo.Events.Fetch.{query_annotated_events}
use optics_monorepo.Lifecycle.Message.{
  OpticsMessage, EventCache, empty_cache, origin, destination, committed_root, leaf,
}
use optics_monorepo.Lifecycle.Status.{
  set_home_update, set_replica_update, set_process, remember, get_event, get_home_update,
  get_replica_update, get_process, after_process, after_replica, after_home, events,
}
use optics_monorepo.Lifecycle.Laws.Progress.{report_of}

-- The answer to a query for at most one event.
abbrev pub listed : {A : Type 0} → Option A → List A
listed none = []
listed (some a) = a ∷ []

module _ {E : Ethers} where
  abbrev stored :
      {A : Type 0}
      → (Annotated A → OpticsMessage E → OpticsMessage E)
      → Option (Annotated A)
      → OpticsMessage E
      → OpticsMessage E
  stored store none m = m
  stored store (some a) m = store a m

  get_event-listed :
      {A : Type 0} (store : Annotated A → OpticsMessage E → OpticsMessage E)
      (cached o : Option (Annotated A)) (query : OpticsMessage E → Result (List (Annotated A)))
      (m : OpticsMessage E)
      → cached ≡ none
      → query m ≡ ok (listed o)
      → get_event store cached query m ≡ (ok o, stored store o m)
  unfolding get_event remember
  get_event-listed store (some a) o query m e h = absurd cc
  get_event-listed store none none query m e h = rw h refl
  get_event-listed store none (some a) query m e h = rw h refl

  module _ (fuel : ℕ) (s : Context E) (m : OpticsMessage E) (fresh : m.cache ≡ empty_cache) where
    -- For a message with an empty cache, on chains whose queries for its two updates and its process
    -- event each return at most one event, `events()` returns the status and the events that follow
    -- from these: the later ones count only if the earlier ones are there.
    pub events-listed :
        (B C D : Chain E) (u r : Option (Annotated UpdateArgs)) (p : Option (Annotated ProcessArgs))
        → query_annotated_events B fuel
            (B.updates m.home (committed_root m))
            none
            none
            (number (origin m))
            s
          ≡ ok (listed u)
        → query_annotated_events C fuel
            (C.updates m.replica (committed_root m))
            none
            none
            (number (destination m))
            s
          ≡ ok (listed r)
        → query_annotated_events D fuel
            (D.processes m.replica (leaf m))
            none
            none
            (number (destination m))
            s
          ≡ ok (listed p)
        → (events fuel s B C D m).0 ≡ ok (report_of m.dispatch u r p)
    unfolding events after_home after_replica after_process get_home_update get_replica_update
        get_process
    events-listed B C D none r p hu hr hp =
        let e = ap (λ (c : EventCache). c.home_update) fresh in
        rw (get_event-listed set_home_update m.cache.home_update none _ m e hu) refl
    events-listed B C D (some u) none p hu hr hp =
        let e = ap (λ (c : EventCache). c.home_update) fresh in
        let e' = ap (λ (c : EventCache). c.replica_update) fresh in
        rw
          (
            get_event-listed set_home_update m.cache.home_update (some u) _ m e hu,
            get_event-listed set_replica_update m.cache.replica_update none _ (set_home_update u m)
                e' hr,
          )
          refl
    events-listed B C D (some u) (some r) none hu hr hp =
        let e = ap (λ (c : EventCache). c.home_update) fresh in
        let e' = ap (λ (c : EventCache). c.replica_update) fresh in
        let e'' = ap (λ (c : EventCache). c.process) fresh in
        rw
          (
            get_event-listed set_home_update m.cache.home_update (some u) _ m e hu,
            get_event-listed set_replica_update m.cache.replica_update (some r) _
                (set_home_update u m) e' hr,
            get_event-listed set_process m.cache.process none _
                (set_replica_update r (set_home_update u m)) e'' hp,
          )
          refl
    events-listed B C D (some u) (some r) (some p) hu hr hp =
        let e = ap (λ (c : EventCache). c.home_update) fresh in
        let e' = ap (λ (c : EventCache). c.replica_update) fresh in
        let e'' = ap (λ (c : EventCache). c.process) fresh in
        rw
          (
            get_event-listed set_home_update m.cache.home_update (some u) _ m e hu,
            get_event-listed set_replica_update m.cache.replica_update (some r) _
                (set_home_update u m) e' hr,
            get_event-listed set_process m.cache.process (some p) _
                (set_replica_update r (set_home_update u m)) e'' hp,
          )
          refl

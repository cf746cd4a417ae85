-- ===== src/Lifecycle/Laws/Progress.antt =====
-- The cache of a message, and what `events()` should report of it
-- (typescript/optics-provider/src/optics/messages/OpticsMessage.ts).
use optics_monorepo.Prelude.{
  ◌≡◌, refl, ◌∙◌, Option, none, some, List, [], ◌∷◌, Result, ok, err, arith,
}
use optics_monorepo.Prelude.Exec.{continue}
use optics_monorepo.Context.Ethers.{Ethers}
use optics_monorepo.Events.Annotated.{Annotated, DispatchArgs, UpdateArgs, ProcessArgs}
use optics_monorepo.Lifecycle.Message.{OpticsMessage}
use optics_monorepo.Lifecycle.Status.{
  dispatched, included, relayed, processed, dispatch_event, update_event, process_event,
  OpticsStatus, remember, get_event,
}

-- What `events()` should report, from the cache alone.
abbrev pub report_of :
    Annotated DispatchArgs
    → Option (Annotated UpdateArgs)
    → Option (Annotated UpdateArgs)
    → Option (Annotated ProcessArgs)
    → OpticsStatus
report_of d none _ _ = record { status = dispatched; events = dispatch_event d ∷ [] }
report_of d (some u) none _ = record {
  status = included;
  events = dispatch_event d ∷ update_event u ∷ [];
}
report_of d (some u) (some r) none = record {
  status = relayed;
  events = dispatch_event d ∷ update_event u ∷ update_event r ∷ [];
}
report_of d (some u) (some r) (some p) = record {
  status = processed;
  events = dispatch_event d ∷ update_event u ∷ update_event r ∷ process_event p ∷ [];
}

module _ {E : Ethers} where
  -- `m'` is `m` with at most more events in its cache.
  pub record Grows (m m' : OpticsMessage E) : Type 0 where
    pub dispatch : m'.dispatch ≡ m.dispatch
    pub message : m'.message ≡ m.message
    pub home : m'.home ≡ m.home
    pub replica : m'.replica ≡ m.replica
    pub home_update :
        (u : Annotated UpdateArgs) → m.cache.home_update ≡ some u → m'.cache.home_update ≡ some u
    pub replica_update :
        (u : Annotated UpdateArgs)
        → m.cache.replica_update ≡ some u
        → m'.cache.replica_update ≡ some u
    pub process : (p : Annotated ProcessArgs) → m.cache.process ≡ some p → m'.cache.process ≡ some p

  pub Grows-refl : (m : OpticsMessage E) → Grows m m
  Grows-refl m = record {
    dispatch = refl;
    message = refl;
    home = refl;
    replica = refl;
    home_update = λ u h. h;
    replica_update = λ u h. h;
    process = λ p h. h;
  }

  pub Grows-trans : {a b c : OpticsMessage E} → Grows a b → Grows b c → Grows a c
  Grows-trans h k = record {
    dispatch = k.dispatch ∙ h.dispatch;
    message = k.message ∙ h.message;
    home = k.home ∙ h.home;
    replica = k.replica ∙ h.replica;
    home_update = λ u e. k.home_update u (h.home_update u e);
    replica_update = λ u e. k.replica_update u (h.replica_update u e);
    process = λ p e. k.process p (h.process p e);
  }

  module _ {A : Type 0} (store : Annotated A → OpticsMessage E → OpticsMessage E)
      (read : OpticsMessage E → Option (Annotated A))
      (stored : (a : Annotated A) (m : OpticsMessage E) → read (store a m) ≡ some a)
      (grows : (a : Annotated A) (m : OpticsMessage E) → read m ≡ none → Grows m (store a m)) where
    remember-lem :
        (logs : List (Annotated A)) (m : OpticsMessage E)
        → read m ≡ none
        → Grows m (remember store logs m).1
          × ((o : Option (Annotated A))
              → (remember store logs m).0 ≡ ok o
              → read (remember store logs m).1 ≡ o)
    unfolding remember
    remember-lem [] m h = (Grows-refl m, λ o e. ground (arith, h, e))
    remember-lem (a ∷ []) m h = (grows a m h, λ o e. stored a m ∙ ground (arith, e))
    remember-lem (_ ∷ _ ∷ _) m h = (Grows-refl m, λ o e. cc)

    continue-lem :
        (r : Result (List (Annotated A))) (m : OpticsMessage E)
        → read m ≡ none
        → Grows m (continue r (remember store) m).1
          × ((o : Option (Annotated A))
              → (continue r (remember store) m).0 ≡ ok o
              → read (continue r (remember store) m).1 ≡ o)
    continue-lem (ok logs) m h = remember-lem logs m h
    continue-lem (err e) m h = (Grows-refl m, λ o e. cc)

    -- A getter keeps the cache or adds to it, and returns what the cache then holds.
    pub get_event-lem :
        (cached : Option (Annotated A)) (query : OpticsMessage E → Result (List (Annotated A)))
        (m : OpticsMessage E)
        → read m ≡ cached
        → Grows m (get_event store cached query m).1
          × ((o : Option (Annotated A))
              → (get_event store cached query m).0 ≡ ok o
              → read (get_event store cached query m).1 ≡ o)
    unfolding get_event
    get_event-lem (some a) query m h = (Grows-refl m, λ o e. h ∙ ground (arith, e))
    get_event-lem none query m h = continue-lem (query m) m h

  abbrev pub report : OpticsMessage E → OpticsStatus
  report m = report_of m.dispatch m.cache.home_update m.cache.replica_update m.cache.process

-- ===== src/Lifecycle/Laws/Reports.antt =====
-- `events()` and the cache that it leaves
-- (typescript/optics-provider/src/optics/messages/OpticsMessage.ts).
use optics_monorepo.Prelude.{ℕ, ◌≡◌, refl, Option, none, some, Result, ok, err, arith}
use optics_monorepo.Prelude.Exec.{continue}
use optics_monorepo.Context.Ethers.{Ethers}
use optics_monorepo.Context.State.{Context}
use optics_monorepo.Events.Annotated.{Annotated, UpdateArgs, ProcessArgs}
use optics_monorepo.Events.Chain.{Chain}
use optics_monorepo.Lifecycle.Message.{OpticsMessage}
use optics_monorepo.Lifecycle.Status.{
  OpticsStatus, set_home_update, set_replica_update, set_process, get_home_update,
  get_replica_update, get_process, after_process, after_replica, after_home, events, confirm_at,
  confirmed,
}
use optics_monorepo.Lifecycle.Laws.Progress.{Grows, Grows-refl, Grows-trans, get_event-lem, report}

module _ {E : Ethers} where
  -- What each step leaves: a larger cache, and a report of it if it returns.
  abbrev pub Reports : OpticsMessage E → Result OpticsStatus × OpticsMessage E → Type 0
  Reports m (r, m') = Grows m m' × ((st : OpticsStatus) → r ≡ ok st → st ≡ report m')

  abbrev Reads :
      {A : Type 0}
      → (OpticsMessage E → Option (Annotated A))
      → OpticsMessage E
      → Result (Option (Annotated A)) × OpticsMessage E
      → Type 0
  Reads {A} read m (r, m') = Grows m m' × ((o : Option (Annotated A)) → r ≡ ok o → read m' ≡ o)

  module _ (fuel : ℕ) (s : Context E) where
    pub get_home_update-Reads :
        (C : Chain E) (m : OpticsMessage E)
        → Reads (λ m. m.cache.home_update) m (get_home_update fuel s C m)
    unfolding get_home_update
    get_home_update-Reads C m =
        get_event-lem set_home_update (λ m. m.cache.home_update) (λ a m. refl)
          (λ a m h. record {
            dispatch = refl;
            message = refl;
            home = refl;
            replica = refl;
            home_update = λ u e. ground (arith, h, e);
            replica_update = λ u e. e;
            process = λ p e. e;
          })
          m.cache.home_update _ m refl

    pub get_replica_update-Reads :
        (C : Chain E) (m : OpticsMessage E)
        → Reads (λ m. m.cache.replica_update) m (get_replica_update fuel s C m)
    unfolding get_replica_update
    get_replica_update-Reads C m =
        get_event-lem set_replica_update (λ m. m.cache.replica_update) (λ a m. refl)
          (λ a m h. record {
            dispatch = refl;
            message = refl;
            home = refl;
            replica = refl;
            home_update = λ u e. e;
            replica_update = λ u e. ground (arith, h, e);
            process = λ p e. e;
          })
          m.cache.replica_update _ m refl

    pub get_process-Reads :
        (C : Chain E) (m : OpticsMessage E)
        → Reads (λ m. m.cache.process) m (get_process fuel s C m)
    unfolding get_process
    get_process-Reads C m =
        get_event-lem set_process (λ m. m.cache.process) (λ a m. refl)
          (λ a m h. record {
            dispatch = refl;
            message = refl;
            home = refl;
            replica = refl;
            home_update = λ u e. e;
            replica_update = λ u e. e;
            process = λ p e. ground (arith, h, e);
          })
          m.cache.process _ m refl

    after_process-Reports :
        (u r : Annotated UpdateArgs) (o : Option (Annotated ProcessArgs)) (m : OpticsMessage E)
        → m.cache.home_update ≡ some u
        → m.cache.replica_update ≡ some r
        → m.cache.process ≡ o
        → Reports m (after_process fuel s u r o m)
    unfolding after_process
    after_process-Reports u r none m hu hr hp = (Grows-refl m, λ st e. rw (hu, hr, hp) cc)
    after_process-Reports u r (some p) m hu hr hp = (Grows-refl m, λ st e. rw (hu, hr, hp) cc)

    continue_process-Reports :
        (u r : Annotated UpdateArgs) (m : OpticsMessage E)
        (step : Result (Option (Annotated ProcessArgs)) × OpticsMessage E)
        → m.cache.home_update ≡ some u
        → m.cache.replica_update ≡ some r
        → Reads (λ m. m.cache.process) m step
        → Reports m (continue step.0 (after_process fuel s u r) step.1)
    continue_process-Reports u r m (ok o, m') hu hr (grows, found) =
        let (grows', reports) =
          after_process-Reports u r o m' (grows.home_update u hu) (grows.replica_update r hr)
            (found o refl) in
        (Grows-trans grows grows', reports)
    continue_process-Reports u r m (err e, m') hu hr (grows, found) = (grows, λ st h. cc)

    after_replica-Reports :
        (C : Chain E) (u : Annotated UpdateArgs) (o : Option (Annotated UpdateArgs))
        (m : OpticsMessage E)
        → m.cache.home_update ≡ some u
        → m.cache.replica_update ≡ o
        → Reports m (after_replica fuel s C u o m)
    unfolding after_replica
    after_replica-Reports C u none m hu hr = (Grows-refl m, λ st e. rw (hu, hr) cc)
    after_replica-Reports C u (some r) m hu hr =
        continue_process-Reports u r m (get_process fuel s C m) hu hr (get_process-Reads C m)

    continue_replica-Reports :
        (C : Chain E) (u : Annotated UpdateArgs) (m : OpticsMessage E)
        (step : Result (Option (Annotated UpdateArgs)) × OpticsMessage E)
        → m.cache.home_update ≡ some u
        → Reads (λ m. m.cache.replica_update) m step
        → Reports m (continue step.0 (after_replica fuel s C u) step.1)
    continue_replica-Reports C u m (ok o, m') hu (grows, found) =
        let (grows', reports) =
          after_replica-Reports C u o m' (grows.home_update u hu) (found o refl) in
        (Grows-trans grows grows', reports)
    continue_replica-Reports C u m (err e, m') hu (grows, found) = (grows, λ st h. cc)

    after_home-Reports :
        (C D : Chain E) (o : Option (Annotated UpdateArgs)) (m : OpticsMessage E)
        → m.cache.home_update ≡ o
        → Reports m (after_home fuel s C D o m)
    unfolding after_home
    after_home-Reports C D none m hu = (Grows-refl m, λ st e. rw hu cc)
    after_home-Reports C D (some u) m hu =
        continue_replica-Reports D u m (get_replica_update fuel s C m) hu
          (get_replica_update-Reads C m)

    continue_home-Reports :
        (C D : Chain E) (m : OpticsMessage E)
        (step : Result (Option (Annotated UpdateArgs)) × OpticsMessage E)
        → Reads (λ m. m.cache.home_update) m step
        → Reports m (continue step.0 (after_home fuel s C D) step.1)
    continue_home-Reports C D m (ok o, m') (grows, found) =
        let (grows', reports) = after_home-Reports C D o m' (found o refl) in
        (Grows-trans grows grows', reports)
    continue_home-Reports C D m (err e, m') (grows, found) = (grows, λ st h. cc)

    pub events-Reports : (B C D : Chain E) (m : OpticsMessage E) → Reports m (events fuel s B C D m)
    unfolding events
    events-Reports B C D m =
        continue_home-Reports C D m (get_home_update fuel s B m) (get_home_update-Reads B m)

    -- If `events()` returns, whatever the chains answered, then with the report of the cache that it
    -- leaves, which has all the events that were in the cache before.
    pub events-report :
        (B C D : Chain E) (m : OpticsMessage E) (st : OpticsStatus)
        → (events fuel s B C D m).0 ≡ ok st
        → (st ≡ report (events fuel s B C D m).1) × Grows m (events fuel s B C D m).1
    events-report B C D m st e =
        let (grows, reports) = events-Reports B C D m in (reports st e, grows)

    confirmed-same :
        (C : Chain E) (o : Option (Annotated UpdateArgs)) (m : OpticsMessage E)
        → (confirmed fuel s C o m).1 ≡ m
    unfolding confirmed
    confirmed-same C none m = refl
    confirmed-same C (some u) m = refl

    continue-confirmed :
        (C : Chain E) (m : OpticsMessage E)
        (step : Result (Option (Annotated UpdateArgs)) × OpticsMessage E)
        → Reads (λ m. m.cache.home_update) m step
        → Grows m (continue step.0 (confirmed fuel s C) step.1).1
    continue-confirmed C m (ok o, m') (grows, found) = rw (confirmed-same C o m') grows
    continue-confirmed C m (err e, m') (grows, found) = grows

    pub confirm_at-Grows :
        (B C : Chain E) (m : OpticsMessage E) → Grows m (confirm_at fuel s B C m).1
    unfolding confirm_at
    confirm_at-Grows B C m =
        continue-confirmed C m (get_home_update fuel s B m) (get_home_update-Reads B m)

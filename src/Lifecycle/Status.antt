-- ===== src/Lifecycle/Status.antt =====
-- The life cycle of a message, which the methods of `OpticsMessage` query and remember
-- (typescript/optics-provider/src/optics/messages/OpticsMessage.ts). Each `await` may see a later
-- chain: a method with several takes a chain for each.
use optics_monorepo.Prelude.{
  ℕ, zero, suc, Bool, true, false, Option, none, some, List, [], ◌∷◌, Result, ok, err,
  multiple_updates, out_of_fuel, ◌>>=◌ as ◌then◌, ◌==◌,
}
use optics_monorepo.Prelude.Exec.{Exec, pure, reads, ◌>>=◌}
use optics_monorepo.Context.Ethers.{Ethers}
use optics_monorepo.Context.State.{Context}
use optics_monorepo.Messages.Bridge.{number}
use optics_monorepo.Events.Annotated.{Annotated, DispatchArgs, UpdateArgs, ProcessArgs}
use optics_monorepo.Events.Chain.{Chain}
use optics_monorepo.Events.Fetch.{query_annotated_events}
use optics_monorepo.Lifecycle.Message.{OpticsMessage, origin, destination, committed_root, leaf}

-- The constructors stand in the order of their numbers.
pub data MessageStatus : Type 0 where
  dispatched included relayed processed : MessageStatus

abbrev pub status_code : MessageStatus → ℕ
status_code dispatched = 0
status_code included = 1
status_code relayed = 2
status_code processed = 3

-- `AnnotatedLifecycleEvent`
pub data LifecycleEvent : Type 0 where
  dispatch_event : Annotated DispatchArgs → LifecycleEvent
  update_event : Annotated UpdateArgs → LifecycleEvent
  process_event : Annotated ProcessArgs → LifecycleEvent

pub record OpticsStatus : Type 0 where
  pub status : MessageStatus
  pub events : List LifecycleEvent

-- `ReplicaMessageStatus.Processed`
abbrev replica_processed : ℕ
replica_processed = 2

abbrev pub Getter : Ethers → Type 0 → Type 0
Getter E A = Exec (OpticsMessage E) (Option (Annotated A))

-- What `wait` does after a poll.
unfoldable pub polled : Bool → Result ℕ → Result ℕ
polled true later = ok 0
polled false later = later then λ n. ok (suc n)

module _ {E : Ethers} where
  abbrev pub set_home_update : Annotated UpdateArgs → OpticsMessage E → OpticsMessage E
  set_home_update u m = record m { cache = record m.cache { home_update = some u } }

  abbrev pub set_replica_update : Annotated UpdateArgs → OpticsMessage E → OpticsMessage E
  set_replica_update u m = record m { cache = record m.cache { replica_update = some u } }

  abbrev pub set_process : Annotated ProcessArgs → OpticsMessage E → OpticsMessage E
  set_process p m = record m { cache = record m.cache { process = some p } }

  module _ {A : Type 0} (store : Annotated A → OpticsMessage E → OpticsMessage E) where
    -- The end of the getters, which none reaches with the event in its cache.
    unfoldable pub remember : List (Annotated A) → Getter E A
    remember [] m = (ok none, m)
    remember (a ∷ []) m = (ok (some a), store a m)
    remember (_ ∷ _ ∷ _) m = (err multiple_updates, m)

    unfoldable pub get_event :
        Option (Annotated A) → (OpticsMessage E → Result (List (Annotated A))) → Getter E A
    unfolding remember
    get_event (some a) query = pure (some a)
    get_event none query = do logs ← reads query; remember logs

  module _ (fuel : ℕ) (s : Context E) where
    unfoldable pub get_home_update : Chain E → Getter E UpdateArgs
    unfolding get_event
    get_home_update C m =
        get_event set_home_update m.cache.home_update
          (λ m.
            query_annotated_events C fuel (C.updates m.home (committed_root m)) none none
              (number (origin m)) s)
          m

    unfoldable pub get_replica_update : Chain E → Getter E UpdateArgs
    unfolding get_event
    get_replica_update C m =
        get_event set_replica_update m.cache.replica_update
          (λ m.
            query_annotated_events C fuel (C.updates m.replica (committed_root m)) none none
              (number (destination m)) s)
          m

    unfoldable pub get_process : Chain E → Getter E ProcessArgs
    unfolding get_event
    get_process C m =
        get_event set_process m.cache.process
          (λ m.
            query_annotated_events C fuel (C.processes m.replica (leaf m)) none none
              (number (destination m)) s)
          m

    -- `events()` from the third `await` on, from the second, and from the first.
    unfoldable pub after_process :
        Annotated UpdateArgs
        → Annotated UpdateArgs
        → Option (Annotated ProcessArgs)
        → Exec (OpticsMessage E) OpticsStatus
    after_process u r none m = (
      ok (record {
        status = relayed;
        events = dispatch_event m.dispatch ∷ update_event u ∷ update_event r ∷ [];
      }),
      m,
    )
    after_process u r (some p) m = (
      ok (record {
        status = processed;
        events = dispatch_event m.dispatch ∷ update_event u ∷ update_event r ∷ process_event p ∷ [];
      }),
      m,
    )

    unfoldable pub after_replica :
        Chain E
        → Annotated UpdateArgs
        → Option (Annotated UpdateArgs)
        → Exec (OpticsMessage E) OpticsStatus
    unfolding get_process after_process
    after_replica C u none m = (
      ok (record { status = included; events = dispatch_event m.dispatch ∷ update_event u ∷ [] }),
      m,
    )
    after_replica C u (some r) m = (get_process C >>= after_process u r) m

    unfoldable pub after_home :
        Chain E → Chain E → Option (Annotated UpdateArgs) → Exec (OpticsMessage E) OpticsStatus
    unfolding get_replica_update after_replica
    after_home C D none m =
        (ok (record { status = dispatched; events = dispatch_event m.dispatch ∷ [] }), m)
    after_home C D (some u) m = (get_replica_update C >>= after_replica D u) m

    unfoldable pub events : Chain E → Chain E → Chain E → Exec (OpticsMessage E) OpticsStatus
    unfolding get_home_update after_home
    events B C D = get_home_update B >>= after_home C D

    unfoldable pub confirmed : Chain E → Option (Annotated UpdateArgs) → Exec (OpticsMessage E) ℕ
    confirmed C none = pure 0
    confirmed C (some u) = reads (λ m. C.confirm_at m.replica u.event.args.new_root)

    unfoldable pub confirm_at : Chain E → Chain E → Exec (OpticsMessage E) ℕ
    unfolding get_home_update confirmed
    confirm_at B C = get_home_update B >>= confirmed C

  unfoldable pub replica_status : Chain E → OpticsMessage E → Result ℕ
  replica_status C m = C.messages m.replica (leaf m)

  unfoldable pub delivered : Chain E → OpticsMessage E → Result Bool
  unfolding replica_status
  delivered C m = replica_status C m then λ status. ok (status == replica_processed)

  -- `wait`, on fuel: the chain at each poll, and the number of delays before it returned.
  unfoldable pub wait : ℕ → (ℕ → Chain E) → OpticsMessage E → Result ℕ
  unfolding delivered polled
  wait zero view m = err out_of_fuel
  wait (suc fuel) view m =
      let later = wait fuel (λ n. view (suc n)) m in
      delivered (view 0) m then λ done. polled done later

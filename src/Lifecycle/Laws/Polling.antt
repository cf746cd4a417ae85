-- ===== src/Lifecycle/Laws/Polling.antt =====
-- `wait()` of typescript/optics-provider/src/optics/messages/OpticsMessage.ts.
use optics_monorepo.Prelude.{
  ℕ, zero, suc, ◌<◌, ◌≡◌, ◌≢◌, refl, ap, ◌∙◌, Bool, true, false, Result, ok, err, arith, inl, inr,
  ◌⊎◌, ◌↔◌, ◌==◌, >>=-eq-ok,
}
use optics_monorepo.Context.Ethers.{Ethers}
use optics_monorepo.Events.Chain.{Chain}
use optics_monorepo.Lifecycle.Message.{OpticsMessage, leaf}
use optics_monorepo.Lifecycle.Status.{replica_status, delivered, wait, polled}

polled-cases :
    (done : Bool) (later : Result ℕ) (n : ℕ)
    → polled done later ≡ ok n
    → ((done ≡ true) × (n ≡ 0)) ⊎ ((done ≡ false) × (k : ℕ) × (later ≡ ok k) × (n ≡ suc k))
unfolding polled
polled-cases true later n e = inl (refl, ground (arith, e))
polled-cases false (ok k) n e = inr (refl, k, refl, ground (arith, e))
polled-cases false (err x) n e = absurd cc

module _ {E : Ethers} (m : OpticsMessage E) where
  -- The replica of the message answers with a status, by which 0 is a message it does not know, 1 one
  -- that is proven and 2 one that is processed (`MessageStatus` of Replica.sol).
  abbrev pub HasStatus : Chain E → ℕ → Type 0
  HasStatus C status = C.messages m.replica (leaf m) ≡ ok status

  -- The first poll that sees the message processed is the one after `n` delays; at the earlier ones
  -- the replica answered with another status.
  pub record ProcessedAt (view : ℕ → Chain E) (n : ℕ) : Type 0 where
    pub before : (k : ℕ) → k < n → (status : ℕ) × HasStatus (view k) status × (status ≢ 2)
    pub now : HasStatus (view n) 2

  delivered-false :
      (C : Chain E) → ((status : ℕ) × HasStatus C status × (status ≢ 2)) → delivered C m ≡ ok false
  unfolding delivered replica_status
  delivered-false C (status, e, other) = rw e (ground arith)

  delivered-true : (C : Chain E) → HasStatus C 2 → delivered C m ≡ ok true
  unfolding delivered replica_status
  delivered-true C e = rw e refl

  delivered_status :
      (C : Chain E) (done : Bool)
      → delivered C m ≡ ok done
      → (status : ℕ) × HasStatus C status × ((status == 2) ≡ done)
  unfolding delivered replica_status
  delivered_status C done e =
      let (status, q, e') = >>=-eq-ok (C.messages m.replica (leaf m)) _ e in (status, q, cc)

  not_processed :
      (C : Chain E) → delivered C m ≡ ok false → (status : ℕ) × HasStatus C status × (status ≢ 2)
  not_processed C e =
      let (status, q, other) = delivered_status C false e in (status, q, ground (arith, other))

  processed : (C : Chain E) → delivered C m ≡ ok true → HasStatus C 2
  processed C e =
      let (status, q, same) = delivered_status C true e in q ∙ ap ok (ground (arith, same))

  wait-returns :
      (fuel n : ℕ) (view : ℕ → Chain E) → n < fuel → ProcessedAt view n → wait fuel view m ≡ ok n
  unfolding wait polled
  wait-returns zero n view l h = absurd (omega arith)
  wait-returns (suc fuel) zero view l h = rw (delivered-true (view 0) h.now) refl
  wait-returns (suc fuel) (suc n) view l h =
      let later =
        wait-returns fuel n (λ k. view (suc k)) (omega arith)
          (record { before = λ k i. h.before (suc k) (omega arith); now = h.now }) in
      rw (delivered-false (view 0) (h.before 0 (omega arith)), later) refl

  waiting :
      (fuel n : ℕ) (view : ℕ → Chain E)
      → delivered (view 0) m ≡ ok false
      → ProcessedAt (λ k. view (suc k)) n
      → (k : ℕ) → k < suc n
      → (status : ℕ) × HasStatus (view k) status × (status ≢ 2)
  waiting fuel n view now h zero l = not_processed (view 0) now
  waiting fuel n view now h (suc k) l = h.before k (omega arith)

  wait_sound : (fuel n : ℕ) (view : ℕ → Chain E) → wait fuel view m ≡ ok n → ProcessedAt view n
  unfolding wait
  wait_sound zero n view e = absurd cc
  wait_sound (suc fuel) n view e =
      let (done, q, e') = >>=-eq-ok (delivered (view 0) m) _ e in
      elim (polled-cases done (wait fuel (λ k. view (suc k)) m) n e') [
        | inl (d, z) ↦ rw z (record {
          before = λ k i. absurd (omega arith);
          now = processed (view 0) (q ∙ ap ok d);
        })
        | inr (d, k, r, z) ↦ rw z (record {
          before = waiting fuel k view (q ∙ ap ok d) (wait_sound fuel k (λ k. view (suc k)) r);
          now = (wait_sound fuel k (λ k. view (suc k)) r).now;
        })
      ]

  -- `wait` returns after `n` delays, given fuel for them, exactly if at the poll after `n` delays the
  -- replica has the status 2, of a processed message, and answered each earlier poll with another one.
  pub wait_iff :
      (fuel n : ℕ) (view : ℕ → Chain E) → n < fuel → (wait fuel view m ≡ ok n) ↔ ProcessedAt view n
  wait_iff fuel n view l = (wait_sound fuel n view, wait-returns fuel n view l)

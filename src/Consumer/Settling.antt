-- ===== src/Consumer/Settling.antt =====
-- src/consumer.rs: when consuming returns, and what is sent for each message.
use tessaridb_sdk_rust.Common.{
  ℕ, ◌≡◌, sym, ap, inl, inr, Bool, true, some, [], ◌∷◌, Result, ok, err, Bool-cases, if◌then◌else◌,
}
use tessaridb_sdk_rust.Client.Session.{Session}
use tessaridb_sdk_rust.Consumer.Run.{
  Message, Consumer, Settle, try_once, work, run_auto, run_manual,
}
use tessaridb_sdk_rust.Error.{Error}
use tessaridb_sdk_rust.Polling.Ending.{SaysStopped, run-stopped}
use tessaridb_sdk_rust.Wire.Stream.{after}

module _ (session : Session) (c : Consumer) (is_stopped : session.State → Bool)
    (pause : ℕ → session.State → session.State) where
  open session use {State}

  after-stopped :
      (settled : Result Error (Unit {0}) × State) (next : State → Result Error Bool × State)
      → ((s t : State) → next s ≡ (ok true, t) → is_stopped t ≡ true)
      → (t : State)
      → after settled (λ _ u. if is_stopped u then (ok true, u) else next u) ≡ (ok true, t)
      → is_stopped t ≡ true
  after-stopped (err f, s) next h t e = absurd cc
  after-stopped (ok u, s) next h t e = elim (Bool-cases (is_stopped s)) [
    | inl i ↦ let same = rw i at e in rw (ap (λ p. p.1) (sym same)) i
    | inr i ↦ h s t (rw i at e)
  ]

  work-SaysStopped :
      (settle_one : Message → State → Result Error (Unit {0}) × State)
      → SaysStopped is_stopped pause
          (try_once session c)
          (work session c is_stopped pause settle_one)
  unfolding work
  work-SaysStopped settle_one [] s t e = absurd cc
  work-SaysStopped settle_one (m ∷ ms) s t e =
      after-stopped (settle_one m s) (work session c is_stopped pause settle_one ms)
        (work-SaysStopped settle_one ms) t e

  -- Consuming with a handler that succeeds or fails returns without an error only once the stop
  -- signal is there.
  pub run_auto-is_stopped :
      (handler : Message → State → Bool × State) (batches rounds : ℕ) (s t : State)
      → run_auto session c is_stopped pause handler batches rounds s ≡ (some (ok tt), t)
      → is_stopped t ≡ true
  unfolding run_auto
  run_auto-is_stopped handler batches rounds s t =
      run-stopped is_stopped pause _ _ batches rounds s t (work-SaysStopped _)

  -- So does consuming with a handler that decides.
  run_manual-is_stopped :
      (handler : Message → State → Settle × State) (batches rounds : ℕ) (s t : State)
      → run_manual session c is_stopped pause handler batches rounds s ≡ (some (ok tt), t)
      → is_stopped t ≡ true
  unfolding run_manual
  run_manual-is_stopped handler batches rounds s t =
      run-stopped is_stopped pause _ _ batches rounds s t (work-SaysStopped _)

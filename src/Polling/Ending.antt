-- ===== src/Polling/Ending.antt =====
-- The loop of `run_auto` and `run_manual` in src/queue.rs and src/consumer.rs: when it returns.
use tessaridb_sdk_rust.Common.{
  ℕ, zero, suc, ◌≡◌, sym, ap, refl, inl, inr, Bool, true, false, Option, none, some, List, Result,
  ok, err, Bool-cases,
}
use tessaridb_sdk_rust.Error.{Error}
use tessaridb_sdk_rust.Polling.{
  Tried, got, again, failed, polled, poll, longer, worked, with_batch, run, first_wait,
}

module _ {State A : Type 0} (is_stopped : State → Bool) (pause : ℕ → State → State)
    (try_once : State → Tried A × State) where
  polled-stopped :
      (asked : Tried A × State) (next : State → Option (Result Error (Option (List A))) × State)
      → ((s t : State) → next s ≡ (some (ok none), t) → is_stopped t ≡ true)
      → (t : State) → polled is_stopped pause try_once next asked ≡ (some (ok none), t)
      → is_stopped t ≡ true
  unfolding polled
  polled-stopped (got items, s) next h t e = absurd cc
  polled-stopped (failed f, s) next h t e = absurd cc
  polled-stopped (again, s) next h t e = h s t e

  -- No batch comes back only where the stop signal is there.
  poll-stopped :
      (rounds wait : ℕ) (s t : State)
      → poll is_stopped pause try_once rounds wait s ≡ (some (ok none), t)
      → is_stopped t ≡ true
  unfolding poll
  poll-stopped zero wait s t e = absurd cc
  poll-stopped (suc rounds) wait s t e = elim (Bool-cases (is_stopped s)) [
    | inl h ↦ let same = rw h at e in rw (ap (λ p. p.1) (sym same)) h
    | inr h ↦
        polled-stopped (try_once s)
          (λ u. poll is_stopped pause try_once rounds (longer wait) (pause wait u))
          (λ u v. poll-stopped rounds (longer wait) (pause wait u) v) t (rw h at e)
  ]

  module _ (work : List A → State → Result Error Bool × State) where
    -- The work on a batch says that the handle was stopped only where it was.
    abbrev pub SaysStopped : Type 0
    SaysStopped = (items : List A) (s t : State) → work items s ≡ (ok true, t) → is_stopped t ≡ true

    worked-stopped :
        (done : Result Error Bool × State) (next : State → Option (Result Error (Unit {0})) × State)
        → ((s t : State) → next s ≡ (some (ok tt), t) → is_stopped t ≡ true)
        → ((s : State) → done ≡ (ok true, s) → is_stopped s ≡ true)
        → (t : State) → worked is_stopped pause try_once work next done ≡ (some (ok tt), t)
        → is_stopped t ≡ true
    unfolding worked
    worked-stopped (err f, s) next h k t e = absurd cc
    worked-stopped (ok true, s) next h k t e = rw (ap (λ p. p.1) (sym e)) (k s refl)
    worked-stopped (ok false, s) next h k t e = h s t e

    with_batch-stopped :
        (rounds : ℕ) (s : State) (found : Option (Result Error (Option (List A))) × State)
        (next : State → Option (Result Error (Unit {0})) × State)
        → SaysStopped
        → poll is_stopped pause try_once rounds first_wait s ≡ found
        → ((u v : State) → next u ≡ (some (ok tt), v) → is_stopped v ≡ true)
        → (t : State) → with_batch is_stopped pause try_once work next found ≡ (some (ok tt), t)
        → is_stopped t ≡ true
    unfolding with_batch
    with_batch-stopped rounds s (none, u) next says p h t e = absurd cc
    with_batch-stopped rounds s (some (err f), u) next says p h t e = absurd cc
    with_batch-stopped rounds s (some (ok none), u) next says p h t e =
        rw (ap (λ q. q.1) (sym e)) (poll-stopped rounds first_wait s u p)
    with_batch-stopped rounds s (some (ok (some items)), u) next says p h t e =
        worked-stopped (work items u) next h (λ v. says items u v) t e

    pub run-stopped :
        (batches rounds : ℕ) (s t : State)
        → SaysStopped
        → run is_stopped pause try_once work batches rounds s ≡ (some (ok tt), t)
        → is_stopped t ≡ true
    unfolding run
    run-stopped zero rounds s t says e = absurd cc
    run-stopped (suc batches) rounds s t says e =
        with_batch-stopped rounds s (poll is_stopped pause try_once rounds first_wait s)
          (λ u. run is_stopped pause try_once work batches rounds u) says refl
          (λ u v. run-stopped batches rounds u v says) t e

-- ===== src/Polling/Waiting.antt =====
-- `next_batch` of src/queue.rs and src/consumer.rs: what it waits for, how long, and that it ends.
use tessaridb_sdk_rust.Common.{
  ℕ, zero, suc, ◌*◌, ◌^◌, ◌-◌, ◌≤◌, ◌<◌, min, ◌≡◌, ◌≢◌, ◌∙◌, sym, ap, refl, inl, inr, Bool, true,
  false, Option, none, some, List, Result, ok, err, Bool-cases, arith,
}
use tessaridb_sdk_rust.Error.{Error}
use tessaridb_sdk_rust.Polling.{first_wait, longer, Tried, got, again, failed, polled, poll}

-- Twice as long each time, up to a second.
abbrev pub wait_before : ℕ → ℕ
wait_before n = min (50 * 2 ^ n) 1000

longer-wait_before : (n : ℕ) → longer (wait_before n) ≡ wait_before (suc n)
unfolding longer
longer-wait_before n = omega arith

true-ne-false : true ≡ false → ⊥
true-ne-false e = cc

module _ {State A : Type 0} (is_stopped : State → Bool) (pause : ℕ → State → State)
    (try_once : State → Tried A × State) where
  -- The rounds from the `n`-th on, and how they end.
  pub data Polled : ℕ → State → Result Error (Option (List A)) × State → Type 0 where
    stopped : (n : ℕ) (s : State) → is_stopped s ≡ true → Polled n s (ok none, s)
    found :
        (n : ℕ) (s t : State) (items : List A)
        → is_stopped s ≡ false
        → try_once s ≡ (got items, t)
        → Polled n s (ok (some items), t)
    refused :
        (n : ℕ) (s t : State) (e : Error)
        → is_stopped s ≡ false
        → try_once s ≡ (failed e, t)
        → Polled n s (err e, t)
    waited :
        (n : ℕ) (s t : State) (end : Result Error (Option (List A)) × State)
        → is_stopped s ≡ false
        → try_once s ≡ (again, t)
        → Polled (suc n) (pause (wait_before n) t) end
        → Polled n s end

  -- The signal comes after so many pauses.
  pub record StopsWithin (left : State → ℕ) : Type 0 where
    pub stops : (s : State) → left s ≡ 0 → is_stopped s ≡ true
    pub pause_spends : (wait : ℕ) (s : State) → left (pause wait s) ≤ left s - 1
    pub try_keeps : (s : State) → left (try_once s).1 ≤ left s

  -- What was asked for ends as the relation says.
  abbrev pub Ends : ℕ → State → Option (Result Error (Option (List A))) × State → Type 0
  Ends n s outcome =
      (end : Result Error (Option (List A)) × State) × (outcome ≡ (some end.0, end.1))
      × Polled n s end

  module _ (left : State → ℕ) (law : StopsWithin left) where
    is_running : (s : State) → is_stopped s ≡ false → left s ≢ 0
    is_running s running none_left = absurd (true-ne-false (sym (law.stops s none_left) ∙ running))

    kept : (s t : State) → try_once s ≡ (again, t) → left t ≤ left s
    kept s t e = rw (ap (λ p. left p.1) (sym e)) (law.try_keeps s)

    spent :
        (wait rounds : ℕ) (s t : State)
        → is_stopped s ≡ false
        → try_once s ≡ (again, t)
        → left s < suc rounds
        → left (pause wait t) < rounds
    spent wait rounds s t running e few =
        omega (arith, is_running s running, kept s t e, law.pause_spends wait t)

    poll_round :
        (n rounds : ℕ) (s : State) (asked : Tried A × State)
        → is_stopped s ≡ false
        → try_once s ≡ asked
        → left s < suc rounds
        → ((u : State)
            → left u < rounds
            → Ends (suc n) u (poll is_stopped pause try_once rounds (wait_before (suc n)) u))
        → Ends n s (
            polled is_stopped pause try_once
              (λ t.
                poll is_stopped pause try_once rounds
                  (longer (wait_before n))
                  (pause (wait_before n) t))
              asked)
    unfolding polled
    poll_round n rounds s (got items, t) running e few later =
        ((ok (some items), t), refl, found n s t items running e)
    poll_round n rounds s (failed f, t) running e few later =
        ((err f, t), refl, refused n s t f running e)
    poll_round n rounds s (again, t) running e few later =
        let ended =
          later (pause (wait_before n) t) (spent (wait_before n) rounds s t running e few) in
        (ended.0, rw (longer-wait_before n) ended.1, waited n s t ended.0 running e ended.2)

    poll-Ends :
        (n rounds : ℕ) (s : State)
        → left s < rounds
        → Ends n s (poll is_stopped pause try_once rounds (wait_before n) s)
    unfolding poll
    poll-Ends n zero s few = absurd (omega arith)
    poll-Ends n (suc rounds) s few = elim (Bool-cases (is_stopped s)) [
      | inl e ↦ rw e ((ok none, s), refl, stopped n s e)
      | inr e ↦ rw e (poll_round n rounds s (try_once s) e refl few (poll-Ends (suc n) rounds))
    ]

    -- Asking for a batch ends, where the stop signal comes within fewer pauses than there are
    -- rounds: with nothing once the signal is there, with the first items that there are, or with
    -- the first failure; and it asks again only after a pause, of 50 milliseconds at first and twice
    -- as long each time up to a second.
    pub poll_first-Ends :
        (rounds : ℕ) (s : State)
        → left s < rounds
        → Ends 0 s (poll is_stopped pause try_once rounds first_wait s)
    poll_first-Ends rounds s few = poll-Ends 0 rounds s few

-- ===== src/Http/Operations/Retry.antt =====
-- src/http/mod.rs, `send`: how often a request is made.
use tessaridb_sdk_rust.Common.{
  ℕ, zero, suc, ◌≤◌, max, ◌≡◌, refl, ◌⊎◌, inl, inr, true, false, Option, List, Result, ok, err,
  Bool-cases, arith,
}
use tessaridb_sdk_rust.Common.Utf8.{Text}
use tessaridb_sdk_rust.Error.{IoFault, Error, io, truncated}
use tessaridb_sdk_rust.Http.Operations.{
  Operations, whatever, exchange, send, attempt_again, attempts_after_first, is_retried, retryable,
}
use tessaridb_sdk_rust.Wire.Stream.{Stream, Io}

-- What it is to fail on the transport: the connection failed, or it ended inside the answer.
pub data FailedOnTransport {A : Type 0} : Result Error A → Type 0 where
  broken : (fault : IoFault) → FailedOnTransport (err (io fault))
  cut : FailedOnTransport (err truncated)

is_retried-transport : {A : Type 0} (r : Result Error A) → is_retried r ≡ true → FailedOnTransport r
unfolding is_retried retryable
is_retried-transport (ok a) h = absurd cc
is_retried-transport (err (io fault)) h = broken fault
is_retried-transport (err truncated) h = cut
is_retried-transport (err other) h = absurd cc

not_retried-transport :
    {A : Type 0} (r : Result Error A) → is_retried r ≡ false → ¬ FailedOnTransport r
unfolding is_retried retryable
not_retried-transport r h (broken fault) = absurd cc
not_retried-transport r h cut = absurd cc

module _ {S A : Type 0} (pause : S → S) (ask : Io S A) where
  -- So many attempts were made one after the other, with a pause in between, each but the last failed
  -- on the transport, and this is what the last came to.
  pub data Attempts : ℕ → S → Result Error A × S → Type 0 where
    last : (s : S) → Attempts 1 s (ask s)
    again :
        (n : ℕ) (s : S) (end : Result Error A × S)
        → FailedOnTransport (ask s).0
        → Attempts n (pause (ask s).1) end
        → Attempts (suc n) s end

  -- No more than were allowed, and fewer only where the last did not fail on the transport.
  abbrev pub Exhausted : ℕ → S → Result Error A × S → Type 0
  Exhausted allowed s end =
      (n : ℕ) × Attempts n s end × (n ≤ allowed) × ((n ≡ allowed) ⊎ (¬ FailedOnTransport end.0))

module _ (net : Stream) (next_line : net.State → Result IoFault Text × net.State)
    (connect : Text → net.State → Result IoFault (Unit {0}) × net.State)
    (pause : net.State → net.State) where
  open net use {State}

  one_more :
      {A : Type 0} (ask : Io State A) (more : ℕ) (s : State) (end : Result Error A × State)
      → FailedOnTransport (ask s).0
      → Exhausted pause ask (suc more) (pause (ask s).1) end
      → Exhausted pause ask (suc (suc more)) s end
  one_more ask more s end e (n, tries, few, why) = (
    suc n,
    again n s end e tries,
    omega arith,
    elim why as (λ _. (suc n ≡ suc (suc more)) ⊎ (¬ FailedOnTransport end.0)) [
      | inl all ↦ inl (omega arith)
      | inr final ↦ inr final
    ],
  )

  attempt_again_lem :
      {A : Type 0} (ask : Io State A) (more : ℕ) (s : State)
      → Exhausted pause ask
          (suc more)
          s
          (attempt_again net next_line connect pause ask more (ask s))
  unfolding attempt_again
  attempt_again_lem ask zero s = (1, last s, omega arith, inl refl)
  attempt_again_lem ask (suc more) s = elim (Bool-cases (is_retried (ask s).0)) [
    | inl e ↦ rw e (
        one_more ask more s
          (attempt_again net next_line connect pause ask more (ask (pause (ask s).1)))
          (is_retried-transport (ask s).0 e) (attempt_again_lem ask more (pause (ask s).1)))
    | inr e ↦ rw e (1, last s, omega arith, inr (not_retried-transport (ask s).0 e))
  ]

  allowed_attempts : (n : ℕ) → suc (attempts_after_first n) ≡ max 1 n
  unfolding attempts_after_first
  allowed_attempts zero = refl
  allowed_attempts (suc n) = omega arith

  -- A request ends, with what its last attempt came to: another attempt follows one that failed on
  -- the transport, after a pause, and no other; there are at most as many as the handle allows, at
  -- least one, and fewer only where the last one answered or failed for another reason.
  pub send-Exhausted :
      (ops : Operations) (method path : Text) (body : Option (List ℕ)) (s : State)
      → Exhausted pause
          (exchange net next_line connect pause ops method path body whatever)
          (max 1 ops.attempts)
          s
          (send net next_line connect pause ops method path body s)
  unfolding send
  send-Exhausted ops method path body s = rw (← allowed_attempts ops.attempts) (
      attempt_again_lem (exchange net next_line connect pause ops method path body whatever)
        (attempts_after_first ops.attempts) s)

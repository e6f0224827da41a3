-- ===== src/Http/Reply/Bound.antt =====
-- src/http/reply.rs, `read_headers`: the loop ends within the rounds that it is given here.
use tessaridb_sdk_rust.Common.{
  ℕ, zero, suc, ◌+◌, ◌≤◌, ◌<◌, ◌≡◌, refl, inl, inr, Option, none, [], ◌∷◌, Result, ok, err, false,
  Bool-cases, ltb, length, arith,
}
use tessaridb_sdk_rust.Common.Utf8.{Text}
use tessaridb_sdk_rust.Error.{IoFault, Error}
use tessaridb_sdk_rust.Http.Reply.{
  header_ceiling, read_line, header_line, next_round, read_headers_from, read_headers,
}
use tessaridb_sdk_rust.Wire.Stream.{Stream, Io, after, err-ne-ok}

not_above : (bound n : ℕ) → ltb bound n ≡ false → n ≤ bound
not_above bound n h = ground arith

suc_plus : (m n : ℕ) → suc m + n ≡ suc (m + n)
suc_plus m n = omega arith

module _ (net : Stream) (next_line : net.State → Result IoFault Text × net.State) where
  open net use {State}

  -- A line that was taken is within the ceiling.
  header_line-within :
      (spent : ℕ) (held later : Option ℕ) (line : Text)
      → header_line net next_line spent held line ≡ ok later
      → spent + length line ≤ header_ceiling
  unfolding header_line
  header_line-within spent held later line e =
      elim (Bool-cases (ltb header_ceiling (spent + length line)))
        as (λ _. spent + length line ≤ header_ceiling) [
          | inl h ↦ absurd (err-ne-ok (rw h at e))
          | inr h ↦ not_above header_ceiling (spent + length line) h
        ]

  -- Two ways to go on that agree on what is within the ceiling.
  abbrev Agree :
      ℕ → (ℕ → Option ℕ → Io State (Option ℕ)) → (ℕ → Option ℕ → Io State (Option ℕ)) → Type 0
  Agree floor f g =
      (spent : ℕ) (held : Option ℕ) (s : State)
      → floor < spent
      → spent ≤ header_ceiling
      → f spent held s ≡ g spent held s

  taken_line :
      (f g : ℕ → Option ℕ → Io State (Option ℕ)) (spent : ℕ) (line : Text) (s : State)
      (r : Result Error (Option ℕ))
      → Agree spent f g
      → 0 < length line
      → ((later : Option ℕ) → r ≡ ok later → spent + length line ≤ header_ceiling)
      → after (r, s) (λ later t. f (spent + length line) later t)
        ≡ after (r, s) (λ later t. g (spent + length line) later t)
  taken_line f g spent line s (err e) h more within = refl
  taken_line f g spent line s (ok later) h more within =
      h (spent + length line) later s (omega arith) (within later refl)

  next_round_agrees :
      (f g : ℕ → Option ℕ → Io State (Option ℕ)) (spent : ℕ) (held : Option ℕ)
      (read : Result Error Text × State)
      → Agree spent f g
      → after read (next_round net next_line f spent held)
        ≡ after read (next_round net next_line g spent held)
  unfolding next_round
  next_round_agrees f g spent held (err e, s) h = refl
  next_round_agrees f g spent held (ok [], s) h = refl
  next_round_agrees f g spent held (ok (c ∷ cs), s) h =
      taken_line f g spent (c ∷ cs) s (header_line net next_line spent held (c ∷ cs)) h
        (omega arith) (λ later e. header_line-within spent held later (c ∷ cs) e)

  enough_rounds :
      (rounds more spent : ℕ) (held : Option ℕ) (s : State)
      → header_ceiling < rounds + spent
      → spent ≤ header_ceiling
      → read_headers_from net next_line (rounds + more) spent held s
        ≡ read_headers_from net next_line rounds spent held s
  unfolding read_headers_from
  enough_rounds zero more spent held s many few = absurd (omega arith)
  enough_rounds (suc rounds) more spent held s many few = rw (suc_plus rounds more) (
      next_round_agrees (read_headers_from net next_line (rounds + more))
        (read_headers_from net next_line rounds) spent held (read_line net next_line s)
        λ later found t floor within. enough_rounds rounds more later found t (omega arith) within)

  -- The loop over the headers ends, whatever a node sends: more rounds than these never change
  -- what it comes to, since a line that is not empty uses up at least one byte of the ceiling.
  pub read_headers-ends :
      (more : ℕ) (s : State)
      → read_headers_from net next_line (header_ceiling + 1 + more) 0 none s
        ≡ read_headers net next_line s
  unfolding read_headers
  read_headers-ends more s =
      enough_rounds (header_ceiling + 1) more 0 none s (omega arith) (omega arith)

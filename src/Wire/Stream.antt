-- ===== src/Wire/Stream.antt =====
-- The connection under src/wire/frame.rs. tokio's `AsyncRead` and `AsyncWrite` are not part of the
-- repository: they are a parameter, and `IsReliable` states what their documentation promises of
-- a connection without faults.
use tessaridb_sdk_rust.Common.{
  ℕ, ◌≤◌, ◌<◌, ◌≡◌, refl, List, [], ◌∷◌, ◌++◌, length, Result, ok, err, bind,
}
use tessaridb_sdk_rust.Error.{IoFault, Error, io, unexpected_eof}

pub record Stream : Type 1 where
  pub State : Type 0
  -- At most that many bytes, and none only when the peer has closed.
  pub read : ℕ → State → Result IoFault (List ℕ) × State
  pub read_exact : ℕ → State → Result IoFault (List ℕ) × State
  pub write_all : List ℕ → State → Result IoFault (Unit {0}) × State
  pub flush : State → Result IoFault (Unit {0}) × State

-- `pending` is what the peer has sent and still will send before it closes, `sent` what was
-- written. `read` may return any non-empty part of what is pending.
pub record IsReliable (net : Stream) : Type 0 where
  pub pending : net.State → List ℕ
  pub sent : net.State → List ℕ
  pub read_some :
      (count : ℕ) (s : net.State) (b : ℕ) (bs : List ℕ)
      → 0 < count
      → pending s ≡ b ∷ bs
      → (chunk : List ℕ) × (rest : List ℕ) × (t : net.State) × (net.read count s
          ≡ (ok (b ∷ chunk), t))
        × (length (b ∷ chunk) ≤ count)
        × (bs ≡ chunk ++ rest)
        × (pending t ≡ rest)
        × (sent t ≡ sent s)
  pub read_closed :
      (count : ℕ) (s : net.State)
      → pending s ≡ []
      → (t : net.State) × (net.read count s ≡ (ok [], t)) × (pending t ≡ []) × (sent t ≡ sent s)
  pub read_exact_all :
      (front back : List ℕ) (s : net.State)
      → pending s ≡ front ++ back
      → (t : net.State) × (net.read_exact (length front) s ≡ (ok front, t))
        × (pending t ≡ back)
        × (sent t ≡ sent s)
  pub read_exact_short :
      (count : ℕ) (s : net.State)
      → length (pending s) < count
      → (t : net.State) × (net.read_exact count s ≡ (err unexpected_eof, t))
        × (pending t ≡ [])
        × (sent t ≡ sent s)
  pub write_all_sends :
      (bytes : List ℕ) (s : net.State)
      → (t : net.State) × (net.write_all bytes s ≡ (ok tt, t))
        × (pending t ≡ pending s)
        × (sent t ≡ sent s ++ bytes)
  pub flush_keeps :
      (s : net.State)
      → (t : net.State) × (net.flush s ≡ (ok tt, t)) × (pending t ≡ pending s) × (sent t ≡ sent s)

-- Steps on a connection's state that may fail; the state is kept on a failure too.
abbrev pub after :
    {S A B : Type 0} → Result Error A × S → (A → S → Result Error B × S) → Result Error B × S
after (ok a, s) next = next a s
after (err e, s) next = (err e, s)

pub err-ne-ok : {A : Type 0} {e : Error} {a : A} → ◌≡◌ {A = Result Error A} (err e) (ok a) → ⊥
err-ne-ok e = cc

pub bind-ok :
    {A B : Type 0} (x : Result Error A) (f : A → Result Error B) (b : B)
    → bind x f ≡ ok b
    → (a : A) × (x ≡ ok a) × (f a ≡ ok b)
bind-ok (ok a) f b h = (a, refl, h)
bind-ok (err e) f b h = absurd (err-ne-ok h)

-- What ends well was two steps that did.
pub after-ok :
    {A B W : Type 0} (m : Result Error A × W) (f : A → W → Result Error B × W) (b : B) (t : W)
    → after m f ≡ (ok b, t)
    → (a : A) × (s : W) × (m ≡ (ok a, s)) × (f a s ≡ (ok b, t))
after-ok (ok a, s) f b t h = (a, s, refl, h)
after-ok (err e, s) f b t h = absurd cc

abbrev pub Io : Type 0 → Type 0 → Type 0
Io S A = S → Result Error A × S

module _ {S : Type 0} where
  abbrev pub pure : {A : Type 0} → A → Io S A
  pure a s = (ok a, s)

  abbrev pub fail : {A : Type 0} → Error → Io S A
  fail e s = (err e, s)

  -- A result that leaves the connection alone.
  abbrev pub lift : {A : Type 0} → Result Error A → Io S A
  lift r s = (r, s)

  infixl 5 ◌>>=◌ ◌>>◌
  abbrev pub ◌>>=◌ : {A B : Type 0} → Io S A → (A → Io S B) → Io S B
  m >>= f = λ s. after (m s) f

  abbrev pub ◌>>◌ : {A B : Type 0} → Io S A → Io S B → Io S B
  m >> k = m >>= λ _. k

  abbrev pub map_fault :
      {A : Type 0} → (IoFault → Error) → Result IoFault A × S → Result Error A × S
  map_fault g (ok a, s) = (ok a, s)
  map_fault g (err e, s) = (err (g e), s)

  -- The conversion that `?` makes of an `io::Error`.
  abbrev pub from_io : {A : Type 0} → (S → Result IoFault A × S) → Io S A
  from_io m s = map_fault io (m s)

-- A run on a reliable connection ended with `outcome`, and left these bytes to be read and those
-- written.
pub record Ends (net : Stream) (law : IsReliable net) {A : Type 0}
    (run : Result Error A × net.State) (outcome : Result Error A) (left written : List ℕ)
    : Type 0 where
  pub last : net.State
  pub ends_with : run ≡ (outcome, last)
  pub leaves : law.pending last ≡ left
  pub wrote : law.sent last ≡ written

-- ===== src/Common/Outcome.antt =====
-- Results with an error of any type, and readers over them: a reader takes a value off the front
-- of a list of bytes and returns it with the bytes that follow.
use Prim.Native.Nat.{ℕ, zero, suc}
use tessaridb_sdk_rust.Common.Lists.{length, All}
use mathlib.Core.Path.{◌≡◌, refl}
use mathlib.Core.Logic.{◌⊎◌, inl, inr}
use mathlib.Core.List.{List, [], ◌∷◌, ◌++◌, append_assoc}
use mathlib.Core.Option.{Option, none, some}

pub data Result {ℓ} (E : Type 0) (A : Type ℓ) : Type ℓ where
  ok : A → Result E A
  err : E → Result E A

abbrev pub bind {ℓ κ} :
    {E : Type 0} {A : Type ℓ} {B : Type κ} → Result E A → (A → Result E B) → Result E B
bind (ok a) f = f a
bind (err e) f = err e

-- `Option::ok_or`
abbrev pub ok_or {ℓ} : {E : Type 0} {A : Type ℓ} → E → Option A → Result E A
ok_or e none = err e
ok_or e (some a) = ok a

abbrev pub Parser : Type 0 → Type 0 → Type 0
Parser E A = List ℕ → Result E (A × List ℕ)

module _ {E : Type 0} where
  abbrev pub pure : {A : Type 0} → A → Parser E A
  pure a rest = ok (a, rest)

  abbrev pub raise : {A : Type 0} → E → Parser E A
  raise e rest = err e

  -- A result that reads nothing.
  abbrev pub lift : {A : Type 0} → Result E A → Parser E A
  lift (ok a) rest = ok (a, rest)
  lift (err e) rest = err e

  infixl 5 ◌>>=◌ ◌>>◌
  abbrev pub ◌>>=◌ : {A B : Type 0} → Parser E A → (A → Parser E B) → Parser E B
  p >>= f = λ input. bind (p input) λ (a, rest). f a rest

  abbrev pub ◌>>◌ : {A B : Type 0} → Parser E A → Parser E B → Parser E B
  p >> q = p >>= λ _. q

  -- The reader takes exactly `printed` and gives `a`, whatever follows.
  pub record Reads {A : Type 0} (p : Parser E A) (printed : List ℕ) (a : A) : Type 0 where
    pub reads : (rest : List ℕ) → p (printed ++ rest) ≡ ok (a, rest)

  pub Reads-bind :
      {A B : Type 0} {p : Parser E A} (f : A → Parser E B) {front back : List ℕ} {a : A} {b : B}
      → Reads p front a
      → Reads (f a) back b
      → Reads (p >>= f) (front ++ back) b
  Reads-bind f {front = front} {back = back} h k = record {
    reads = λ rest. rw (append_assoc front back rest, h.reads (back ++ rest)) (k.reads rest);
  }

  -- What follows a part that was read is read by the rest.
  pub Reads-step :
      {A B : Type 0} {p : Parser E A} (f : A → Parser E B) {front : List ℕ} {a : A}
      → Reads p front a
      → (back : List ℕ) → (p >>= f) (front ++ back) ≡ f a back
  Reads-step f h back = rw (h.reads back)

  pub Reads-map :
      {A B : Type 0} {p : Parser E A} (g : A → B) {printed : List ℕ} {a : A}
      → Reads p printed a
      → Reads (p >>= λ x. pure (g x)) printed (g a)
  Reads-map g h = record { reads = λ rest. rw (h.reads rest) }

-- The loops `for x in xs { put_x(out, x) }`.
unfoldable pub put_each : {A : Type 0} → (A → List ℕ) → List A → List ℕ
put_each put [] = []
put_each put (x ∷ xs) = put x ++ put_each put xs

module _ {E A : Type 0} where
  -- The loops `for _ in 0..count { out.push(self.take_x()?) }`.
  unfoldable pub take_each : Parser E A → ℕ → Parser E (List A)
  take_each read zero = pure []
  take_each read (suc count) = do x ← read; xs ← take_each read count; pure (x ∷ xs)

  -- A loop over members that are each read back.
  pub take_each-Reads :
      (read : Parser E A) (put : A → List ℕ) (P : A → Type 0)
      → ((x : A) → P x → Reads read (put x) x)
      → (xs : List A) → All P xs
      → Reads (take_each read (length xs)) (put_each put xs) xs
  unfolding take_each put_each
  take_each-Reads read put P member [] h = record { reads = λ rest. refl }
  take_each-Reads read put P member (x ∷ xs) h =
      Reads-bind _ (member x h.0)
        (Reads-map (λ ys. x ∷ ys) (take_each-Reads read put P member xs h.1))

pub Result-cases {ℓ} :
    {E : Type 0} {A : Type ℓ} (r : Result E A) → ((a : A) × (r ≡ ok a)) ⊎ ((e : E) × (r ≡ err e))
Result-cases (ok a) = inl (a, refl)
Result-cases (err e) = inr (e, refl)

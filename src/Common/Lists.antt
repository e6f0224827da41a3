-- ===== src/Common/Lists.antt =====
-- Lists measured by native numbers, and lists cut at a length.
use Prim.Native.Nat.{ℕ, zero, suc, ◌+◌, ◌<◌}
use mathlib.Core.Path.{◌≡◌, refl, ap}
use mathlib.Core.Logic.{◌⊎◌, inl, inr}
use mathlib.Core.List.{List, [], ◌∷◌, ◌++◌}
use mathlib.Core.Option.{Option, none, some}
use native.Mathlib.Omega.{arith}

module _ {ℓ} {A : Type ℓ} where
  abbrev pub length : List A → ℕ
  length [] = 0
  length (x ∷ xs) = suc (length xs)

  pub length-append : (xs ys : List A) → length (xs ++ ys) ≡ length xs + length ys
  length-append [] ys = omega arith
  length-append (x ∷ xs) ys = omega (arith, length-append xs ys)

  abbrev pub first : List A → Option A
  first [] = none
  first (x ∷ xs) = some x

  abbrev pub All {κ} : (A → Type κ) → List A → Type κ
  All P [] = Unit {κ}
  All P (x ∷ xs) = P x × All P xs

  pub All-append {κ} : (P : A → Type κ) (xs ys : List A) → All P xs → All P ys → All P (xs ++ ys)
  All-append P [] ys h k = k
  All-append P (x ∷ xs) ys h k = (h.0, All-append P xs ys h.1 k)

  abbrev pub push_front : A → Option (List A × List A) → Option (List A × List A)
  push_front x none = none
  push_front x (some (front, back)) = some (x ∷ front, back)

  -- The first `n` items and the rest, or `none` where there are fewer.
  unfoldable pub split_at : ℕ → List A → Option (List A × List A)
  split_at zero xs = some ([], xs)
  split_at (suc n) [] = none
  split_at (suc n) (x ∷ xs) = push_front x (split_at n xs)

  pub split_at-append : (xs ys : List A) → split_at (length xs) (xs ++ ys) ≡ some (xs, ys)
  unfolding split_at
  split_at-append [] ys = refl
  split_at-append (x ∷ xs) ys = rw (split_at-append xs ys)

  pub split_at-cases :
      (n : ℕ) (xs : List A)
      → (split_at n xs ≡ none)
        ⊎ ((front : List A) × (back : List A) × (split_at n xs ≡ some (front, back)))
  split_at-cases n xs =
      elim (split_at n xs)
        as (λ o. (o ≡ none) ⊎ ((front : List A) × (back : List A) × (o ≡ some (front, back)))) [
          | none ↦ inl refl
          | some (front, back) ↦ inr (front, back, refl)
        ]

  -- What was cut off and what is left make up the list.
  pub split_at-eq_some :
      (n : ℕ) (xs front back : List A)
      → split_at n xs ≡ some (front, back)
      → (xs ≡ front ++ back) × (length front ≡ n)
  unfolding split_at
  split_at-eq_some zero xs front back e = ground arith
  split_at-eq_some (suc n) [] front back e = cc
  split_at-eq_some (suc n) (x ∷ xs) front back e = elim (split_at-cases n xs) [
    | inl h ↦ cc h
    | inr (f, b, h) ↦ ground (arith, h, split_at-eq_some n xs f b h)
  ]

  pub split_at-eq_none : (n : ℕ) (xs : List A) → length xs < n → split_at n xs ≡ none
  unfolding split_at
  split_at-eq_none zero xs h = absurd (omega arith)
  split_at-eq_none (suc n) [] h = refl
  split_at-eq_none (suc n) (x ∷ xs) h = rw (split_at-eq_none n xs (omega arith))

  unfoldable pub replicate : ℕ → A → List A
  replicate zero x = []
  replicate (suc n) x = x ∷ replicate n x

  pub length-replicate : (n : ℕ) (x : A) → length (replicate n x) ≡ n
  unfolding replicate
  length-replicate zero x = refl
  length-replicate (suc n) x = ap suc (length-replicate n x)

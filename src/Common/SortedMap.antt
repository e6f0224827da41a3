-- ===== src/Common/SortedMap.antt =====
-- A `BTreeMap` as the list of its entries in the order of their keys.
use tessaridb_sdk_rust.Common.{
  ◌≡◌, refl, Bool, true, false, List, [], ◌∷◌, ◌++◌, arith, if◌then◌else◌, All, All-append, ℕ, ltb,
}
use tessaridb_sdk_rust.Common.Utf8.{Text, text_lt, text_lt_asymm}

-- The order of the keys.
pub record Order (K : Type 0) : Type 0 where
  pub lt : K → K → Bool
  pub lt_asymm : (a b : K) → lt a b ≡ true → lt b a ≡ false

instance abbrev pub text_order : Order Text
text_order = record { lt = text_lt; lt_asymm = text_lt_asymm }

pub number_lt_asymm : (a b : ℕ) → ltb a b ≡ true → ltb b a ≡ false
number_lt_asymm a b h = ground arith

instance abbrev pub number_order : Order ℕ
number_order = record { lt = ltb; lt_asymm = number_lt_asymm }

module _ {K V : Type 0} ⦃order : Order K⦄ where
  -- An equal key keeps its place and takes the new value.
  unfoldable pub insert : K → V → List (K × V) → List (K × V)
  insert k v [] = (k, v) ∷ []
  insert k v ((j, w) ∷ rest) =
      let later = insert k v rest in
      if order.lt k j
      then (k, v) ∷ (j, w) ∷ rest
      else if order.lt j k
      then (j, w) ∷ later
      else (j, v) ∷ rest

  -- Every key is below `k`.
  abbrev pub Below : K → List (K × V) → Type 0
  Below k = All λ entry. order.lt entry.0 k ≡ true

  abbrev pub Above : K → List (K × V) → Type 0
  Above k = All λ entry. order.lt k entry.0 ≡ true

  abbrev pub IsSorted : List (K × V) → Type 0
  IsSorted [] = Unit {0}
  IsSorted ((k, v) ∷ rest) = Above k rest × IsSorted rest

  -- All keys of the first list are below all keys of the second.
  abbrev pub Before : List (K × V) → List (K × V) → Type 0
  Before xs = All λ entry. Below entry.0 xs

  -- A key above the others goes last.
  pub insert-Below :
      (k : K) (v : V) (m : List (K × V)) → Below k m → insert k v m ≡ m ++ (k, v) ∷ []
  unfolding insert
  insert-Below k v [] h = refl
  insert-Below k v ((j, w) ∷ rest) h = ground (arith, order.lt_asymm j k, insert-Below k v rest h.1)

  pub Before-snoc :
      (k : K) (v : V) (xs ys : List (K × V))
      → Before xs ys
      → Above k ys
      → Before (xs ++ (k, v) ∷ []) ys
  Before-snoc k v xs [] h a = tt
  Before-snoc k v xs ((j, w) ∷ ys) h a =
      (All-append _ xs ((k, v) ∷ []) h.0 (a.0, tt), Before-snoc k v xs ys h.1 a.1)

  pub Before-nil : (ys : List (K × V)) → Before [] ys
  Before-nil [] = tt
  Before-nil (y ∷ ys) = (tt, Before-nil ys)

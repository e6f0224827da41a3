-- ===== src/Statement/References.antt =====
-- The parameters that a statement refers to, found in its text on their own account.
use tessaridb_sdk_rust.Common.{
  ℕ, zero, suc, ◌+◌, ◌/◌, ◌%◌, ◌≡◌, refl, Bool, true, false, Option, none, some, List, [], ◌∷◌,
  ◌++◌, ◌==◌, ◌&&◌, Result, bind as and_then, if◌then◌else◌, arith, Bool-cases, inl, inr, and_left,
  and_right, if_not, eq_self, ltb,
}
use tessaridb_sdk_rust.Common.Utf8.{Text, literal}
use tessaridb_sdk_rust.Query.Decimal.{decimal, decimal_from}
use tessaridb_sdk_rust.Query.Fault.{BuildError}
use tessaridb_sdk_rust.Query.Names.{
  is_digit, is_letter, opens_name, continues_name, all_continue, is_name, check_name,
}
use tessaridb_sdk_rust.Query.Plain.{Gives}
use tessaridb_sdk_rust.Refusal.Class.{text_eq}
use tessaridb_sdk_rust.Statement.{
  Duration, Rendered, as_millis, tenancy_of, decimal_wide, delay_tail,
}
use tessaridb_sdk_rust.Value.{Value}

-- The longest name that a text begins with.
unfoldable pub name_at : Text → Text
name_at [] = []
name_at (c ∷ cs) = let rest = c ∷ name_at cs in if continues_name c then rest else []

-- The name behind each `$`.
unfoldable pub references : Text → List Text
unfolding name_at
references [] = []
references (c ∷ cs) = let later = references cs in if c == b'$' then name_at cs ∷ later else later

unfoldable pub names_of : List (Text × Value) → List Text
names_of [] = []
names_of ((name, value) ∷ rest) = name ∷ names_of rest

unfoldable pub is_among : Text → List Text → Bool
is_among name [] = false
is_among name (other ∷ others) = if text_eq name other then true else is_among name others

unfoldable pub all_among : List Text → List Text → Bool
unfolding is_among
all_among [] names = true
all_among (name ∷ rest) names = is_among name names && all_among rest names

-- Every reference is bound, and every parameter is referred to.
unfoldable pub is_bound : Rendered → Bool
unfolding references names_of all_among
is_bound (script, given) =
    all_among (references script) (names_of given) && all_among (names_of given) (references script)

unfoldable pub no_dollar : Text → Bool
no_dollar [] = true
no_dollar (c ∷ cs) = if c == b'$' then false else no_dollar cs

pub references-append :
    (front back : Text) → no_dollar front ≡ true → references (front ++ back) ≡ references back
unfolding references no_dollar
references-append [] back h = refl
references-append (c ∷ cs) back h =
    let plain = if_not (c == b'$') (no_dollar cs) h in
    rw (plain.0, references-append cs back plain.1)

pub no_dollar-append :
    (a b : Text) → no_dollar a ≡ true → no_dollar b ≡ true → no_dollar (a ++ b) ≡ true
unfolding no_dollar
no_dollar-append [] b h k = k
no_dollar-append (c ∷ cs) b h k =
    let plain = if_not (c == b'$') (no_dollar cs) h in rw (plain.0, no_dollar-append cs b plain.1 k)

-- Whether a name ends where a text begins.
unfoldable pub ends_name : Text → Bool
ends_name [] = true
ends_name (c ∷ cs) = if continues_name c then false else true

name_at-append :
    (name back : Text)
    → all_continue name ≡ true
    → ends_name back ≡ true
    → name_at (name ++ back) ≡ name
unfolding name_at all_continue ends_name
name_at-append [] [] h k = refl
name_at-append [] (c ∷ cs) h k = rw (if_not (continues_name c) true k).0
name_at-append (c ∷ cs) back h k = rw (
  and_left (continues_name c) (all_continue cs) h,
  name_at-append cs back (and_right (continues_name c) (all_continue cs) h) k,
)

continues_no_dollar : (c : ℕ) → continues_name c ≡ true → (c == b'$') ≡ false
unfolding continues_name is_digit opens_name is_letter
continues_no_dollar c h = ground arith

pub no_dollar-all_continue : (t : Text) → all_continue t ≡ true → no_dollar t ≡ true
unfolding all_continue no_dollar
no_dollar-all_continue [] h = refl
no_dollar-all_continue (c ∷ cs) h = rw (
  continues_no_dollar c (and_left (continues_name c) (all_continue cs) h),
  no_dollar-all_continue cs (and_right (continues_name c) (all_continue cs) h),
)

-- A reference among what comes before and after it.
pub references-reference :
    (name back : Text)
    → all_continue name ≡ true
    → ends_name back ≡ true
    → references (b'$' ∷ (name ++ back)) ≡ name ∷ references back
unfolding references
references-reference name back h k =
    rw (name_at-append name back h k, references-append name back (no_dollar-all_continue name h))

pub all_continue-append :
    (a b : Text) → all_continue a ≡ true → all_continue b ≡ true → all_continue (a ++ b) ≡ true
unfolding all_continue
all_continue-append [] b h k = k
all_continue-append (c ∷ cs) b h k = rw (
  and_left (continues_name c) (all_continue cs) h,
  all_continue-append cs b (and_right (continues_name c) (all_continue cs) h) k,
)

digit_continues : (n : ℕ) → continues_name (48 + n % 10) ≡ true
unfolding continues_name is_digit
digit_continues n = ground arith

all_continue-decimal_from :
    (places n : ℕ) (later : Text)
    → all_continue later ≡ true
    → all_continue (decimal_from places n later) ≡ true
unfolding decimal_from all_continue
all_continue-decimal_from zero n later h = h
all_continue-decimal_from (suc places) n later h = elim (Bool-cases (n / 10 == 0)) [
  | inl last ↦ rw (last, digit_continues n, h)
  | inr more ↦ rw more (
      all_continue-decimal_from places (n / 10) ((48 + n % 10) ∷ later) (rw (digit_continues n, h)))
]

pub all_continue-decimal : (n : ℕ) → all_continue (decimal n) ≡ true
unfolding decimal all_continue
all_continue-decimal n = all_continue-decimal_from 20 n [] refl

nothing_continues : all_continue [] ≡ true
unfolding all_continue
nothing_continues = refl

no_dollar-decimal_wide : (n : ℕ) → no_dollar (decimal_wide n) ≡ true
unfolding decimal_wide
no_dollar-decimal_wide n =
    no_dollar-all_continue (decimal_from 39 n [])
      (all_continue-decimal_from 39 n [] nothing_continues)

-- A delay behind a word that refers to nothing.
pub no_dollar-delay_tail :
    (word : Text) (delay : Option Duration)
    → no_dollar word ≡ true
    → no_dollar (delay_tail word delay) ≡ true
unfolding delay_tail no_dollar
no_dollar-delay_tail word none h = refl
no_dollar-delay_tail word (some d) h = elim (Bool-cases (ltb 0 (as_millis d))) [
  | inl e ↦ rw e (
      no_dollar-append word (decimal_wide (as_millis d) ++ literal "ms") h (
        no_dollar-append (decimal_wide (as_millis d)) (literal "ms")
          (no_dollar-decimal_wide (as_millis d)) refl))
  | inr e ↦ rw e refl
]

pub no_dollar-decimal : (n : ℕ) → no_dollar (decimal n) ≡ true
no_dollar-decimal n = no_dollar-all_continue (decimal n) (all_continue-decimal n)

-- A name that was checked.
all_continue-is_name : (name : Text) → is_name name ≡ true → all_continue name ≡ true
unfolding is_name all_continue continues_name
all_continue-is_name [] h = refl
all_continue-is_name (c ∷ cs) h = ground arith

-- What is built after a name was checked.
pub Gives-check_name :
    {B : Type 0} (Q : B → Type 0) (what name : Text) (f : Unit {0} → Result BuildError B)
    → (no_dollar name ≡ true → Gives Q (f tt))
    → Gives Q (and_then (check_name what name) f)
unfolding check_name
Gives-check_name Q what name f k = elim (Bool-cases (is_name name)) [
  | inl good ↦ rw good (k (no_dollar-all_continue name (all_continue-is_name name good)))
  | inr bad ↦ rw bad tt
]

pub no_dollar-tenancy :
    (namespace database : Text)
    → no_dollar namespace ≡ true
    → no_dollar database ≡ true
    → no_dollar (tenancy_of namespace database) ≡ true
unfolding tenancy_of no_dollar
no_dollar-tenancy namespace database h k =
    no_dollar-append namespace (literal "; USE DATABASE " ++ (database ++ literal "; ")) h
      (no_dollar-append database (literal "; ") k refl)

text_eq_self : (t : Text) → text_eq t t ≡ true
unfolding text_eq
text_eq_self [] = refl
text_eq_self (c ∷ cs) = rw (eq_self c, text_eq_self cs)

all_among_more :
    (names others : List Text) (extra : Text)
    → all_among names others ≡ true
    → all_among names (extra ∷ others) ≡ true
unfolding all_among is_among
all_among_more [] others extra h = refl
all_among_more (n ∷ ns) others extra h = elim (Bool-cases (text_eq n extra)) [
  | inl e ↦
      rw (e, all_among_more ns others extra (and_right (is_among n others) (all_among ns others) h))
  | inr e ↦ rw (
    e,
    and_left (is_among n others) (all_among ns others) h,
    all_among_more ns others extra (and_right (is_among n others) (all_among ns others) h),
  )
]

all_among_self : (names : List Text) → all_among names names ≡ true
unfolding all_among is_among
all_among_self [] = refl
all_among_self (n ∷ ns) = rw (text_eq_self n, all_among_more ns ns n (all_among_self ns))

-- A statement whose references are its parameters, in their order, is bound.
pub is_bound_same :
    (script : Text) (given : List (Text × Value))
    → references script ≡ names_of given
    → is_bound (script, given) ≡ true
unfolding is_bound
is_bound_same script given h = rw (h, all_among_self (names_of given))

pub names_of-append :
    (xs ys : List (Text × Value)) → names_of (xs ++ ys) ≡ names_of xs ++ names_of ys
unfolding names_of
names_of-append [] ys = refl
names_of-append ((name, value) ∷ xs) ys = rw (names_of-append xs ys)

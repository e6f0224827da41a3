-- ===== src/Query/Span/Grammar.antt =====
-- src/query/mod.rs, `check_span`, against `span ::= 1*( 1*DIGIT unit )`.
use tessaridb_sdk_rust.Common.{
  ℕ, zero, suc, ◌≤◌, ◌≡◌, refl, true, false, some, List, [], ◌∷◌, ◌++◌, All, arith, length,
  length-append, ◌==◌,
}
use tessaridb_sdk_rust.Common.Utf8.{Text}
use tessaridb_sdk_rust.Query.Names.{is_digit}
use tessaridb_sdk_rust.Query.Span.{
  span_units, trim_digits, after_prefix, first_of, find_unit, after_part, goes_on, spans,
}

pub data SpanUnit : Type 0 where
  milliseconds nanoseconds microseconds seconds minutes hours days weeks : SpanUnit

abbrev pub unit_text : SpanUnit → Text
unit_text milliseconds = b'm' ∷ b's' ∷ []
unit_text nanoseconds = b'n' ∷ b's' ∷ []
unit_text microseconds = b'u' ∷ b's' ∷ []
unit_text seconds = b's' ∷ []
unit_text minutes = b'm' ∷ []
unit_text hours = b'h' ∷ []
unit_text days = b'd' ∷ []
unit_text weeks = b'w' ∷ []

-- One digit or more, and a unit.
pub record Part : Type 0 where
  pub first : ℕ
  pub more : List ℕ
  pub unit : SpanUnit

abbrev pub AreDigits : List ℕ → Type 0
AreDigits = All λ c. is_digit c ≡ true

abbrev pub IsPart : Part → Type 0
IsPart p = (is_digit p.first ≡ true) × AreDigits p.more

abbrev pub print : List Part → Text
print [] = []
print (p ∷ ps) = p.first ∷ (p.more ++ (unit_text p.unit ++ print ps))

-- What the grammar calls a span: one part or more.
abbrev pub IsSpan : Text → Type 0
IsSpan bound = (p : Part) × (ps : List Part) × All IsPart (p ∷ ps) × (print (p ∷ ps) ≡ bound)

trim_digits-append : (ds rest : Text) → AreDigits ds → trim_digits (ds ++ rest) ≡ trim_digits rest
unfolding trim_digits
trim_digits-append [] rest h = refl
trim_digits-append (d ∷ ds) rest h = rw (h.0, trim_digits-append ds rest h.1)

trim_digits-unit :
    (u : SpanUnit) (rest : Text) → trim_digits (unit_text u ++ rest) ≡ unit_text u ++ rest
unfolding trim_digits is_digit
trim_digits-unit milliseconds rest = refl
trim_digits-unit nanoseconds rest = refl
trim_digits-unit _ rest = refl

digit-ne-s : (c : ℕ) → is_digit c ≡ true → (b's' == c) ≡ false
unfolding is_digit
digit-ne-s c h = ground arith

-- The longest unit is found: an `m` behind which the next part starts is no `ms`.
find_unit-unit :
    (u : SpanUnit) (ps : List Part)
    → All IsPart ps
    → find_unit span_units (unit_text u ++ print ps) ≡ some (print ps)
unfolding find_unit first_of after_prefix
find_unit-unit minutes [] h = refl
find_unit-unit minutes (p ∷ ps) h = rw (digit-ne-s p.first h.0.0)
find_unit-unit milliseconds ps h = refl
find_unit-unit nanoseconds ps h = refl
find_unit-unit microseconds ps h = refl
find_unit-unit seconds ps h = refl
find_unit-unit hours ps h = refl
find_unit-unit days ps h = refl
find_unit-unit weeks ps h = refl

pub after_part-print :
    (p : Part) (ps : List Part)
    → All IsPart (p ∷ ps)
    → after_part (print (p ∷ ps)) ≡ some (print ps)
unfolding after_part
after_part-print p ps h = rw (
  h.0.0,
  trim_digits-append p.more (unit_text p.unit ++ print ps) h.0.1,
  trim_digits-unit p.unit (print ps),
  find_unit-unit p.unit ps h.1,
)

pub spans-print :
    (rounds : ℕ) (ps : List Part)
    → All IsPart ps
    → length (print ps) ≤ rounds
    → spans rounds true (print ps) ≡ true
unfolding spans
spans-print rounds [] h enough = refl
spans-print zero (p ∷ ps) h enough = absurd (omega arith)
spans-print (suc rounds) (p ∷ ps) h enough = rw (after_part-print p ps h) (
    unfold goes_on in
    spans-print rounds ps h.1 (
      omega (
        arith,
        length-append p.more (unit_text p.unit ++ print ps),
        length-append (unit_text p.unit) (print ps),
      )))

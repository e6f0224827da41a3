-- ===== src/Query/Span/Found.antt =====
-- src/query/mod.rs, `check_span`: what the loop accepts is what the grammar generates.
use tessaridb_sdk_rust.Common.{
  ℕ, zero, suc, ◌≡◌, ◌↔◌, ◌⊎◌, inl, inr, refl, sym, ◌∙◌, ap, Bool, true, false, Option, none, some,
  List, [], ◌∷◌, ◌++◌, All, arith, length, length-append, Result, ok, err, Bool-cases,
}
use tessaridb_sdk_rust.Common.Utf8.{Text}
use tessaridb_sdk_rust.Query.Names.{is_digit}
use tessaridb_sdk_rust.Query.Fault.{BuildError}
use tessaridb_sdk_rust.Query.Span.{
  trim_digits, after_prefix, first_of, find_unit, after_part, goes_on, spans, check_span,
}
use tessaridb_sdk_rust.Query.Span.Grammar.{
  SpanUnit, milliseconds, nanoseconds, microseconds, seconds, minutes, hours, days, weeks,
  unit_text, Part, AreDigits, IsPart, print, IsSpan, spans-print, after_part-print,
}

abbrev all_units : List SpanUnit
all_units =
    milliseconds ∷ nanoseconds ∷ microseconds ∷ seconds ∷ minutes ∷ hours ∷ days ∷ weeks ∷ []

abbrev texts : List SpanUnit → List Text
texts [] = []
texts (u ∷ us) = unit_text u ∷ texts us

after_prefix_found : (p t rest : Text) → after_prefix p t ≡ some rest → t ≡ p ++ rest
unfolding after_prefix
after_prefix_found [] t rest h = cc
after_prefix_found (p ∷ ps) [] rest h = absurd cc
after_prefix_found (p ∷ ps) (c ∷ cs) rest h = ground (arith, after_prefix_found ps cs rest)

first_of_found :
    (x y : Option Text) (rest : Text) → first_of x y ≡ some rest → (x ≡ some rest) ⊎ (y ≡ some rest)
unfolding first_of
first_of_found (some t) y rest h = inl h
first_of_found none y rest h = inr h

find_unit_found :
    (us : List SpanUnit) (t rest : Text)
    → find_unit (texts us) t ≡ some rest
    → (u : SpanUnit) × (t ≡ unit_text u ++ rest)
unfolding find_unit
find_unit_found [] t rest h = absurd cc
find_unit_found (u ∷ us) t rest h =
    elim (first_of_found (after_prefix (unit_text u) t) (find_unit (texts us) t) rest h) [
      | inl here ↦ (u, after_prefix_found (unit_text u) t rest here)
      | inr later ↦ find_unit_found us t rest later
    ]

none-ne-some : {t : Text} → ◌≡◌ {A = Option Text} none (some t) → ⊥
none-ne-some e = cc

trim_digits_found : (t : Text) → (ds : Text) × AreDigits ds × (t ≡ ds ++ trim_digits t)
unfolding trim_digits
trim_digits_found [] = ([], tt, refl)
trim_digits_found (c ∷ cs) = elim (Bool-cases (is_digit c)) [
  | inl digit ↦
      (let (ds, digits, split) = trim_digits_found cs in
        (c ∷ ds, (digit, digits), rw digit (ap (λ z. c ∷ z) split)))
  | inr other ↦ ([], tt, rw other)
]

after_part_found :
    (t rest : Text)
    → after_part t ≡ some rest
    → (p : Part) × IsPart p × (t ≡ p.first ∷ (p.more ++ (unit_text p.unit ++ rest)))
unfolding after_part
after_part_found [] rest h = absurd cc
after_part_found (c ∷ cs) rest h = elim (Bool-cases (is_digit c)) [
  | inl digit ↦
      (let (ds, digits, split) = trim_digits_found cs in
        let (u, behind) = find_unit_found all_units (trim_digits cs) rest (rw digit at h) in
        (
          record { first = c; more = ds; unit = u },
          (digit, digits),
          ap (λ z. c ∷ z) (split ∙ ap (λ z. ds ++ z) behind),
        ))
  | inr other ↦ absurd (none-ne-some (rw other at h))
]

false-ne-true : false ≡ true → ⊥
false-ne-true e = cc

goes_on_found :
    (left : Option Text) (again : Text → Bool)
    → goes_on left again ≡ true
    → (rest : Text) × (left ≡ some rest) × (again rest ≡ true)
unfolding goes_on
goes_on_found none again h = absurd (false-ne-true h)
goes_on_found (some rest) again h = (rest, refl, h)

spans_found :
    (rounds : ℕ) (before : Bool) (bound : Text)
    → spans rounds before bound ≡ true
    → (ps : List Part) × All IsPart ps × (print ps ≡ bound)
unfolding spans goes_on
spans_found rounds before [] h = ([], tt, refl)
spans_found zero before (c ∷ cs) h = absurd (false-ne-true h)
spans_found (suc rounds) before (c ∷ cs) h =
    let (rest, here, later) = goes_on_found (after_part (c ∷ cs)) (spans rounds true) h in
    let (p, is_part, split) = after_part_found (c ∷ cs) rest here in
    let (ps, are_parts, same) = spans_found rounds true rest later in
    (p ∷ ps, (is_part, are_parts), rw same (sym split))

-- No part at all is the empty bound, which the loop refuses.
some_parts :
    (bound : Text) (ps : List Part)
    → All IsPart ps
    → print ps ≡ bound
    → spans (length bound) false bound ≡ true
    → IsSpan bound
unfolding spans
some_parts [] [] all same h = absurd (false-ne-true h)
some_parts (c ∷ cs) [] all same h = absurd cc
some_parts bound (p ∷ ps) all same h = (p, ps, all, same)

accepted_parts : (bound : Text) → spans (length bound) false bound ≡ true → IsSpan bound
accepted_parts bound h =
    let (ps, all, same) = spans_found (length bound) false bound h in some_parts bound ps all same h

err-ne-ok :
    {e : BuildError} {u : Unit {0}} → ◌≡◌ {A = Result BuildError (Unit {0})} (err e) (ok u) → ⊥
err-ne-ok e = cc

accepted : (bound : Text) → check_span bound ≡ ok tt → IsSpan bound
unfolding check_span
accepted bound h = elim (Bool-cases (spans (length bound) false bound)) [
  | inl ends ↦ accepted_parts bound ends
  | inr stops ↦ absurd (err-ne-ok (rw stops at h))
]

accepts : (bound : Text) → IsSpan bound → check_span bound ≡ ok tt
unfolding check_span spans goes_on
accepts bound (p, ps, all, same) = rw (
  ← same,
  after_part-print p ps all,
  spans-print (length (p.more ++ (unit_text p.unit ++ print ps))) ps all.1 (
      omega (
        arith,
        length-append p.more (unit_text p.unit ++ print ps),
        length-append (unit_text p.unit) (print ps),
      )),
)

-- A bound is accepted exactly if the grammar of spans generates it: one part or more, each of one
-- digit or more and one of the eight units.
pub check_span_iff : (bound : Text) → (check_span bound ≡ ok tt) ↔ IsSpan bound
check_span_iff bound = (accepted bound, accepts bound)

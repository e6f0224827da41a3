-- ===== src/Query/Plain/Parts.antt =====
-- src/query/: names, counts, spans and conditions are plain text.
use tessaridb_sdk_rust.Common.{
  ℕ, zero, suc, ◌+◌, ◌/◌, ◌%◌, ◌≡◌, refl, true, ◌==◌, List, [], ◌∷◌, ok, arith, Bool-cases, inl,
  inr, All,
}
use tessaridb_sdk_rust.Common.Utf8.{Text, literal}
use tessaridb_sdk_rust.Query.Binder.{Binder, bind, parameter_name}
use tessaridb_sdk_rust.Query.Decimal.{decimal, decimal_from}
use tessaridb_sdk_rust.Query.Filter.{Filter, Compare, compare, and, or, render, spelled}
use tessaridb_sdk_rust.Query.Names.{
  is_digit, is_letter, opens_name, continues_name, all_continue, is_name, check_name,
}
use tessaridb_sdk_rust.Query.Plain.{
  among, is_word_byte, is_plain_byte, is_plain, is_plain-append, Gives, Gives-and_then, Gives-of,
}
use tessaridb_sdk_rust.Query.Span.{check_span}
use tessaridb_sdk_rust.Query.Span.Found.{check_span_iff}
use tessaridb_sdk_rust.Query.Span.Grammar.{
  SpanUnit, milliseconds, unit_text, Part, AreDigits, IsPart, print,
}
use tessaridb_sdk_rust.Value.{Value}

is_plain-continues_name : (c : ℕ) → continues_name c ≡ true → is_plain_byte c ≡ true
unfolding is_plain_byte is_word_byte continues_name is_digit opens_name is_letter
is_plain-continues_name c h = ground arith

is_plain-is_digit : (c : ℕ) → is_digit c ≡ true → is_plain_byte c ≡ true
is_plain-is_digit c h = is_plain-continues_name c (unfold continues_name in rw h)

is_plain-all_continue : (t : Text) → all_continue t ≡ true → is_plain t ≡ true
unfolding all_continue is_plain
is_plain-all_continue [] h = refl
is_plain-all_continue (c ∷ cs) h =
    ground (arith, is_plain-continues_name c, is_plain-all_continue cs)

is_plain-is_name : (t : Text) → is_name t ≡ true → is_plain t ≡ true
unfolding is_name is_plain continues_name
is_plain-is_name [] h = refl
is_plain-is_name (c ∷ cs) h = ground (arith, is_plain-continues_name c, is_plain-all_continue cs)

pub is_plain-check_name :
    (what name : Text) → Gives (λ _. is_plain name ≡ true) (check_name what name)
unfolding check_name
is_plain-check_name what name = elim (Bool-cases (is_name name)) [
  | inl good ↦ rw good (is_plain-is_name name good)
  | inr bad ↦ rw bad tt
]

is_plain-digit : (n : ℕ) → is_plain_byte (48 + n % 10) ≡ true
is_plain-digit n = is_plain-is_digit (48 + n % 10) (unfold is_digit in ground arith)

is_plain-decimal_from :
    (places n : ℕ) (later : Text)
    → is_plain later ≡ true
    → is_plain (decimal_from places n later) ≡ true
unfolding decimal_from is_plain
is_plain-decimal_from zero n later h = h
is_plain-decimal_from (suc places) n later h = elim (Bool-cases (n / 10 == 0)) [
  | inl last ↦ rw (last, is_plain-digit n, h)
  | inr more ↦
      rw more
        (is_plain-decimal_from places (n / 10) ((48 + n % 10) ∷ later) (rw (is_plain-digit n, h)))
]

pub is_plain-decimal : (n : ℕ) → is_plain (decimal n) ≡ true
unfolding decimal is_plain
is_plain-decimal n = is_plain-decimal_from 20 n [] refl

is_plain-digits : (ds : Text) → AreDigits ds → is_plain ds ≡ true
unfolding is_plain
is_plain-digits [] h = refl
is_plain-digits (d ∷ ds) h = rw (is_plain-is_digit d h.0, is_plain-digits ds h.1)

is_plain-unit_text : (u : SpanUnit) → is_plain (unit_text u) ≡ true
unfolding is_plain is_plain_byte is_word_byte continues_name is_digit opens_name is_letter
is_plain-unit_text milliseconds = refl
is_plain-unit_text _ = refl

is_plain-print : (ps : List Part) → All IsPart ps → is_plain (print ps) ≡ true
unfolding is_plain
is_plain-print [] h = refl
is_plain-print (p ∷ ps) h = simp (
  is_plain-append,
  is_plain-is_digit p.first h.0.0,
  is_plain-digits p.more h.0.1,
  is_plain-unit_text,
  is_plain-print ps h.1,
)

span_parts : (bound : Text) → check_span bound ≡ ok tt → is_plain bound ≡ true
span_parts bound h =
    let (p, ps, all, same) = (check_span_iff bound).0 h in rw (← same) (is_plain-print (p ∷ ps) all)

pub is_plain-span : (bound : Text) → Gives (λ _. is_plain bound ≡ true) (check_span bound)
is_plain-span bound =
    Gives-of (λ _. is_plain bound ≡ true) (check_span bound) λ u h. span_parts bound h

-- A rendering is plain if its text is.
abbrev pub IsRendered : Text × Binder → Type 0
IsRendered x = is_plain x.0 ≡ true

pub is_plain-bind : (value : Value) (b : Binder) → is_plain (bind value b).0 ≡ true
unfolding bind parameter_name is_plain is_plain_byte is_word_byte among continues_name is_digit
    opens_name is_letter
is_plain-bind value b = is_plain-decimal b.next

is_plain-spelled : (how : Compare) → is_plain (spelled how) ≡ true
unfolding spelled is_plain is_plain_byte is_word_byte among continues_name is_digit opens_name
    is_letter
is_plain-spelled Compare.equal = refl
is_plain-spelled _ = refl

pub Gives-render : (f : Filter) (b : Binder) → Gives IsRendered (render f b)
unfolding render is_plain is_plain_byte is_word_byte among continues_name is_digit opens_name
    is_letter
Gives-render (compare field how value) b =
    Gives-and_then _ IsRendered (check_name (literal "a field") field) _
      (is_plain-check_name (literal "a field") field)
      λ _ good. simp (is_plain-append, good, is_plain-spelled, is_plain-bind)
Gives-render (and left right) b =
    Gives-and_then IsRendered IsRendered (render left b) _ (Gives-render left b) λ l plain_l.
      Gives-and_then IsRendered IsRendered (render right l.1) _ (Gives-render right l.1)
        λ r plain_r. simp (is_plain-append, plain_l, plain_r)
Gives-render (or left right) b =
    Gives-and_then IsRendered IsRendered (render left b) _ (Gives-render left b) λ l plain_l.
      Gives-and_then IsRendered IsRendered (render right l.1) _ (Gives-render right l.1)
        λ r plain_r. simp (is_plain-append, plain_l, plain_r)

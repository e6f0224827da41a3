-- ===== src/Query/Plain/Reads.antt =====
-- src/query/select.rs: a read is one statement.
use tessaridb_sdk_rust.Common.{
  ℕ, ◌≡◌, refl, true, Option, none, some, List, [], ◌∷◌, ◌++◌, append_assoc, ok,
}
use tessaridb_sdk_rust.Common.Utf8.{Text, literal}
use tessaridb_sdk_rust.Query.Binder.{Binder, new}
use tessaridb_sdk_rust.Query.Fault.{Query}
use tessaridb_sdk_rust.Query.Filter.{Filter}
use tessaridb_sdk_rust.Query.Filter
use tessaridb_sdk_rust.Query.Names.{is_digit, is_letter, opens_name, continues_name, check_name}
use tessaridb_sdk_rust.Query.Plain.{
  among, is_word_byte, is_plain_byte, is_plain, is_plain-append, IsOneStatement, Gives,
  Gives-and_then, Gives-ok, Gives-weaken,
}
use tessaridb_sdk_rust.Query.Plain.Parts.{
  is_plain-check_name, is_plain-decimal, is_plain-span, IsRendered, Gives-render,
}
use tessaridb_sdk_rust.Query.Select.{
  Order, ascending, descending, Answerer, any, leader, Projection, whole, lines, Select,
  order_spelled, answerer_spelled, projection_field, render, join, check_fields, render_all,
  projected, where_clause, order_parts, order_clause, count_clause, staleness_clause,
  answered_clause, build,
}
use tessaridb_sdk_rust.Query.Span.{check_span}

abbrev pub ArePlain : List Text → Type 0
ArePlain [] = Unit {0}
ArePlain (t ∷ ts) = (is_plain t ≡ true) × ArePlain ts

abbrev IsPlain : Text → Type 0
IsPlain t = is_plain t ≡ true

pub is_plain-join : (parts : List Text) → ArePlain parts → is_plain (join parts) ≡ true
unfolding join is_plain is_plain_byte is_word_byte among continues_name is_digit opens_name
    is_letter
is_plain-join [] h = refl
is_plain-join (part ∷ []) h = h.0
is_plain-join (part ∷ next ∷ parts) h =
    simp (is_plain-append, h.0, is_plain-join (next ∷ parts) h.1)

is_plain-render :
    (item : Projection) → is_plain (projection_field item) ≡ true → is_plain (render item) ≡ true
unfolding render projection_field is_plain is_plain_byte is_word_byte among continues_name is_digit
    opens_name is_letter
is_plain-render (whole name) h = h
is_plain-render (lines name start count) h = simp (is_plain-append, h, is_plain-decimal)

Gives-check_fields :
    (items : List Projection) → Gives (λ _. ArePlain (render_all items)) (check_fields items)
unfolding check_fields render_all
Gives-check_fields [] = tt
Gives-check_fields (item ∷ items) =
    Gives-and_then _ _ (check_name (literal "a field") (projection_field item)) _
      (is_plain-check_name (literal "a field") (projection_field item))
      λ _ good.
        Gives-weaken (λ _. ArePlain (render_all items)) (λ _. ArePlain (render_all (item ∷ items)))
          (check_fields items) (Gives-check_fields items)
          λ _ later. (is_plain-render item good, later)

Gives-projected : (items : List Projection) → Gives IsPlain (projected items)
unfolding projected is_plain is_plain_byte is_word_byte among continues_name is_digit opens_name
    is_letter
Gives-projected [] = refl
Gives-projected (item ∷ items) =
    Gives-and_then _ IsPlain (check_fields (item ∷ items)) _ (Gives-check_fields (item ∷ items))
      λ _ good. is_plain-join (render_all (item ∷ items)) good

Gives-where_clause : (f : Option Filter) (b : Binder) → Gives IsRendered (where_clause f b)
unfolding where_clause is_plain is_plain_byte is_word_byte among continues_name is_digit opens_name
    is_letter
Gives-where_clause none b = refl
Gives-where_clause (some f) b =
    Gives-and_then IsRendered IsRendered (Filter.render f b) _ (Gives-render f b) λ t good. good

is_plain-order_spelled : (o : Order) → is_plain (order_spelled o) ≡ true
unfolding order_spelled is_plain is_plain_byte is_word_byte among continues_name is_digit opens_name
    is_letter
is_plain-order_spelled ascending = refl
is_plain-order_spelled descending = refl

Gives-order_parts : (os : List (Text × Order)) → Gives ArePlain (order_parts os)
unfolding order_parts is_plain is_plain_byte is_word_byte among continues_name is_digit opens_name
    is_letter
Gives-order_parts [] = tt
Gives-order_parts ((name, o) ∷ rest) =
    Gives-and_then _ ArePlain (check_name (literal "a field") name) _
      (is_plain-check_name (literal "a field") name)
      λ _ good.
        Gives-and_then ArePlain ArePlain (order_parts rest) _ (Gives-order_parts rest)
          λ parts later. (simp (is_plain-append, good, is_plain-order_spelled), later)

Gives-order_clause : (os : List (Text × Order)) → Gives IsPlain (order_clause os)
unfolding order_clause is_plain is_plain_byte is_word_byte among continues_name is_digit opens_name
    is_letter
Gives-order_clause [] = refl
Gives-order_clause (first ∷ rest) =
    Gives-and_then ArePlain IsPlain (order_parts (first ∷ rest)) _
      (Gives-order_parts (first ∷ rest)) λ parts good. is_plain-join parts good

is_plain-count_clause :
    (word : Text) (count : Option ℕ)
    → is_plain word ≡ true
    → is_plain (count_clause word count) ≡ true
unfolding count_clause is_plain
is_plain-count_clause word none h = refl
is_plain-count_clause word (some n) h = simp (is_plain-append, h, is_plain-decimal)

Gives-staleness_clause : (bound : Option Text) → Gives IsPlain (staleness_clause bound)
unfolding staleness_clause is_plain is_plain_byte is_word_byte among continues_name is_digit
    opens_name is_letter
Gives-staleness_clause none = refl
Gives-staleness_clause (some bound) =
    Gives-and_then _ IsPlain (check_span bound) _ (is_plain-span bound) λ _ good. good

is_plain-answered_clause : (a : Option Answerer) → is_plain (answered_clause a) ≡ true
unfolding answered_clause answerer_spelled is_plain is_plain_byte among continues_name is_digit
    opens_name is_letter
is_plain-answered_clause none = refl
is_plain-answered_clause (some any) = refl
is_plain-answered_clause (some leader) = refl

Gives-build : (s : Select) → Gives IsOneStatement (build s)
unfolding build is_plain is_plain_byte is_word_byte among continues_name is_digit opens_name
    is_letter
Gives-build s =
    Gives-and_then _ IsOneStatement (check_name (literal "a table") s.source) _
      (is_plain-check_name (literal "a table") s.source)
      λ _ source.
        Gives-and_then IsPlain IsOneStatement (projected s.projection) _
          (Gives-projected s.projection)
          λ projection plain_projection.
            Gives-and_then IsRendered IsOneStatement (where_clause s.filter new) _
              (Gives-where_clause s.filter new)
              λ condition plain_condition.
                Gives-and_then IsPlain IsOneStatement (order_clause s.order) _
                  (Gives-order_clause s.order)
                  λ order plain_order.
                    Gives-and_then IsPlain IsOneStatement (staleness_clause s.staleness) _
                      (Gives-staleness_clause s.staleness)
                      λ staleness plain_staleness. (
                        literal "SELECT "
                            ++ (projection
                                ++ (literal " FROM "
                                    ++ (s.source
                                        ++ (condition.0
                                            ++ (order
                                                ++ (count_clause (literal " START ") s.start
                                                    ++ (count_clause (literal " LIMIT ") s.limit
                                                        ++ (staleness
                                                            ++ answered_clause
                                                            s.answered_by)))))))),
                        simp append_assoc,
                        simp (
                          is_plain-append,
                          source,
                          plain_projection,
                          plain_condition,
                          plain_order,
                          plain_staleness,
                          is_plain-count_clause (literal " START ") s.start refl,
                          is_plain-count_clause (literal " LIMIT ") s.limit refl,
                          is_plain-answered_clause,
                        ),
                      )

-- A built read is one statement: whatever strings a caller supplied as names, as a span or in values,
-- its text ends in its only semicolon and has no quote, no comment and no byte outside ASCII.
pub build-IsOneStatement : (s : Select) (q : Query) → build s ≡ ok q → IsOneStatement q
build-IsOneStatement s q h = Gives-ok IsOneStatement (build s) q (Gives-build s) h

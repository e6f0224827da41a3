-- ===== src/Query/Blind.antt =====
-- src/query/: the text of a statement does not depend on the values that it binds.
pub mod Writes
use tessaridb_sdk_rust.Common.{
  ℕ, ◌≡◌, refl, sym, ◌∙◌, ap, Option, none, some, List, [], ◌∷◌, ◌++◌, Result, ok, err,
  bind as and_then,
}
use tessaridb_sdk_rust.Common.Utf8.{Text, literal}
use tessaridb_sdk_rust.Query.Binder.{Binder, new, bind, record_target, parameter_name}
use tessaridb_sdk_rust.Query.Fault.{BuildError, Query}
use tessaridb_sdk_rust.Query.Filter.{Filter, compare, and, or, render, spelled}
use tessaridb_sdk_rust.Query.Names.{check_name}
use tessaridb_sdk_rust.Query.Select.{
  Select, build, where_clause, projected, order_clause, staleness_clause,
}
use tessaridb_sdk_rust.Query.Write.{
  Create, Update, Delete, assignments, render_object, create_target, some_fields, build_create,
  build_update, build_delete,
}
use tessaridb_sdk_rust.Value.{Value}

-- The same condition with every value replaced by null.
abbrev pub blank : Filter → Filter
blank (compare field how value) = compare field how Value.null
blank (and left right) = and (blank left) (blank right)
blank (or left right) = or (blank left) (blank right)

abbrev pub blank_condition : Option Filter → Option Filter
blank_condition none = none
blank_condition (some filter) = some (blank filter)

-- The same text and the same next parameter, or the same error.
abbrev pub Agree :
    {A : Type 0} → Result BuildError (A × Binder) → Result BuildError (A × Binder) → Type 0
Agree (ok (a, b)) (ok (a', c)) = (a ≡ a') × (b.next ≡ c.next)
Agree (ok x) (err e) = ⊥
Agree (err e) (ok y) = ⊥
Agree (err e) (err e') = e ≡ e'

pub Agree-and_then :
    {A B : Type 0} (x y : Result BuildError (A × Binder))
    (f g : A × Binder → Result BuildError (B × Binder))
    → Agree x y
    → ((a : A) (b c : Binder) → b.next ≡ c.next → Agree (f (a, b)) (g (a, c)))
    → Agree (and_then x f) (and_then y g)
Agree-and_then (ok (a, b)) (ok (a', c)) f g h k = rw (← h.0) (k a b c h.1)
Agree-and_then (ok x) (err e) f g h k = absurd h
Agree-and_then (err e) (ok y) f g h k = absurd h
Agree-and_then (err e) (err e') f g h k = h

-- A check that binds nothing.
pub Agree-checked :
    {A B : Type 0} (x : Result BuildError A) (f g : A → Result BuildError (B × Binder))
    → ((a : A) → Agree (f a) (g a))
    → Agree (and_then x f) (and_then x g)
Agree-checked (ok a) f g k = k a
Agree-checked (err e) f g k = refl

pub Agree-bind :
    (v w : Value) (b c : Binder)
    → b.next ≡ c.next
    → ((bind v b).0 ≡ (bind w c).0) × ((bind v b).1.next ≡ (bind w c).1.next)
unfolding bind
Agree-bind v w b c h = (rw h, rw h)

render-blank :
    (f : Filter) (b c : Binder) → b.next ≡ c.next → Agree (render f b) (render (blank f) c)
unfolding render
render-blank (compare field how value) b c h =
    Agree-checked (check_name (literal "a field") field) _ _
      λ _. (let (same, next) = Agree-bind value Value.null b c h in (rw same, next))
render-blank (and left right) b c h =
    Agree-and_then (render left b) (render (blank left) c) _ _ (render-blank left b c h)
      λ l b' c' h'.
        Agree-and_then (render right b') (render (blank right) c') _ _ (render-blank right b' c' h')
          λ r b'' c'' h''. (refl, h'')
render-blank (or left right) b c h =
    Agree-and_then (render left b) (render (blank left) c) _ _ (render-blank left b c h)
      λ l b' c' h'.
        Agree-and_then (render right b') (render (blank right) c') _ _ (render-blank right b' c' h')
          λ r b'' c'' h''. (refl, h'')

-- The text of a built statement, or why it was not built.
abbrev pub script_of : Result BuildError Query → Result BuildError Text
script_of (ok q) = ok q.script
script_of (err e) = err e

pub script_of-agreed :
    {A : Type 0} (x y : Result BuildError (A × Binder)) (f g : A × Binder → Result BuildError Query)
    → Agree x y
    → ((a : A) (b c : Binder) → b.next ≡ c.next → script_of (f (a, b)) ≡ script_of (g (a, c)))
    → script_of (and_then x f) ≡ script_of (and_then y g)
script_of-agreed (ok (a, b)) (ok (a', c)) f g h k = rw (← h.0) (k a b c h.1)
script_of-agreed (ok x) (err e) f g h k = absurd h
script_of-agreed (err e) (ok y) f g h k = absurd h
script_of-agreed (err e) (err e') f g h k = ap err h

pub script_of-checked :
    {A : Type 0} (x : Result BuildError A) (f g : A → Result BuildError Query)
    → ((a : A) → script_of (f a) ≡ script_of (g a))
    → script_of (and_then x f) ≡ script_of (and_then x g)
script_of-checked (ok a) f g k = k a
script_of-checked (err e) f g k = refl

-- The same read with every value of its condition replaced by null.
abbrev pub blank_select : Select → Select
blank_select s = record s { filter = blank_condition s.filter }

where_clause-blank :
    (f : Option Filter) (b c : Binder)
    → b.next ≡ c.next
    → Agree (where_clause f b) (where_clause (blank_condition f) c)
unfolding where_clause
where_clause-blank none b c h = (refl, h)
where_clause-blank (some f) b c h =
    Agree-and_then (render f b) (render (blank f) c) _ _ (render-blank f b c h)
      λ t b' c' h'. (refl, h')

build-blank : (s : Select) → script_of (build s) ≡ script_of (build (blank_select s))
unfolding build
build-blank s = script_of-checked (check_name (literal "a table") s.source) _ _ λ _.
    script_of-checked (projected s.projection) _ _ λ _.
      script_of-agreed (where_clause s.filter new) (where_clause (blank_condition s.filter) new) _ _
        (where_clause-blank s.filter new new refl)
        λ t b c h.
          script_of-checked (order_clause s.order) _ _
            λ _. script_of-checked (staleness_clause s.staleness) _ _ λ _. refl

-- A value never reaches the text of a read: two reads that differ in the values of their conditions
-- alone have the same text, or are refused for the same reason.
pub build_blind :
    (s t : Select) → blank_select s ≡ blank_select t → script_of (build s) ≡ script_of (build t)
build_blind s t same = build-blank s ∙ (ap (λ u. script_of (build u)) same ∙ sym (build-blank t))

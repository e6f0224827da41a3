-- ===== src/Client/Naming.antt =====
-- src/client/follow.rs, `context`: what an answer says of the node that gave it.
use tessaridb_sdk_rust.Common.{
  ℕ, ◌≡◌, ◌∙◌, refl, ap, inl, inr, true, Option, none, some, List, [], ◌∷◌, ◌++◌, arith, Result, ok,
  err, Bool-cases,
}
use tessaridb_sdk_rust.Common.Utf8.{Text, literal}
use tessaridb_sdk_rust.Client.Follow.{
  Context, get, uuid_of, last, context_of, same_node, check_node, kept,
}
use tessaridb_sdk_rust.Error.{Error}
use tessaridb_sdk_rust.Refusal.Class.{text_eq}
use tessaridb_sdk_rust.Value.{Value, Fields, entries}
use tessaridb_sdk_rust.Wire.Answer.{Answer, Names}
use tessaridb_sdk_rust.Wire.Stream.{err-ne-ok}

text_eq_same : (xs ys : Text) → text_eq xs ys ≡ true → xs ≡ ys
unfolding text_eq
text_eq_same [] [] h = refl
text_eq_same [] (y ∷ ys) h = absurd cc
text_eq_same (x ∷ xs) [] h = absurd cc
text_eq_same (x ∷ xs) (y ∷ ys) h = ground (arith, text_eq_same xs ys)

same_node_found :
    (expected : List ℕ) (found : Option (List ℕ))
    → same_node expected found ≡ true
    → found ≡ some expected
unfolding same_node
same_node_found expected none h = absurd cc
same_node_found expected (some node) h = ap some (text_eq_same node expected h)

pub ok_injective : {A : Type 0} {a b : A} → ◌≡◌ {A = Result Error A} (ok a) (ok b) → a ≡ b
ok_injective e = cc

some_injective : {A : Type 0} {a b : A} → some a ≡ some b → a ≡ b
some_injective e = cc

pair : {A B : Type 0} {a a' : A} {b b' : B} → a ≡ a' → b ≡ b' → ◌≡◌ {A = A × B} (a, b) (a', b')
pair e f = cc

pub check_node-ok :
    (expected : List ℕ) (c : Context) → check_node expected c ≡ ok tt → c.node ≡ some expected
unfolding check_node
check_node-ok expected c h = elim (Bool-cases (same_node expected c.node)) [
  | inl same ↦ same_node_found expected c.node same
  | inr differs ↦ absurd (err-ne-ok (rw differs at h))
]

pub kept-ok :
    {A C : Type 0} (m : Result Error A × C) (x : A × C) → kept m ≡ ok x → m ≡ (ok x.0, x.1)
unfolding kept
kept-ok (ok a, c) x h = ap (λ p. (ok p.0, p.1)) (ok_injective h)
kept-ok (err e, c) x h = absurd (err-ne-ok h)

-- An answer whose last value is an object with this node in it.
pub record NamesNode (held : List Answer) (node : List ℕ) : Type 0 where
  pub earlier : List Answer
  pub fields : Fields
  pub names : Names
  pub before : List (Text × Value)
  pub behind : List (Text × Value)
  pub is_last : held ≡ earlier ++ Answer.value (Value.object fields) names ∷ []
  pub has_node : entries fields ≡ before ++ (literal "node", Value.uuid node) ∷ behind

get_found :
    (l : List (Text × Value)) (key : Text) (v : Value)
    → get l key ≡ some v
    → (before behind : List (Text × Value)) × (l ≡ before ++ (key, v) ∷ behind)
unfolding get
get_found [] key v h = absurd cc
get_found ((k, u) ∷ rest) key v h = elim (Bool-cases (text_eq k key)) [
  | inl same ↦ (
    [],
    rest,
    ap (λ p. p ∷ rest) (pair (text_eq_same k key same) (some_injective (rw same at h))),
  )
  | inr differs ↦
      (let (before, behind, e) = get_found rest key v (rw differs at h) in
        ((k, u) ∷ before, behind, ap (λ l. (k, u) ∷ l) e))
]

last_found :
    (held : List Answer) (a : Answer)
    → last held ≡ some a
    → (earlier : List Answer) × (held ≡ earlier ++ a ∷ [])
unfolding last
last_found [] a h = absurd cc
last_found (b ∷ []) a h = ([], ap (λ x. x ∷ []) (some_injective h))
last_found (b ∷ c ∷ rest) a h =
    let (earlier, e) = last_found (c ∷ rest) a h in (b ∷ earlier, ap (λ l. b ∷ l) e)

uuid_found : (m : Option Value) (node : List ℕ) → uuid_of m ≡ some node → m ≡ some (Value.uuid node)
unfolding uuid_of
uuid_found (some (Value.uuid found)) node h = ap (λ n. some (Value.uuid n)) (some_injective h)
uuid_found (some other) node h = absurd cc
uuid_found none node h = absurd cc

pub context_of-NamesNode :
    (l : Option Answer) (held : List Answer) (found : Context) (node : List ℕ)
    → last held ≡ l
    → context_of l ≡ ok found
    → found.node ≡ some node
    → NamesNode held node
unfolding context_of
context_of-NamesNode (some (Answer.value (Value.object fields) names)) held found node e h n =
    let (earlier, is_last) = last_found held (Answer.value (Value.object fields) names) e in
    let (before, behind, has) = get_found (entries fields) (literal "node") (Value.uuid node) (
      uuid_found (get (entries fields) (literal "node")) node
        (ap (λ c. c.node) (ok_injective h) ∙ n)) in
    record {
      earlier = earlier;
      fields = fields;
      names = names;
      before = before;
      behind = behind;
      is_last = is_last;
      has_node = has;
    }
context_of-NamesNode other held found node e h n = absurd cc

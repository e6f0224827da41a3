-- ===== src/Cache/Statements/Bound.antt =====
-- src/cache/statements.rs and src/cache/statements/containers.rs: what the statements refer to is bound.
pub mod Every
use tessaridb_sdk_rust.Common.{
  ℕ, zero, suc, ◌≡◌, ◌∙◌, ap, ◌&&◌, refl, Bool, true, false, Option, none, some, List, [], ◌∷◌,
  ◌++◌, ok, append_assoc, append-nil,
}
use tessaridb_sdk_rust.Common.Utf8.{Text, literal}
use tessaridb_sdk_rust.Cache.Statements
use tessaridb_sdk_rust.Cache.Statements.{
  Statements, new, spelled, key_given, keyed, given_if, expiry, prefix_clause, after_clause, held,
}
use tessaridb_sdk_rust.Cache.Statements.Calls.{Call, rendered}
use tessaridb_sdk_rust.Cache.Statements.Containers
use tessaridb_sdk_rust.Cache.Statements.Containers.{
  End, front, back, word, numbered, paired, comma, with_extra, listed, end_text, end_given,
}
use tessaridb_sdk_rust.Query.Decimal.{decimal}
use tessaridb_sdk_rust.Query.Names.{all_continue, continues_name, is_digit, opens_name, is_letter}
use tessaridb_sdk_rust.Query.Plain.{Gives, Gives-and_then, Gives-ok}
use tessaridb_sdk_rust.Statement.{Rendered, tenancy_of}
use tessaridb_sdk_rust.Statement.References.{
  name_at, references, names_of, is_among, all_among, is_bound, no_dollar, ends_name,
  references-append, references-reference, all_continue-append, all_continue-decimal,
  no_dollar-decimal, no_dollar-append, Gives-check_name, no_dollar-tenancy, is_bound_same,
}
use tessaridb_sdk_rust.Value.{Value}

-- The names in the statements were checked.
abbrev pub IsChecked : Statements → Type 0
IsChecked s = (no_dollar s.tenancy ≡ true) × (no_dollar s.space ≡ true)

pub new-IsChecked :
    (namespace database space : Text) → Gives IsChecked (new namespace database space)
unfolding new
new-IsChecked namespace database space =
    Gives-check_name IsChecked (literal "namespace") namespace _ λ hn.
      Gives-check_name IsChecked (literal "database") database _ λ hd.
        Gives-check_name IsChecked (literal "space") space _
          λ hs. (no_dollar-tenancy namespace database hn hd, hs)

-- The references of a statement are those behind the space.
pub references-spelled :
    (s : Statements) (before later : Text)
    → IsChecked s
    → no_dollar before ≡ true
    → references (spelled s before later) ≡ references later
unfolding spelled
references-spelled s before later h b =
    references-append s.tenancy (before ++ (s.space ++ later)) h.0
    ∙ (references-append before (s.space ++ later) b ∙ references-append s.space later h.1)

pub bound :
    (s : Statements) (before later : Text) (r : Rendered)
    → IsChecked s
    → no_dollar before ≡ true
    → r.0 ≡ spelled s before later
    → all_among (references later) (names_of r.1) && all_among (names_of r.1) (references later)
      ≡ true
    → is_bound r ≡ true
unfolding is_bound
bound s before later (script, given) h b e c = rw (e, references-spelled s before later h b) c

-- A list of parameters.
ends_name-numbered :
    (prefix : Text) (at : ℕ) (vs : List Value) (behind : Text)
    → ends_name behind ≡ true
    → ends_name ((numbered prefix (suc at) vs).0 ++ behind) ≡ true
unfolding numbered comma ends_name continues_name is_digit opens_name is_letter
ends_name-numbered prefix at [] behind h = h
ends_name-numbered prefix at (v ∷ vs) behind h = refl

references-comma : (at : ℕ) (behind : Text) → references (comma at ++ behind) ≡ references behind
unfolding comma references
references-comma zero behind = refl
references-comma (suc at) behind = refl

references-numbered :
    (prefix : Text) (at : ℕ) (vs : List Value) (behind : Text)
    → all_continue prefix ≡ true
    → ends_name behind ≡ true
    → references ((numbered prefix at vs).0 ++ behind)
      ≡ names_of (numbered prefix at vs).1 ++ references behind
unfolding numbered names_of
references-numbered prefix at [] behind h e = refl
references-numbered prefix at (v ∷ vs) behind h e =
    let name = prefix ++ decimal at in
    let written = (numbered prefix (suc at) vs).0 in
    rw
      (
        append_assoc (comma at) (b'$' ∷ (name ++ written)) behind,
        references-comma at ((b'$' ∷ (name ++ written)) ++ behind),
        append_assoc name written behind,
      )
      (references-reference name (written ++ behind)
          (all_continue-append prefix (decimal at) h (all_continue-decimal at))
          (ends_name-numbered prefix at vs behind e)
        ∙ ap (λ later. name ∷ later) (references-numbered prefix (suc at) vs behind h e))

-- A list of pairs of parameters.
ends_name-paired :
    (l r : Text) (at : ℕ) (vs : List (Value × Value)) (behind : Text)
    → ends_name behind ≡ true
    → ends_name ((paired l r (suc at) vs).0 ++ behind) ≡ true
unfolding paired comma ends_name continues_name is_digit opens_name is_letter
ends_name-paired l r at [] behind h = h
ends_name-paired l r at ((v, w) ∷ vs) behind h = refl

-- A reference that more text was written behind, before that was put in front of the rest.
reference_before :
    (name written behind : Text)
    → all_continue name ≡ true
    → ends_name (written ++ behind) ≡ true
    → references ((b'$' ∷ (name ++ written)) ++ behind) ≡ name ∷ references (written ++ behind)
reference_before name written behind h e =
    ap (λ t. references (b'$' ∷ t)) (append_assoc name written behind)
    ∙ references-reference name (written ++ behind) h e

equals_reference :
    (name written behind : Text)
    → all_continue name ≡ true
    → ends_name (written ++ behind) ≡ true
    → references ((literal " = $" ++ (name ++ written)) ++ behind)
      ≡ name ∷ references (written ++ behind)
unfolding references
equals_reference name written behind h e = reference_before name written behind h e

ends_here :
    (second written behind : Text)
    → ends_name ((literal " = $" ++ (second ++ written)) ++ behind) ≡ true
unfolding ends_name continues_name is_digit opens_name is_letter
ends_here second written behind = refl

references-paired :
    (l r : Text) (at : ℕ) (vs : List (Value × Value)) (behind : Text)
    → all_continue l ≡ true
    → all_continue r ≡ true
    → ends_name behind ≡ true
    → references ((paired l r at vs).0 ++ behind)
      ≡ names_of (paired l r at vs).1 ++ references behind
unfolding paired names_of
references-paired l r at [] behind hl hr e = refl
references-paired l r at ((v, w) ∷ vs) behind hl hr e =
    let written = (paired l r (suc at) vs).0 in
    let second = r ++ decimal at in
    let middle = literal " = $" ++ (second ++ written) in
    rw (
      append_assoc (comma at) (b'$' ∷ ((l ++ decimal at) ++ middle)) behind,
      references-comma at ((b'$' ∷ ((l ++ decimal at) ++ middle)) ++ behind),
      reference_before (l ++ decimal at) middle behind
          (all_continue-append l (decimal at) hl (all_continue-decimal at))
          (ends_here second written behind),
      equals_reference second written behind
          (all_continue-append r (decimal at) hr (all_continue-decimal at))
          (ends_name-paired l r at vs behind e),
      references-paired l r (suc at) vs behind hl hr e,
    )

-- A statement that ends with a list of parameters.
pub bound_listed :
    (s : Statements) (before between key : Text) (written : Text) (given : List (Text × Value))
    → IsChecked s
    → no_dollar before ≡ true
    → references (between ++ (written ++ literal ";"))
      ≡ literal "k" ∷ references (written ++ literal ";")
    → references (written ++ literal ";") ≡ names_of given ++ []
    → is_bound (listed s before between key (written, given)) ≡ true
unfolding listed names_of key_given
bound_listed s before between key written given h b k e = is_bound_same _ _ (
    references-spelled s before (between ++ (written ++ literal ";")) h b
    ∙ (k ∙ ap (λ names. literal "k" ∷ names) (e ∙ append-nil (names_of given))))

module _ (s : Statements) (h : IsChecked s) where
  pub numbered_bound :
      (before between key prefix : Text) (vs : List Value)
      → no_dollar before ≡ true
      → all_continue prefix ≡ true
      → ((written : Text)
          → references (between ++ (written ++ literal ";"))
            ≡ literal "k" ∷ references (written ++ literal ";"))
      → is_bound (listed s before between key (numbered prefix 0 vs)) ≡ true
  unfolding references ends_name continues_name is_digit opens_name is_letter
  numbered_bound before between key prefix vs b p k =
      bound_listed s before between key _ _ h b (k (numbered prefix 0 vs).0)
        (references-numbered prefix 0 vs (literal ";") p refl)

  pub paired_bound :
      (before between key l r : Text) (vs : List (Value × Value))
      → no_dollar before ≡ true
      → all_continue l ≡ true
      → all_continue r ≡ true
      → ((written : Text)
          → references (between ++ (written ++ literal ";"))
            ≡ literal "k" ∷ references (written ++ literal ";"))
      → is_bound (listed s before between key (paired l r 0 vs)) ≡ true
  unfolding references ends_name continues_name is_digit opens_name is_letter
  paired_bound before between key l r vs b p q k =
      bound_listed s before between key _ _ h b (k (paired l r 0 vs).0)
        (references-paired l r 0 vs (literal ";") p q refl)

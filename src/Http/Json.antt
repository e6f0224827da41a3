-- ===== src/Http/Json.antt =====
-- serde_json, as src/http/ uses it, and the JSON bodies that are read: refusals (src/http/mod.rs) and
-- conditions (src/http/condition.rs). The library is not part of the repository: it is a parameter.
use tessaridb_sdk_rust.Common.{
  ℕ, Option, none, some, List, Result, ok, err, bind as and_then, ok_or, if◌then◌else◌,
}
use tessaridb_sdk_rust.Common.Utf8.{Text, literal}
use tessaridb_sdk_rust.Error.{Error, malformed, http_refused}
use tessaridb_sdk_rust.Refusal.Class.{RefusalClass, from_word, text_eq}

-- `trimmed` is `String::from_utf8_lossy(…).trim()`.
pub record JsonLibrary : Type 1 where
  pub Json : Type 0
  pub from_slice : List ℕ → Option Json
  pub get : Json → Text → Option Json
  pub as_str : Json → Option Text
  pub as_u64 : Json → Option ℕ
  pub trimmed : List ℕ → Text

-- `and_then` of an `Option`.
unfoldable pub chain : {A B : Type 0} → Option A → (A → Option B) → Option B
chain none next = none
chain (some a) next = next a

unfoldable pub or_other : {A : Type 0} → Option A → A → A
or_other none other = other
or_other (some a) other = a

unfoldable pub class_of : Option Text → Option RefusalClass
class_of none = none
class_of (some word) = some (from_word word)

pub data Condition : Type 0 where
  well : ℕ → Condition
  unwell : ℕ → ℕ → Text → Condition
  leaving : Condition

module _ (json : JsonLibrary) where
  open json use {Json, from_slice, get, as_str, as_u64, trimmed}

  unfoldable pub code : List ℕ → Option RefusalClass
  unfolding chain class_of
  code body =
      class_of
        (chain (chain (from_slice body) λ held. get held (literal "code")) λ held. as_str held)

  unfoldable pub sentence : List ℕ → Text
  unfolding chain or_other
  sentence body =
      or_other
        (chain (chain (from_slice body) λ held. get held (literal "error")) λ held. as_str held)
        (trimmed body)

  unfoldable pub refusal : ℕ → List ℕ → Error
  unfolding code sentence
  refusal status body = http_refused status (sentence body) (code body)

  unfoldable pub number : Json → Text → Result Error ℕ
  unfolding chain
  number held field = ok_or malformed (chain (get held field) λ found. as_u64 found)

  unfoldable pub condition_for : Json → Option Text → Result Error Condition
  unfolding number chain
  condition_for held none = err malformed
  condition_for held (some status) =
      let well_one =
        and_then (number held (literal "committed")) λ committed. ok (well committed) in
      let unwell_one = and_then (number held (literal "committed")) λ committed.
        and_then (number held (literal "background_errors")) λ background_errors.
          and_then (ok_or malformed (chain (get held (literal "complaint")) λ found. as_str found))
            λ complaint. ok (unwell committed background_errors complaint) in
      if text_eq status (literal "ok")
      then well_one
      else if text_eq status (literal "unwell")
      then unwell_one
      else if text_eq status (literal "leaving")
      then ok leaving
      else err malformed

  unfoldable pub condition : List ℕ → Result Error Condition
  unfolding condition_for chain
  condition body =
      and_then (ok_or malformed (from_slice body))
        λ held. condition_for held (chain (get held (literal "status")) λ found. as_str found)

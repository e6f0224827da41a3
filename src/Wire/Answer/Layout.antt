-- ===== src/Wire/Answer/Layout.antt =====
-- src/wire/message.rs, the layout of a `Records` outcome: what a node sends, with the fields that later
-- protocols appended.
use tessaridb_sdk_rust.Common.{
  ℕ, Bool, true, false, Option, none, some, List, [], ◌∷◌, ◌++◌, length, All, put_each,
}
use tessaridb_sdk_rust.Common.Utf8.{Text}
use tessaridb_sdk_rust.Common.SortedMap.{number_order, IsSorted}
use tessaridb_sdk_rust.Codec.Write.{encode as encode_value}
use tessaridb_sdk_rust.Value.{Value}
use tessaridb_sdk_rust.Value.Valid.{IsU32, IsShortText}
use tessaridb_sdk_rust.Wire.Body.{put_u32, put_bytes, put_text}
use tessaridb_sdk_rust.Wire.Body.RoundTrip.{IsCarried}
use tessaridb_sdk_rust.Wire.Answer.{
  Names, Exact, exact, not_exact, Correction, Suggested, not_sought, nothing_nearer, did_you_mean,
  Note, Records, Answer, found, path_name,
}

-- A node of some version sends these many of the appended fields, in this order. The bytes of the
-- last are those of a protocol that this client does not know.
pub data Later : Type 0 where
  silent : Later
  noted : List Note → Later
  noted_only : List Note → Bool → Later
  noted_exact : List Note → Bool → Exact → Later
  noted_suggested : List Note → Bool → Exact → Suggested → List ℕ → Later

-- The layout that the protocol gives.
abbrev pub counted : {A : Type 0} → (A → List ℕ) → List A → List ℕ
counted put xs = put_u32 (length xs) ++ put_each put xs

abbrev pub put_name : ℕ × Text → List ℕ
put_name (table, name) = put_u32 table ++ put_text name

abbrev pub put_record : Text × Value → List ℕ
put_record (id, v) = put_text id ++ put_bytes (encode_value v)

abbrev pub put_note : Note → List ℕ
put_note n = put_text n.kind ++ put_text n.message

abbrev pub put_correction : Correction → List ℕ
put_correction c = put_text c.typed ++ put_text c.instead

abbrev pub put_flag : Bool → ℕ
put_flag false = 0
put_flag true = 1

abbrev pub put_exact : Exact → List ℕ
put_exact exact = 0 ∷ put_text []
put_exact (not_exact reason) = 1 ∷ put_text reason

abbrev pub put_suggested : Suggested → List ℕ
put_suggested not_sought = 0 ∷ []
put_suggested nothing_nearer = 1 ∷ []
put_suggested (did_you_mean cs) = 2 ∷ counted put_correction cs

unfoldable pub put_later : Later → List ℕ
put_later silent = []
put_later (noted ns) = counted put_note ns
put_later (noted_only ns o) = counted put_note ns ++ put_flag o ∷ []
put_later (noted_exact ns o e) = counted put_note ns ++ put_flag o ∷ put_exact e
put_later (noted_suggested ns o e s more) =
    counted put_note ns ++ put_flag o ∷ (put_exact e ++ (put_suggested s ++ more))

unfoldable pub records_outcome : ℕ → Names → List (Text × Value) → Later → List ℕ
records_outcome path names records later =
    1 ∷ path ∷ (counted put_name names ++ (counted put_record records ++ put_later later))

-- What such an outcome says.
abbrev pub answered : ℕ → Names → List (Text × Value) → Later → Answer
answered path names records later = found (said later)
  where
    with_fields : List Note → Bool → Option Exact → Option Suggested → Records
    with_fields ns o e s = record {
      records = records;
      path = path_name path;
      names = names;
      notes = ns;
      only = o;
      exact = e;
      suggestion = s;
    }

    said : Later → Records
    said silent = with_fields [] false none none
    said (noted ns) = with_fields ns false none none
    said (noted_only ns o) = with_fields ns o none none
    said (noted_exact ns o e) = with_fields ns o (some e) none
    said (noted_suggested ns o e s more) = with_fields ns o (some e) (some s)

abbrev pub IsNote : Note → Type 0
IsNote n = IsShortText n.kind × IsShortText n.message

abbrev pub IsCorrection : Correction → Type 0
IsCorrection c = IsShortText c.typed × IsShortText c.instead

abbrev pub AreNotes : List Note → Type 0
AreNotes ns = IsU32 (length ns) × All IsNote ns

abbrev pub IsExact : Exact → Type 0
IsExact exact = Unit {0}
IsExact (not_exact reason) = IsShortText reason

abbrev pub IsSuggested : Suggested → Type 0
IsSuggested not_sought = Unit {0}
IsSuggested nothing_nearer = Unit {0}
IsSuggested (did_you_mean cs) = IsU32 (length cs) × All IsCorrection cs

abbrev pub IsLater : Later → Type 0
IsLater silent = Unit {0}
IsLater (noted ns) = AreNotes ns
IsLater (noted_only ns o) = AreNotes ns
IsLater (noted_exact ns o e) = AreNotes ns × IsExact e
IsLater (noted_suggested ns o e s more) = AreNotes ns × IsExact e × IsSuggested s

abbrev pub AreNames : Names → Type 0
AreNames names =
    IsU32 (length names) × IsSorted names × All (λ entry. IsU32 entry.0 × IsShortText entry.1) names

abbrev pub AreRecords : List (Text × Value) → Type 0
AreRecords records =
    IsU32 (length records) × All (λ entry. IsShortText entry.0 × IsCarried entry.1) records

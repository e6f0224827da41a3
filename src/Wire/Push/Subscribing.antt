-- ===== src/Wire/Push/Subscribing.antt =====
-- src/wire/push.rs, `Follow::encode`, against the layout of a subscription as a node reads it.
use tessaridb_sdk_rust.Common.{
  ℕ, ◌≡◌, ◌≢◌, refl, ap, Option, none, some, List, [], ◌∷◌, ◌++◌, append-nil, arith, ◌==◌,
  if◌then◌else◌, Result, ok, err, pure, lift, ◌>>=◌, Reads, Reads-bind, Reads-map,
}
use tessaridb_sdk_rust.Common.Bytes.{to_be_bytes}
use tessaridb_sdk_rust.Common.Utf8.{Text, valid_utf8}
use tessaridb_sdk_rust.Codec.Write.{encode as encode_value}
use tessaridb_sdk_rust.Error.{Error, malformed}
use tessaridb_sdk_rust.Value.{Value, entries, of_entries}
use tessaridb_sdk_rust.Value.Valid.{IsU64, IsShortText}
use tessaridb_sdk_rust.Wire.Body.{
  Body, put_u32, put_text, put_bytes, take_u8, take_u64, take_text, take_encoded, if_more,
}
use tessaridb_sdk_rust.Wire.Body.RoundTrip.{
  IsCarried, take_u8-Reads, take_u64-Reads, take_text-Reads, take_encoded-Reads,
}
use tessaridb_sdk_rust.Wire.Push.{Follow, put_table, put_cursor, put_condition, encode}

abbrev pub read_table : ℕ → Body (Option Text)
read_table flag = if flag == 0 then pure none else (take_text >>= λ name. pure (some name))

-- An empty cursor only fills the place of one.
abbrev pub unless_blank : Text → Option Text
unless_blank [] = none
unless_blank (c ∷ cs) = some (c ∷ cs)

abbrev pub read_cursor : Body (Option Text)
read_cursor = if_more none (take_text >>= λ t. pure (unless_blank t))

abbrev pub fields_of : Value → Result Error (List (Text × Value))
fields_of (Value.object fields) = ok (entries fields)
fields_of other = err malformed

abbrev pub read_condition : Body (Option Text × List (Text × Value))
read_condition =
    if_more (none, [])
      (take_text >>= λ text.
        take_encoded >>= λ held. lift (fields_of held) >>= λ fields. pure (some text, fields))

unfoldable pub read_follow : Body Follow
read_follow = take_u64 >>= λ from. (take_u8 >>= read_table) >>= λ table. read_cursor >>= λ cursor.
    read_condition >>= λ (condition, parameters). pure (record {
      from = from;
      table = table;
      cursor = cursor;
      condition = condition;
      parameters = parameters;
    })

abbrev pub IsTable : Option Text → Type 0
IsTable none = Unit {0}
IsTable (some name) = IsShortText name

abbrev pub IsResumption : Option Text → Type 0
IsResumption none = Unit {0}
IsResumption (some cursor) = IsShortText cursor × (cursor ≢ [])

-- Parameters are those of a condition.
abbrev pub IsCondition : Option Text → List (Text × Value) → Type 0
IsCondition none parameters = parameters ≡ []
IsCondition (some text) parameters =
    IsShortText text × IsCarried (Value.object (of_entries parameters))

pub record IsFollow (f : Follow) : Type 0 where
  pub from : IsU64 f.from
  pub table : IsTable f.table
  pub cursor : IsResumption f.cursor
  pub condition : IsCondition f.condition f.parameters

entries-of_entries : (ps : List (Text × Value)) → entries (of_entries ps) ≡ ps
unfolding entries of_entries
entries-of_entries [] = refl
entries-of_entries ((k, v) ∷ ps) = ap (λ rest. (k, v) ∷ rest) (entries-of_entries ps)

read_table-Reads : (t : Option Text) → IsTable t → Reads (take_u8 >>= read_table) (put_table t) t
unfolding put_table
read_table-Reads none h = Reads-bind _ (take_u8-Reads 0) (record { reads = λ rest. refl })
read_table-Reads (some name) h =
    Reads-bind _ (take_u8-Reads 1) (Reads-map some (take_text-Reads name h))

-- A text is never empty on the wire, whatever follows it.
if_more-put_text :
    {A : Type 0} (absent : A) (read : Body A) (t : Text) (rest : List ℕ)
    → if_more absent read (put_text t ++ rest) ≡ read (put_text t ++ rest)
unfolding if_more put_text put_bytes put_u32 to_be_bytes
if_more-put_text absent read t rest = refl

unless_blank-some : (t : Text) → t ≢ [] → unless_blank t ≡ some t
unless_blank-some [] h = absurd (h refl)
unless_blank-some (c ∷ cs) h = refl

empty_text : IsShortText []
unfolding valid_utf8
empty_text = (record { bytes = tt; utf8 = refl }, omega arith)

read_cursor-put_cursor :
    (cursor condition : Option Text) (later : List ℕ)
    → IsResumption cursor
    → (condition ≡ none → later ≡ [])
    → read_cursor (put_cursor cursor condition ++ later) ≡ ok (cursor, later)
unfolding put_cursor
read_cursor-put_cursor (some cursor) condition later h k = rw (
  if_more-put_text none (take_text >>= λ t. pure (unless_blank t)) cursor later,
  (take_text-Reads cursor h.0).reads later,
  unless_blank-some cursor h.1,
)
read_cursor-put_cursor none (some condition) later h k = rw (
  if_more-put_text none (take_text >>= λ t. pure (unless_blank t)) [] later,
  (take_text-Reads [] empty_text).reads later,
)
read_cursor-put_cursor none none later h k = rw (k refl) (unfold if_more in refl)

put_condition-none :
    (condition : Option Text) (ps : List (Text × Value))
    → condition ≡ none
    → put_condition condition ps ≡ []
unfolding put_condition
put_condition-none none ps h = refl
put_condition-none (some t) ps h = absurd cc

read_condition-put_condition :
    (condition : Option Text) (ps : List (Text × Value))
    → IsCondition condition ps
    → read_condition (put_condition condition ps) ≡ ok ((condition, ps), [])
unfolding put_condition
read_condition-put_condition none ps h = rw h (unfold if_more in refl)
read_condition-put_condition (some text) ps h =
    let absent : Option Text × List (Text × Value) = (none, []) in
    let held = put_bytes (encode_value (Value.object (of_entries ps))) in
    rw (
      if_more-put_text absent
          (take_text >>= λ t.
            take_encoded >>= λ v. lift (fields_of v) >>= λ fields. pure (some t, fields))
          text held,
      (take_text-Reads text h.0).reads held,
      ← append-nil held,
      (take_encoded-Reads (Value.object (of_entries ps)) h.1).reads [],
      entries-of_entries ps,
    )

-- A node reads from a subscription's body where to start, the table, the cursor, and the condition
-- with its parameters, exactly as they were asked for, and nothing is left over. Parameters are those
-- of a condition, and a cursor is not empty.
pub read_follow-encode : (f : Follow) → IsFollow f → read_follow (encode f) ≡ ok (f, [])
unfolding read_follow encode
read_follow-encode f h = rw (
  (take_u64-Reads f.from h.from).reads _,
  (read_table-Reads f.table h.table).reads _,
  read_cursor-put_cursor f.cursor f.condition (put_condition f.condition f.parameters) h.cursor
      (put_condition-none f.condition f.parameters),
  read_condition-put_condition f.condition f.parameters h.condition,
)

-- ===== src/Wire/Push/RoundTrip.antt =====
-- src/wire/push.rs against the layouts of the change and the progress frame.
use tessaridb_sdk_rust.Common.{
  ℕ, ◌<◌, ◌≡◌, refl, ◌∙◌, Option, none, some, List, [], ◌∷◌, ◌++◌, arith, append-nil, ok, ◌>>=◌,
  Reads, Reads-bind, Reads-map, eq-ne, err,
}
use tessaridb_sdk_rust.Error.{malformed}
use tessaridb_sdk_rust.Common.Utf8.{Text}
use tessaridb_sdk_rust.Codec.Write.{encode as encode_value}
use tessaridb_sdk_rust.Common.Bytes.{to_be_bytes}
use tessaridb_sdk_rust.Value.Valid.{IsU64, IsShortText}
use tessaridb_sdk_rust.Wire.Body.{put_u32, put_u64, put_bytes, put_text, take_u8, if_more}
use tessaridb_sdk_rust.Wire.Body.RoundTrip.{
  IsCarried, take_u8-Reads, take_u64-Reads, take_text-Reads, take_encoded-Reads,
}
use tessaridb_sdk_rust.Wire.Push.{
  Became, written, removed, Change, Progress, take_became, take_cursor, take_change, decode_change,
  take_progress, decode_progress,
}

abbrev pub IsCursor : Option Text → Type 0
IsCursor none = Unit {0}
IsCursor (some t) = IsShortText t

abbrev pub IsBecame : Became → Type 0
IsBecame (written v) = IsCarried v
IsBecame removed = Unit {0}

pub record IsChange (c : Change) : Type 0 where
  pub sequence : IsU64 c.sequence
  pub table : IsShortText c.table
  pub id : IsShortText c.id
  pub became : IsBecame c.became
  pub cursor : IsCursor c.cursor

-- The layouts that the protocol gives.
abbrev pub became_bytes : Became → List ℕ
became_bytes (written v) = 0 ∷ put_bytes (encode_value v)
became_bytes removed = 1 ∷ []

abbrev pub cursor_bytes : Option Text → List ℕ
cursor_bytes none = []
cursor_bytes (some t) = put_text t

unfoldable pub change_body : Change → List ℕ
change_body c =
    put_u64 c.sequence
    ++ (put_text c.table ++ (put_text c.id ++ (became_bytes c.became ++ cursor_bytes c.cursor)))

unfoldable pub progress_body : Progress → List ℕ
progress_body p = put_u64 p.sequence ++ cursor_bytes p.cursor

take_became-Reads : (b : Became) → IsBecame b → Reads (take_u8 >>= take_became) (became_bytes b) b
unfolding take_became
take_became-Reads (written v) h =
    Reads-bind _ (take_u8-Reads 0) (Reads-map written (take_encoded-Reads v h))
take_became-Reads removed h = Reads-bind _ (take_u8-Reads 1) (record { reads = λ rest. refl })

-- A text is never empty on the wire, so a cursor that is there is seen.
if_more-text :
    {A : Type 0} (absent : A) (read : _) (t : Text)
    → if_more absent read (put_text t) ≡ read (put_text t)
unfolding if_more put_text put_bytes put_u32 to_be_bytes
if_more-text absent read t = refl

take_cursor-bytes : (c : Option Text) → IsCursor c → take_cursor (cursor_bytes c) ≡ ok (c, [])
unfolding take_cursor
take_cursor-bytes none h = unfold if_more in refl
take_cursor-bytes (some t) h =
    if_more-text none _ t ∙ rw (rw (append-nil (put_text t)) at ((take_text-Reads t h).reads []))

-- Every change is read back from its frame's body.
pub decode_change-body : (c : Change) → IsChange c → decode_change (change_body c) ≡ ok c
unfolding decode_change take_change change_body
decode_change-body c h = rw (
  (take_u64-Reads c.sequence h.sequence).reads _,
  (take_text-Reads c.table h.table).reads _,
  (take_text-Reads c.id h.id).reads _,
  (take_became-Reads c.became h.became).reads _,
  take_cursor-bytes c.cursor h.cursor,
)

-- How far a narrowed feed read is read back from its frame's body.
pub decode_progress-body :
    (p : Progress) → IsU64 p.sequence → IsCursor p.cursor → decode_progress (progress_body p) ≡ ok p
unfolding decode_progress take_progress progress_body
decode_progress-body p h k =
    rw ((take_u64-Reads p.sequence h).reads _, take_cursor-bytes p.cursor k)

-- A byte that is neither a write nor a removal makes the change malformed, whatever follows.
pub decode_change_unknown :
    (sequence byte : ℕ) (table id : Text) (later : List ℕ)
    → IsU64 sequence
    → IsShortText table
    → IsShortText id
    → 1 < byte
    → decode_change (put_u64 sequence ++ (put_text table ++ (put_text id ++ byte ∷ later)))
      ≡ err malformed
unfolding decode_change take_change take_became
decode_change_unknown sequence byte table id later s t i h = rw (
  (take_u64-Reads sequence s).reads _,
  (take_text-Reads table t).reads _,
  (take_text-Reads id i).reads _,
  (take_u8-Reads byte).reads later,
  eq-ne byte 0 (omega arith),
  eq-ne byte 1 (omega arith),
)

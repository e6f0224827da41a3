-- ===== src/Wire/Answer/Appended.antt =====
-- src/wire/message.rs, `Answer::Records`: the fields that later protocols appended to the frame. Each
-- is read if it is there, and its absence is no claim.
use tessaridb_sdk_rust.Common.{
  ℕ, ◌≡◌, refl, ◌∙◌, Bool, true, false, not, none, some, List, [], ◌∷◌, ◌++◌, arith, append_assoc,
  append-nil, length, All, ◌==◌, ok, bind, pure, ◌>>=◌, take_each, put_each, take_each-Reads, Reads,
  Reads-bind, Reads-map,
}
use tessaridb_sdk_rust.Common.Bytes.{to_be_bytes}
use tessaridb_sdk_rust.Common.Utf8.{Text, valid_utf8}
use tessaridb_sdk_rust.Common.SortedMap.{
  number_order, IsSorted, Before, Before-nil, Before-snoc, insert-Below,
}
use tessaridb_sdk_rust.Error.{Error}
use tessaridb_sdk_rust.Value.{Value}
use tessaridb_sdk_rust.Value.Valid.{IsU32, IsShortText}
use tessaridb_sdk_rust.Wire.Body.{put_u32, put_text, take_u8, take_u32, if_more}
use tessaridb_sdk_rust.Wire.Body.RoundTrip.{
  IsCarried, take_u8-Reads, take_u32-Reads, take_text-Reads, take_encoded-Reads,
}
use tessaridb_sdk_rust.Wire.Answer.{
  Names, Exact, exact, not_exact, Correction, Suggested, not_sought, nothing_nearer, did_you_mean,
  Note, take_names_into, take_names, take_record, take_note, take_correction, take_exact,
  take_suggested, take_appended, take_records, decode_tagged, decode_one, decode_outcome,
}
use tessaridb_sdk_rust.Wire.Answer.Layout.{
  Later, silent, noted, noted_only, noted_exact, noted_suggested, counted, put_name, put_record,
  put_note, put_correction, put_flag, put_exact, put_suggested, put_later, records_outcome,
  answered, IsNote, IsCorrection, AreNotes, IsExact, IsSuggested, IsLater, AreNames, AreRecords,
}

-- A counted list of members that are each read back.
counted-Reads :
    {A : Type 0} (read : _) (put : A → List ℕ) (P : A → Type 0)
    → ((x : A) → P x → Reads {E = Error} read (put x) x)
    → (xs : List A) → IsU32 (length xs)
    → All P xs
    → Reads (take_u32 >>= take_each read) (counted put xs) xs
counted-Reads read put P member xs n h =
    Reads-bind _ (take_u32-Reads (length xs) n) (take_each-Reads read put P member xs h)

take_note-Reads : (n : Note) → IsNote n → Reads take_note (put_note n) n
unfolding take_note
take_note-Reads n h =
    Reads-bind _ (take_text-Reads n.kind h.0)
      (Reads-map (λ message. record n { message = message }) (take_text-Reads n.message h.1))

take_correction-Reads :
    (c : Correction) → IsCorrection c → Reads take_correction (put_correction c) c
unfolding take_correction
take_correction-Reads c h =
    Reads-bind _ (take_text-Reads c.typed h.0)
      (Reads-map (λ instead. record c { instead = instead }) (take_text-Reads c.instead h.1))

take_record-Reads :
    (entry : Text × Value)
    → IsShortText entry.0 × IsCarried entry.1
    → Reads take_record (put_record entry) entry
unfolding take_record
take_record-Reads (id, v) h =
    Reads-bind _ (take_text-Reads id h.0)
      (Reads-map (λ value. let e : Text × Value = (id, value) in e) (take_encoded-Reads v h.1))

take_names_into-Reads :
    (held names : Names)
    → IsSorted names
    → Before held names
    → All (λ entry. IsU32 entry.0 × IsShortText entry.1) names
    → Reads (take_names_into held (length names)) (put_each put_name names) (held ++ names)
unfolding take_names_into put_each
take_names_into-Reads held [] s b h = record { reads = λ rest. rw append-nil }
take_names_into-Reads held ((table, name) ∷ names) s b h =
    rw (append_assoc (put_u32 table) (put_text name) (put_each put_name names)) (
      Reads-bind _ (take_u32-Reads table h.0.0) (
        Reads-bind _ (take_text-Reads name h.0.1) (
          rw (insert-Below table name held b.0, ← append_assoc held ((table, name) ∷ []) names)
            (take_names_into-Reads (held ++ (table, name) ∷ []) names s.1
              (Before-snoc table name held names b.1 s.0) h.1))))

take_names-Reads :
    (names : Names) → AreNames names → Reads take_names (counted put_name names) names
unfolding take_names
take_names-Reads names h =
    Reads-bind _ (take_u32-Reads (length names) h.0)
      (take_names_into-Reads [] names h.1 (Before-nil names) h.2)

-- A field that begins with four bytes of a count, or with any byte, is there.
if_more-counted :
    {A B : Type 0} (absent : A) (read : _) (put : B → List ℕ) (xs : List B) (rest : List ℕ)
    → if_more absent read (counted put xs ++ rest) ≡ read (counted put xs ++ rest)
unfolding if_more put_u32 to_be_bytes
if_more-counted absent read put xs rest = refl

notes-read :
    (ns : List Note) (rest : List ℕ)
    → AreNotes ns
    → if_more [] (take_u32 >>= take_each take_note) (counted put_note ns ++ rest) ≡ ok (ns, rest)
notes-read ns rest h =
    if_more-counted [] _ put_note ns rest
    ∙ (counted-Reads take_note put_note IsNote take_note-Reads ns h.0 h.1).reads rest

only-read :
    (o : Bool) (rest : List ℕ)
    → if_more false (take_u8 >>= λ b. pure (not (b == 0))) (put_flag o ∷ rest) ≡ ok (o, rest)
unfolding if_more
only-read true rest = rw ((take_u8-Reads 1).reads rest)
only-read false rest = rw ((take_u8-Reads 0).reads rest)

empty_text : IsShortText []
unfolding valid_utf8
empty_text = (record { bytes = tt; utf8 = refl }, omega arith)

exact-read :
    (e : Exact) (rest : List ℕ)
    → IsExact e
    → if_more none take_exact (put_exact e ++ rest) ≡ ok (some e, rest)
unfolding if_more take_exact
exact-read exact rest h = rw ((take_u8-Reads 0).reads _, (take_text-Reads [] empty_text).reads rest)
exact-read (not_exact reason) rest h =
    rw ((take_u8-Reads 1).reads _, (take_text-Reads reason h).reads rest)

suggested-read :
    (s : Suggested) (rest : List ℕ)
    → IsSuggested s
    → if_more none (take_u8 >>= take_suggested) (put_suggested s ++ rest) ≡ ok (some s, rest)
unfolding if_more take_suggested
suggested-read not_sought rest h = rw ((take_u8-Reads 0).reads rest)
suggested-read nothing_nearer rest h = rw ((take_u8-Reads 1).reads rest)
suggested-read (did_you_mean cs) rest h = rw (
  (take_u8-Reads 2).reads _,
  (counted-Reads take_correction put_correction IsCorrection take_correction-Reads cs h.0 h.1).reads
      rest,
)

notes-read_last :
    (ns : List Note)
    → AreNotes ns
    → if_more [] (take_u32 >>= take_each take_note) (counted put_note ns) ≡ ok (ns, [])
notes-read_last ns h = rw (append-nil (counted put_note ns)) at (notes-read ns [] h)

exact-read_last : (e : Exact) → IsExact e → if_more none take_exact (put_exact e) ≡ ok (some e, [])
exact-read_last e h = rw (append-nil (put_exact e)) at (exact-read e [] h)

take_appended-later :
    (path : ℕ) (names : Names) (records : List (Text × Value)) (later : Later)
    → IsLater later
    → bind (take_appended path names records (put_later later)) (λ (answer, left). ok answer)
      ≡ ok (answered path names records later)
unfolding take_appended put_later
take_appended-later path names records silent h = unfold if_more in refl
take_appended-later path names records (noted ns) h =
    rw (notes-read_last ns h) (unfold if_more in refl)
take_appended-later path names records (noted_only ns o) h =
    rw (notes-read ns _ h, only-read o []) (unfold if_more in refl)
take_appended-later path names records (noted_exact ns o e) h =
    rw (notes-read ns _ h.0, only-read o _, exact-read_last e h.1) (unfold if_more in refl)
take_appended-later path names records (noted_suggested ns o e s more) h =
    rw (notes-read ns _ h.0, only-read o _, exact-read e _ h.1, suggested-read s more h.2)

-- A `Records` outcome of a node of any version is read whole: its records, its tables' names, and
-- the appended fields that it sent. A field that it did not send reads as absent, so silence about
-- exactness is never read as a promise, and what comes after the fields is skipped.
pub decode_outcome-records :
    (path : ℕ) (names : Names) (records : List (Text × Value)) (later : Later)
    → AreNames names
    → AreRecords records
    → IsLater later
    → decode_outcome (records_outcome path names records later)
      ≡ ok (answered path names records later)
unfolding decode_outcome decode_one decode_tagged take_records records_outcome
decode_outcome-records path names records later n r h =
    rw
      (
        (take_u8-Reads 1).reads _,
        (take_u8-Reads path).reads _,
        (take_names-Reads names n).reads _,
        (counted-Reads take_record put_record (λ entry. IsShortText entry.0 × IsCarried entry.1)
              take_record-Reads records r.0 r.1).reads
            _,
      )
      (take_appended-later path names records later h)

-- ===== src/Codec/RoundTrip/Values.antt =====
-- Every value is read back, by induction on the value.
use tessaridb_sdk_rust.Common.{
  ℕ, zero, suc, ◌≤◌, ◌<◌, ◌≡◌, refl, ap, Bool, true, false, List, [], ◌∷◌, ◌++◌, arith,
  append_assoc, append-nil, pure, ◌>>=◌, Reads, Reads-bind, Reads-map, not, ◌==◌,
}
use tessaridb_sdk_rust.Common.SortedMap.{
  text_order, IsSorted, Before, Before-nil, Before-snoc, insert-Below,
}
use tessaridb_sdk_rust.Common.Utf8.{Text}
use tessaridb_sdk_rust.Codec.Write.{put_value, put_items, put_fields, put_bound, put_u32, count_of}
use tessaridb_sdk_rust.Codec.Tag
use mathlib.Core.Path.{subst}
use tessaridb_sdk_rust.Codec.Reader.{Reader}
use tessaridb_sdk_rust.Codec.Read.{
  take_items, take_entries, take_bound_of, take_bound, take_range, take_tagged, take_value,
}
use tessaridb_sdk_rust.Codec.RoundTrip.Words.{
  take_u8-Reads, take_fixed-Reads, take_u32-Reads, take_count-Reads, take_lenbytes-Reads,
  take_text-Reads, take_time-Reads,
}
use tessaridb_sdk_rust.Codec.RoundTrip.Parts.{
  take_number-Reads, take_reference-Reads, take_geometry-Reads,
}
use tessaridb_sdk_rust.Value.{
  Value, Items, Fields, Bound, no_items, item, no_fields, field, length_items, length_fields,
  entries, of_entries,
}
use tessaridb_sdk_rust.Value.Valid.{
  IsValid, AreValid, AreFields, IsBound, depth, depth_items, depth_fields, depth_bound,
}

of_entries-entries : (fs : Fields) → of_entries (entries fs) ≡ fs
unfolding entries of_entries
of_entries-entries no_fields = refl
of_entries-entries (field k v fs) = ap (field k v) (of_entries-entries fs)

depth_pos : (v : Value) → 0 < depth v
unfolding depth
depth_pos (Value.array _) = omega arith
depth_pos _ = omega arith

-- A pair that is read, and then made into a value.
pair_map :
    {A B : Type 0} {p : Reader (A × B)} (g : A → B → Value) {printed : List ℕ} {a : A} {b : B}
    → Reads p printed (a, b)
    → Reads (p >>= λ t. pure (g t.0 t.1)) printed (g a b)
pair_map g h = record { reads = λ rest. rw (h.reads rest) }

take_bool-Reads :
    (flag : Bool) (room : ℕ)
    → Reads (take_value (suc room)) (put_value (Value.bool flag)) (Value.bool flag)
unfolding take_value take_tagged put_value
take_bool-Reads true room =
    Reads-bind _ (take_u8-Reads _) (Reads-map (λ b. Value.bool (not (b == 0))) (take_u8-Reads 1))
take_bool-Reads false room =
    Reads-bind _ (take_u8-Reads _) (Reads-map (λ b. Value.bool (not (b == 0))) (take_u8-Reads 0))

mutual
  unfolding take_value take_tagged put_value IsValid depth take_items take_entries take_bound
      take_bound_of take_range length_items length_fields entries

  take_value-Reads_in :
      (v : Value) (room : ℕ) → IsValid v → depth v ≤ room → Reads (take_value room) (put_value v) v
  take_value-Reads_in v zero h d = absurd (omega (arith, depth_pos v))
  take_value-Reads_in Value.none (suc room) h d =
      Reads-bind _ (take_u8-Reads _) (record { reads = λ rest. refl })
  take_value-Reads_in Value.null (suc room) h d =
      Reads-bind _ (take_u8-Reads _) (record { reads = λ rest. refl })
  take_value-Reads_in (Value.bool flag) (suc room) h d = take_bool-Reads flag room
  take_value-Reads_in (Value.number n) (suc room) h d =
      Reads-bind _ (take_u8-Reads _) (Reads-map Value.number (take_number-Reads n h))
  take_value-Reads_in (Value.string t) (suc room) h d =
      Reads-bind _ (take_u8-Reads _) (Reads-map Value.string (take_text-Reads t h))
  take_value-Reads_in (Value.bytes bs) (suc room) h d =
      Reads-bind _ (take_u8-Reads _) (Reads-map Value.bytes (take_lenbytes-Reads bs h.1))
  take_value-Reads_in (Value.duration seconds nanos) (suc room) h d =
      Reads-bind _ (take_u8-Reads _) (pair_map Value.duration (take_time-Reads seconds nanos h))
  take_value-Reads_in (Value.datetime seconds nanos) (suc room) h d =
      Reads-bind _ (take_u8-Reads _) (pair_map Value.datetime (take_time-Reads seconds nanos h))
  take_value-Reads_in (Value.uuid bs) (suc room) h d =
      Reads-bind _ (take_u8-Reads _) (Reads-map Value.uuid (take_fixed-Reads 16 bs h.1))
  take_value-Reads_in (Value.table table) (suc room) h d =
      Reads-bind _ (take_u8-Reads _) (Reads-map Value.table (take_u32-Reads table h))
  take_value-Reads_in (Value.reference r) (suc room) h d =
      Reads-bind _ (take_u8-Reads _) (Reads-map Value.reference (take_reference-Reads r h))
  take_value-Reads_in (Value.array items) (suc room) h d = Reads-bind _ (take_u8-Reads _) (
      Reads-map Value.array (
        Reads-bind _ (take_count-Reads (length_items items) h.0)
          (take_items-Reads items room h.1 (omega arith))))
  take_value-Reads_in (Value.object fields) (suc room) h d = Reads-bind _ (take_u8-Reads _) (
      subst
        (λ fs.
          Reads (take_tagged room (take_value room) Tag.object)
            (put_u32 (count_of (length_fields fields)) ++ put_fields fields) (Value.object fs))
        (of_entries-entries fields)
        (Reads-map (λ m. Value.object (of_entries m))
          (Reads-bind _ (take_count-Reads (length_fields fields) h.0) (
            take_entries-Reads fields room [] h.2 (omega arith) h.1
              (Before-nil (entries fields))))))
  take_value-Reads_in (Value.range start end) (suc room) h d = Reads-bind _ (take_u8-Reads _) (
      Reads-bind _ (take_bound-Reads start room h.0 (omega arith))
        (Reads-map (λ last. Value.range start last) (take_bound-Reads end room h.1 (omega arith))))
  take_value-Reads_in (Value.set items) (suc room) h d = Reads-bind _ (take_u8-Reads _) (
      Reads-map Value.set (
        Reads-bind _ (take_count-Reads (length_items items) h.0)
          (take_items-Reads items room h.1 (omega arith))))
  take_value-Reads_in (Value.geometry g) (suc room) h d =
      Reads-bind _ (take_u8-Reads _)
        (Reads-map Value.geometry (take_geometry-Reads g room h (omega arith)))
  take_value-Reads_in (Value.regex t) (suc room) h d =
      Reads-bind _ (take_u8-Reads _) (Reads-map Value.regex (take_text-Reads t h))

  take_items-Reads :
      (items : Items) (room : ℕ)
      → AreValid items
      → depth_items items ≤ room
      → Reads (take_items (take_value room) (length_items items)) (put_items items) items
  take_items-Reads no_items room h d = record { reads = λ rest. refl }
  take_items-Reads (item v items) room h d =
      Reads-bind _ (take_value-Reads_in v room h.0 (omega arith))
        (Reads-map (λ vs. item v vs) (take_items-Reads items room h.1 (omega arith)))

  take_entries-Reads :
      (fields : Fields) (room : ℕ) (held : List (Text × Value))
      → AreFields fields
      → depth_fields fields ≤ room
      → IsSorted (entries fields)
      → Before held (entries fields)
      → Reads
          (take_entries (take_value room) held (length_fields fields))
          (put_fields fields)
          (held ++ entries fields)
  take_entries-Reads no_fields room held h d sorted before = record {
    reads = λ rest. rw append-nil;
  }
  take_entries-Reads (field name v fields) room held h d sorted before =
      Reads-bind _ (take_text-Reads name h.0) (
        Reads-bind _ (take_value-Reads_in v room h.1 (omega arith)) (
          rw
            (
              insert-Below name v held before.0,
              ← append_assoc held ((name, v) ∷ []) (entries fields),
            )
            (take_entries-Reads fields room (held ++ (name, v) ∷ []) h.2 (omega arith) sorted.1
              (Before-snoc name v held (entries fields) before.1 sorted.0))))

  take_bound-Reads :
      (b : Bound) (room : ℕ)
      → IsBound b
      → depth_bound b ≤ room
      → Reads (take_bound (take_value room)) (put_bound b) b
  take_bound-Reads Bound.unbounded room h d =
      Reads-bind _ (take_u8-Reads _) (record { reads = λ rest. refl })
  take_bound-Reads (Bound.included v) room h d =
      Reads-bind _ (take_u8-Reads _) (Reads-map Bound.included (take_value-Reads_in v room h d))
  take_bound-Reads (Bound.excluded v) room h d =
      Reads-bind _ (take_u8-Reads _) (Reads-map Bound.excluded (take_value-Reads_in v room h d))

-- A value is read off the front of any input that begins with its encoding, if the room is enough.
pub take_value-Reads :
    (v : Value) (room : ℕ) → IsValid v → depth v ≤ room → Reads (take_value room) (put_value v) v
take_value-Reads v room h d = take_value-Reads_in v room h d

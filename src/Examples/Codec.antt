-- ===== src/Examples/Codec.antt =====
-- The codec at concrete values.
use tessaridb_sdk_rust.Common.{
  ℕ, List, sym, append-nil, ◌≡◌, refl, ok, err, negsuc, true, [], ◌∷◌, ◌++◌, arith,
}
use tessaridb_sdk_rust.Common.Bytes.{to_be_bytes}
use tessaridb_sdk_rust.Common.Utf8.{IsText, valid_utf8, text_lt, literal}
use tessaridb_sdk_rust.Common.SortedMap.{text_order}
use tessaridb_sdk_rust.Codec.Write.{put_varbytes, encode, put_value, put_number, put_i64}
use tessaridb_sdk_rust.Codec.Read.{decode}
use tessaridb_sdk_rust.Codec.Fault.EncodingFault.{trailing_bytes}
use tessaridb_sdk_rust.Codec.RoundTrip.{decode-encode}
use tessaridb_sdk_rust.Codec.Prefix.{encode_prefix_free, put_varbytes_prefix_free}
use tessaridb_sdk_rust.Value.{
  Value, Number, no_items, item, no_fields, field, length_fields, length_items, entries,
}
use tessaridb_sdk_rust.Value.Valid.{IsValid, depth}

-- {"a": -5, "é": [true, "tess"]}
abbrev pub sample : Value
sample = Value.object (
    field (b'a' ∷ []) (Value.number (Number.integer (negsuc 4))) (
      field (0xc3 ∷ 0xa9 ∷ [])
        (Value.array (item (Value.bool true) (item (Value.string (literal "tess")) no_items)))
        no_fields))

letter_a-IsText : IsText (b'a' ∷ [])
unfolding valid_utf8
letter_a-IsText = record { bytes = omega arith; utf8 = refl }

letter_e-IsText : IsText (0xc3 ∷ 0xa9 ∷ [])
unfolding valid_utf8
letter_e-IsText = record { bytes = omega arith; utf8 = refl }

word-IsText : IsText (literal "tess")
unfolding valid_utf8
word-IsText = record { bytes = omega arith; utf8 = refl }

pub sample-IsValid : IsValid sample
unfolding IsValid length_fields length_items entries text_lt
sample-IsValid = (
  omega arith,
  ((refl, tt), (tt, tt)),
  (
    (letter_a-IsText, omega arith),
    omega arith,
    ((letter_e-IsText, omega arith), (omega arith, (tt, ((word-IsText, omega arith), tt))), tt),
  ),
)

-- -1 is written with its sign bit inverted.
minus_one :
    encode (Value.number (Number.integer (negsuc 0)))
    ≡ 4 ∷ 1 ∷ 0x7f ∷ 0xff ∷ 0xff ∷ 0xff ∷ 0xff ∷ 0xff ∷ 0xff ∷ 0xff ∷ []
unfolding encode put_value put_number put_i64 to_be_bytes
minus_one = refl

decode-encode_example :
    (decode (encode sample) ≡ ok sample)
    × (decode (encode sample ++ 7 ∷ []) ≡ err (trailing_bytes 1))
decode-encode_example = decode-encode sample 7 [] sample-IsValid (unfold depth in omega arith)

encode_prefix_free_example : (sample ≡ sample) × (◌≡◌ {A = List ℕ} [] [])
encode_prefix_free_example =
    encode_prefix_free sample sample [] sample-IsValid sample-IsValid (unfold depth in omega arith)
      (unfold depth in omega arith) (sym (append-nil (encode sample)))

abbrev seven_zero : List ℕ
seven_zero = 7 ∷ 0 ∷ []

put_varbytes_prefix_free_example : (seven_zero ≡ seven_zero) × (◌≡◌ {A = List ℕ} [] [])
put_varbytes_prefix_free_example =
    put_varbytes_prefix_free seven_zero seven_zero [] (sym (append-nil (put_varbytes seven_zero)))

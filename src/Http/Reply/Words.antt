-- ===== src/Http/Reply/Words.antt =====
-- src/http/reply.rs: what the lines of a response's head say.
use tessaridb_sdk_rust.Common.{
  ℕ, ◌+◌, ◌-◌, ◌*◌, ◌^◌, Bool, true, false, Option, none, some, [], ◌∷◌, Result, ok, err,
  bind as and_then, ok_or, ltb, leb, ◌==◌, ◌&&◌, if◌then◌else◌,
}
use tessaridb_sdk_rust.Common.Utf8.{Text, literal}
use tessaridb_sdk_rust.Error.{Error, malformed, not_this_protocol}
use tessaridb_sdk_rust.Query.Names.{is_digit}
use tessaridb_sdk_rust.Refusal.Class.{text_eq}

unfoldable pub is_line_end : ℕ → Bool
is_line_end c = if c == b'\r' then true else c == b'\n'

-- What is left of a text when the bytes at its end that pass the test are gone.
unfoldable pub trim_end : (ℕ → Bool) → Text → Text
trim_end test [] = []
trim_end test (c ∷ cs) = (elim (trim_end test cs) [
  | [] ↦ if test c then [] else c ∷ []
  | d ∷ ds ↦ c ∷ d ∷ ds
])

-- `trim_end_matches(['\r', '\n'])`
unfoldable pub without_end : Text → Text
unfolding trim_end is_line_end
without_end = trim_end is_line_end

-- The text before the first such byte, and the text after it.
unfoldable pub further : ℕ → Option (Text × Text) → Option (Text × Text)
further c none = none
further c (some (before, after)) = some (c ∷ before, after)

unfoldable pub split_once : ℕ → Text → Option (Text × Text)
unfolding further
split_once mark [] = none
split_once mark (c ∷ cs) =
    let later = further c (split_once mark cs) in if c == mark then some ([], cs) else later

unfoldable pub starts_with : Text → Text → Bool
starts_with [] text = true
starts_with (c ∷ cs) [] = false
starts_with (c ∷ cs) (d ∷ ds) = c == d && starts_with cs ds

-- `str::parse` of an unsigned integer: a `+` or nothing, and at least one digit; `limit` is the
-- first number that is too large.
unfoldable pub digits_from : ℕ → ℕ → Text → Option ℕ
digits_from limit so_far [] = some so_far
digits_from limit so_far (c ∷ cs) =
    let next = so_far * 10 + (c - 48) in
    let later = digits_from limit next cs in if is_digit c && ltb next limit then later else none

unfoldable pub some_digits : ℕ → Text → Option ℕ
unfolding digits_from
some_digits limit [] = none
some_digits limit (c ∷ cs) = digits_from limit 0 (c ∷ cs)

unfoldable pub parse : ℕ → Text → Option ℕ
unfolding some_digits
parse limit [] = none
parse limit (c ∷ cs) = if c == b'+' then some_digits limit cs else some_digits limit (c ∷ cs)

-- The second of the parts between the spaces.
unfoldable pub second_part : Text → Option Text
unfolding split_once
second_part rest = elim (split_once b' ' rest) [ none ↦ some rest | some (a, b) ↦ some a ]

unfoldable pub status_in : Text → Option Text → Result Error ℕ
unfolding starts_with parse
status_in version part =
    let status = and_then (ok_or malformed part) λ held. ok_or malformed (parse (2 ^ 16) held) in
    if starts_with (literal "HTTP/1.") version then status else err not_this_protocol

unfoldable pub status_of : Text → Result Error ℕ
unfolding split_once second_part status_in
status_of line = elim (split_once b' ' line) [
  | none ↦ status_in line none
  | some (version, rest) ↦ status_in version (second_part rest)
]

-- `char::is_whitespace`, for the characters of one byte and, by their bytes, the others.
unfoldable pub is_blank : ℕ → Bool
is_blank c = if leb 9 c && leb c 13 then true else c == b' '

unfoldable pub is_blank_2 : ℕ → ℕ → Bool
is_blank_2 a b = if b == 133 then a == 194 else b == 160 && a == 194

-- U+1680, U+2000 to U+200A, U+2028, U+2029, U+202F, U+205F and U+3000.
unfoldable pub is_blank_3 : ℕ → ℕ → ℕ → Bool
is_blank_3 a b c =
    if a == 225
    then b == 154 && c == 128
    else if a == 227
    then b == 128 && c == 128
    else if a == 226
    then (if b == 129
        then c == 159
        else if leb 128 c && leb c 138
        then b == 128
        else if c == 168
        then b == 128
        else if c == 169
        then b == 128
        else c == 175 && b == 128)
    else false

unfoldable pub trim_start : Text → Text
unfolding is_blank is_blank_2 is_blank_3
trim_start [] = []
trim_start (a ∷ []) = if is_blank a then [] else a ∷ []
trim_start (a ∷ b ∷ []) =
    let rest = trim_start (b ∷ []) in
    if is_blank a then rest else if is_blank_2 a b then [] else a ∷ b ∷ []
trim_start (a ∷ b ∷ c ∷ later) =
    let after_one = trim_start (b ∷ c ∷ later) in
    let after_two = trim_start (c ∷ later) in
    let after_three = trim_start later in
    if is_blank a
    then after_one
    else if is_blank_2 a b
    then after_two
    else if is_blank_3 a b c
    then after_three
    else a ∷ b ∷ c ∷ later

unfoldable pub lower : Text → Text
lower [] = []
lower (c ∷ cs) = (if leb b'A' c && leb c b'Z' then c + 32 else c) ∷ lower cs

-- Of a byte and what is left behind it, where that is blank together.
unfoldable pub before_blank : ℕ → Text → Text
unfolding is_blank is_blank_2 is_blank_3
before_blank a [] = if is_blank a then [] else a ∷ []
before_blank a (b ∷ []) = if is_blank_2 a b then [] else a ∷ b ∷ []
before_blank a (b ∷ c ∷ []) = if is_blank_3 a b c then [] else a ∷ b ∷ c ∷ []
before_blank a (b ∷ c ∷ d ∷ rest) = a ∷ b ∷ c ∷ d ∷ rest

unfoldable pub trim_blank_end : Text → Text
unfolding before_blank
trim_blank_end [] = []
trim_blank_end (c ∷ cs) = before_blank c (trim_blank_end cs)

-- `str::trim`
unfoldable pub trim : Text → Text
unfolding trim_start trim_blank_end
trim text = trim_start (trim_blank_end text)

-- The length declared so far, after a field of this name and value.
unfoldable pub with_field : Option ℕ → Text → Text → Result Error (Option ℕ)
unfolding parse
with_field held name value =
    let declared = and_then (ok_or malformed (parse (2 ^ 64) value)) λ size. ok (some size) in
    if text_eq name (literal "transfer-encoding")
    then err malformed
    else if text_eq name (literal "content-length")
    then declared
    else ok held

unfoldable pub field_of : Option ℕ → Text → Result Error (Option ℕ)
unfolding split_once trim lower with_field
field_of held line = elim (split_once b':' line) [
  | none ↦ err malformed
  | some (name, value) ↦ with_field held (lower (trim name)) (trim value)
]

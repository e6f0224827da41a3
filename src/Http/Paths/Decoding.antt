-- ===== src/Http/Paths/Decoding.antt =====
-- src/http/object.rs, `encode` and `route`, read back: percent-encoding as RFC 3986 defines it.
use tessaridb_sdk_rust.Common.{
  ℕ, ◌+◌, ◌-◌, ◌*◌, ◌/◌, ◌%◌, ◌<◌, ◌≡◌, ◌⊎◌, inl, inr, refl, Bool, true, false, [], ◌∷◌, ltb, leb,
  ◌==◌, ◌&&◌, if◌then◌else◌, Bool-cases, All, arith,
}
use tessaridb_sdk_rust.Common.Utf8.{Text}
use tessaridb_sdk_rust.Http.Paths.{is_plain, hex_digit, encode}
use tessaridb_sdk_rust.Query.Names.{is_letter, is_digit}

-- A hexadecimal digit, in either case.
unfoldable value_of : ℕ → ℕ
value_of c = if ltb c 58 then c - 48 else if ltb c 71 then c - 55 else c - 87

unfoldable pub decode : Text → Text
unfolding value_of
decode [] = []
decode (c ∷ []) = c ∷ []
decode (c ∷ d ∷ []) = c ∷ d ∷ []
decode (c ∷ d ∷ e ∷ rest) =
    let kept = c ∷ decode (d ∷ e ∷ rest) in
    let byte = (value_of d * 16 + value_of e) ∷ decode rest in if c == b'%' then byte else kept

-- `unreserved`, and the slash, of RFC 3986.
unfoldable pub may_stand : ℕ → Bool
unfolding is_letter is_digit
may_stand c =
    if is_letter c
    then true
    else if is_digit c
    then true
    else if c == b'%'
    then true
    else if leb b'-' c && leb c b'/'
    then true
    else if c == b'_'
    then true
    else c == b'~'

abbrev pub AllStand : Text → Type 0
AllStand = All λ c. may_stand c ≡ true

whole_byte : (c : ℕ) → c / 16 * 16 + c % 16 ≡ c
whole_byte c = omega arith

hex_back : (n : ℕ) → n < 16 → value_of (hex_digit n) ≡ n
unfolding value_of hex_digit
hex_back n h = ground arith

not_percent : (c : ℕ) → is_plain c ≡ true → (c == b'%') ≡ false
unfolding is_plain is_letter is_digit
not_percent c h = ground arith

decode_plain : (c : ℕ) (rest : Text) → (c == b'%') ≡ false → decode (c ∷ rest) ≡ c ∷ decode rest
unfolding decode
decode_plain c [] h = refl
decode_plain c (d ∷ []) h = refl
decode_plain c (d ∷ e ∷ rest) h = rw h

decode_byte :
    (c : ℕ) (cs : Text)
    → c < 256
    → decode (encode cs) ≡ cs
    → (is_plain c ≡ true) ⊎ (is_plain c ≡ false)
    → decode (encode (c ∷ cs)) ≡ c ∷ cs
unfolding encode decode
decode_byte c cs b h (inl e) = rw (e, decode_plain c (encode cs) (not_percent c e), h)
decode_byte c cs b h (inr e) =
    rw (e, hex_back (c / 16) (omega arith), hex_back (c % 16) (omega arith), h, whole_byte c)

decode-encode : (path : Text) → All (λ b. b < 256) path → decode (encode path) ≡ path
unfolding decode encode
decode-encode [] h = refl
decode-encode (c ∷ cs) h = decode_byte c cs h.0 (decode-encode cs h.1) (Bool-cases (is_plain c))

plain_stands : (c : ℕ) → is_plain c ≡ true → may_stand c ≡ true
unfolding is_plain may_stand is_letter is_digit
plain_stands c h = ground arith

digit_stands : (n : ℕ) → n < 16 → may_stand (hex_digit n) ≡ true
unfolding may_stand hex_digit is_letter is_digit
digit_stands n h = ground arith

percent_stands : may_stand b'%' ≡ true
unfolding may_stand is_letter is_digit
percent_stands = refl

byte-AllStand :
    (c : ℕ) (cs : Text)
    → c < 256
    → AllStand (encode cs)
    → (is_plain c ≡ true) ⊎ (is_plain c ≡ false)
    → AllStand (encode (c ∷ cs))
unfolding encode
byte-AllStand c cs b h (inl e) = rw e (plain_stands c e, h)
byte-AllStand c cs b h (inr e) = rw e (
  percent_stands,
  (digit_stands (c / 16) (omega arith), (digit_stands (c % 16) (omega arith), h)),
)

encode-AllStand : (path : Text) → All (λ b. b < 256) path → AllStand (encode path)
unfolding encode
encode-AllStand [] h = tt
encode-AllStand (c ∷ cs) h =
    byte-AllStand c cs h.0 (encode-AllStand cs h.1) (Bool-cases (is_plain c))

-- A path of any bytes is written with bytes that may stand in a request's target, none of them a
-- space or a line's end, and a node that undoes percent-encoding has the path back.
pub encode_lem :
    (path : Text) → All (λ b. b < 256) path → AllStand (encode path) × (decode (encode path) ≡ path)
encode_lem path h = (encode-AllStand path h, decode-encode path h)

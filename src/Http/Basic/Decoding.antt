-- ===== src/Http/Basic/Decoding.antt =====
-- src/http/basic.rs, read back: base64 as RFC 4648 defines it, and the credentials of RFC 7617.
use tessaridb_sdk_rust.Common.{
  ℕ, zero, suc, ◌+◌, ◌*◌, ◌/◌, ◌%◌, ◌-◌, leb, ◌<◌, ◌≡◌, ◌⊎◌, inl, inr, refl, Bool-cases, and_left,
  and_right, if_not, ltb→lt, ap, Bool, true, false, Option, none, some, List, [], ◌∷◌, ltb, ◌==◌,
  ◌&&◌, if◌then◌else◌, All, arith,
}
use tessaridb_sdk_rust.Common.Utf8.{Text, literal}
use tessaridb_sdk_rust.Http.Basic.{
  alphabet, symbol_at, symbol, first_symbol, second_symbol, third_symbol, encode,
}

-- The number that a symbol stands for, in table 1 of RFC 4648: 26 capital letters, 26 small letters,
-- the ten digits, `+` and `/`.
unfoldable sextet : ℕ → ℕ
sextet c =
    if leb 65 c && leb c 90
    then c - 65
    else if leb 97 c && leb c 122
    then 26 + (c - 97)
    else if leb 48 c && leb c 57
    then 52 + (c - 48)
    else if c == b'+'
    then 62
    else 63

-- The bytes of four symbols: three, or two or one where the last are `=`.
unfoldable group : ℕ → ℕ → ℕ → ℕ → List ℕ → List ℕ
unfolding sextet
group w x y z later =
    let one = sextet w * 4 + sextet x / 16 in
    let two = sextet x % 16 * 16 + sextet y / 4 in
    let three = sextet y % 4 * 64 + sextet z in
    if y == b'=' then one ∷ [] else if z == b'=' then one ∷ two ∷ [] else one ∷ two ∷ three ∷ later

-- Base64 with its padding, in groups of four symbols.
unfoldable pub decode : Text → Option (List ℕ)
unfolding group
decode [] = some []
decode (w ∷ []) = none
decode (w ∷ x ∷ []) = none
decode (w ∷ x ∷ y ∷ []) = none
decode (w ∷ x ∷ y ∷ z ∷ rest) = elim (decode rest) [
  | none ↦ none
  | some later ↦ some (group w x y z later)
]

-- A test of every number below a bound.
unfoldable all_below : ℕ → (ℕ → Bool) → Bool
all_below zero test = true
all_below (suc n) test = test n && all_below n test

unfoldable is_symbol : ℕ → Bool
unfolding symbol sextet
is_symbol n = if symbol n == b'=' then false else sextet (symbol n) == n

all_symbols : all_below 64 is_symbol ≡ true
unfolding all_below is_symbol symbol symbol_at sextet
all_symbols = refl

not_less : (k n : ℕ) → k < suc n → ltb k n ≡ false → k ≡ n
not_less k n h e = ground arith

lt_or_eq : (k n : ℕ) → k < suc n → (k < n) ⊎ (k ≡ n)
lt_or_eq k n h = elim (Bool-cases (ltb k n)) as (λ _. (k < n) ⊎ (k ≡ n)) [
  | inl e ↦ inl (ltb→lt k n e)
  | inr e ↦ inr (not_less k n h e)
]

below_all : (n k : ℕ) (test : ℕ → Bool) → all_below n test ≡ true → k < n → test k ≡ true
unfolding all_below
below_all zero k test h lt = ground arith
below_all (suc n) k test h lt = elim (lt_or_eq k n lt) [
  | inl less ↦ below_all n k test (and_right (test n) (all_below n test) h) less
  | inr same ↦ rw same (and_left (test n) (all_below n test) h)
]

equal : (a b : ℕ) → (a == b) ≡ true → a ≡ b
equal a b h = ground arith

-- A symbol stands for its number, and is not the padding.
symbol_back : (n : ℕ) → n < 64 → (symbol n == b'=' ≡ false) × (sextet (symbol n) ≡ n)
unfolding is_symbol
symbol_back n lt =
    let h =
      if_not (symbol n == b'=') (sextet (symbol n) == n)
        (below_all 64 n is_symbol all_symbols lt) in
    (h.0, equal (sextet (symbol n)) n h.1)

mod_mod : (n : ℕ) → n % 64 ≡ n % 64 % 64
mod_mod n = omega arith

symbol_mod : (n : ℕ) → symbol n ≡ symbol (n % 64)
unfolding symbol
symbol_mod n = ap (symbol_at alphabet) (mod_mod n)

group_three :
    (p q r s : ℕ) (later : List ℕ)
    → p < 64
    → q < 64
    → r < 64
    → s < 64
    → group (symbol p) (symbol q) (symbol r) (symbol s) later
      ≡ (p * 4 + q / 16) ∷ (q % 16 * 16 + r / 4) ∷ (r % 4 * 64 + s) ∷ later
unfolding group
group_three p q r s later hp hq hr hs = rw (
  (symbol_back p hp).1,
  (symbol_back q hq).1,
  (symbol_back r hr).1,
  (symbol_back s hs).1,
  (symbol_back r hr).0,
  (symbol_back s hs).0,
)

group_two :
    (p q r : ℕ) (later : List ℕ)
    → p < 64
    → q < 64
    → r < 64
    → group (symbol p) (symbol q) (symbol r) b'=' later
      ≡ (p * 4 + q / 16) ∷ (q % 16 * 16 + r / 4) ∷ []
unfolding group
group_two p q r later hp hq hr =
    rw ((symbol_back p hp).1, (symbol_back q hq).1, (symbol_back r hr).1, (symbol_back r hr).0)

group_one :
    (p q : ℕ) (later : List ℕ)
    → p < 64
    → q < 64
    → group (symbol p) (symbol q) b'=' b'=' later ≡ (p * 4 + q / 16) ∷ []
unfolding group
group_one p q later hp hq = rw ((symbol_back p hp).1, (symbol_back q hq).1)

first_back : (a b : ℕ) → a < 256 → b < 256 → a / 4 * 4 + (a % 4 * 16 + b / 16) / 16 ≡ a
first_back a b ha hb = omega arith

second_back :
    (a b c : ℕ)
    → b < 256
    → c < 256
    → (a % 4 * 16 + b / 16) % 16 * 16 + (b % 16 * 4 + c / 64) / 4 ≡ b
second_back a b c hb hc = omega arith

third_back : (b c : ℕ) → c < 256 → (b % 16 * 4 + c / 64) % 4 * 64 + c % 64 ≡ c
third_back b c hc = omega arith

module _ (a b c : ℕ) (later : List ℕ) (ha : a < 256) (hb : b < 256) (hc : c < 256) where
  three_back :
      group (first_symbol a) (second_symbol a b) (third_symbol b c) (symbol c) later
      ≡ a ∷ b ∷ c ∷ later
  unfolding first_symbol second_symbol third_symbol
  three_back = rw (
    symbol_mod c,
    group_three (a / 4) (a % 4 * 16 + b / 16) (b % 16 * 4 + c / 64) (c % 64) later (omega arith)
        (omega arith) (omega arith) (omega arith),
    first_back a b ha hb,
    second_back a b c hb hc,
    third_back b c hc,
  )

  two_back : group (first_symbol a) (second_symbol a b) (third_symbol b 0) b'=' later ≡ a ∷ b ∷ []
  unfolding first_symbol second_symbol third_symbol
  two_back = rw (
    group_two (a / 4) (a % 4 * 16 + b / 16) (b % 16 * 4 + 0 / 64) later (omega arith) (omega arith)
        (omega arith),
    first_back a b ha hb,
    second_back a b 0 hb (omega arith),
  )

  one_back : group (first_symbol a) (second_symbol a 0) b'=' b'=' later ≡ a ∷ []
  unfolding first_symbol second_symbol
  one_back = rw (
    group_one (a / 4) (a % 4 * 16 + 0 / 16) later (omega arith) (omega arith),
    first_back a 0 ha (omega arith),
  )

-- Base64 read back gives the bytes that were encoded: the text is in groups of four symbols of the
-- alphabet, and the padding says how many bytes the last group holds.
pub decode-encode : (bytes : List ℕ) → All (λ b. b < 256) bytes → decode (encode bytes) ≡ some bytes
unfolding decode encode
decode-encode [] h = refl
decode-encode (a ∷ []) h = ap some (one_back a a a [] h.0 h.0 h.0)
decode-encode (a ∷ b ∷ []) h = ap some (two_back a b b [] h.0 h.1.0 h.1.0)
decode-encode (a ∷ b ∷ c ∷ rest) h =
    rw (decode-encode rest h.1.1.1, three_back a b c rest h.0 h.1.0 h.1.1.0)

-- The text behind a word that it begins with.
unfoldable behind : Text → Text → Option Text
behind [] text = some text
behind (c ∷ cs) [] = none
behind (c ∷ cs) (d ∷ ds) = let rest = behind cs ds in if c == d then rest else none

unfoldable before_colon : ℕ → Option (Text × Text) → Option (Text × Text)
before_colon c none = none
before_colon c (some (name, password)) = some (c ∷ name, password)

-- Parted at the first colon.
unfoldable parted : Text → Option (Text × Text)
unfolding before_colon
parted [] = none
parted (c ∷ cs) =
    let later = before_colon c (parted cs) in if c == b':' then some ([], cs) else later

unfoldable chained : {A B : Type 0} → Option A → (A → Option B) → Option B
chained none next = none
chained (some a) next = next a

-- What a node makes of the header: the scheme's word, and a name and a password in base64.
unfoldable pub read_credentials : Text → Option (Text × Text)
unfolding behind parted chained decode
read_credentials text =
    chained (behind (literal "Basic ") text) λ encoded. chained (decode encoded) parted

unfoldable pub no_colon : Text → Bool
no_colon [] = true
no_colon (c ∷ cs) = if c == b':' then false else no_colon cs

-- ===== src/Common/Utf8.antt =====
-- Which byte sequences are UTF-8, as `String::from_utf8` decides it, and the order of texts, which
-- is the order of their bytes. A Rust `String` is modelled by its bytes.
use Prim.Native.String.{String}
use Prim.Native.Char.{code}
use tessaridb_sdk_rust.Common.{
  ℕ, zero, suc, ◌≡◌, refl, Bool, true, false, ◌&&◌, List, [], ◌∷◌, arith, ltb, leb, ◌==◌,
  if◌then◌else◌, All,
}
use tessaridb_sdk_rust.Common.Bytes.{IsByte}

abbrev pub Text : Type 0
Text = List ℕ

-- An ASCII literal.
abbrev pub literal : String → Text
literal String.[] = []
literal (String.◌∷◌ c s) = code c ∷ literal s

-- How a lead byte goes on: how many continuation bytes follow, and the range of the first. The
-- ranges keep out overlong forms, surrogates and code points past U+10FFFF.
pub record Lead : Type 0 where
  pub allowed : Bool
  pub more : ℕ
  pub low : ℕ
  pub high : ℕ

abbrev lead : ℕ → Lead
lead b =
    let continued = λ (more low high : ℕ).
      let l : Lead = record { allowed = true; more = more; low = low; high = high } in l in
    if ltb b 0x80
    then continued 0 0 0
    else if ltb b 0xc2
    then (record { allowed = false; more = 0; low = 0; high = 0 })
    else if ltb b 0xe0
    then continued 1 0x80 0xbf
    else if b == 0xe0
    then continued 2 0xa0 0xbf
    else if b == 0xed
    then continued 2 0x80 0x9f
    else if ltb b 0xf0
    then continued 2 0x80 0xbf
    else if b == 0xf0
    then continued 3 0x90 0xbf
    else if ltb b 0xf4
    then continued 3 0x80 0xbf
    else if b == 0xf4
    then continued 3 0x80 0x8f
    else (record { allowed = false; more = 0; low = 0; high = 0 })

-- `more` continuation bytes are still to come, the first of them from `low` to `high`.
unfoldable pub utf8_from : ℕ → ℕ → ℕ → List ℕ → Bool
utf8_from zero low high [] = true
utf8_from (suc more) low high [] = false
utf8_from zero low high (b ∷ bs) =
    (lead b).allowed && utf8_from (lead b).more (lead b).low (lead b).high bs
utf8_from (suc more) low high (b ∷ bs) = leb low b && leb b high && utf8_from more 0x80 0xbf bs

unfoldable pub valid_utf8 : List ℕ → Bool
unfolding utf8_from
valid_utf8 bs = utf8_from 0 0 0 bs

-- What every Rust `String` is.
pub record IsText (t : Text) : Type 0 where
  pub bytes : All IsByte t
  pub utf8 : valid_utf8 t ≡ true

-- The order of texts.
unfoldable pub text_lt : Text → Text → Bool
text_lt [] [] = false
text_lt [] (b ∷ bs) = true
text_lt (a ∷ as') [] = false
text_lt (a ∷ as') (b ∷ bs) =
    let tails = text_lt as' bs in if ltb a b then true else if a == b then tails else false

pub text_lt_asymm : (s t : Text) → text_lt s t ≡ true → text_lt t s ≡ false
unfolding text_lt
text_lt_asymm [] [] h = refl
text_lt_asymm [] (b ∷ bs) h = refl
text_lt_asymm (a ∷ as') [] h = ground arith
text_lt_asymm (a ∷ as') (b ∷ bs) h = ground (arith, text_lt_asymm as' bs)

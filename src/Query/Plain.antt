-- ===== src/Query/Plain.antt =====
-- src/query/: which bytes a built statement can have.
pub mod Parts
pub mod Reads
pub mod Writes
use tessaridb_sdk_rust.Common.{
  ℕ, ◌≡◌, refl, Bool, true, false, ◌&&◌, ◌==◌, leb, if◌then◌else◌, List, [], ◌∷◌, ◌++◌, Result, ok,
  err, bind as and_then, arith,
}
use tessaridb_sdk_rust.Common.Utf8.{Text}
use tessaridb_sdk_rust.Query.Fault.{BuildError, Query}

-- What a statement has besides letters, digits and underscores.
abbrev punctuation : List ℕ
punctuation =
    b' ' ∷ b'$' ∷ b':' ∷ b',' ∷ b'(' ∷ b')' ∷ b'{' ∷ b'}' ∷ b'*' ∷ b'=' ∷ b'!' ∷ b'<' ∷ b'>' ∷ []

unfoldable pub among : ℕ → List ℕ → Bool
among c [] = false
among c (d ∷ ds) = let later = among c ds in if c == d then true else later

-- A byte that opens no literal and no comment and ends no statement.
-- A letter or a digit of ASCII, or an underscore.
unfoldable pub is_word_byte : ℕ → Bool
is_word_byte c =
    if leb 48 c && leb c 57
    then true
    else if leb 65 c && leb c 90
    then true
    else if leb 97 c && leb c 122
    then true
    else c == 95

unfoldable pub is_plain_byte : ℕ → Bool
unfolding among is_word_byte
is_plain_byte c = if is_word_byte c then true else among c punctuation

unfoldable pub is_plain : Text → Bool
is_plain [] = true
is_plain (c ∷ cs) = is_plain_byte c && is_plain cs

-- Plain text, and one semicolon at the end.
abbrev pub IsOneStatement : Query → Type 0
IsOneStatement q = (front : Text) × (q.script ≡ front ++ b';' ∷ []) × (is_plain front ≡ true)

pub is_plain-append : (x y : Text) → is_plain (x ++ y) ≡ (is_plain x && is_plain y)
unfolding is_plain
is_plain-append [] y = refl
is_plain-append (c ∷ cs) y = ground (arith, is_plain-append cs y)

-- What holds of a result if there is one.
abbrev pub Gives : {A : Type 0} → (A → Type 0) → Result BuildError A → Type 0
Gives P (ok a) = P a
Gives P (err e) = Unit {0}

pub Gives-and_then :
    {A B : Type 0} (P : A → Type 0) (Q : B → Type 0) (x : Result BuildError A)
    (f : A → Result BuildError B)
    → Gives P x
    → ((a : A) → P a → Gives Q (f a))
    → Gives Q (and_then x f)
Gives-and_then P Q (ok a) f h k = k a h
Gives-and_then P Q (err e) f h k = tt

pub Gives-ok :
    {A : Type 0} (P : A → Type 0) (x : Result BuildError A) (a : A) → Gives P x → x ≡ ok a → P a
Gives-ok P x a h e = rw e at h

pub Gives-of :
    {A : Type 0} (P : A → Type 0) (x : Result BuildError A) → ((a : A) → x ≡ ok a → P a) → Gives P x
Gives-of P (ok a) k = k a refl
Gives-of P (err e) k = tt

pub Gives-weaken :
    {A : Type 0} (P Q : A → Type 0) (x : Result BuildError A)
    → Gives P x
    → ((a : A) → P a → Q a)
    → Gives Q x
Gives-weaken P Q (ok a) h k = k a h
Gives-weaken P Q (err e) h k = tt

-- ===== src/Http/Events/Escapes.antt =====
-- `quoted` of src/http/series.rs against `unquoted` of src/cache/statements.rs: both escape the same two
-- characters.
use tessaridb_sdk_rust.Common.{
  ℕ, ◌≡◌, refl, true, false, some, [], ◌∷◌, ◌++◌, ◌==◌, Option, none, if◌then◌else◌, append_assoc,
  ◌⊎◌, inl, inr, Bool-cases, arith,
}
use tessaridb_sdk_rust.Common.Utf8.{Text, literal}
use tessaridb_sdk_rust.Cache.Statements.{unquoted, unescaped, without_quote, after_first, or_inner}
use tessaridb_sdk_rust.Http.Events.{quoted, escaped, is_escaped}

without_quote_lem : (inner : Text) → without_quote (inner ++ literal "'") ≡ some inner
unfolding without_quote after_first
without_quote_lem [] = refl
without_quote_lem (c ∷ []) = refl
without_quote_lem (c ∷ d ∷ rest) = rw (without_quote_lem (d ∷ rest))

-- A byte that is no backslash stands for itself.
unescaped_plain :
    (c : ℕ) (rest : Text) → (c == b'\\') ≡ false → unescaped (c ∷ rest) ≡ c ∷ unescaped rest
unfolding unescaped
unescaped_plain c [] h = refl
unescaped_plain c (d ∷ rest) h = rw h

not_backslash : (c : ℕ) → is_escaped c ≡ false → (c == b'\\') ≡ false
unfolding is_escaped
not_backslash c h = ground arith

unescaped_byte :
    (c : ℕ) (cs : Text)
    → unescaped (escaped cs) ≡ cs
    → (is_escaped c ≡ true) ⊎ (is_escaped c ≡ false)
    → unescaped (escaped (c ∷ cs)) ≡ c ∷ cs
unfolding unescaped escaped
unescaped_byte c cs h (inl e) = rw (e, h)
unescaped_byte c cs h (inr e) = rw (e, unescaped_plain c (escaped cs) (not_backslash c e), h)

unescaped-escaped : (text : Text) → unescaped (escaped text) ≡ text
unfolding escaped unescaped
unescaped-escaped [] = refl
unescaped-escaped (c ∷ cs) = unescaped_byte c cs (unescaped-escaped cs) (Bool-cases (is_escaped c))

-- A quoted text as a node scans it: a backslash stands for the byte behind it, and a quote without
-- one ends the text. What is left is behind the quote.
unfoldable pub kept_byte : ℕ → Option (Text × Text) → Option (Text × Text)
kept_byte c none = none
kept_byte c (some (text, behind)) = some (c ∷ text, behind)

unfoldable pub scan : Text → Option (Text × Text)
unfolding kept_byte
scan [] = none
scan (c ∷ []) = if c == 39 then some ([], []) else none
scan (c ∷ d ∷ rest) =
    let escaped = kept_byte d (scan rest) in
    let plain = kept_byte c (scan (d ∷ rest)) in
    if c == 39 then some ([], d ∷ rest) else if c == 92 then escaped else plain

unfoldable pub scan_literal : Text → Option (Text × Text)
unfolding scan
scan_literal [] = none
scan_literal (c ∷ rest) = if c == 39 then scan rest else none

scan_quote : (behind : Text) → scan (b'\'' ∷ behind) ≡ some ([], behind)
unfolding scan
scan_quote [] = refl
scan_quote (c ∷ cs) = refl

scan_escape :
    (c : ℕ) (rest text behind : Text)
    → scan rest ≡ some (text, behind)
    → scan (b'\\' ∷ c ∷ rest) ≡ some (c ∷ text, behind)
unfolding scan kept_byte
scan_escape c rest text behind e = rw e

not_quote : (c : ℕ) → is_escaped c ≡ false → (c == 39) ≡ false
unfolding is_escaped
not_quote c h = ground arith

scan_plain :
    (c : ℕ) (rest text behind : Text)
    → is_escaped c ≡ false
    → scan rest ≡ some (text, behind)
    → scan (c ∷ rest) ≡ some (c ∷ text, behind)
unfolding scan is_escaped kept_byte
scan_plain c [] text behind h e = absurd cc
scan_plain c (d ∷ rest) text behind h e = rw (not_quote c h, not_backslash c h, e)

scan-escaped : (text behind : Text) → scan (escaped text ++ b'\'' ∷ behind) ≡ some (text, behind)
unfolding escaped
scan-escaped [] behind = scan_quote behind
scan-escaped (c ∷ cs) behind = elim (Bool-cases (is_escaped c)) [
  | inl e ↦ rw e (scan_escape c (escaped cs ++ b'\'' ∷ behind) cs behind (scan-escaped cs behind))
  | inr e ↦ rw e (scan_plain c (escaped cs ++ b'\'' ∷ behind) cs behind e (scan-escaped cs behind))
]

-- A quoted text is one literal, whatever quotes and backslashes the text has: a node that scans it
-- comes to the text, and to what stands behind the literal. The client reads it back as the text too.
pub unquoted-quoted :
    (text behind : Text)
    → (scan_literal (quoted text ++ behind) ≡ some (text, behind)) × (unquoted (quoted text) ≡ text)
unfolding unquoted quoted or_inner scan_literal
unquoted-quoted text behind = (
  rw (append_assoc (escaped text) (literal "'") behind) (scan-escaped text behind),
  rw (without_quote_lem (escaped text), unescaped-escaped text),
)

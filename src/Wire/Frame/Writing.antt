-- ===== src/Wire/Frame/Writing.antt =====
-- src/wire/frame.rs, `write` and `greet` on a reliable connection.
use tessaridb_sdk_rust.Common.{
  ℕ, ◌^◌, ◌≤◌, ◌<◌, ◌≡◌, refl, ◌∙◌, true, false, List, [], ◌∷◌, ◌++◌, append_assoc, arith, length,
  ltb-le, lt→ltb, ◌==◌, if◌then◌else◌, Result, ok, err, Bool-cases, inl, inr, ◌≢◌,
}
use tessaridb_sdk_rust.Error.{Error, too_large, not_this_protocol, wrong_version}
use tessaridb_sdk_rust.Codec.Write.{count_of}
use tessaridb_sdk_rust.Wire.Stream.{Stream, IsReliable, Ends}
use tessaridb_sdk_rust.Wire.Kind.{Kind}
use tessaridb_sdk_rust.Wire.Frame.Protocol.{ceiling, greeting, major, minor}
use tessaridb_sdk_rust.Wire.Frame.{header, write, greet, check_version, bytes_eq}

-- Up to the ceiling the length is written as it is; past it, what is written is past it too.
count_of_small : (n : ℕ) → n ≤ ceiling → count_of n ≡ n
unfolding count_of
count_of_small n h = rw (lt→ltb n (2 ^ 32) (omega arith))

count_of_large : (n : ℕ) → ceiling < n → ceiling < count_of n
unfolding count_of
count_of_large n h = ground arith

-- What `greet` says of a peer's version.
abbrev pub version_outcome : ℕ → ℕ → Result Error ℕ
version_outcome peer_major peer_minor =
    if peer_major == major then ok peer_minor else err (wrong_version peer_major major)

check_version-outcome :
    {S : Type 0} (peer_major peer_minor : ℕ) (s : S)
    → check_version (peer_major ∷ peer_minor ∷ []) s ≡ (version_outcome peer_major peer_minor, s)
unfolding check_version
check_version-outcome peer_major peer_minor s = elim (Bool-cases (peer_major == major)) [
  | inl e ↦ rw e
  | inr e ↦ rw e
]

bytes_eq→eq : (xs ys : List ℕ) → bytes_eq xs ys ≡ true → xs ≡ ys
unfolding bytes_eq
bytes_eq→eq [] [] h = refl
bytes_eq→eq [] (y ∷ ys) h = cc
bytes_eq→eq (x ∷ xs) [] h = cc
bytes_eq→eq (x ∷ xs) (y ∷ ys) h = ground (arith, bytes_eq→eq xs ys)

bytes_eq-ne : (xs ys : List ℕ) → xs ≢ ys → bytes_eq xs ys ≡ false
bytes_eq-ne xs ys h = elim (Bool-cases (bytes_eq xs ys)) [
  | inl e ↦ absurd (h (bytes_eq→eq xs ys e))
  | inr e ↦ e
]

module _ (net : Stream) (law : IsReliable net) where
  open net use {State}
  open law use {pending, sent}

  -- A body up to the ceiling is sent behind its header.
  pub write-frame :
      (kind : Kind) (body : List ℕ) (s : State)
      → length body ≤ ceiling
      → Ends net law
          (write net kind body s)
          (ok tt)
          (pending s)
          (sent s ++ (header kind (length body) ++ body))
  unfolding write
  write-frame kind body s h =
      let (t, e₁, p₁, w₁) = law.write_all_sends (header kind (length body)) s in
      let (u, e₂, p₂, w₂) = law.write_all_sends body t in
      let (v, e₃, p₃, w₃) = law.flush_keeps u in
      record {
        last = v;
        ends_with = rw (count_of_small (length body) h, ltb-le ceiling (length body) h, e₁, e₂, e₃);
        leaves = p₃ ∙ p₂ ∙ p₁;
        wrote = w₃ ∙ w₂ ∙ rw (w₁, append_assoc (sent s) (header kind (length body)) body);
      }

  -- A body above the ceiling is refused, and nothing is sent.
  pub write_too_large :
      (kind : Kind) (body : List ℕ) (s : State)
      → ceiling < length body
      → write net kind body s ≡ (err (too_large (count_of (length body))), s)
  unfolding write
  write_too_large kind body s h =
      rw (lt→ltb ceiling (count_of (length body)) (count_of_large (length body) h))

  -- To a peer that opens with the magic, `greet` sends this client's greeting and gives the
  -- peer's minor if the majors agree, and refuses the version if they do not.
  pub greet_node :
      (peer_major peer_minor : ℕ) (rest : List ℕ) (s : State)
      → pending s ≡ greeting ++ peer_major ∷ peer_minor ∷ rest
      → Ends net law
          (greet net s)
          (version_outcome peer_major peer_minor)
          rest
          (sent s ++ (greeting ++ major ∷ minor ∷ []))
  unfolding greet bytes_eq
  greet_node peer_major peer_minor rest s p =
      let (t, e₁, p₁, w₁) = law.write_all_sends (greeting ++ major ∷ minor ∷ []) s in
      let (u, e₂, p₂, w₂) = law.flush_keeps t in
      let (v, e₃, p₃, w₃) =
        law.read_exact_all greeting (peer_major ∷ peer_minor ∷ rest) u (p₂ ∙ p₁ ∙ p) in
      let (x, e₄, p₄, w₄) = law.read_exact_all (peer_major ∷ peer_minor ∷ []) rest v p₃ in
      record {
        last = x;
        ends_with = rw (e₁, e₂, e₃, e₄) (check_version-outcome peer_major peer_minor x);
        leaves = p₄;
        wrote = w₄ ∙ w₃ ∙ w₂ ∙ w₁;
      }

  -- A peer that opens with four other bytes is no node, whether or not it says more.
  pub greet_stranger :
      (magic rest : List ℕ) (s : State)
      → length magic ≡ 4
      → magic ≢ greeting
      → pending s ≡ magic ++ rest
      → Ends net law
          (greet net s)
          (err not_this_protocol)
          rest
          (sent s ++ (greeting ++ major ∷ minor ∷ []))
  unfolding greet
  greet_stranger magic rest s four other p =
      let (t, e₁, p₁, w₁) = law.write_all_sends (greeting ++ major ∷ minor ∷ []) s in
      let (u, e₂, p₂, w₂) = law.flush_keeps t in
      let (v, e₃, p₃, w₃) = law.read_exact_all magic rest u (p₂ ∙ p₁ ∙ p) in
      record {
        last = v;
        ends_with = rw (e₁, e₂, rw four at e₃, bytes_eq-ne magic greeting other);
        leaves = p₃;
        wrote = w₃ ∙ w₂ ∙ w₁;
      }

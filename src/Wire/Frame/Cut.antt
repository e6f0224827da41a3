-- ===== src/Wire/Frame/Cut.antt =====
-- src/wire/frame.rs, `read`: a connection that ends, between frames or inside one.
use tessaridb_sdk_rust.Common.{
  ℕ, ◌≤◌, ◌<◌, ◌≡◌, sym, ◌∙◌, ap, Option, none, List, [], ◌∷◌, ◌++◌, arith, length, length-append,
  ltb-le, Result, ok, err,
}
use native.Mathlib.Decide.{dec_lt}
use tessaridb_sdk_rust.Error.{Error, truncated}
use tessaridb_sdk_rust.Wire.Stream.{Stream, IsReliable, Ends}
use tessaridb_sdk_rust.Wire.Kind.{Kind}
use tessaridb_sdk_rust.Wire.Frame.Protocol.{ceiling, header_size}
use tessaridb_sdk_rust.Wire.Frame.{header, read_header, read_body, read_after, read, on_chunk}
use tessaridb_sdk_rust.Wire.Frame.Reading.{
  append_split, length-header, read_headed, parse_header-header, read_header_cut,
}

-- What `read` says of a connection that ended after these bytes of a frame.
abbrev pub cut_outcome : List ℕ → Result Error (Option (Kind × List ℕ))
cut_outcome [] = ok none
cut_outcome (b ∷ bs) = err truncated

module _ (net : Stream) (law : IsReliable net) where
  open net use {State}
  open law use {pending, sent}

  pub read_ended : (s : State) → pending s ≡ [] → Ends net law (read net s) (ok none) [] (sent s)
  unfolding read read_header on_chunk read_after
  read_ended s p =
      let (t, reads, left, kept) = law.read_closed header_size s p in
      record { last = t; ends_with = rw reads; leaves = left; wrote = kept }

  read_cut_header :
      (b : ℕ) (bs : List ℕ) (s : State)
      → length (b ∷ bs) < header_size
      → pending s ≡ b ∷ bs
      → Ends net law (read net s) (err truncated) [] (sent s)
  unfolding read
  read_cut_header b bs s h p =
      let cut =
        read_header_cut net law header_size [] (b ∷ bs) s (omega arith) (omega arith) (omega arith)
          p in
      record {
        last = cut.last;
        ends_with = rw cut.ends_with;
        leaves = cut.leaves;
        wrote = cut.wrote;
      }

  read_cut_body :
      (kind : Kind) (declared : ℕ) (part : List ℕ) (s : State)
      → length part < declared
      → declared ≤ ceiling
      → pending s ≡ header kind declared ++ part
      → Ends net law (read net s) (err truncated) [] (sent s)
  unfolding read_after read_body
  read_cut_body kind declared part s h c p =
      let (t, reads, left, kept) =
        read_headed net law (header kind declared) part s (length-header kind declared) p in
      let (u, got, leaves, wrote) = law.read_exact_short declared t (rw left h) in
      record {
        last = u;
        ends_with =
            reads
            ∙ rw (
              parse_header-header net law kind declared (omega arith),
              ltb-le ceiling declared c,
              got,
            );
        leaves = leaves;
        wrote = wrote ∙ kept;
      }

  -- A connection that ends before a frame is a clean goodbye, and one that ends inside a frame,
  -- after any proper part of it, is reported as truncated.
  pub read_cut :
      (kind : Kind) (body front : List ℕ) (x : ℕ) (missing : List ℕ) (s : State)
      → length body ≤ ceiling
      → header kind (length body) ++ body ≡ front ++ x ∷ missing
      → pending s ≡ front
      → Ends net law (read net s) (cut_outcome front) [] (sent s)
  read_cut kind body [] x missing s c e p = read_ended s p
  read_cut kind body (b ∷ bs) x missing s c e p = elim (dec_lt (length (b ∷ bs)) header_size) [
    | yes h ↦ read_cut_header b bs s h p
    | no h ↦
        let (part, p₁, p₂) =
          append_split (header kind (length body)) body (b ∷ bs) (x ∷ missing) (sym e)
            (omega (arith, length-header kind (length body))) in
        read_cut_body kind (length body) part s
          (omega (arith, length-append part (x ∷ missing), ap length p₂)) c (p ∙ p₁)
  ]

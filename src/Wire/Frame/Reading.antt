-- ===== src/Wire/Frame/Reading.antt =====
-- src/wire/frame.rs, `read`: a frame is read whole however the connection cuts it into chunks, and
-- what it does with a connection that ends and with a declared length above the ceiling.
use tessaridb_sdk_rust.Common.{
  ℕ, zero, suc, ◌+◌, ◌-◌, ◌^◌, ◌≤◌, ◌<◌, ◌≡◌, refl, sym, ◌∙◌, ap, some, List, [], ◌∷◌, ◌++◌,
  append_assoc, append-nil, arith, length, length-append, ltb, ltb-le, lt→ltb, le→leb, leb-gt,
  if◌then◌else◌, Result, ok, err, bind,
}
use tessaridb_sdk_rust.Common.Bytes.{length-to_be_bytes, from_be_bytes-to_be_bytes}
use tessaridb_sdk_rust.Error.{Error, too_large, truncated}
use tessaridb_sdk_rust.Wire.Stream.{Stream, IsReliable, Ends}
use tessaridb_sdk_rust.Wire.Kind.{Kind, from_tag-tag}
use tessaridb_sdk_rust.Wire.Frame.Protocol.{ceiling, header_size}
use tessaridb_sdk_rust.Wire.Frame.{
  header, parse_header, on_chunk, read_header, read_body, read_after, read,
}

-- Where two cuts of one list meet.
pub append_split :
    (chunk rest bs back : List ℕ)
    → bs ++ back ≡ chunk ++ rest
    → length chunk ≤ length bs
    → (mid : List ℕ) × (bs ≡ chunk ++ mid) × (rest ≡ mid ++ back)
append_split [] rest bs back e h = (bs, refl, sym e)
append_split (c ∷ chunk) rest [] back e h = absurd (omega arith)
append_split (c ∷ chunk) rest (b ∷ bs) back e h =
    let (mid, p, q) = append_split chunk rest bs back (cc) (omega arith) in
    let same : b ≡ c = cc in (mid, cc, q)

pub length-header : (kind : Kind) (declared : ℕ) → length (header kind declared) ≡ header_size
unfolding header
length-header kind declared = ap suc (length-to_be_bytes 4 declared)

module _ (net : Stream) (law : IsReliable net) where
  open net use {State}
  open law use {pending, sent}

  read_header_step :
      (rounds : ℕ) (held : List ℕ) (b : ℕ) (chunk : List ℕ) (s t : State)
      → length held < header_size
      → net.read (header_size - length held) s ≡ (ok (b ∷ chunk), t)
      → read_header net (suc rounds) held s ≡ read_header net rounds (held ++ b ∷ chunk) t
  unfolding read_header on_chunk
  read_header_step rounds [] b chunk s t h e = rw e
  read_header_step rounds (a ∷ held) b chunk s t h e =
      rw (leb-gt header_size (length (a ∷ held)) h, e)

  read_header_extend :
      (rounds : ℕ) (held : List ℕ) (b : ℕ) (chunk mid bs back : List ℕ) (s t : State)
      → read_header net (suc rounds) held s ≡ read_header net rounds (held ++ b ∷ chunk) t
      → bs ≡ chunk ++ mid
      → sent t ≡ sent s
      → Ends net law
          (read_header net rounds (held ++ b ∷ chunk) t)
          (ok (some ((held ++ b ∷ chunk) ++ mid)))
          back
          (sent t)
      → Ends net law
          (read_header net (suc rounds) held s)
          (ok (some (held ++ b ∷ bs)))
          back
          (sent s)
  read_header_extend rounds held b chunk mid bs back s t e p kept ih = record {
    last = ih.last;
    ends_with = rw (e, ih.ends_with, p, append_assoc held (b ∷ chunk) mid);
    leaves = ih.leaves;
    wrote = ih.wrote ∙ kept;
  }

  -- Whatever the chunks, the header's bytes are collected in order.
  pub read_header_full :
      (rounds : ℕ) (held front back : List ℕ) (s : State)
      → length held + length front ≡ header_size
      → length front ≤ rounds
      → pending s ≡ front ++ back
      → Ends net law (read_header net rounds held s) (ok (some (held ++ front))) back (sent s)
  unfolding read_header
  read_header_full zero held [] back s e h p = record {
    last = s;
    ends_with = rw append-nil;
    leaves = p;
    wrote = refl;
  }
  read_header_full zero held (b ∷ bs) back s e h p = absurd (omega arith)
  read_header_full (suc rounds) held [] back s e h p = record {
    last = s;
    ends_with = rw (le→leb header_size (length held) (omega arith), append-nil held);
    leaves = p;
    wrote = refl;
  }
  read_header_full (suc rounds) held (b ∷ bs) back s e h p =
      let (chunk, rest, t, reads, short, cut, left, kept) =
        law.read_some (header_size - length held) s b (bs ++ back) (omega arith) p in
      let (mid, p₁, p₂) = append_split chunk rest bs back cut (omega arith) in
      read_header_extend rounds held b chunk mid bs back s t
        (read_header_step rounds held b chunk s t (omega arith) reads) p₁ kept
        (read_header_full rounds (held ++ b ∷ chunk) mid back t
          (omega (arith, length-append held (b ∷ chunk), length-append chunk mid, ap length p₁))
          (omega (arith, length-append chunk mid, ap length p₁)) (left ∙ p₂))

  pub Ends-via :
      {A : Type 0} {run : Result Error A × State} (next : Result Error A × State) (s t : State)
      {outcome : Result Error A} {left : List ℕ}
      → run ≡ next
      → sent t ≡ sent s
      → Ends net law next outcome left (sent t)
      → Ends net law run outcome left (sent s)
  Ends-via next s t e kept end = record {
    last = end.last;
    ends_with = e ∙ end.ends_with;
    leaves = end.leaves;
    wrote = end.wrote ∙ kept;
  }

  -- A connection that ends inside a header.
  pub read_header_cut :
      (rounds : ℕ) (held front : List ℕ) (s : State)
      → 0 < length held + length front
      → length held + length front < header_size
      → length front < rounds
      → pending s ≡ front
      → Ends net law (read_header net rounds held s) (err truncated) [] (sent s)
  unfolding read_header on_chunk
  read_header_cut zero held front s k e h p = absurd (omega arith)
  read_header_cut (suc rounds) [] [] s k e h p = absurd (omega arith)
  read_header_cut (suc rounds) (a ∷ held) [] s k e h p =
      let (t, reads, left, kept) = law.read_closed (header_size - length (a ∷ held)) s p in
      record {
        last = t;
        ends_with = rw (leb-gt header_size (length (a ∷ held)) (omega arith), reads);
        leaves = left;
        wrote = kept;
      }
  read_header_cut (suc rounds) held (b ∷ bs) s k e h p =
      let (chunk, rest, t, reads, short, cut, left, kept) =
        law.read_some (header_size - length held) s b bs (omega arith) p in
      Ends-via (read_header net rounds (held ++ b ∷ chunk) t) s t
        (read_header_step rounds held b chunk s t (omega arith) reads) kept
        (read_header_cut rounds (held ++ b ∷ chunk) rest t
          (omega (arith, length-append held (b ∷ chunk)))
          (omega (arith, length-append held (b ∷ chunk), length-append chunk rest, ap length cut))
          (omega (arith, length-append chunk rest, ap length cut)) left)

  pub parse_header-header :
      (kind : Kind) (declared : ℕ)
      → declared < 2 ^ 32
      → parse_header (header kind declared)
        ≡ bind
            (if ltb ceiling declared then err (too_large declared) else ok declared)
            (λ n. ok (kind, n))
  unfolding parse_header header
  parse_header-header kind declared h =
      rw (from_tag-tag kind, from_be_bytes-to_be_bytes 4 declared h, length-to_be_bytes 4 declared)

  -- A header and what follows it: `read` goes on to the body.
  pub read_headed :
      (front back : List ℕ) (s : State)
      → length front ≡ header_size
      → pending s ≡ front ++ back
      → (t : State) × (read net s ≡ read_after net (some front) t)
        × (pending t ≡ back)
        × (sent t ≡ sent s)
  unfolding read
  read_headed front back s e p =
      let full = read_header_full header_size [] front back s (omega arith) (omega arith) p in
      (full.last, rw full.ends_with, full.leaves, full.wrote)

  -- A frame that a peer wrote is read whole, whatever chunks it arrives in, and what follows it is
  -- left for the next read.
  pub read-frame :
      (kind : Kind) (body rest : List ℕ) (s : State)
      → length body ≤ ceiling
      → pending s ≡ header kind (length body) ++ (body ++ rest)
      → Ends net law (read net s) (ok (some (kind, body))) rest (sent s)
  unfolding read_after read_body
  read-frame kind body rest s h p =
      let (t, reads, left, kept) =
        read_headed (header kind (length body)) (body ++ rest) s (length-header kind (length body))
          p in
      let (u, got, leaves, wrote) = law.read_exact_all body rest t left in
      record {
        last = u;
        ends_with =
            reads
            ∙ rw (
              parse_header-header kind (length body) (omega arith),
              ltb-le ceiling (length body) h,
              got,
            );
        leaves = leaves;
        wrote = wrote ∙ kept;
      }

  -- A header that declares more than the ceiling is refused, and none of the body is read.
  pub read_too_large :
      (kind : Kind) (declared : ℕ) (rest : List ℕ) (s : State)
      → ceiling < declared
      → declared < 2 ^ 32
      → pending s ≡ header kind declared ++ rest
      → Ends net law (read net s) (err (too_large declared)) rest (sent s)
  unfolding read_after
  read_too_large kind declared rest s h w p =
      let (t, reads, left, kept) =
        read_headed (header kind declared) rest s (length-header kind declared) p in
      record {
        last = t;
        ends_with = reads ∙ rw (parse_header-header kind declared w, lt→ltb ceiling declared h);
        leaves = left;
        wrote = kept;
      }

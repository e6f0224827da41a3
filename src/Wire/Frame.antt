-- ===== src/Wire/Frame.antt =====
-- src/wire/frame.rs: kinds of frames, the greeting, and writing and reading one frame.
pub mod Protocol
pub mod Reading
pub mod Cut
pub mod Writing
use tessaridb_sdk_rust.Common.{
  ℕ, zero, suc, ◌+◌, ◌-◌, ◌<◌, Bool, Option, none, some, List, [], ◌∷◌, ◌++◌, length, first, ltb,
  leb, true, false, ◌&&◌, ◌==◌, if◌then◌else◌, Result, ok, err, ok_or, bind,
}
use tessaridb_sdk_rust.Common.Bytes.{to_be_bytes, from_be_bytes}
use tessaridb_sdk_rust.Error.{
  Error, not_this_protocol, wrong_version, unknown_frame, too_large, truncated,
}
use tessaridb_sdk_rust.Wire.Stream.{Stream, Io, pure, fail, lift, ◌>>=◌, ◌>>◌, map_fault, from_io}
use tessaridb_sdk_rust.Codec.Write.{count_of}
use tessaridb_sdk_rust.Wire.Kind.{Kind, tag, from_tag}
use tessaridb_sdk_rust.Wire.Frame.Protocol.{greeting, major, minor, ceiling, header_size}

-- One kind byte and the length, most significant byte first.
unfoldable pub header : Kind → ℕ → List ℕ
header kind length_of = tag kind ∷ to_be_bytes 4 length_of

-- What follows the magic of a peer's greeting: its version.
unfoldable pub check_version : {S : Type 0} → List ℕ → Io S ℕ
check_version [] = fail truncated
check_version (found ∷ []) = fail truncated
check_version (found ∷ peer_minor ∷ rest) =
    if found == major then pure peer_minor else fail (wrong_version found major)

unfoldable pub bytes_eq : List ℕ → List ℕ → Bool
bytes_eq [] [] = true
bytes_eq [] (b ∷ bs) = false
bytes_eq (a ∷ as') [] = false
bytes_eq (a ∷ as') (b ∷ bs) = a == b && bytes_eq as' bs

-- The length that the last four bytes of a header declare.
unfoldable pub declared_length : List ℕ → Result Error ℕ
declared_length length_bytes =
    let declared = from_be_bytes 0 length_bytes in
    if length length_bytes == 4
    then if ltb ceiling declared then err (too_large declared) else ok declared
    else err truncated

-- The kind and the length that a header holds.
unfoldable pub parse_header : List ℕ → Result Error (Kind × ℕ)
unfolding declared_length
parse_header [] = err truncated
parse_header (t ∷ length_bytes) =
    bind (ok_or (unknown_frame t) (from_tag t))
      λ kind. bind (declared_length length_bytes) λ declared. ok (kind, declared)

-- What a round of the header's loop does with the bytes that `read` gave it.
unfoldable pub on_chunk :
    {S : Type 0} → List ℕ → (List ℕ → Io S (Option (List ℕ))) → List ℕ → Io S (Option (List ℕ))
on_chunk [] again [] = pure none
on_chunk (b ∷ held) again [] = fail truncated
on_chunk held again (c ∷ chunk) = again (c ∷ chunk)

module _ (net : Stream) where
  open net use {State}

  -- Both sides send the magic and their version, and check what the other sent.
  unfoldable pub greet : Io State ℕ
  unfolding bytes_eq
  greet = do
    from_io (net.write_all (greeting ++ major ∷ minor ∷ []))
    from_io net.flush
    magic ← from_io (net.read_exact 4)
    let version = from_io (net.read_exact 2) >>= check_version
    if bytes_eq magic greeting then version else fail not_this_protocol

  unfoldable pub write : Kind → List ℕ → Io State (Unit {0})
  write kind body =
      let declared = count_of (length body) in
      if ltb ceiling declared then fail (too_large declared) else do
        from_io (net.write_all (header kind declared))
        from_io (net.write_all body)
        from_io net.flush

  -- `while held < HEADER`: `none` where the peer hung up before the first byte. Every round but
  -- the last adds a byte, so `HEADER` rounds are enough; with none left the loop is over.
  unfoldable pub read_header : ℕ → List ℕ → Io State (Option (List ℕ))
  read_header zero held = pure (some held)
  read_header (suc rounds) held =
      let again = λ (more : List ℕ). read_header rounds (held ++ more) in
      if leb header_size (length held)
      then pure (some held)
      else from_io (net.read (header_size - length held)) >>= on_chunk held again

  -- The body behind a header that was accepted. A short body is `Truncated`, whatever the fault.
  unfoldable pub read_body : Kind → ℕ → Io State (Option (Kind × List ℕ))
  read_body kind declared = do
    body ← (λ s. map_fault (λ _. truncated) (net.read_exact declared s))
    pure (some (kind, body))

  unfoldable pub read_after : Option (List ℕ) → Io State (Option (Kind × List ℕ))
  read_after none = pure none
  read_after (some held) = lift (parse_header held) >>= λ (kind, declared). read_body kind declared

  unfoldable pub read : Io State (Option (Kind × List ℕ))
  read = read_header header_size [] >>= read_after

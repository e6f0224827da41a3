-- ===== src/Http/Reply.antt =====
-- src/http/reply.rs: one response. `read_line`, of tokio's `AsyncBufReadExt`, is a parameter: a line with
-- its end, and nothing when the stream has ended.
pub mod Words
pub mod Bound
use tessaridb_sdk_rust.Common.{
  ℕ, zero, suc, ◌+◌, ◌-◌, ◌*◌, ◌^◌, min, Bool, true, false, Option, none, some, List, [], ◌∷◌, ◌++◌,
  Result, ok, err, bind as and_then, ok_or, ltb, leb, ◌==◌, ◌&&◌, not, length, if◌then◌else◌,
}
use tessaridb_sdk_rust.Common.Utf8.{Text, literal}
use tessaridb_sdk_rust.Error.{IoFault, Error, malformed, truncated, too_large, not_this_protocol}
use tessaridb_sdk_rust.Http.Reply.Words.{without_end, status_of, field_of}
use tessaridb_sdk_rust.Wire.Stream.{
  Stream, Io, pure, fail, lift, map_fault, from_io, after, ◌>>=◌, ◌>>◌,
}

abbrev pub header_ceiling : ℕ
header_ceiling = 65_536

abbrev pub body_ceiling : ℕ
body_ceiling = 16_777_216

abbrev pub copy_chunk : ℕ
copy_chunk = 65_536

-- `length` is the declared one, also where there is no body.
pub record Reply : Type 0 where
  pub status : ℕ
  pub body : List ℕ
  pub length : Option ℕ

-- A line that was read is not empty: it has its end.
unfoldable pub line_of : Text → Result Error Text
unfolding without_end
line_of [] = err truncated
line_of (c ∷ cs) = ok (without_end (c ∷ cs))

-- The status says that there is no body.
unfoldable pub is_bodyless : ℕ → Bool
is_bodyless status = if status == 204 then true else status == 304

module _ (net : Stream) (next_line : net.State → Result IoFault Text × net.State) where
  open net use {State, read_exact}

  unfoldable pub read_line : Io State Text
  unfolding line_of
  read_line = (λ s. map_fault (λ _. truncated) (next_line s)) >>= λ line. lift (line_of line)

  unfoldable pub read_status : Io State ℕ
  unfolding read_line status_of
  read_status = read_line >>= λ line. lift (status_of line)

  -- What one line of the headers is to the length declared so far: the headers' end, or a new one.
  unfoldable pub header_line : ℕ → Option ℕ → Text → Result Error (Option ℕ)
  unfolding field_of
  header_line spent held line =
      if ltb header_ceiling (spent + length line)
      then err (too_large header_ceiling)
      else field_of held line

  -- The empty line ends the headers.
  unfoldable pub next_round :
      (ℕ → Option ℕ → Io State (Option ℕ)) → ℕ → Option ℕ → Text → Io State (Option ℕ)
  unfolding header_line
  next_round go_on spent held [] s = (ok held, s)
  next_round go_on spent held (c ∷ cs) s =
      after (header_line spent held (c ∷ cs), s) λ later t. go_on (spent + length (c ∷ cs)) later t

  -- A line that is not empty spends at least one byte of the ceiling.
  unfoldable pub read_headers_from : ℕ → ℕ → Option ℕ → Io State (Option ℕ)
  unfolding read_line next_round
  read_headers_from zero spent held s = (err (too_large header_ceiling), s)
  read_headers_from (suc rounds) spent held s =
      after (read_line s) (next_round (read_headers_from rounds) spent held)

  unfoldable pub read_headers : Io State (Option ℕ)
  unfolding read_headers_from
  read_headers = read_headers_from (header_ceiling + 1) 0 none

  unfoldable pub read_sized : ℕ → Io State (List ℕ)
  read_sized size s =
      if ltb body_ceiling size
      then (err (too_large body_ceiling), s)
      else map_fault (λ _. truncated) (read_exact size s)

  unfoldable pub read_body : Option ℕ → Io State (List ℕ)
  unfolding read_sized
  read_body none = fail malformed
  read_body (some size) = read_sized size

  unfoldable pub read_rest : Bool → ℕ → Option ℕ → Io State Reply
  unfolding read_body
  read_rest true status declared = pure (record { status = status; body = []; length = declared })
  read_rest false status declared = read_body declared >>= λ held.
      pure (record { status = status; body = held; length = declared })

  unfoldable pub read : Bool → Io State Reply
  unfolding read_status read_headers read_rest is_bodyless
  read expects_body = do
    status ← read_status
    declared ← read_headers
    read_rest (if expects_body then is_bodyless status else true) status declared

  -- The sink of a copy, tokio's `AsyncWrite`, is in the state: what it takes, and its flush.
  module _ (write : List ℕ → State → Result IoFault (Unit {0}) × State)
      (flush : State → Result IoFault (Unit {0}) × State) where
    -- Every round but the last moves a whole chunk: as many rounds as there are bytes are enough.
    unfoldable pub copy_from : ℕ → ℕ → Io State (Unit {0})
    copy_from zero left s = from_io flush s
    copy_from (suc rounds) left s =
        let want = min left copy_chunk in
        let copied =
          after (map_fault (λ _. truncated) (read_exact want s))
            λ chunk t. after (from_io (write chunk) t) λ _ u. copy_from rounds (left - want) u in
        if left == 0 then from_io flush s else copied

    unfoldable pub copy_exact : ℕ → Io State (Unit {0})
    unfolding copy_from
    copy_exact total = copy_from total total

    unfoldable pub copied : ℕ → Option ℕ → Io State Reply
    unfolding copy_exact
    copied status none = fail malformed
    copied status (some declared) = copy_exact declared >>= λ _.
        pure (record { status = status; body = []; length = some declared })

    unfoldable pub read_into : Io State Reply
    unfolding read_status read_headers read_rest is_bodyless copied
    read_into = do
      status ← read_status
      declared ← read_headers
      (if status == 200
          then copied status declared
          else read_rest (is_bodyless status) status declared)

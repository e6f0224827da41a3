-- ===== src/Http/Operations.antt =====
-- src/http/mod.rs: the handle, and one request on a connection of its own. Connecting, with or without
-- TLS, is a parameter; everything around the handle is one state, and the connection that is open is
-- part of it.
pub mod Retry
pub mod Leaving
pub mod Sessions
use tessaridb_sdk_rust.Common.{
  ℕ, zero, suc, ◌+◌, Bool, true, false, Option, none, some, List, [], ◌∷◌, ◌++◌, Result, ok, err,
  bind as and_then, ok_or, ltb, leb, ◌==◌, ◌&&◌, not, length, if◌then◌else◌,
}
use tessaridb_sdk_rust.Common.Utf8.{Text, literal}
use tessaridb_sdk_rust.Error.{IoFault, Error, io, malformed, truncated, no_credential}
use tessaridb_sdk_rust.Http.Basic
use tessaridb_sdk_rust.Http.Json.{JsonLibrary, refusal, chain, or_other}
use tessaridb_sdk_rust.Http.Reply.{Reply, read, read_into}
use tessaridb_sdk_rust.Query.Decimal.{decimal}
use tessaridb_sdk_rust.Refusal.Class.{text_eq}
use tessaridb_sdk_rust.Wire.Stream.{Stream, Io, pure, fail, lift, from_io, ◌>>=◌, ◌>>◌}

pub record Credential : Type 0 where
  pub name : Text
  pub header : Text

pub record Operations : Type 0 where
  pub address : Text
  pub credential : Option Credential
  pub session : Option Text
  pub attempts : ℕ

pub data Presenting : Type 0 where
  whatever password_only : Presenting

unfoldable pub at : Text → Operations
at address = record { address = address; credential = none; session = none; attempts = 1 }

unfoldable pub with_attempts : ℕ → Operations → Operations
with_attempts attempts ops = record ops { attempts = if attempts == 0 then 1 else attempts }

-- A session that is open belongs to whoever the handle was before.
unfoldable pub as_user : Text → Text → Operations → Operations
as_user name password ops = record ops {
  credential = some (record { name = name; header = Basic.header name password });
  session = none;
}

abbrev line_end : Text
line_end = b'\r' ∷ b'\n' ∷ []

unfoldable pub authorized : Text → Text
authorized header = literal "Authorization: " ++ (header ++ line_end)

unfoldable pub authorization : Presenting → Option Text → Option Credential → Text
unfolding authorized
authorization whatever (some bearer) credential = authorized bearer
authorization whatever none (some held) = authorized held.header
authorization whatever none none = []
authorization password_only session (some held) = authorized held.header
authorization password_only session none = []

unfoldable pub length_header : Option (List ℕ) → Text
length_header none = []
length_header (some body) = literal "Content-Length: " ++ (decimal (length body) ++ line_end)

unfoldable pub request : Operations → Text → Text → Option (List ℕ) → Presenting → Text
unfolding authorization length_header
request ops method path body presenting =
    method
    ++ (literal " "
        ++ (path
            ++ (literal " HTTP/1.1"
                ++ (line_end
                    ++ (literal "Host: "
                        ++ (ops.address
                            ++ (line_end
                                ++ (literal "Connection: close"
                                    ++ (line_end
                                        ++ (authorization presenting ops.session ops.credential
                                            ++ (length_header body ++ line_end)))))))))))

unfoldable pub retryable : Error → Bool
retryable (io fault) = true
retryable truncated = true
retryable other = false

-- What an attempt came to, and whether another may be made.
unfoldable pub is_retried : {A : Type 0} → Result Error A → Bool
unfolding retryable
is_retried (ok a) = false
is_retried (err e) = retryable e

-- `made` starts at 1, and no attempt follows when it has reached the number of attempts.
unfoldable pub attempts_after_first : ℕ → ℕ
attempts_after_first zero = zero
attempts_after_first (suc more) = more

module _ (net : Stream) (next_line : net.State → Result IoFault Text × net.State)
    (connect : Text → net.State → Result IoFault (Unit {0}) × net.State)
    (pause : net.State → net.State) where
  open net use {State, write_all, flush}

  unfoldable pub write_body : Option (List ℕ) → Io State (Unit {0})
  write_body none = pure tt
  write_body (some bytes) = from_io (write_all bytes)

  unfoldable pub open_with :
      Operations → Text → Text → Option (List ℕ) → Presenting → Io State (Unit {0})
  unfolding request write_body
  open_with ops method path body presenting = do
    from_io (connect ops.address)
    from_io (write_all (request ops method path body presenting))
    write_body body
    from_io flush

  unfoldable pub exchange : Operations → Text → Text → Option (List ℕ) → Presenting → Io State Reply
  unfolding open_with
  exchange ops method path body presenting = do
    open_with ops method path body presenting
    read net next_line (not (text_eq method (literal "HEAD")))

  -- `made` attempts are over, out of `made + more` at most.
  unfoldable pub attempt_again :
      {A : Type 0} → Io State A → ℕ → Result Error A × State → Result Error A × State
  unfolding is_retried
  attempt_again ask zero (outcome, s) = (outcome, s)
  attempt_again ask (suc more) (outcome, s) =
      let again = attempt_again ask more (ask (pause s)) in
      if is_retried outcome then again else (outcome, s)

  unfoldable pub send : Operations → Text → Text → Option (List ℕ) → Io State Reply
  unfolding exchange attempt_again attempts_after_first
  send ops method path body s =
      let ask = exchange ops method path body whatever in
      attempt_again ask (attempts_after_first ops.attempts) (ask s)

  module _ (json : JsonLibrary) where
    open json use {Json, from_slice, get, as_str, as_u64}

    -- An answer at another status is a refusal.
    unfoldable pub expect : ℕ → Reply → Result Error (Unit {0})
    expect status reply =
        if reply.status == status then ok tt else err (refusal json reply.status reply.body)

    unfoldable pub token_in : Json → Result Error Text
    unfolding chain
    token_in answer = ok_or malformed (chain (get answer (literal "token")) λ held. as_str held)

    unfoldable pub lifetime_in : Json → ℕ
    unfolding chain or_other
    lifetime_in answer = or_other (chain (get answer (literal "expires_in")) λ held. as_u64 held) 0

    -- The token and the lifetime that an answer names.
    unfoldable pub session_in : Reply → Result Error (Text × ℕ)
    unfolding expect token_in lifetime_in
    session_in reply = and_then (expect 200 reply) λ _.
        and_then (ok_or malformed (from_slice reply.body))
          λ answer. and_then (token_in answer) λ token. ok (token, lifetime_in answer)

    unfoldable pub installed :
        Operations → State → Result Error (Text × ℕ) → Result Error ℕ × Operations × State
    installed ops s (ok (token, lifetime)) =
        (ok lifetime, record ops { session = some (literal "Bearer " ++ token) }, s)
    installed ops s (err e) = (err e, ops, s)

    unfoldable pub opened :
        Operations → Result Error Reply × State → Result Error ℕ × Operations × State
    unfolding session_in installed
    opened ops (err e, s) = (err e, ops, s)
    opened ops (ok reply, s) = installed ops s (session_in reply)

    unfoldable pub open_session_with :
        Option Credential → Operations → State → Result Error ℕ × Operations × State
    unfolding exchange opened
    open_session_with none ops s = (err no_credential, ops, s)
    open_session_with (some held) ops s =
        opened ops (exchange ops (literal "POST") (literal "/session") none password_only s)

    unfoldable pub open_session : Operations → State → Result Error ℕ × Operations × State
    unfolding open_session_with
    open_session ops s = open_session_with ops.credential ops s

    unfoldable pub judged : Result Error Reply → Result Error (Unit {0})
    unfolding expect
    judged outcome = and_then outcome (expect 200)

    unfoldable pub close_session_with :
        Option Text → Operations → State → Result Error (Unit {0}) × Operations × State
    unfolding exchange judged
    close_session_with none ops s = (ok tt, ops, s)
    close_session_with (some bearer) ops s =
        let (outcome, t) = exchange ops (literal "DELETE") (literal "/session") none whatever s in
        (judged outcome, record ops { session = none }, t)

    unfoldable pub close_session : Operations → State → Result Error (Unit {0}) × Operations × State
    unfolding close_session_with
    close_session ops s = close_session_with ops.session ops s

    -- The new password is held only once the node has taken it.
    unfoldable pub changed :
        Operations
        → Credential
        → Result Error (Unit {0}) × State
        → Result Error (Unit {0}) × Operations × State
    changed ops next (ok u, s) = (ok tt, record ops { credential = some next; session = none }, s)
    changed ops next (err e, s) = (err e, ops, s)

    unfoldable pub change_password_with :
        Option Credential → Text → Operations → State → Result Error (Unit {0}) × Operations × State
    unfolding exchange judged changed
    change_password_with none new ops s = (err no_credential, ops, s)
    change_password_with (some held) new ops s =
        let (outcome, t) =
          exchange ops (literal "POST") (literal "/password") (some new) password_only s in
        changed ops (record { name = held.name; header = Basic.header held.name new })
          (judged outcome, t)

    unfoldable pub change_password :
        Text → Operations → State → Result Error (Unit {0}) × Operations × State
    unfolding change_password_with
    change_password new ops s = change_password_with ops.credential new ops s

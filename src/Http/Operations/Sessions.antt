-- ===== src/Http/Operations/Sessions.antt =====
-- src/http/mod.rs: whose session a handle holds, through any sequence of calls.
use tessaridb_sdk_rust.Common.{ℕ, ◌≡◌, ◌⊎◌, Option, none, some, ◌++◌, Result, ok}
use tessaridb_sdk_rust.Common.Utf8.{Text, literal}
use tessaridb_sdk_rust.Error.{IoFault, Error}
use tessaridb_sdk_rust.Http.Json.{JsonLibrary}
use tessaridb_sdk_rust.Http.Operations.{
  Operations, Credential, password_only, at, with_attempts, as_user, exchange, request,
  open_session, close_session, change_password,
}
use tessaridb_sdk_rust.Http.Operations.Leaving.{left_with}
use tessaridb_sdk_rust.Http.Reply.{Reply}
use tessaridb_sdk_rust.Wire.Stream.{Stream}

module _ (net : Stream) (next_line : net.State → Result IoFault Text × net.State)
    (connect : Text → net.State → Result IoFault (Unit {0}) × net.State)
    (pause : net.State → net.State) (json : JsonLibrary) where
  open net use {State}

  -- What is done with a handle. The other calls do not change it, and are in `meanwhile`: anything
  -- may happen around it between two calls.
  pub data Step : Operations × State → Operations × State → Type 0 where
    meanwhile : (ops : Operations) (s t : State) → Step (ops, s) (ops, t)
    allowing : (n : ℕ) (ops : Operations) (s : State) → Step (ops, s) (with_attempts n ops, s)
    signing :
        (name password : Text) (ops : Operations) (s : State)
        → Step (ops, s) (as_user name password ops, s)
    opening :
        (ops : Operations) (s : State)
        → Step (ops, s) (left_with (open_session net next_line connect pause json ops s))
    closing :
        (ops : Operations) (s : State)
        → Step (ops, s) (left_with (close_session net next_line connect pause json ops s))
    changing :
        (new : Text) (ops : Operations) (s : State)
        → Step (ops, s) (left_with (change_password net next_line connect pause json new ops s))

  pub data Reached : Operations × State → Type 0 where
    made : (address : Text) (s : State) → Reached (at address, s)
    stepped : (before next : Operations × State) → Reached before → Step before next → Reached next

  -- The answer of a node to a request that presented the password of this credential: it came at status
  -- 200, and its body is an object whose `token` the session is.
  pub record IsIssued (credential : Option Credential) (held : Credential) (bearer : Text)
      : Type 0 where
    pub asking : Operations
    pub moment : State
    pub reply : Reply
    pub later : State
    pub answer : json.Json
    pub field : json.Json
    pub token : Text
    pub holds : credential ≡ some held
    pub presented :
        request asking (literal "POST") (literal "/session") none password_only
        ≡ literal "POST /session HTTP/1.1\r\nHost: "
          ++ (asking.address
              ++ (literal "\r\nConnection: close\r\nAuthorization: "
                  ++ (held.header ++ literal "\r\n\r\n")))
    pub answered :
        exchange net next_line connect pause asking
          (literal "POST")
          (literal "/session")
          none
          password_only
          moment
        ≡ (ok reply, later)
    pub at_200 : reply.status ≡ 200
    pub is_answer : json.from_slice reply.body ≡ some answer
    pub has_token : json.get answer (literal "token") ≡ some field
    pub is_token : json.as_str field ≡ some token
    pub is_bearer : bearer ≡ literal "Bearer " ++ token

  abbrev pub IsOwn : Operations → Type 0
  IsOwn ops =
      (ops.session ≡ none)
      ⊎ ((held : Credential) × (bearer : Text) × (ops.session ≡ some bearer)
          × IsIssued ops.credential held bearer)

-- ===== src/Http/Operations/Leaving.antt =====
-- src/http/mod.rs, `close_session` and `change_password`: what they leave of a session.
use tessaridb_sdk_rust.Common.{◌≡◌, refl, Option, none, some, Result, ok, err}
use tessaridb_sdk_rust.Common.Utf8.{Text}
use tessaridb_sdk_rust.Error.{IoFault, Error}
use tessaridb_sdk_rust.Http.Basic
use tessaridb_sdk_rust.Http.Json.{JsonLibrary}
use tessaridb_sdk_rust.Http.Operations.{
  Operations, Credential, close_session_with, changed, change_password_with,
}
use tessaridb_sdk_rust.Wire.Stream.{Stream}

-- The handle and what is around it, after a call.
abbrev pub left_with : {A S : Type 0} → A × Operations × S → Operations × S
left_with (a, ops, s) = (ops, s)

module _ (net : Stream) (next_line : net.State → Result IoFault Text × net.State)
    (connect : Text → net.State → Result IoFault (Unit {0}) × net.State)
    (pause : net.State → net.State) (json : JsonLibrary) where
  open net use {State}

  -- A change of the password that failed and left the handle as it was, or one that went well and left
  -- it with the same name, the new password and no session.
  abbrev pub IsChanged : Operations → Text → Result Error (Unit {0}) × Operations × State → Type 0
  IsChanged ops new (ok u, later, t) =
      (held : Credential) × (ops.credential ≡ some held)
      × (later.credential ≡ some (record { name = held.name; header = Basic.header held.name new }))
      × (later.session ≡ none)
  IsChanged ops new (err e, later, t) = later ≡ ops

  changed-IsChanged :
      (ops : Operations) (held : Credential) (new : Text)
      (outcome : Result Error (Unit {0}) × State)
      → ops.credential ≡ some held
      → IsChanged ops new (
          changed net next_line connect pause json ops
            (record { name = held.name; header = Basic.header held.name new })
            outcome)
  unfolding changed
  changed-IsChanged ops held new (ok u, t) h = (held, h, refl, refl)
  changed-IsChanged ops held new (err e, t) h = refl

  pub change_password_with-IsChanged :
      (credential : Option Credential) (new : Text) (ops : Operations) (s : State)
      → ops.credential ≡ credential
      → IsChanged ops new
          (change_password_with net next_line connect pause json credential new ops s)
  unfolding change_password_with
  change_password_with-IsChanged none new ops s h = refl
  change_password_with-IsChanged (some held) new ops s h = changed-IsChanged ops held new _ h

  pub closed_session :
      (bearer : Option Text) (ops : Operations) (s : State)
      → ops.session ≡ bearer
      → (left_with (close_session_with net next_line connect pause json bearer ops s)).0.session
        ≡ none
  unfolding close_session_with
  closed_session none ops s e = e
  closed_session (some bearer) ops s e = refl

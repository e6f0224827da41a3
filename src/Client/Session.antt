-- ===== src/Client/Session.antt =====
-- src/client.rs, `run` and `run_with`, and the interface that the handles use a client through.
use tessaridb_sdk_rust.Common.{none, some, Option, List, [], ◌∷◌, Result}
use tessaridb_sdk_rust.Common.Utf8.{Text}
use tessaridb_sdk_rust.Client.{Client}
use tessaridb_sdk_rust.Client.Follow.{send}
use tessaridb_sdk_rust.Error.{Error}
use tessaridb_sdk_rust.Value.{Value}
use tessaridb_sdk_rust.Wire.Answer.{Answer}
use tessaridb_sdk_rust.Wire.Request.{Request, new, as_user, bind}
use tessaridb_sdk_rust.Wire.Stream.{Stream}

-- What a handle needs: a script and its parameters, answered. A `run` is a `run_with` without
-- parameters.
pub record Session : Type 1 where
  pub State : Type 0
  pub run_with : Text → List (Text × Value) → State → Result Error (List Answer) × State

-- `request.parameters.insert`, for each parameter in turn.
unfoldable pub with_parameters : List (Text × Value) → Request → Request
with_parameters [] r = r
with_parameters ((name, value) ∷ rest) r = with_parameters rest (bind name value r)

unfoldable pub presented : Option (Text × Text) → Request → Request
presented none r = r
presented (some (name, password)) r = as_user name password r

unfoldable pub request_for : Text → Option (Text × Text) → List (Text × Value) → Request
unfolding with_parameters presented
request_for script credentials given = with_parameters given (presented credentials (new script))

module _ (net : Stream) {World : Type 0}
    (dial : Text → World → Result Error (Client net.State) × World) where
  unfoldable pub run_with :
      Text
      → Option (Text × Text)
      → List (Text × Value)
      → Client net.State
      → World
      → Result Error (List Answer) × Client net.State × World
  unfolding request_for
  run_with script credentials given c w = send net dial (request_for script credentials given) c w

  unfoldable pub run :
      Text
      → Option (Text × Text)
      → Client net.State
      → World
      → Result Error (List Answer) × Client net.State × World
  unfolding request_for
  run script credentials c w = send net dial (request_for script credentials []) c w

  -- A client and the network around it are a session.
  abbrev pub client_session : Session
  client_session = record {
    State = Client net.State × World;
    run_with = λ script given s.
        let (answered, c, w) = run_with script none given s.0 s.1 in (answered, (c, w));
  }

-- ===== src/Client/Sending.antt =====
-- src/client.rs, `send`: where the answers to a request come from.
use tessaridb_sdk_rust.Common.{◌≡◌, ◌⊎◌, true, Option, List, Result, ok}
use tessaridb_sdk_rust.Common.Utf8.{Text}
use tessaridb_sdk_rust.Client.{Client, Exchanged, answers, elsewhere}
use tessaridb_sdk_rust.Client.Follow.{Context, context, selection}
use tessaridb_sdk_rust.Client.Trail.{IsTrail}
use tessaridb_sdk_rust.Error.{Error}
use tessaridb_sdk_rust.Wire.Answer.{Answer}
use tessaridb_sdk_rust.Wire.Request.{Request}
use tessaridb_sdk_rust.Wire.Settlement.{Redirect}
use tessaridb_sdk_rust.Wire.Stream.{Stream}

module _ (net : Stream) {World : Type 0}
    (dial : Text → World → Result Error (Client net.State) × World) where
  -- Answers came from the node that was asked, or by a trail of redirects with the tenancy that is
  -- selected where the client is.
  abbrev pub IsAnswered :
      Request
      → World
      → Result Error Exchanged × Client net.State
      → List Answer
      → Client net.State
      → World
      → Type 0
  IsAnswered request w asked held self' w' =
      ((asked ≡ (ok (answers held), self')) × (w' ≡ w))
      ⊎ ((first : Redirect) × (c self : Client net.State) × (found : Context) × (selecting : Option
            Text)
          × (asked ≡ (ok (elsewhere first), c))
          × (c.dials ≡ true)
          × (context net c ≡ (ok found, self))
          × (selection found ≡ ok selecting)
          × IsTrail net dial request selecting self 3 0 first w held self' w')

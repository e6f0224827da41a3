-- ===== src/Client/Follow.antt =====
-- src/client/follow.rs, and `Client::send`: a redirect is followed to the node that should answer.
-- Dialing another node is a parameter, on a state of its own: what the network has become.
use tessaridb_sdk_rust.Common.{
  ℕ, zero, suc, Bool, false, Option, none, some, List, [], ◌∷◌, ◌++◌, Result, ok, err, bind, ltb,
  if◌then◌else◌,
}
use tessaridb_sdk_rust.Common.Utf8.{Text, literal}
use tessaridb_sdk_rust.Client.{Client, Exchanged, answers, elsewhere, exchange}
use tessaridb_sdk_rust.Error.{
  Error, malformed, redirected, redirect_loop, stale_redirect, wrong_node, not_followable,
}
use tessaridb_sdk_rust.Query.Names.{opens_name, all_continue}
use tessaridb_sdk_rust.Refusal.Class.{text_eq}
use tessaridb_sdk_rust.Value.{Value, entries}
use tessaridb_sdk_rust.Wire.Answer.{Answer}
use tessaridb_sdk_rust.Wire.Request.{Request}
use tessaridb_sdk_rust.Wire.Request
use tessaridb_sdk_rust.Wire.Settlement.{Redirect, Settlement, settled, transient}
use tessaridb_sdk_rust.Wire.Stream.{Stream, after}

abbrev pub most_hops : ℕ
most_hops = 3

-- What `session::context()` answered.
pub record Context : Type 0 where
  pub node : Option (List ℕ)
  pub namespace : Option Text
  pub database : Option Text

unfoldable pub get : List (Text × Value) → Text → Option Value
get [] key = none
get ((k, v) ∷ rest) key = let later = get rest key in if text_eq k key then some v else later

unfoldable pub text_of : Option Value → Option Text
text_of (some (Value.string name)) = some name
text_of other = none

unfoldable pub uuid_of : Option Value → Option (List ℕ)
uuid_of (some (Value.uuid node)) = some node
uuid_of other = none

unfoldable pub last : List Answer → Option Answer
last [] = none
last (a ∷ []) = some a
last (a ∷ b ∷ rest) = last (b ∷ rest)

unfoldable pub context_of : Option Answer → Result Error Context
unfolding get text_of uuid_of
context_of (some (Answer.value (Value.object fields) names)) = ok (record {
  node = uuid_of (get (entries fields) (literal "node"));
  namespace = text_of (get (entries fields) (literal "namespace"));
  database = text_of (get (entries fields) (literal "database"));
})
context_of other = err malformed

unfoldable pub context_from : Exchanged → Result Error Context
unfolding context_of last
context_from (answers held) = context_of (last held)
context_from (elsewhere redirect) = err (redirected redirect)

unfoldable pub plain : Text → Bool
plain [] = false
plain (first ∷ rest) = if opens_name first then all_continue rest else false

unfoldable pub use_clause : Text → Option Text → Result Error Text
use_clause word none = ok []
use_clause word (some name) =
    if plain name
    then ok (literal "USE " ++ (word ++ b' ' ∷ (name ++ literal "; ")))
    else err (not_followable name)

unfoldable pub unless_empty : Text → Option Text
unless_empty [] = none
unless_empty (c ∷ cs) = some (c ∷ cs)

unfoldable pub selection : Context → Result Error (Option Text)
unfolding use_clause unless_empty
selection c = bind (use_clause (literal "NAMESPACE") c.namespace) λ first.
    bind (use_clause (literal "DATABASE") c.database) λ second. ok (unless_empty (first ++ second))

unfoldable pub same_node : List ℕ → Option (List ℕ) → Bool
same_node expected none = false
same_node expected (some found) = text_eq found expected

unfoldable pub check_node : List ℕ → Context → Result Error (Unit {0})
check_node expected c = if same_node expected c.node then ok tt else err (wrong_node expected)

unfoldable pub selected : Exchanged → Result Error (Unit {0})
selected (answers held) = ok tt
selected (elsewhere again) = err (redirected again)

-- A client that was used and is dropped on an error.
unfoldable pub kept : {A C : Type 0} → Result Error A × C → Result Error (A × C)
kept (ok a, c) = ok (a, c)
kept (err e, c) = err e

module _ (net : Stream) where
  unfoldable pub context : Client net.State → Result Error Context × Client net.State
  unfolding context_from
  context c =
      after
        (exchange net
          (record (Request.new (literal "RETURN session::context();")) { credentials = c.signed })
          c)
        λ exchanged later. (context_from exchanged, later)

  -- The tenancy is selected before the request is sent.
  unfoldable pub select :
      Option Text → Client net.State → Result Error (Unit {0}) × Client net.State
  unfolding selected
  select none c = (ok tt, c)
  select (some script) c =
      after (exchange net (record (Request.new script) { credentials = c.signed }) c)
        λ exchanged later. (selected exchanged, later)

  -- One hop's work on the connection to the node that a redirect named.
  unfoldable pub arrive :
      Request
      → Option Text
      → Redirect
      → Client net.State
      → Result Error (Exchanged × Client net.State)
  unfolding kept
  arrive request selecting redirect there = bind (kept (context there)) λ (found, there₁).
      bind (check_node redirect.node found)
        λ _. bind (kept (select selecting there₁)) λ (_, there₂). kept (exchange net request there₂)

  module _ {World : Type 0} (dial : Text → World → Result Error (Client net.State) × World) where
    unfoldable pub hop :
        Request
        → Option Text
        → Option (Text × Text)
        → Redirect
        → World
        → Result Error (Exchanged × Client net.State) × World
    hop request selecting signed redirect w =
        after (dial redirect.endpoint w) λ there later.
          (arrive request selecting redirect (record there { signed = signed }), later)

    -- `*self = there` where the redirect is settled.
    unfoldable pub moved : Settlement → Client net.State → Client net.State → Client net.State
    moved settled self there = there
    moved transient self there = self

    -- What a hop came back as: `again` goes on where it was redirected once more.
    unfoldable pub follow_on :
        Redirect
        → Client net.State
        → (Redirect → World → Result Error (List Answer) × Client net.State × World)
        → Result Error (Exchanged × Client net.State) × World
        → Result Error (List Answer) × Client net.State × World
    unfolding moved
    follow_on redirect self again (err e, w) = (err e, self, w)
    follow_on redirect self again (ok (answers held, there), w) =
        (ok held, moved redirect.settlement self there, w)
    follow_on redirect self again (ok (elsewhere next, there), w) = again next w

    -- The loop: `room` is how many hops are left, `MOST_HOPS - hops`.
    unfoldable pub follow :
        ℕ
        → Request
        → Option Text
        → ℕ
        → Redirect
        → Client net.State
        → World
        → Result Error (List Answer) × Client net.State × World
    unfolding follow_on
    follow zero request selecting floor redirect self w = (err (redirect_loop most_hops), self, w)
    follow (suc room) request selecting floor redirect self w =
        let again = λ (next : Redirect) (v : World).
          follow room request selecting redirect.epoch next self v in
        let gone = follow_on redirect self again (hop request selecting self.signed redirect w) in
        if ltb redirect.epoch floor
        then (err (stale_redirect redirect.epoch floor), self, w)
        else gone

    unfoldable pub follow_selected :
        Request
        → Redirect
        → World
        → Result Error (Option Text) × Client net.State
        → Result Error (List Answer) × Client net.State × World
    follow_selected request first w (ok selecting, self) =
        follow most_hops request selecting 0 first self w
    follow_selected request first w (err e, self) = (err e, self, w)

    unfoldable pub followed :
        Request
        → Redirect
        → Client net.State
        → World
        → Result Error (List Answer) × Client net.State × World
    unfolding follow_selected
    followed request first self w =
        let going =
          follow_selected request first w
            (after (context self) λ found later. (selection found, later)) in
        if self.dials then going else (err (redirected first), self, w)

    unfoldable pub sent :
        Request
        → World
        → Result Error Exchanged × Client net.State
        → Result Error (List Answer) × Client net.State × World
    unfolding followed
    sent request w (ok (answers held), self) = (ok held, self, w)
    sent request w (ok (elsewhere redirect), self) = followed request redirect self w
    sent request w (err e, self) = (err e, self, w)

    -- Credentials that a request presents are kept for the nodes that it is sent on to.
    unfoldable pub signing : Request → Client net.State → Client net.State
    signing request c = record c { signed = keep request.credentials c.signed }
      where
        keep : Option (Text × Text) → Option (Text × Text) → Option (Text × Text)
        keep none old = old
        keep (some pair) old = some pair

    unfoldable pub send :
        Request → Client net.State → World → Result Error (List Answer) × Client net.State × World
    unfolding sent signing
    send request c w = sent request w (exchange net request (signing request c))

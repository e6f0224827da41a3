-- ===== src/Client/Asking.antt =====
-- src/client.rs, `exchange`, on a reliable connection.
use tessaridb_sdk_rust.Common.{
  ℕ, ◌≤◌, ◌<◌, ◌≡◌, ◌≢◌, refl, ◌∙◌, ◌⊎◌, inl, inr, Option, none, some, List, [], ◌∷◌, ◌++◌, length,
  Result, ok, err, bind, ltb, ltb→lt, Bool-cases, arith,
}
use tessaridb_sdk_rust.Common.Utf8.{Text}
use tessaridb_sdk_rust.Client.{
  Client, Exchanged, answers, elsewhere, requires_minor, check_keys, if_allowed, refusal, reply,
  ask, exchange,
}
use tessaridb_sdk_rust.Error.{Error, refused, unknown_frame, node_too_old}
use tessaridb_sdk_rust.Refusal
use tessaridb_sdk_rust.Refusal.Class.{RefusalClass}
use tessaridb_sdk_rust.Wire.Answer.{Answer, decode_answers}
use tessaridb_sdk_rust.Wire.Redirect
use tessaridb_sdk_rust.Wire.Settlement.{Redirect}
use tessaridb_sdk_rust.Wire.Frame.{header}
use tessaridb_sdk_rust.Wire.Frame.Protocol.{ceiling}
use tessaridb_sdk_rust.Wire.Frame.Reading.{read-frame}
use tessaridb_sdk_rust.Wire.Frame.Writing.{write-frame}
use tessaridb_sdk_rust.Wire.Kind.{Kind, tag}
use tessaridb_sdk_rust.Wire.Request.{Request, PresentedKey, encode}
use tessaridb_sdk_rust.Wire.Stream.{Stream, IsReliable, Ends}

-- What a frame that answers a request says, by its kind.
pub data Understood : Kind → List ℕ → Result Error Exchanged → Type 0 where
  answered :
      (body : List ℕ) (held : List Answer)
      → decode_answers body ≡ ok held
      → Understood Kind.answer body (ok (answers held))
  no_answer :
      (body : List ℕ) (e : Error)
      → decode_answers body ≡ err e
      → Understood Kind.answer body (err e)
  declined :
      (body : List ℕ) (class : Option RefusalClass) (message : Text)
      → Refusal.read body ≡ (class, message)
      → Understood Kind.refusal body (err (refused message class))
  sent_elsewhere :
      (body : List ℕ) (r : Redirect)
      → Redirect.decode body ≡ ok r
      → Understood Kind.elsewhere body (ok (elsewhere r))
  no_redirect :
      (body : List ℕ) (e : Error)
      → Redirect.decode body ≡ err e
      → Understood Kind.elsewhere body (err e)
  out_of_place :
      (kind : Kind) (body : List ℕ)
      → kind ≢ Kind.answer
      → kind ≢ Kind.refusal
      → kind ≢ Kind.elsewhere
      → Understood kind body (err (unknown_frame (tag kind)))

answer-Understood :
    (body : List ℕ) (r : Result Error (List Answer))
    → decode_answers body ≡ r
    → Understood Kind.answer body (bind r λ held. ok (answers held))
answer-Understood body (ok held) e = answered body held e
answer-Understood body (err f) e = no_answer body f e

elsewhere-Understood :
    (body : List ℕ) (r : Result Error Redirect)
    → Redirect.decode body ≡ r
    → Understood Kind.elsewhere body (bind r λ held. ok (elsewhere held))
elsewhere-Understood body (ok held) e = sent_elsewhere body held e
elsewhere-Understood body (err f) e = no_redirect body f e

reply-Understood : (kind : Kind) (body : List ℕ) → Understood kind body (reply (some (kind, body)))
unfolding reply refusal
reply-Understood Kind.answer body = answer-Understood body (decode_answers body) refl
reply-Understood Kind.refusal body = declined body _ _ refl
reply-Understood Kind.elsewhere body = elsewhere-Understood body (Redirect.decode body) refl
reply-Understood _ body = out_of_place _ body (λ e. cc) (λ e. cc) (λ e. cc)

-- Keys that are none, or that the node reads as far as is known.
abbrev pub IsReadBy : Option ℕ → List PresentedKey → Type 0
IsReadBy minor keys =
    (keys ≡ []) ⊎ ((minor ≡ none) ⊎ ((found : ℕ) × (minor ≡ some found) × (7 ≤ found)))

-- What is made of keys: refused for the minor, or allowed.
abbrev pub IsDecided : Option ℕ → List PresentedKey → Result Error (Unit {0}) → Type 0
IsDecided minor keys outcome =
    ((found : ℕ) × (minor ≡ some found)
      × (found < 7)
      × (keys ≢ [])
      × (outcome ≡ err (node_too_old found 7)))
    ⊎ (IsReadBy minor keys × (outcome ≡ ok tt))

check_keys-IsDecided :
    (minor : Option ℕ) (keys : List PresentedKey) → IsDecided minor keys (check_keys minor keys)
unfolding check_keys requires_minor
check_keys-IsDecided minor [] = inr (inl refl, refl)
check_keys-IsDecided none (k ∷ ks) = inr (inr (inl refl), refl)
check_keys-IsDecided (some found) (k ∷ ks) = elim (Bool-cases (ltb found 7)) [
  | inl old ↦ inl (found, refl, ltb→lt found 7 old, (λ e. cc), rw old refl)
  | inr young ↦ inr (inr (inr (found, refl, ground (arith, young))), rw young refl)
]

module _ (net : Stream) (law : IsReliable net) where
  open net use {State}
  open law use {pending, sent}

  ask-reply :
      (request : Request) (kind : Kind) (body rest : List ℕ) (s : State)
      → length (encode request) ≤ ceiling
      → length body ≤ ceiling
      → pending s ≡ header kind (length body) ++ (body ++ rest)
      → Ends net law
          (ask net request s)
          (reply (some (kind, body)))
          rest
          (sent s ++ (header Kind.request (length (encode request)) ++ encode request))
  unfolding ask
  ask-reply request kind body rest s short small p =
      let asked = write-frame net law Kind.request (encode request) s short in
      let answered = read-frame net law kind body rest asked.last small (asked.leaves ∙ p) in
      record {
        last = answered.last;
        ends_with = rw (asked.ends_with, answered.ends_with);
        leaves = answered.leaves;
        wrote = answered.wrote ∙ asked.wrote;
      }

  -- A request with keys is refused, and nothing is sent, where the minor of the node is known to be
  -- below 7. Any other request is sent in one frame, and the frame that comes back is read for what it
  -- is: answers, a refusal with its class and message, a redirect, or a frame that has no place there.
  -- What follows it is left for the next request, and nothing of the client changes but its stream.
  pub exchange-reply :
      (request : Request) (kind : Kind) (body rest : List ℕ) (c : Client State)
      → length (encode request) ≤ ceiling
      → length body ≤ ceiling
      → pending c.stream ≡ header kind (length body) ++ (body ++ rest)
      → ((found : ℕ) × (c.peer_minor ≡ some found)
          × (found < 7)
          × (request.keys ≢ [])
          × (exchange net request c ≡ (err (node_too_old found 7), c)))
        ⊎ (IsReadBy c.peer_minor request.keys
            × ((t : State) × (r : Result Error Exchanged) × (exchange net request c
                  ≡ (r, record c { stream = t }))
                × Understood kind body r
                × (pending t ≡ rest)
                × (sent t
                    ≡ sent c.stream
                      ++ (header Kind.request (length (encode request)) ++ encode request))))
  unfolding exchange if_allowed
  exchange-reply request kind body rest c short small p =
      elim (check_keys-IsDecided c.peer_minor request.keys) [
        | inl (found, known, old, some_keys, refusing) ↦
            inl (found, known, old, some_keys, rw refusing refl)
        | inr (readable, allowed) ↦
            (let ended = ask-reply request kind body rest c.stream short small p in
              inr (
                readable,
                (
                  ended.last,
                  reply (some (kind, body)),
                  rw (allowed, ended.ends_with) refl,
                  reply-Understood kind body,
                  ended.leaves,
                  ended.wrote,
                ),
              ))
      ]

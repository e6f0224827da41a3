-- ===== src/Client/Trail.antt =====
-- src/client/follow.rs: what was followed to the answers that a client hands over.
use tessaridb_sdk_rust.Common.{
  ℕ, zero, suc, ◌≤◌, ◌≡◌, ◌∙◌, refl, ap, inl, inr, Option, none, some, List, [], arith, Result, ok,
  err, ltb, Bool-cases,
}
use tessaridb_sdk_rust.Common.Utf8.{Text, literal}
use tessaridb_sdk_rust.Client.{Client, Exchanged, answers, elsewhere, exchange}
use tessaridb_sdk_rust.Client.Follow.{
  Context, last, context_from, check_node, selected, kept, context, select, arrive, hop, moved,
  follow, follow_on,
}
use tessaridb_sdk_rust.Error.{Error}
use tessaridb_sdk_rust.Wire.Answer.{Answer}
use tessaridb_sdk_rust.Wire.Request.{Request}
use tessaridb_sdk_rust.Wire.Request
use tessaridb_sdk_rust.Wire.Settlement.{Redirect, Settlement, settled, transient}
use tessaridb_sdk_rust.Wire.Stream.{Stream, after-ok, bind-ok, err-ne-ok}
use tessaridb_sdk_rust.Client.Naming.{
  NamesNode, ok_injective, check_node-ok, kept-ok, context_of-NamesNode,
}

module _ (net : Stream) {World : Type 0}
    (dial : Text → World → Result Error (Client net.State) × World) where
  -- A connection was asked which node it is, and it is this one.
  pub record IsNode (c : Client net.State) (node : List ℕ) (later : Client net.State) : Type 0 where
    pub held : List Answer
    pub said :
        exchange net
          (record {
            script = literal "RETURN session::context();";
            credentials = c.signed;
            parameters = [];
            keys = [];
          })
          c
        ≡ (ok (answers held), later)
    pub names_node : NamesNode held node

  -- The tenancy was selected, where there is one to select.
  pub data IsSelected : Option Text → Client net.State → Client net.State → Type 0 where
    as_it_was : (c : Client net.State) → IsSelected none c c
    chosen :
        (script : Text) (c later : Client net.State) (held : List Answer)
        → exchange net
            (record { script = script; credentials = c.signed; parameters = []; keys = [] })
            c
          ≡ (ok (answers held), later)
        → IsSelected (some script) c later

  -- One hop: the endpoint of a redirect was dialed, the connection signs as the client does and is to
  -- the node that the redirect named, the tenancy was selected there, and the request was asked.
  pub record IsHop (request : Request) (selecting : Option Text) (signed : Option (Text × Text))
      (r : Redirect) (w : World) (came : Exchanged) (there : Client net.State) (v : World)
      : Type 0 where
    pub dialed : Client net.State
    pub asked : Client net.State
    pub ready : Client net.State
    pub reached : dial r.endpoint w ≡ (ok dialed, v)
    pub is_named : IsNode (record dialed { signed = signed }) r.node asked
    pub is_selected : IsSelected selecting asked ready
    pub answered : exchange net request ready ≡ (ok came, there)

  -- How a redirect led to answers, to the client that is kept and to what the network became: so many
  -- hops at most, each to where the one before was sent on to, and no epoch older than the one before.
  -- The client moves to where the answers came from if the last redirect is settled, and stays
  -- where it was if it is transient.
  pub data IsTrail (request : Request) (selecting : Option Text) (self : Client net.State)
      : ℕ → ℕ → Redirect → World → List Answer → Client net.State → World → Type 0 where
    moves :
        (room floor : ℕ) (r : Redirect) (w v : World) (held : List Answer)
        (there : Client net.State)
        → floor ≤ r.epoch
        → IsHop request selecting self.signed r w (answers held) there v
        → r.settlement ≡ settled
        → IsTrail request selecting self (suc room) floor r w held there v
    stays :
        (room floor : ℕ) (r : Redirect) (w v : World) (held : List Answer)
        (there : Client net.State)
        → floor ≤ r.epoch
        → IsHop request selecting self.signed r w (answers held) there v
        → r.settlement ≡ transient
        → IsTrail request selecting self (suc room) floor r w held self v
    onward :
        (room floor : ℕ) (r next : Redirect) (w v w' : World) (held : List Answer)
        (there self' : Client net.State)
        → floor ≤ r.epoch
        → IsHop request selecting self.signed r w (elsewhere next) there v
        → IsTrail request selecting self room r.epoch next v held self' w'
        → IsTrail request selecting self (suc room) floor r w held self' w'

  context-IsNode :
      (c : Client net.State) (found : Context) (later : Client net.State) (node : List ℕ)
      → context net c ≡ (ok found, later)
      → found.node ≡ some node
      → IsNode c node later
  unfolding context context_from Request.new
  context-IsNode c found later node h n =
      let (x, later', asked, rest) = after-ok (exchange net _ c) _ found later h in
      from_exchanged x later' asked (ap (λ p. p.0) rest) (ap (λ p. p.1) rest)
    where
      from_exchanged :
          (x : Exchanged) (later' : Client net.State)
          → exchange net
              (record {
                script = literal "RETURN session::context();";
                credentials = c.signed;
                parameters = [];
                keys = [];
              })
              c
            ≡ (ok x, later')
          → context_from x ≡ ok found
          → later' ≡ later
          → IsNode c node later
      from_exchanged (answers held) later' asked e same = record {
        held = held;
        said = asked ∙ ap (λ l. (ok (answers held), l)) same;
        names_node = context_of-NamesNode (last held) held found node refl e n;
      }
      from_exchanged (elsewhere r) later' asked e same = absurd (err-ne-ok e)

  select-IsSelected :
      (selecting : Option Text) (c later : Client net.State)
      → select net selecting c ≡ (ok tt, later)
      → IsSelected selecting c later
  unfolding select selected Request.new
  select-IsSelected none c later h = rw (← ap (λ p. p.1) h) (as_it_was c)
  select-IsSelected (some script) c later h =
      let (x, later', asked, rest) = after-ok (exchange net _ c) _ tt later h in
      from_exchanged x later' asked (ap (λ p. p.0) rest) (ap (λ p. p.1) rest)
    where
      from_exchanged :
          (x : Exchanged) (later' : Client net.State)
          → exchange net
              (record { script = script; credentials = c.signed; parameters = []; keys = [] })
              c
            ≡ (ok x, later')
          → selected x ≡ ok tt
          → later' ≡ later
          → IsSelected (some script) c later
      from_exchanged (answers held) later' asked e same =
          chosen script c later held (asked ∙ ap (λ l. (ok (answers held), l)) same)
      from_exchanged (elsewhere r) later' asked e same = absurd (err-ne-ok e)

  hop-IsHop :
      (request : Request) (selecting : Option Text) (signed : Option (Text × Text)) (r : Redirect)
      (w v : World) (x : Exchanged) (there : Client net.State)
      → hop net dial request selecting signed r w ≡ (ok (x, there), v)
      → IsHop request selecting signed r w x there v
  unfolding hop arrive
  hop-IsHop request selecting signed r w v x there h =
      let (dialed, later, reached, rest) = after-ok (dial r.endpoint w) _ (x, there) v h in
      let ((found, asked), said, checked) =
        bind-ok (kept (context net (record dialed { signed = signed }))) _ (x, there)
          (ap (λ p. p.0) rest) in
      let (u, same, selects) = bind-ok (check_node r.node found) _ (x, there) checked in
      let ((u', ready), chose, asks) =
        bind-ok (kept (select net selecting asked)) _ (x, there) selects in
      record {
        dialed = dialed;
        asked = asked;
        ready = ready;
        reached = reached ∙ ap (λ z. (ok dialed, z)) (ap (λ p. p.1) rest);
        is_named =
            context-IsNode (record dialed { signed = signed }) found asked r.node
              (kept-ok (context net (record dialed { signed = signed })) (found, asked) said)
              (check_node-ok r.node found same);
        is_selected =
            select-IsSelected selecting asked ready
              (kept-ok (select net selecting asked) (tt, ready) chose);
        answered = kept-ok (exchange net request ready) (x, there) asks;
      }

  -- What a hop was followed by: the answers, or the trail from where it was sent on to.
  follow_on-IsTrail :
      (request : Request) (selecting : Option Text) (room floor : ℕ) (r : Redirect)
      (self : Client net.State) (w : World) (held : List Answer) (self' : Client net.State)
      (w' : World) (gone : Result Error (Exchanged × Client net.State) × World)
      → floor ≤ r.epoch
      → hop net dial request selecting self.signed r w ≡ gone
      → ((next : Redirect) (v : World)
          → follow net dial room request selecting r.epoch next self v ≡ (ok held, self', w')
          → IsTrail request selecting self room r.epoch next v held self' w')
      → follow_on net dial r self
          (λ next v. follow net dial room request selecting r.epoch next self v)
          gone
        ≡ (ok held, self', w')
      → IsTrail request selecting self (suc room) floor r w held self' w'
  unfolding follow_on moved
  follow_on-IsTrail request selecting room floor r self w held self' w' (err e, v) newer gone on h =
      absurd (err-ne-ok (ap (λ p. p.0) h))
  follow_on-IsTrail request selecting room floor r self w held self' w'
        (ok (elsewhere next, there), v) newer gone on h =
      onward room floor r next w v w' held there self' newer
        (hop-IsHop request selecting self.signed r w v (elsewhere next) there gone) (on next v h)
  follow_on-IsTrail request selecting room floor r self w held self' w'
        (ok (answers came, there), v) newer gone on h =
      arrived_at r.settlement refl (ok_injective (ap (λ p. p.0) h)) (ap (λ p. p.1) h)
        (ap (λ p. p.2) h)
    where
      arrived_at :
          (how : Settlement)
          → r.settlement ≡ how
          → came ≡ held
          → moved net dial how self there ≡ self'
          → v ≡ w'
          → IsTrail request selecting self (suc room) floor r w held self' w'
      arrived_at settled s a b c =
          rw (← a, ← b, ← c)
            (moves room floor r w v came there newer
              (hop-IsHop request selecting self.signed r w v (answers came) there gone) s)
      arrived_at transient s a b c =
          rw (← a, ← b, ← c)
            (stays room floor r w v came there newer
              (hop-IsHop request selecting self.signed r w v (answers came) there gone) s)

  -- Answers that a redirect led to came by a trail of no more redirects than there was room for,
  -- whose epochs never go backwards. Each was followed to a connection to the node that it named, where
  -- the tenancy was selected and the request asked, and the next is what came of that; the
  -- answers are what came of the last. The client moves to where they came from if the last redirect is
  -- settled, and stays where it was if not.
  pub follow-IsTrail :
      (room : ℕ) (request : Request) (selecting : Option Text) (floor : ℕ) (r : Redirect)
      (self : Client net.State) (w : World) (held : List Answer) (self' : Client net.State)
      (w' : World)
      → follow net dial room request selecting floor r self w ≡ (ok held, self', w')
      → IsTrail request selecting self room floor r w held self' w'
  unfolding follow
  follow-IsTrail zero request selecting floor r self w held self' w' h =
      absurd (err-ne-ok (ap (λ p. p.0) h))
  follow-IsTrail (suc room) request selecting floor r self w held self' w' h =
      elim (Bool-cases (ltb r.epoch floor)) [
        | inl old ↦ absurd (err-ne-ok (ap (λ p. p.0) (rw old at h)))
        | inr fresh ↦
            follow_on-IsTrail request selecting room floor r self w held self' w'
              (hop net dial request selecting self.signed r w) (ground (arith, fresh)) refl
              (λ next v later.
                follow-IsTrail room request selecting r.epoch next self v held self' w' later)
              (rw fresh at h)
      ]

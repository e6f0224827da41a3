-- ===== src/Wire/Answer/Framing.antt =====
-- src/wire/message.rs, `decode_answers`: outcomes are decoded each inside its own length.
use tessaridb_sdk_rust.Common.{
  ℕ, ◌<◌, ◌≡◌, refl, ◌∙◌, ap, List, [], ◌∷◌, ◌++◌, arith, append_assoc, length, All, eq-ne, Result,
  ok, err, bind, take_each, put_each, Result-cases, inl, inr, append-nil,
}
use tessaridb_sdk_rust.Error.{Error}
use tessaridb_sdk_rust.Value.Valid.{IsU32}
use tessaridb_sdk_rust.Wire.Body.{put_u32}
use tessaridb_sdk_rust.Wire.Body.RoundTrip.{take-Reads, take_u8-Reads, take_u32-Reads}
use tessaridb_sdk_rust.Wire.Answer.{
  Answer, unknown, decode_tagged, decode_one, decode_outcome, take_outcome, decode_answers,
}

-- An outcome behind its length.
unfoldable pub framed : List ℕ → List ℕ
framed outcome = put_u32 (length outcome) ++ outcome

unfoldable pub answer_body : List (List ℕ) → List ℕ
answer_body outcomes = put_u32 (length outcomes) ++ put_each framed outcomes

-- Each outcome on its own, in order, up to the first that is refused.
unfoldable pub decode_all : List (List ℕ) → Result Error (List Answer)
decode_all [] = ok []
decode_all (outcome ∷ rest) =
    bind (decode_outcome outcome) λ answer. bind (decode_all rest) λ answers. ok (answer ∷ answers)

abbrev pub AreOutcomes : List (List ℕ) → Type 0
AreOutcomes = All λ outcome. IsU32 (length outcome)

take_outcome-framed :
    (outcome rest : List ℕ)
    → IsU32 (length outcome)
    → take_outcome (framed outcome ++ rest)
      ≡ bind (decode_outcome outcome) (λ answer. ok (answer, rest))
unfolding take_outcome framed
take_outcome-framed outcome rest h =
    rw
      (
        append_assoc (put_u32 (length outcome)) outcome rest,
        (take_u32-Reads (length outcome) h).reads (outcome ++ rest),
        (take-Reads outcome).reads rest,
      )
      (elim (Result-cases (decode_outcome outcome)) [
        | inl (answer, e) ↦ rw e
        | inr (fault, e) ↦ rw e
      ])

take_each-framed :
    (outcomes : List (List ℕ)) (rest : List ℕ)
    → AreOutcomes outcomes
    → take_each take_outcome (length outcomes) (put_each framed outcomes ++ rest)
      ≡ bind (decode_all outcomes) (λ answers. ok (answers, rest))
unfolding take_each put_each decode_all
take_each-framed [] rest h = refl
take_each-framed (outcome ∷ outcomes) rest h =
    rw
      (
        append_assoc (framed outcome) (put_each framed outcomes) rest,
        take_outcome-framed outcome (put_each framed outcomes ++ rest) h.0,
      )
      (elim (Result-cases (decode_outcome outcome)) [
        | inl (answer, e) ↦
            rw (e, take_each-framed outcomes rest h.1)
              (elim (Result-cases (decode_all outcomes)) [
                | inl (answers, e') ↦ rw e'
                | inr (fault, e') ↦ rw e'
              ])
        | inr (fault, e) ↦ rw e
      ])

-- A body is decoded outcome by outcome: what one outcome holds has no effect on how the others
-- are read, and bytes after the last one are not looked at.
pub decode_answers-body :
    (outcomes : List (List ℕ)) (more : List ℕ)
    → IsU32 (length outcomes)
    → AreOutcomes outcomes
    → decode_answers (answer_body outcomes ++ more) ≡ decode_all outcomes
unfolding decode_answers answer_body
decode_answers-body outcomes more n h =
    rw
      (
        append_assoc (put_u32 (length outcomes)) (put_each framed outcomes) more,
        (take_u32-Reads (length outcomes) n).reads (put_each framed outcomes ++ more),
        take_each-framed outcomes more h,
      )
      (elim (Result-cases (decode_all outcomes)) [
        | inl (answers, e) ↦ rw e
        | inr (fault, e) ↦ rw e
      ])

decode_outcome_unknown :
    (tag : ℕ) (content : List ℕ) → 4 < tag → decode_outcome (tag ∷ content) ≡ ok unknown
unfolding decode_outcome decode_one decode_tagged
decode_outcome_unknown tag content h = rw (
  (take_u8-Reads tag).reads content,
  eq-ne tag 0 (omega arith),
  eq-ne tag 1 (omega arith),
  eq-ne tag 2 (omega arith),
  eq-ne tag 3 (omega arith),
  eq-ne tag 4 (omega arith),
)

decode_all-unknown :
    (tag : ℕ) (content : List ℕ) (rest : List (List ℕ)) (bs : List Answer)
    → 4 < tag
    → decode_all rest ≡ ok bs
    → decode_all ((tag ∷ content) ∷ rest) ≡ ok (unknown ∷ bs)
unfolding decode_all
decode_all-unknown tag content rest bs t q = rw (decode_outcome_unknown tag content t, q)

ok_injective : {A : Type 0} {x y : A} → ◌≡◌ {A = Result Error A} (ok x) (ok y) → x ≡ y
ok_injective e = cc

err-ne-ok : {A : Type 0} {fault : Error} {y : A} → ◌≡◌ {A = Result Error A} (err fault) (ok y) → ⊥
err-ne-ok e = cc

decode_all-append :
    (xs ys : List (List ℕ)) (as' bs : List Answer)
    → decode_all xs ≡ ok as'
    → decode_all ys ≡ ok bs
    → decode_all (xs ++ ys) ≡ ok (as' ++ bs)
unfolding decode_all
decode_all-append [] ys as' bs p q = rw q (ap (λ xs. ok (xs ++ bs)) (ok_injective p))
decode_all-append (x ∷ xs) ys as' bs p q = elim (Result-cases (decode_outcome x)) [
  | inl (a, e) ↦ elim (Result-cases (decode_all xs)) [
    | inl (as'', e') ↦
        rw (e, decode_all-append xs ys as'' bs e' q)
          (ap (λ zs. ok (zs ++ bs)) (ok_injective (rw (e, e') at p)))
    | inr (fault, e') ↦ absurd (err-ne-ok (rw (e, e') at p))
  ]
  | inr (fault, e) ↦ absurd (err-ne-ok (rw e at p))
]

-- An outcome of a kind that this client does not know, anywhere in an answer and whatever it holds,
-- is reported as unknown, and the outcomes before and behind it are read as if it were not there.
pub decode_answers_unknown :
    (before behind : List (List ℕ)) (tag : ℕ) (content : List ℕ) (as' bs : List Answer)
    → 4 < tag
    → IsU32 (length (before ++ (tag ∷ content) ∷ behind))
    → AreOutcomes (before ++ (tag ∷ content) ∷ behind)
    → decode_all before ≡ ok as'
    → decode_all behind ≡ ok bs
    → decode_answers (answer_body (before ++ (tag ∷ content) ∷ behind)) ≡ ok (as' ++ unknown ∷ bs)
decode_answers_unknown before behind tag content as' bs t n h p q =
    let body = answer_body (before ++ (tag ∷ content) ∷ behind) in
    let whole = decode_answers-body (before ++ (tag ∷ content) ∷ behind) [] n h in
    rw (append-nil body) at whole
    ∙ decode_all-append before ((tag ∷ content) ∷ behind) as' (unknown ∷ bs) p
        (decode_all-unknown tag content behind bs t q)

-- ===== src/Examples/Trickle.antt =====
-- A connection that gives one byte at a time, as an instance of the one that src/wire/frame.rs runs on.
use tessaridb_sdk_rust.Common.{
  ℕ, zero, suc, ◌≤◌, ◌<◌, ◌≡◌, refl, Option, none, some, List, [], ◌∷◌, ◌++◌, arith, length,
  split_at, split_at-append, split_at-eq_none, Result, ok, err,
}
use tessaridb_sdk_rust.Error.{IoFault, unexpected_eof}
use tessaridb_sdk_rust.Wire.Stream.{Stream, IsReliable}

pub record Line : Type 0 where
  pub incoming : List ℕ
  pub outgoing : List ℕ

abbrev pub one_byte : ℕ → List ℕ → List ℕ → Result IoFault (List ℕ) × Line
one_byte zero incoming out = (ok [], record { incoming = incoming; outgoing = out })
one_byte (suc n) [] out = (ok [], record { incoming = []; outgoing = out })
one_byte (suc n) (b ∷ bs) out = (ok (b ∷ []), record { incoming = bs; outgoing = out })

abbrev pub exactly : Option (List ℕ × List ℕ) → List ℕ → Result IoFault (List ℕ) × Line
exactly none out = (err unexpected_eof, record { incoming = []; outgoing = out })
exactly (some (front, back)) out = (ok front, record { incoming = back; outgoing = out })

abbrev pub trickle : Stream
trickle = record {
  State = Line;
  read = λ n s. one_byte n s.incoming s.outgoing;
  read_exact = λ n s. exactly (split_at n s.incoming) s.outgoing;
  write_all = λ bytes s. (ok tt, record s { outgoing = s.outgoing ++ bytes });
  flush = λ s. (ok tt, s);
}

pub read_some :
    (count : ℕ) (s : Line) (b : ℕ) (bs : List ℕ)
    → 0 < count
    → s.incoming ≡ b ∷ bs
    → (chunk : List ℕ) × (rest : List ℕ) × (t : Line) × (one_byte count s.incoming s.outgoing
        ≡ (ok (b ∷ chunk), t))
      × (length (b ∷ chunk) ≤ count)
      × (bs ≡ chunk ++ rest)
      × (t.incoming ≡ rest)
      × (t.outgoing ≡ s.outgoing)
read_some zero s b bs h p = absurd (omega arith)
read_some (suc n) s b bs h p =
    ([], bs, record s { incoming = bs }, rw p, omega arith, refl, refl, refl)

pub read_closed :
    (count : ℕ) (s : Line)
    → s.incoming ≡ []
    → (t : Line) × (one_byte count s.incoming s.outgoing ≡ (ok [], t))
      × (t.incoming ≡ [])
      × (t.outgoing ≡ s.outgoing)
read_closed zero s p = (s, refl, p, refl)
read_closed (suc n) s p = (record s { incoming = [] }, rw p, refl, refl)

abbrev pub trickle-IsReliable : IsReliable trickle
trickle-IsReliable = record {
  pending = λ s. s.incoming;
  sent = λ s. s.outgoing;
  read_some = read_some;
  read_closed = read_closed;
  read_exact_all = λ front back s p.
      (record s { incoming = back }, rw (p, split_at-append front back), refl, refl);
  read_exact_short = λ count s h.
      (record s { incoming = [] }, rw (split_at-eq_none count s.incoming h), refl, refl);
  write_all_sends = λ bytes s. (record s { outgoing = s.outgoing ++ bytes }, refl, refl, refl);
  flush_keeps = λ s. (s, refl, refl, refl);
}

-- A connection on which these bytes arrive.
abbrev pub line : List ℕ → Line
line bytes = record { incoming = bytes; outgoing = [] }

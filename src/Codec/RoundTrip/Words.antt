-- ===== src/Codec/RoundTrip/Words.antt =====
-- The primitive reads undo the primitive writes.
use tessaridb_sdk_rust.Common.{
  ℕ, zero, suc, ◌^◌, ◌<◌, ◌≡◌, refl, ◌∙◌, ap, ℤ, to_pattern, of_pattern-to_pattern, to_pattern-lt,
  false, Option, none, some, if◌then◌else◌, List, [], ◌∷◌, ◌++◌, arith, length, split_at-append,
  append_assoc, append-nil, lt→ltb, ◌==◌, eq_self, bit_xor, All, ok, pure, lift, ◌>>=◌, Reads,
  Reads-bind, leb-gt, Bool-cases, inl, inr,
}
use tessaridb_sdk_rust.Common.Bytes.{
  IsByte, to_be_bytes, from_be_bytes, length-to_be_bytes, to_be_bytes-IsByte,
  from_be_bytes-to_be_bytes,
}
use tessaridb_sdk_rust.Common.Utf8.{Text, IsText}
use tessaridb_sdk_rust.Codec.Write.{
  flip_sign, put_i64, put_u32, count_of, put_lenbytes, put_varbytes, put_float, put_time,
}
use tessaridb_sdk_rust.Codec.Fault.{escape}
use tessaridb_sdk_rust.Codec.Reader.{
  take, take_u8, take_fixed, take_u32, take_i64, take_lenbytes, from_utf8, take_text,
  take_varbytes_from, take_varbytes, take_time,
}
use tessaridb_sdk_rust.Value.Valid.{IsU32, IsU64, IsI64, IsTime, IsShortText}

pub take-Reads : (bytes : List ℕ) → Reads (take (length bytes)) bytes bytes
unfolding take
take-Reads bytes = record { reads = λ rest. rw (split_at-append bytes rest) }

pub take_u8-Reads : (byte : ℕ) → Reads take_u8 (byte ∷ []) byte
unfolding take_u8
take_u8-Reads byte = record { reads = λ rest. rw ((take-Reads (byte ∷ [])).reads rest) }

pub take_fixed-Reads :
    (n : ℕ) (bytes : List ℕ) → length bytes ≡ n → Reads (take_fixed n) bytes bytes
unfolding take_fixed
take_fixed-Reads n bytes e = record {
  reads = λ rest. rw (← e) (rw ((take-Reads bytes).reads rest, eq_self (length bytes)));
}

pub take_u32-Reads : (n : ℕ) → IsU32 n → Reads take_u32 (put_u32 n) n
unfolding take_u32 put_u32
take_u32-Reads n h = record {
  reads = λ rest.
      rw (
        (take_fixed-Reads 4 _ (length-to_be_bytes 4 n)).reads rest,
        from_be_bytes-to_be_bytes 4 n h,
      );
}

-- Flipping the sign bit twice moves no byte.
twice_flipped : ℕ → ℕ
twice_flipped b = bit_xor (bit_xor b 0x80) 0x80

-- The largest byte below a bound that flipping twice moves.
largest_moved : ℕ → Option ℕ
largest_moved zero = none
largest_moved (suc bound) =
    let lower = largest_moved bound in if twice_flipped bound == bound then lower else some bound

twice_flipped_unmoved : (bound b : ℕ) → largest_moved bound ≡ none → b < bound → twice_flipped b ≡ b
unfolding largest_moved
twice_flipped_unmoved zero b found under = absurd (omega arith)
twice_flipped_unmoved (suc bound) b found under = ground (arith, twice_flipped_unmoved bound b)

none_moved : largest_moved 256 ≡ none
unfolding largest_moved twice_flipped
none_moved = refl

flip_twice : (b : ℕ) → IsByte b → bit_xor (bit_xor b 0x80) 0x80 ≡ b
flip_twice b h = unfold twice_flipped in twice_flipped_unmoved 256 b none_moved h

flip_sign-flip_sign : (bs : List ℕ) → All IsByte bs → flip_sign (flip_sign bs) ≡ bs
flip_sign-flip_sign [] h = refl
flip_sign-flip_sign (b ∷ bs) h = ap (λ x. x ∷ bs) (flip_twice b h.0)

length-flip_sign : (bs : List ℕ) → length (flip_sign bs) ≡ length bs
length-flip_sign [] = refl
length-flip_sign (b ∷ bs) = refl

pub take_i64-Reads : (z : ℤ) → IsI64 z → Reads take_i64 (put_i64 z) z
unfolding take_i64 put_i64
take_i64-Reads z h =
    let pattern_of = to_pattern (2 ^ 63) z in
    let plain = to_be_bytes 8 pattern_of in
    let long : length (flip_sign plain) ≡ 8 =
      length-flip_sign plain ∙ length-to_be_bytes 8 pattern_of in
    record {
      reads = λ rest. rw (
        (take_fixed-Reads 8 (flip_sign plain) long).reads rest,
        flip_sign-flip_sign plain (to_be_bytes-IsByte 8 pattern_of),
        from_be_bytes-to_be_bytes 8 pattern_of (to_pattern-lt (2 ^ 63) z h),
        of_pattern-to_pattern (2 ^ 63) z h,
      );
    }

count_of-IsU32 : (n : ℕ) → IsU32 n → count_of n ≡ n
unfolding count_of
count_of-IsU32 n h = rw (lt→ltb n (2 ^ 32) h)

pub take_count-Reads : (n : ℕ) → IsU32 n → Reads take_u32 (put_u32 (count_of n)) n
take_count-Reads n h = rw (count_of-IsU32 n h) (take_u32-Reads n h)

pub take_lenbytes-Reads :
    (bytes : List ℕ) → IsU32 (length bytes) → Reads take_lenbytes (put_lenbytes bytes) bytes
unfolding take_lenbytes put_lenbytes
take_lenbytes-Reads bytes h = Reads-bind _ (take_count-Reads (length bytes) h) (take-Reads bytes)

from_utf8_text : (t : Text) → IsText t → from_utf8 t ≡ ok t
unfolding from_utf8
from_utf8_text t h = rw h.utf8

pub take_text-Reads : (t : Text) → IsShortText t → Reads take_text (put_lenbytes t) t
unfolding take_text
take_text-Reads t h = record {
  reads = λ rest. rw ((take_lenbytes-Reads t h.1).reads rest, from_utf8_text t h.0);
}

-- A byte that is no escape is kept.
take_varbytes_from_plain :
    (out : List ℕ) (byte : ℕ) (rest : List ℕ)
    → (byte == escape) ≡ false
    → take_varbytes_from out (byte ∷ rest) ≡ take_varbytes_from (out ++ byte ∷ []) rest
unfolding take_varbytes_from
take_varbytes_from_plain out byte [] h = refl
take_varbytes_from_plain out byte (next ∷ rest) h = rw h

take_varbytes_from-append :
    (out bytes rest : List ℕ)
    → take_varbytes_from out (put_varbytes bytes ++ rest) ≡ ok (out ++ bytes, rest)
unfolding take_varbytes_from put_varbytes
take_varbytes_from-append out [] rest = rw append-nil
take_varbytes_from-append out (b ∷ bytes) rest = elim (Bool-cases (b == escape)) [
  | inl is_escape ↦
      let e : b ≡ escape = ground arith in
      rw e (
        take_varbytes_from-append (out ++ escape ∷ []) bytes rest
        ∙ ap (λ x. ok (x, rest)) (append_assoc out (escape ∷ []) bytes))
  | inr plain ↦ rw plain (
      take_varbytes_from_plain out b _ plain
      ∙ take_varbytes_from-append (out ++ b ∷ []) bytes rest
      ∙ ap (λ x. ok (x, rest)) (append_assoc out (b ∷ []) bytes))
]

pub take_varbytes-Reads : (bytes : List ℕ) → Reads take_varbytes (put_varbytes bytes) bytes
unfolding take_varbytes
take_varbytes-Reads bytes = record { reads = take_varbytes_from-append [] bytes }

pub take_time-Reads :
    (seconds : ℤ) (nanos : ℕ)
    → IsTime seconds nanos
    → Reads take_time (put_time seconds nanos) (seconds, nanos)
unfolding take_time put_time
take_time-Reads seconds nanos h = Reads-bind _ (take_i64-Reads seconds h.0) (record {
  reads =
      λ rest. rw ((take_u32-Reads nanos (omega arith)).reads rest, leb-gt 1_000_000_000 nanos h.1);
})

pub take_word64-Reads :
    (bits : ℕ)
    → IsU64 bits
    → Reads (take_fixed 8 >>= λ bytes. pure (from_be_bytes 0 bytes)) (put_float bits) bits
unfolding put_float
take_word64-Reads bits h = record {
  reads = λ rest. rw (
    (take_fixed-Reads 8 _ (length-to_be_bytes 8 bits)).reads rest,
    from_be_bytes-to_be_bytes 8 bits h,
  );
}

pub take_vartext-Reads :
    (t : Text)
    → IsText t
    → Reads (take_varbytes >>= λ bytes. lift (from_utf8 bytes)) (put_varbytes t) t
take_vartext-Reads t h = record {
  reads = λ rest. rw ((take_varbytes-Reads t).reads rest, from_utf8_text t h);
}

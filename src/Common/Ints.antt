-- ===== src/Common/Ints.antt =====
-- Signed integers, and their two's complement patterns.
use Prim.Native.Nat.{ℕ, ◌-◌, ◌*◌, ◌<◌}
use mathlib.Core.Path.{◌≡◌}
use native.Mathlib.Omega.{arith}
use tessaridb_sdk_rust.Common.Tests.{ltb, if◌then◌else◌}

-- `negsuc n` is -(n + 1).
pub data ℤ : Type 0 where
  pos : ℕ → ℤ
  negsuc : ℕ → ℤ

-- The integers from `-half` up to `half - 1`.
abbrev pub IsSigned : ℕ → ℤ → Type 0
IsSigned half (pos n) = n < half
IsSigned half (negsuc n) = n < half

-- The pattern of an integer in a word of `2 * half` values, and back.
abbrev pub to_pattern : ℕ → ℤ → ℕ
to_pattern half (pos n) = n
to_pattern half (negsuc n) = 2 * half - 1 - n

abbrev pub of_pattern : ℕ → ℕ → ℤ
of_pattern half n = if ltb n half then pos n else negsuc (2 * half - 1 - n)

pub of_pattern-to_pattern :
    (half : ℕ) (z : ℤ) → IsSigned half z → of_pattern half (to_pattern half z) ≡ z
of_pattern-to_pattern half (pos n) h = ground arith
of_pattern-to_pattern half (negsuc n) h = ground arith

pub to_pattern-lt : (half : ℕ) (z : ℤ) → IsSigned half z → to_pattern half z < 2 * half
to_pattern-lt half (pos n) h = omega arith
to_pattern-lt half (negsuc n) h = omega arith

-- ===== src/Common/Bytes.antt =====
-- Bytes as numbers, and machine words written with the most significant byte first.
use tessaridb_sdk_rust.Common.{
  ℕ, zero, suc, ◌+◌, ◌*◌, ◌/◌, ◌%◌, ◌^◌, ◌<◌, ◌≡◌, refl, ap, List, [], ◌∷◌, ◌++◌, arith, length,
  length-append, All, All-append,
}

abbrev pub IsByte : ℕ → Type 0
IsByte b = b < 256

-- `to_be_bytes` of a word of `width` bytes.
unfoldable pub to_be_bytes : ℕ → ℕ → List ℕ
to_be_bytes zero n = []
to_be_bytes (suc width) n = to_be_bytes width (n / 256) ++ (n % 256) ∷ []

-- `from_be_bytes`, of bytes that follow those that make up `high`.
unfoldable pub from_be_bytes : ℕ → List ℕ → ℕ
from_be_bytes high [] = high
from_be_bytes high (b ∷ bs) = from_be_bytes (high * 256 + b) bs

pub length-to_be_bytes : (width n : ℕ) → length (to_be_bytes width n) ≡ width
unfolding to_be_bytes
length-to_be_bytes zero n = refl
length-to_be_bytes (suc width) n = omega (
  arith,
  length-append (to_be_bytes width (n / 256)) ((n % 256) ∷ []),
  length-to_be_bytes width (n / 256),
)

pub to_be_bytes-IsByte : (width n : ℕ) → All IsByte (to_be_bytes width n)
unfolding to_be_bytes
to_be_bytes-IsByte zero n = tt
to_be_bytes-IsByte (suc width) n =
    All-append IsByte (to_be_bytes width (n / 256)) ((n % 256) ∷ [])
      (to_be_bytes-IsByte width (n / 256)) (omega arith)

from_be_bytes-append :
    (high : ℕ) (xs : List ℕ) (b : ℕ)
    → from_be_bytes high (xs ++ b ∷ []) ≡ from_be_bytes high xs * 256 + b
unfolding from_be_bytes
from_be_bytes-append high [] b = refl
from_be_bytes-append high (x ∷ xs) b = from_be_bytes-append (high * 256 + x) xs b

-- A word that fits its width is read back.
pub from_be_bytes-to_be_bytes :
    (width n : ℕ) → n < 256 ^ width → from_be_bytes 0 (to_be_bytes width n) ≡ n
unfolding to_be_bytes
from_be_bytes-to_be_bytes zero n h = unfold from_be_bytes in omega arith
from_be_bytes-to_be_bytes (suc width) n h = omega (
  arith,
  from_be_bytes-append 0 (to_be_bytes width (n / 256)) (n % 256),
  from_be_bytes-to_be_bytes width (n / 256) (omega arith),
)

power_suc : (n : ℕ) → 256 ^ suc n ≡ 256 * 256 ^ n
power_suc n = omega arith

from_be_bytes-lt_from :
    (high : ℕ) (bs : List ℕ) (bound : ℕ)
    → All IsByte bs
    → high < bound
    → from_be_bytes high bs < bound * 256 ^ length bs
unfolding from_be_bytes
from_be_bytes-lt_from high [] bound h k = omega arith
from_be_bytes-lt_from high (b ∷ bs) bound h k =
    let tail = from_be_bytes-lt_from (high * 256 + b) bs (bound * 256) h.1 (omega arith) in
    omega (arith, tail, ap (λ (t : ℕ). bound * t) (power_suc (length bs)))

-- `n` bytes make a word of `n` bytes.
pub from_be_bytes-lt : (bs : List ℕ) → All IsByte bs → from_be_bytes 0 bs < 256 ^ length bs
from_be_bytes-lt bs h = omega (arith, from_be_bytes-lt_from 0 bs 1 h (omega arith))

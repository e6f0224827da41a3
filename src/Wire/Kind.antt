-- ===== src/Wire/Kind.antt =====
-- src/wire/frame.rs, `Kind`: what a frame is, and the byte that says so.
use tessaridb_sdk_rust.Common.{ℕ, ◌≡◌, refl, ◌↔◌, Option, none, some, arith, ◌==◌, if◌then◌else◌}

pub data Kind : Type 0 where
  request answer refusal subscribe change elsewhere vault progress : Kind

unfoldable pub tag : Kind → ℕ
tag request = 1
tag answer = 2
tag refusal = 3
tag subscribe = 4
tag change = 5
tag elsewhere = 13
tag vault = 17
tag progress = 37

unfoldable pub from_tag : ℕ → Option Kind
from_tag t =
    if t == 1
    then some request
    else if t == 2
    then some answer
    else if t == 3
    then some refusal
    else if t == 4
    then some subscribe
    else if t == 5
    then some change
    else if t == 13
    then some elsewhere
    else if t == 17
    then some vault
    else if t == 37
    then some progress
    else none

pub from_tag-tag : (k : Kind) → from_tag (tag k) ≡ some k
unfolding from_tag tag
from_tag-tag request = refl
from_tag-tag _ = refl

tag-from_tag : (t : ℕ) (k : Kind) → from_tag t ≡ some k → tag k ≡ t
unfolding from_tag tag
tag-from_tag t request e = ground arith
tag-from_tag t _ e = ground arith

-- A byte is read as a kind exactly when it is the byte that the kind is written as.
pub from_tag_iff : (t : ℕ) (k : Kind) → (from_tag t ≡ some k) ↔ (tag k ≡ t)
from_tag_iff t k = (tag-from_tag t k, λ e. rw (← e) (from_tag-tag k))

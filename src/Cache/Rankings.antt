-- ===== src/Cache/Rankings.antt =====
-- src/cache/containers/rankings.rs: a key that holds members with scores, each the 64 bits of a
-- double.
use tessaridb_sdk_rust.Common.{
  ℕ, ◌-◌, ◌^◌, ◌/◌, ◌%◌, Bool, true, false, Option, none, some, List, [], ◌∷◌, ℤ, Result, ok, err,
  bind as and_then, ◌==◌, ◌&&◌, not,
}
use tessaridb_sdk_rust.Common.Utf8.{Text, literal}
use tessaridb_sdk_rust.Cache.Containers.{at_least_one, integer, elements}
use tessaridb_sdk_rust.Cache.Space.{value, with_result}
use tessaridb_sdk_rust.Cache.Statements.{Statements}
use tessaridb_sdk_rust.Cache.Statements.Containers
use tessaridb_sdk_rust.Client.Session.{Session}
use tessaridb_sdk_rust.Error.{Error, malformed, not_a_cache_argument}
use tessaridb_sdk_rust.Statement.{Rendered}
use tessaridb_sdk_rust.Value.{Value, Number, no_items, item}
use tessaridb_sdk_rust.Wire.Stream.{after}

-- `f64::is_finite`: the eleven bits of the exponent are not all set.
unfoldable pub is_finite : ℕ → Bool
is_finite bits = not ((bits / 2 ^ 52) % 2 ^ 11 == 2 ^ 11 - 1)

unfoldable pub all_finite : List (Text × ℕ) → Bool
unfolding is_finite
all_finite [] = true
all_finite ((member, score) ∷ rest) = is_finite score && all_finite rest

unfoldable pub if_finite : Bool → Result Error (Unit {0})
if_finite true = ok tt
if_finite false = err (not_a_cache_argument (literal "a score is a finite number"))

unfoldable pub float_of : Value → Result Error ℕ
float_of (Value.number (Number.float score)) = ok score
float_of other = err malformed

unfoldable pub score_of : Value → Result Error (Option ℕ)
score_of (Value.number (Number.float score)) = ok (some score)
score_of Value.none = ok none
score_of other = err malformed

unfoldable pub rank_of : Value → Result Error (Option ℤ)
rank_of (Value.number (Number.integer place)) = ok (some place)
rank_of Value.none = ok none
rank_of other = err malformed

unfoldable pub pair_of : Value → Result Error (Text × ℕ)
pair_of
      (Value.array
        (item (Value.string member) (item (Value.number (Number.float score)) no_items))) =
    ok (member, score)
pair_of other = err malformed

unfoldable pub pairs_of : List Value → Result Error (List (Text × ℕ))
unfolding pair_of
pairs_of [] = ok []
pairs_of (v ∷ vs) = and_then (pair_of v) λ first. and_then (pairs_of vs) λ later. ok (first ∷ later)

module _ (session : Session) (s : Statements) where
  open session use {State}

  unfoldable pub ranked : Rendered → State → Result Error (List (Text × ℕ)) × State
  ranked bound w = after (elements session s bound w) λ held t. (pairs_of held, t)

  unfoldable pub scores_add : Text → List (Text × ℕ) → State → Result Error ℤ × State
  unfolding with_result
  scores_add key scores w =
      with_result (at_least_one scores (literal "a ranking write needs a member")) w λ _.
        with_result (if_finite (all_finite scores)) w
          λ _. integer session s (Containers.scores_add s key scores) w

  unfoldable pub scores_incr : Text → Text → ℕ → State → Result Error ℕ × State
  unfolding with_result
  scores_incr key member by w = with_result (if_finite (is_finite by)) w λ _.
      after (value session s (Containers.scores_incr s key member by) w)
        λ held t. (float_of held, t)

  unfoldable pub scores_remove : Text → List Text → State → Result Error ℤ × State
  unfolding with_result
  scores_remove key members w =
      with_result (at_least_one members (literal "a ranking removal needs a member")) w
        λ _. integer session s (Containers.scores_remove s key members) w

  unfoldable pub scores_score : Text → Text → State → Result Error (Option ℕ) × State
  scores_score key member w =
      after (value session s (Containers.scores_of s (literal "score") key member) w)
        λ held t. (score_of held, t)

  unfoldable pub scores_rank : Text → Text → State → Result Error (Option ℤ) × State
  scores_rank key member w =
      after (value session s (Containers.scores_of s (literal "rank") key member) w)
        λ held t. (rank_of held, t)

  unfoldable pub scores_range : Text → ℤ → ℤ → State → Result Error (List (Text × ℕ)) × State
  unfolding ranked
  scores_range key start stop w = ranked (Containers.scores_range s key start stop) w

  unfoldable pub scores_between :
      Text → Option ℕ → Option ℕ → State → Result Error (List (Text × ℕ)) × State
  unfolding ranked
  scores_between key low high w = ranked (Containers.scores_between s key low high) w

-- ===== src/Vault/Status.antt =====
-- src/vault/call.rs: the status that a vault frame is answered with.
use tessaridb_sdk_rust.Common.{
  Bool, false, Option, none, some, pos, Result, ok, err, bind as and_then, if◌then◌else◌,
}
use tessaridb_sdk_rust.Common.Utf8.{literal}
use tessaridb_sdk_rust.Client.Follow.{get}
use tessaridb_sdk_rust.Error.{Error, malformed}
use tessaridb_sdk_rust.Refusal.Class.{text_eq}
use tessaridb_sdk_rust.Statement.{Duration, duration_new}
use tessaridb_sdk_rust.Value.{Value, entries}

pub data SealState : Type 0 where
  uninitialised sealed unsealed : SealState

pub data Custody : Type 0 where
  own key store : Custody

unfoldable pub seal_state : Option Value → Result Error SealState
seal_state (some (Value.string word)) =
    if text_eq word (literal "uninitialised")
    then ok uninitialised
    else if text_eq word (literal "sealed")
    then ok sealed
    else if text_eq word (literal "unsealed")
    then ok unsealed
    else err malformed
seal_state other = err malformed

unfoldable pub unseal_period : Option Value → Result Error Duration
unseal_period (some (Value.duration (pos seconds) nanos)) = ok (duration_new seconds nanos)
unseal_period other = err malformed

unfoldable pub is_true : Option Value → Bool
is_true (some (Value.bool held)) = held
is_true other = false

unfoldable pub custody_of : Option Value → Result Error (Option Custody)
custody_of none = ok none
custody_of (some (Value.string word)) =
    if text_eq word (literal "own")
    then ok (some own)
    else if text_eq word (literal "key")
    then ok (some key)
    else if text_eq word (literal "store")
    then ok (some store)
    else err malformed
custody_of (some other) = err malformed

-- `since_epoch` is `SystemTime::UNIX_EPOCH.checked_add`, which the platform decides.
module _ {Instant : Type 0} (since_epoch : Duration → Option Instant) where
  pub record VaultStatus : Type 0 where
    pub state : SealState
    pub seals_at : Option Instant
    pub unseal_for : Duration
    pub initialised : Bool
    pub custody : Option Custody

  unfoldable pub sealing_instant : Option Value → Result Error (Option Instant)
  sealing_instant none = ok none
  sealing_instant (some Value.none) = ok none
  sealing_instant (some (Value.datetime (pos seconds) nanos)) =
      ok (since_epoch (duration_new seconds nanos))
  sealing_instant (some other) = err malformed

  unfoldable pub from_value : Value → Result Error VaultStatus
  unfolding sealing_instant
  from_value (Value.object fields) =
      and_then (seal_state (get (entries fields) (literal "state"))) λ state.
        and_then (sealing_instant (get (entries fields) (literal "seals_at"))) λ seals_at.
          and_then (unseal_period (get (entries fields) (literal "unseal_for"))) λ unseal_for.
            and_then (custody_of (get (entries fields) (literal "custody"))) λ custody. ok (record {
              state = state;
              seals_at = seals_at;
              unseal_for = unseal_for;
              initialised = is_true (get (entries fields) (literal "initialised"));
              custody = custody;
            })
  from_value other = err malformed

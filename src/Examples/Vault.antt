-- ===== src/Examples/Vault.antt =====
-- src/vault/ at concrete inputs.
use tessaridb_sdk_rust.Common.{◌≡◌, refl, some, [], ◌∷◌, ok, arith, replicate}
use tessaridb_sdk_rust.Vault.Call.{Act, Place, body}
use tessaridb_sdk_rust.Vault.Call.Reading.{read_body, IsAct, IsPlace, read_body-body}
use tessaridb_sdk_rust.Examples.Wire.{letter_t-IsText}

-- A vault that is re-keyed.
abbrev team : Place
team = record { namespace = b't' ∷ []; database = b't' ∷ []; vault = b't' ∷ [] }

abbrev rekeying : Act
rekeying = Act.change_key (replicate 32 7) (replicate 32 9)

rekeying-IsAct : IsAct rekeying
unfolding replicate
rekeying-IsAct = (refl, refl)

team-IsPlace : IsPlace (some team)
team-IsPlace =
    ((letter_t-IsText, omega arith), (letter_t-IsText, omega arith), (letter_t-IsText, omega arith))

read_body-body_example : read_body (body rekeying (some team)) ≡ ok ((rekeying, some team), [])
read_body-body_example = read_body-body rekeying (some team) rekeying-IsAct team-IsPlace

-- ===== src/Db/Settings.antt =====
-- The table `settings`: `get_setting`, `set_setting`, `next_connection_epoch` and
-- `set_connection_epoch` of agent/src/codito_agent/db.py. The row `connection_epoch`, which holds
-- a number in decimal, is a field of its own.
use codito_mcp.Common.Dict.{insert}
use codito_mcp.Text.{Text}
use codito_mcp.Common.{
  zero, suc, ℕ, ◌+◌, ◌||◌, Option, none, some, if◌then◌else◌, ok, err, nat_Eq, list_Eq, option_Eq,
  string_Eq, ltb, is_empty, length, suc, List, ◌≤◌, [], arith, All, ◌∷◌, ◌<◌,
}
pub use codito_mcp.Common.Dict.{Dict, lookup}
use codito_mcp.Errors.{plain, invalid_setting, protocol_error, Raises}

pub record Settings : Type 0 where
  pub connection_epoch : Option ℕ
  pub values : Dict Text Text

unfoldable pub get_setting : Text → Option Text → Settings → Option Text
get_setting key default s = elim (lookup key s.values) [ some value ↦ some value | none ↦ default ]

unfoldable pub set_setting : Text → Text → Settings → Raises (Unit {0}) × Settings
set_setting key value s =
    if is_empty key || ltb 100 (length key) || ltb 4096 (length value)
    then (err (plain invalid_setting), s)
    else (ok tt, record s { values = insert key value s.values })

abbrev pub after_epoch : Option ℕ → ℕ
after_epoch none = 1
after_epoch (some n) = n + 1

unfoldable pub next_connection_epoch : Settings → ℕ × Settings
next_connection_epoch s = (
  after_epoch s.connection_epoch,
  record s { connection_epoch = some (after_epoch s.connection_epoch) },
)

unfoldable pub set_connection_epoch : ℕ → Settings → Raises (Unit {0}) × Settings
set_connection_epoch value s =
    if ltb value 1
    then (err (plain protocol_error), s)
    else (ok tt, record s { connection_epoch = some value })

-- the epochs that `n` calls give out, one after another
unfoldable pub next_epochs : ℕ → Settings → List ℕ
next_epochs zero s = []
next_epochs (suc n) s = (next_connection_epoch s).0 ∷ next_epochs n (next_connection_epoch s).1

next_epochs-above :
    (n b : ℕ) (s : Settings)
    → b ≤ after_epoch s.connection_epoch
    → All (λ e. b ≤ e) (next_epochs n s)
unfolding next_epochs next_connection_epoch
next_epochs-above zero b s h = tt
next_epochs-above (suc n) b s h =
    (h, next_epochs-above n b (next_connection_epoch s).1 (omega arith))

abbrev pub Increasing : List ℕ → Type 0
Increasing [] = Unit
Increasing (x ∷ xs) = All (λ y. x < y) xs × Increasing xs

-- No two connections get the same epoch: the epochs given out grow strictly.
next_epochs-Increasing : (n : ℕ) (s : Settings) → Increasing (next_epochs n s)
unfolding next_epochs next_connection_epoch
next_epochs-Increasing zero s = tt
next_epochs-Increasing (suc n) s = (
  next_epochs-above n (suc (after_epoch s.connection_epoch)) (next_connection_epoch s).1
      (omega arith),
  next_epochs-Increasing n (next_connection_epoch s).1,
)

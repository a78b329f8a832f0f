-- ===== src/Db/Idempotency.antt =====
-- The table `idempotency`: `get_idempotency`, `put_idempotency`, `get_shell_job` and
-- `delete_idempotency` of agent/src/codito_agent/db.py. `json.dumps` and `json.loads` undo one
-- another on results, so the column `result_json` is the result itself.
use codito_mcp.Common.Dict.{remove, insert}
use codito_mcp.Common.{
  ℕ, String, ◌≡◌, sym, ap, ◌∙◌, ◌↔◌, Bool, true, false, not, ◌&&◌, ◌||◌, Option, none, some, List,
  [], ◌∷◌, arith, if◌then◌else◌, ok, err, ◌==◌, nat_Eq, list_Eq, option_Eq, string_Eq, eq_self, Eq,
}
pub mod Journal
pub use codito_mcp.Common.Dict.{Dict, lookup}
use codito_mcp.Errors.{plain, idempotency_conflict, binding_mismatch, python_error, Raises}
use codito_mcp.Models.{OperationState}
use codito_mcp.Db.Json.{Json, Fields, get_field, field, str}
use codito_mcp.Db.Operations.{references}

-- the columns `account_id`, `grant_id`, `link_id`, `device_id`
pub record Owner : Type 0 where
  pub account_id : String
  pub grant_id : String
  pub link_id : String
  pub device_id : String

unfoldable pub owner_eq : Owner → Owner → Bool
owner_eq a b =
    a.account_id == b.account_id
    && a.grant_id == b.grant_id
    && a.link_id == b.link_id
    && a.device_id == b.device_id

pub owner_eq_iff : (a b : Owner) → (owner_eq a b ≡ true) ↔ (a ≡ b)
unfolding owner_eq
owner_eq_iff a b = (
  λ h. ground (
    arith,
    string_Eq.beq_iff a.account_id b.account_id,
    string_Eq.beq_iff a.grant_id b.grant_id,
    string_Eq.beq_iff a.link_id b.link_id,
    string_Eq.beq_iff a.device_id b.device_id,
  ),
  λ e.
      ap (owner_eq a) (sym e)
      ∙ ground
          (arith, eq_self a.account_id, eq_self a.grant_id, eq_self a.link_id, eq_self a.device_id),
)

-- the primary key
pub record Key : Type 0 where
  pub project_id : String
  pub capability : String
  pub idempotency_key : String

unfoldable pub key_eq : Key → Key → Bool
key_eq a b =
    a.project_id == b.project_id
    && a.capability == b.capability
    && a.idempotency_key == b.idempotency_key

pub key_eq_iff : (a b : Key) → (key_eq a b ≡ true) ↔ (a ≡ b)
unfolding key_eq
key_eq_iff a b = (
  λ h. ground (
    arith,
    string_Eq.beq_iff a.project_id b.project_id,
    string_Eq.beq_iff a.capability b.capability,
    string_Eq.beq_iff a.idempotency_key b.idempotency_key,
  ),
  λ e.
      ap (key_eq a) (sym e)
      ∙ ground (arith, eq_self a.project_id, eq_self a.capability, eq_self a.idempotency_key),
)

instance abbrev pub key_Eq : Eq Key
key_Eq = record { beq = key_eq; beq_iff = key_eq_iff }

pub record Idempotency : Type 0 where
  pub owner : Owner
  pub request_digest : String
  pub state : OperationState
  pub result : Option Fields
  pub job_id : Option String
  pub created_at : ℕ
  pub updated_at : ℕ

abbrev pub Rows : Type 0
Rows = Dict Key Idempotency

-- what `get_idempotency` answers
pub record Recorded : Type 0 where
  pub request_digest : String
  pub state : OperationState
  pub result : Option Fields

unfoldable pub get_idempotency : Key → Owner → Rows → Raises (Option Recorded)
get_idempotency k owner rows = elim (lookup k rows) [
  | none ↦ ok none
  | some row ↦
      if not (owner_eq row.owner owner)
      then err (plain idempotency_conflict)
      else ok (
          some (record {
            request_digest = row.request_digest;
            state = row.state;
            result = row.result;
          }))
]

-- `... if result else None`: an empty dict is false
unfoldable pub encoded : Option Fields → Option Fields
encoded (some (field j v fs)) = some (field j v fs)
encoded _ = none

unfoldable pub job_name : Option Json → Option String
job_name (some (str s)) = if s == "" then none else some s
job_name _ = none

unfoldable pub job_of : String → Option Fields → Option String
job_of capability none = none
job_of capability (some fs) =
    if capability == "project_shell" then job_name (get_field "job_id" fs) else none

-- the row that the statement leaves; an update keeps owner, digest and creation time
unfoldable pub upsert : Key → Owner → String → OperationState → Option Fields → ℕ → Rows → Rows
upsert k owner digest state result now rows = elim (lookup k rows) [
  | none ↦
      insert k
        (record {
          owner = owner;
          request_digest = digest;
          state = state;
          result = encoded result;
          job_id = job_of k.capability result;
          created_at = now;
          updated_at = now;
        })
        rows
  | some row ↦
      insert k
        (record row {
          state = state;
          result = encoded result;
          job_id = job_of k.capability result;
          updated_at = now;
        })
        rows
]

unfoldable pub reused : Owner → String → Option Idempotency → Bool
reused owner digest none = false
reused owner digest (some row) =
    not (row.request_digest == digest) || not (owner_eq row.owner owner)

-- The foreign key asks for a registered project; its failure is `sqlite3.IntegrityError`.
unfoldable pub put_idempotency :
    List String
    → Key
    → Owner
    → String
    → OperationState
    → Option Fields
    → ℕ
    → Rows
    → Raises (Unit {0}) × Rows
put_idempotency projects k owner digest state result now rows =
    if reused owner digest (lookup k rows)
    then (err (plain idempotency_conflict), rows)
    else if not (references projects (some k.project_id))
    then (err (plain python_error), rows)
    else (ok tt, upsert k owner digest state result now rows)

-- the first row of the shell job
unfoldable pub find_job : String → String → Rows → Option Idempotency
find_job project_id job_id [] = none
find_job project_id job_id ((k, row) ∷ rows) =
    if k.project_id == project_id && k.capability == "project_shell" && row.job_id == some job_id
    then some row
    else find_job project_id job_id rows

unfoldable pub get_shell_job :
    String → String → Owner → Rows → Raises (Option (OperationState × Option Fields))
get_shell_job project_id job_id owner rows = elim (find_job project_id job_id rows) [
  | none ↦ ok none
  | some row ↦
      if not (owner_eq row.owner owner)
      then err (plain binding_mismatch)
      else ok (some (row.state, row.result))
]

unfoldable pub delete_idempotency : Key → Rows → Rows
delete_idempotency k rows = remove k rows

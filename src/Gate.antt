-- ===== src/Gate.antt =====
-- `ProjectOperationGate` of agent/src/codito_agent/operation_gate.py: one mutation at a time for
-- each workspace root. `_guard` makes each method one step.
use codito_mcp.Common.Dict.{lookup, Dict, insert, remove}
use codito_mcp.Common.{
  ℕ, zero, suc, String, ◌+◌, ◌-◌, ◌≤◌, ◌<◌, ◌≡◌, refl, sym, ap, ◌∙◌, ◌≢◌, ◌↔◌, ◌⊎◌, inl, inr, Bool,
  true, false, not, ◌&&◌, ◌||◌, Option, none, some, List, [], ◌∷◌, ◌++◌, map, arith, if◌then◌else◌,
  Result, ok, err, ◌>>=◌, ◌>>◌, raise_if, ◌==◌, nat_Eq, list_Eq, option_Eq, string_Eq,
}
pub mod Exclusion
use codito_mcp.Errors.{AgentError, Raises, project_busy}

pub record Gate : Type 0 where
  pub owners : Dict String String

abbrev pub empty : Gate
empty = record { owners = [] }

abbrev pub busy : AgentError
busy = record { code = project_busy; details = []; retryable = true }

unfoldable pub reserve : String → String → Gate → Raises Gate
reserve resource_key owner g = elim (lookup resource_key g.owners) [
  | some _ ↦ err busy
  | none ↦ ok (record { owners = insert resource_key owner g.owners })
]

unfoldable pub release : String → String → Gate → Gate
release resource_key owner g =
    if lookup resource_key g.owners == some owner
    then record { owners = remove resource_key g.owners }
    else g

-- `with gate.hold(resource_key, owner): body`: the owner is released however the body ends.
unfoldable pub hold {ℓ} :
    {A : Type ℓ} → String → String → (Gate → Raises A × Gate) → Gate → Raises A × Gate
hold resource_key owner body g = elim (reserve resource_key owner g) [
  | err e ↦ (err e, g)
  | ok held ↦ let (r, after) = body held in (r, release resource_key owner after)
]

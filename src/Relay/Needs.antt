-- ===== src/Relay/Needs.antt =====
-- The scopes that each operation of a tool needs, one by one, beside `_required_scopes` of
-- relay/codito_relay/core/dispatch.py.
use codito_mcp.Common.{
  String, ◌≡◌, refl, inl, inr, Bool, true, false, ◌||◌, List, [], ◌∷◌, arith, if◌then◌else◌, ok,
  ◌==◌, nat_Eq, list_Eq, option_Eq, string_Eq, Any, any, Bool-cases, ok-injective,
}
use mathlib.Core.Path.{subst}
use codito_mcp.Relay.Types.{Principal, text_field, Dispatched}
use codito_mcp.Relay.Scopes.{required_scopes, frontend_scopes, code_scopes, with_project, holds_all}
use codito_mcp.Db.Json.{Fields}

-- The tool's operation needs the scope.
pub data Needs : String → String → String → Type 0 where
  desktop : {o : String} → Needs "device_desktop" o "shell:execute"
  screenshot : {o : String} → Needs "device_screenshot" o "screen:read"
  device : {o : String} → Needs "device_read" o "files:read"
  reading : {o : String} → Needs "project_read" o "projects:read"
  reading_files :
      {o : String} → (o == "list_projects") ≡ false → Needs "project_read" o "files:read"
  patching : {o : String} → Needs "project_apply_patch" o "projects:read"
  patching_read : {o : String} → Needs "project_apply_patch" o "files:read"
  patching_write : {o : String} → Needs "project_apply_patch" o "files:write"
  shell : {o : String} → Needs "project_shell" o "projects:read"
  shell_execute : {o : String} → Needs "project_shell" o "shell:execute"
  managing : {o : String} → Needs "project_manage" o "projects:read"
  managing_write :
      {o : String} → (o == "get_projects") ≡ false → Needs "project_manage" o "projects:write"
  code : {o : String} → Needs "project_code" o "projects:read"
  code_read : {o : String} → Needs "project_code" o "files:read"
  code_execute :
      {o : String}
      → (o == "code_intelligence_status") ≡ false
      → (o == "code_workspace_summary") ≡ false
      → Needs "project_code" o "shell:execute"
  frontend : {o : String} → Needs "project_frontend" o "projects:read"
  session_start : Needs "project_frontend" "session_start" "frontend:interact"
  session_shell : Needs "project_frontend" "session_start" "shell:execute"
  session_stop : Needs "project_frontend" "session_stop" "frontend:interact"
  act : Needs "project_frontend" "act" "frontend:interact"
  snapshot : Needs "project_frontend" "snapshot" "frontend:read"
  inspect : Needs "project_frontend" "inspect" "frontend:read"
  source : Needs "project_frontend" "source" "frontend:read"
  source_files : Needs "project_frontend" "source" "files:read"

abbrev pub Has : List String → String → Type 0
Has scopes scope = Any (λ s. s ≡ scope) scopes

code_scopes-Has :
    (o : String) → Has (code_scopes o) "projects:read" × Has (code_scopes o) "files:read"
unfolding code_scopes
code_scopes-Has o =
    elim (Bool-cases (o == "code_intelligence_status" || o == "code_workspace_summary")) [
      | inl t ↦ rw t (inl refl, inr (inl refl))
      | inr f ↦ rw f (inl refl, inr (inl refl))
    ]

frontend_scopes-Has : (o : String) → Has (frontend_scopes o) "projects:read"
unfolding frontend_scopes
frontend_scopes-Has o = first _ _ _ _
  where
    first :
        (a b c d : Bool)
        → Has
            (if a
              then "projects:read" ∷ "frontend:interact" ∷ "shell:execute" ∷ []
              else if b
              then "projects:read" ∷ "frontend:read" ∷ []
              else if c
              then "projects:read" ∷ "frontend:read" ∷ "files:read" ∷ []
              else if d
              then "projects:read" ∷ "frontend:interact" ∷ []
              else "projects:read" ∷ [])
            "projects:read"
    first true b c d = inl refl
    first false true c d = inl refl
    first false false true d = inl refl
    first false false false true = inl refl
    first false false false false = inl refl

given :
    {xs ys : List String} (scope : String)
    → ◌≡◌ {A = Dispatched (List String)} (ok xs) (ok ys)
    → Has xs scope
    → Has ys scope
given scope e h = subst (λ l. Has l scope) (ok-injective _ _ e) h

-- what a tool needs is among the scopes that are required
pub required_scopes-Needs :
    {tool o scope : String} (scopes : List String)
    → Needs tool o scope
    → required_scopes tool o ≡ ok scopes
    → Has scopes scope
unfolding required_scopes code_scopes frontend_scopes
required_scopes-Needs scopes desktop h = given _ h (inl refl)
required_scopes-Needs scopes screenshot h = given _ h (inl refl)
required_scopes-Needs scopes device h = given _ h (inl refl)
required_scopes-Needs {o = o} scopes reading h = elim (Bool-cases (o == "list_projects")) [
  | inl t ↦ given _ (rw t at h) (inl refl)
  | inr f ↦ given _ (rw f at h) (inl refl)
]
required_scopes-Needs scopes (reading_files n) h = given _ (rw n at h) (inr (inl refl))
required_scopes-Needs scopes patching h = given _ h (inl refl)
required_scopes-Needs scopes patching_read h = given _ h (inr (inl refl))
required_scopes-Needs scopes patching_write h = given _ h (inr (inr (inl refl)))
required_scopes-Needs scopes shell h = given _ h (inl refl)
required_scopes-Needs scopes shell_execute h = given _ h (inr (inl refl))
required_scopes-Needs {o = o} scopes managing h = elim (Bool-cases (o == "get_projects")) [
  | inl t ↦ given _ (rw t at h) (inl refl)
  | inr f ↦ given _ (rw f at h) (inl refl)
]
required_scopes-Needs scopes (managing_write n) h = given _ (rw n at h) (inr (inl refl))
required_scopes-Needs {o = o} scopes code h = given _ h (code_scopes-Has o).0
required_scopes-Needs {o = o} scopes code_read h = given _ h (code_scopes-Has o).1
required_scopes-Needs scopes (code_execute n m) h = given _ (rw (n, m) at h) (inr (inr (inl refl)))
required_scopes-Needs {o = o} scopes frontend h = given _ h (frontend_scopes-Has o)
required_scopes-Needs scopes session_start h = given _ h (inr (inl refl))
required_scopes-Needs scopes session_shell h = given _ h (inr (inr (inl refl)))
required_scopes-Needs scopes session_stop h = given _ h (inr (inl refl))
required_scopes-Needs scopes act h = given _ h (inr (inl refl))
required_scopes-Needs scopes snapshot h = given _ h (inr (inl refl))
required_scopes-Needs scopes inspect h = given _ h (inr (inl refl))
required_scopes-Needs scopes source h = given _ h (inr (inl refl))
required_scopes-Needs scopes source_files h = given _ h (inr (inr (inl refl)))

any_same :
    (scope : String) (held : List String) → any (λ h. h == scope) held ≡ true → Has held scope
any_same scope [] h = absurd (ground arith)
any_same scope (x ∷ held) h = elim (Bool-cases (string_Eq.beq x scope)) [
  | inl same ↦ inl ((string_Eq.beq_iff x scope).0 same)
  | inr other ↦ inr (any_same scope held (rw other at h))
]

-- a principal that holds all of some scopes holds each
pub holds_all-Has :
    (p : Principal) (scopes : List String) (scope : String)
    → holds_all p scopes ≡ true
    → Has scopes scope
    → Has p.scopes scope
unfolding holds_all
holds_all-Has p [] scope h there = absurd there
holds_all-Has p (x ∷ scopes) scope h (inl same) =
    any_same scope p.scopes (subst (λ s. any (λ k. k == s) p.scopes ≡ true) same (ground arith))
holds_all-Has p (x ∷ scopes) scope h (inr there) = holds_all-Has p scopes scope (ground arith) there

pub with_project-Has :
    (args : Fields) (scopes : List String) (scope : String)
    → Has scopes scope
    → Has (with_project args scopes) scope
unfolding with_project
with_project-Has args scopes scope h = elim (Bool-cases (text_field "project_id" args == "")) [
  | inl none_named ↦ rw none_named h
  | inr named ↦ rw named (inr h)
]

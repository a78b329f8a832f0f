-- ===== src/Db/Projects/Once.antt =====
-- Registration requests over any calls that decide them.
use codito_mcp.Text.{Text}
use codito_mcp.Common.Dict.{lookup, insert, lookup-insert, lookup-insert_self}
use codito_mcp.Common.{
  ℕ, String, ◌≡◌, refl, sym, ap, ◌∙◌, true, false, Option, none, some, List, [], ◌∷◌, arith, ok,
  err, Option-cases, Bool-cases, inl, inr, string_Eq, Result-cases, leb,
}
use codito_mcp.Errors.{plain, request_not_found, Raises}
use codito_mcp.Models.{Project, isolated}
use codito_mcp.Db.Projects.{Projects, register_project, Text}
use codito_mcp.Db.Projects.Registration.{
  Status, completed, is_pending, Request, Requests, move, is_stale, expire_requests, move_pending,
  find_pending, complete_request,
}

move_pending-true :
    (id : String) (status : Status) (now : ℕ) (table : Requests) (r : Request)
    → lookup id table ≡ some r
    → is_pending r.status ≡ true
    → move_pending id status now table ≡ (true, insert id (move status now r) table)
unfolding move_pending
move_pending-true id status now table r found p = rw (found, p, move_pending) refl

-- The request is there and no longer pending.
abbrev IsSettled : String → Requests → Type 0
IsSettled id table = (r : Request) × (lookup id table ≡ some r) × (is_pending r.status ≡ false)

-- the two statements that change the table
pub data Update : Type 0 where
  expire : ℕ → Update
  decide : String → Status → ℕ → Update

unfoldable pub apply : Update → Requests → Requests
apply (expire now) table = expire_requests now table
apply (decide id status now) table = (move_pending id status now table).1

unfoldable pub apply_all : List Update → Requests → Requests
apply_all [] table = table
apply_all (u ∷ us) table = apply_all us (apply u table)

lookup-expire :
    (id : String) (now : ℕ) (table : Requests) (r : Request)
    → lookup id table ≡ some r
    → is_pending r.status ≡ false
    → lookup id (expire_requests now table) ≡ some r
unfolding lookup expire_requests is_stale
lookup-expire id now [] r h p = absurd (ground arith)
lookup-expire id now ((j, q) ∷ table) r h p =
    ground (arith, lookup-expire id now table r, string_Eq.beq_iff j id)

lookup-decide :
    (id j : String) (status : Status) (now : ℕ) (table : Requests) (r : Request)
    → lookup id table ≡ some r
    → is_pending r.status ≡ false
    → lookup id (move_pending j status now table).1 ≡ some r
unfolding move_pending
lookup-decide id j status now table r h p = elim (Option-cases (lookup j table)) [
  | inl missing ↦ rw (missing, move_pending) h
  | inr (q, found) ↦
      rw (found, move_pending)
        (ground (arith, lookup-insert j id (move status now q) table, string_Eq.beq_iff j id))
]

apply_all-IsSettled :
    (us : List Update) (id : String) (table : Requests)
    → IsSettled id table
    → IsSettled id (apply_all us table)
unfolding apply_all apply
apply_all-IsSettled [] id table h = h
apply_all-IsSettled (expire now ∷ us) id table (r, h, p) =
    apply_all-IsSettled us id (expire_requests now table) (r, lookup-expire id now table r h p, p)
apply_all-IsSettled (decide j status now ∷ us) id table (r, h, p) =
    apply_all-IsSettled us id (move_pending j status now table).1
      (r, lookup-decide id j status now table r h p, p)

find_pending-settled :
    (id : String) (table : Requests) → IsSettled id table → find_pending id table ≡ none
unfolding find_pending
find_pending-settled id table (r, h, p) = rw (h, p, find_pending) refl

find_pending-some :
    (id : String) (table : Requests) (r : Request)
    → find_pending id table ≡ some r
    → (lookup id table ≡ some r) × (is_pending r.status ≡ true)
unfolding find_pending
find_pending-some id table r h = elim (Option-cases (lookup id table)) [
  | inl missing ↦ absurd (let q = rw (missing, find_pending) at h in ground arith)
  | inr (q, found) ↦ elim (Bool-cases (is_pending q.status)) [
    | inr p ↦ absurd (let k = rw (found, p, find_pending) at h in ground arith)
    | inl p ↦
        let k : ◌≡◌ {A = Option Request} (some q) (some r) = rw (found, p, find_pending) at h in
        let e : q ≡ r = cc in (found ∙ k, sym (ap (λ x. is_pending x.status) e) ∙ p)
  ]
]

complete-IsSettled :
    (id : String) (validated : Raises (Text × String)) (fresh : String) (now now' now'' : ℕ)
    (projects : Projects) (table : Requests) (project : Project)
    → (complete_request id validated fresh now now' now'' projects table).0 ≡ ok project
    → IsSettled id (complete_request id validated fresh now now' now'' projects table).1.1
unfolding complete_request is_pending
complete-IsSettled id validated fresh now now' now'' projects table project h =
    elim (Option-cases (find_pending id table)) [
      | inl gone ↦ absurd (let q = rw (gone, complete_request) at h in ground arith)
      | inr (r, found) ↦ elim (Bool-cases (leb r.expires_at now)) [
        | inl late ↦ absurd (let q = rw (found, late, complete_request) at h in ground arith)
        | inr early ↦
            elim (Result-cases
              (register_project r.title validated isolated fresh now' projects).0) [
                | inr (e, failed) ↦
                    absurd
                      (let q = rw (found, early, failed, complete_request) at h in ground arith)
                | inl (made, registered) ↦
                    let (there, p) = find_pending-some id table r found in
                    rw (found, early, registered, complete_request)
                      (
                        move completed now'' r,
                        ap (λ x. lookup id x.1)
                              (move_pending-true id completed now'' table r there p)
                            ∙ lookup-insert_self id (move completed now'' r) table,
                        refl,
                      )
              ]
      ]
    ]

complete-settled :
    (id : String) (validated : Raises (Text × String)) (fresh : String) (now now' now'' : ℕ)
    (projects : Projects) (table : Requests)
    → IsSettled id table
    → complete_request id validated fresh now now' now'' projects table
      ≡ (err (plain request_not_found), (projects, table))
unfolding complete_request is_pending
complete-settled id validated fresh now now' now'' projects table h =
    rw (find_pending-settled id table h, complete_request) refl

-- A request that was completed is never completed again, whatever updates of the table run in
-- between: a second attempt raises `request_not_found` and registers no project.
completed_once :
    (id : String) (validated validated' : Raises (Text × String)) (fresh fresh' : String)
    (t t' t'' u u' u'' : ℕ) (projects projects' : Projects) (table : Requests) (project : Project)
    (between : List Update)
    → (complete_request id validated fresh t t' t'' projects table).0 ≡ ok project
    → let later =
        apply_all between (complete_request id validated fresh t t' t'' projects table).1.1 in
      complete_request id validated' fresh' u u' u'' projects' later
      ≡ (err (plain request_not_found), (projects', later))
completed_once id validated validated' fresh fresh' t t' t'' u u' u'' projects projects' table
      project between h =
    complete-settled id validated' fresh' u u' u'' projects'
      (apply_all between (complete_request id validated fresh t t' t'' projects table).1.1)
      (apply_all-IsSettled between id
        (complete_request id validated fresh t t' t'' projects table).1.1
        (complete-IsSettled id validated fresh t t' t'' projects table project h))

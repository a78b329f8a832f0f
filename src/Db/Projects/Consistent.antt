-- ===== src/Db/Projects/Consistent.antt =====
-- `rotate_project_ids` and the projects that operations refer to.
use mathlib.Core.Path.{subst}
use codito_mcp.Common.{
  ℕ, String, ◌≡◌, refl, inl, inr, true, not, ◌&&◌, Option, none, some, List, [], ◌∷◌, map, arith,
  ok, ◌==◌, nat_Eq, list_Eq, option_Eq, string_Eq, All, eq_self, Bool-cases, >>=-eq-ok, is_empty,
  Result-cases,
}
use codito_mcp.Common.Dict.{contains}
use codito_mcp.Errors.{Raises}
use codito_mcp.Db.Projects.{Projects}
use codito_mcp.Db.Operations.{Operations, references}
use codito_mcp.Db.Projects.Rotation.{
  Tables, repoint, repoint_operations, rename_project, rotate_one, rotate_all, rotate_project_ids,
  new_names,
}

-- Every operation of the table belongs to no project, or to one of the table.
abbrev pub IsConsistent : Tables → Type 0
IsConsistent t =
    All (λ r. references (map (λ p. p.0) t.projects) r.1.binding.project_id ≡ true) t.operations

abbrev ids : Projects → List String
ids table = map (λ p. p.0) table

references-rename :
    (old new : String) (now : ℕ) (table : Projects) (p : Option String)
    → references (ids table) p ≡ true
    → references (ids (rename_project old new now table)) (repoint old new p) ≡ true
unfolding references rename_project
references-rename old new now table none h = refl
references-rename old new now [] (some p) h = absurd (ground arith)
references-rename old new now ((id, row) ∷ table) (some p) h = ground (
  arith,
  references-rename old new now table (some p),
  string_Eq.beq_iff id old,
  string_Eq.beq_iff p old,
  string_Eq.beq_iff id p,
  eq_self new,
)

operations-rename :
    (old new : String) (now : ℕ) (table : Projects) (ops : Operations)
    → All (λ r. references (ids table) r.1.binding.project_id ≡ true) ops
    → All
        (λ r. references (ids (rename_project old new now table)) r.1.binding.project_id ≡ true)
        (repoint_operations old new ops)
unfolding repoint_operations
operations-rename old new now table [] h = tt
operations-rename old new now table ((id, row) ∷ ops) h = (
  references-rename old new now table row.binding.project_id h.0,
  operations-rename old new now table ops h.1,
)

rotate_one-IsConsistent :
    (old new : String) (now : ℕ) (t t' : Tables)
    → IsConsistent t
    → rotate_one old new now t ≡ ok t'
    → IsConsistent t'
unfolding rotate_one
rotate_one-IsConsistent old new now t t' c h =
    elim (Bool-cases (contains new t.projects && not (old == new))) [
      | inl clash ↦ absurd (let q = rw (clash, rotate_one) at h in ground arith)
      | inr free ↦
          let q : ◌≡◌ {A = Raises Tables}
              (ok (record t {
                projects = rename_project old new now t.projects;
                operations = repoint_operations old new t.operations;
              }))
              (ok t') =
            rw (free, rotate_one) at h in
          let e : (record t {
            projects = rename_project old new now t.projects;
            operations = repoint_operations old new t.operations;
          })
              ≡ t' =
            cc in
          subst IsConsistent e (operations-rename old new now t.projects t.operations c)
    ]

rotate_all-IsConsistent :
    (pairs : List (String × String)) (now : ℕ) (t t' : Tables)
    → IsConsistent t
    → rotate_all pairs now t ≡ ok t'
    → IsConsistent t'
unfolding rotate_all
rotate_all-IsConsistent [] now t t' c h = let e : t ≡ t' = cc in subst IsConsistent e c
rotate_all-IsConsistent ((old, new) ∷ pairs) now t t' c h =
    let (mid, one, rest) = >>=-eq-ok (rotate_one old new now t) (rotate_all pairs now) h in
    rotate_all-IsConsistent pairs now mid t' (rotate_one-IsConsistent old new now t mid c one) rest

-- Where every operation names a registered project, this is so after a rotation too, whatever the
-- new names are and whether the transaction commits or not.
pub rotate-IsConsistent :
    (fresh : String → String) (now : ℕ) (t : Tables)
    → IsConsistent t
    → IsConsistent (rotate_project_ids fresh now t).1
unfolding rotate_project_ids
rotate-IsConsistent fresh now t c = elim (Bool-cases (is_empty t.projects)) [
  | inl none_there ↦ rw (none_there, rotate_project_ids) c
  | inr some_there ↦ elim (Result-cases (rotate_all (new_names fresh t.projects) now t)) [
    | inl (t', done) ↦
        rw (some_there, done, rotate_project_ids)
          (rotate_all-IsConsistent (new_names fresh t.projects) now t t' c done)
    | inr (e, failed) ↦ rw (some_there, failed, rotate_project_ids) c
  ]
]

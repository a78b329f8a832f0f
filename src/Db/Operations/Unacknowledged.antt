-- ===== src/Db/Operations/Unacknowledged.antt =====
-- `list_unacknowledged_terminals` of agent/src/codito_agent/db.py: the rows that are sent again, in the
-- order of their last change.
use mathlib.Core.Path.{subst}
use codito_mcp.Common.{
  String, ◌≡◌, refl, sym, ap, ◌∙◌, inl, inr, Bool, true, false, ◌&&◌, ◌||◌, some, List, [], ◌∷◌,
  arith, if◌then◌else◌, ◌==◌, nat_Eq, list_Eq, string_Eq, ltb, Any, Bool-cases,
}
use codito_mcp.Common.Dict.{lookup}
use codito_mcp.Text.{codes, text_before, text_before-not}
use codito_mcp.Db.Operations.{Operation, Operations, unacknowledged}

-- `ORDER BY updated_at, operation_id`
unfoldable pub comes_before : String × Operation → String × Operation → Bool
comes_before (i, a) (j, b) =
    ltb a.updated_at b.updated_at || a.updated_at == b.updated_at && text_before (codes i) (codes j)

unfoldable pub insert_row :
    String × Operation → List (String × Operation) → List (String × Operation)
insert_row row [] = row ∷ []
insert_row row (first ∷ rows) =
    let rest = insert_row row rows in
    if comes_before row first then row ∷ first ∷ rows else first ∷ rest

unfoldable pub list_unacknowledged : Operations → List (String × Operation)
list_unacknowledged [] = []
list_unacknowledged ((id, row) ∷ ops) =
    let rest = list_unacknowledged ops in
    if unacknowledged row then insert_row (id, row) rest else rest

comes_before-not : (x y : String × Operation) → comes_before x y ≡ true → comes_before y x ≡ false
unfolding comes_before
comes_before-not (i, a) (j, b) h = ground (arith, text_before-not (codes i) (codes j))

-- no row comes before the one in front of it
abbrev pub IsOrdered : List (String × Operation) → Type 0
IsOrdered [] = Unit
IsOrdered (x ∷ []) = Unit
IsOrdered (x ∷ y ∷ rows) = (comes_before y x ≡ false) × IsOrdered (y ∷ rows)

insert_behind :
    (row x : String × Operation) (rows : List (String × Operation))
    → comes_before row x ≡ false
    → IsOrdered (x ∷ rows)
    → IsOrdered (x ∷ insert_row row rows)
unfolding insert_row
insert_behind row x [] later h = (later, tt)
insert_behind row x (y ∷ rows) later h = elim (Bool-cases (comes_before row y)) [
  | inl first ↦ rw first (later, (comes_before-not row y first, h.1))
  | inr behind ↦ rw behind (h.0, insert_behind row y rows behind h.1)
]

insert_row-IsOrdered :
    (row : String × Operation) (rows : List (String × Operation))
    → IsOrdered rows
    → IsOrdered (insert_row row rows)
unfolding insert_row
insert_row-IsOrdered row [] h = tt
insert_row-IsOrdered row (x ∷ rows) h = elim (Bool-cases (comes_before row x)) [
  | inl first ↦ rw first (comes_before-not row x first, h)
  | inr later ↦ rw later (insert_behind row x rows later h)
]

-- The list is in the order of its query.
list_unacknowledged-IsOrdered : (ops : Operations) → IsOrdered (list_unacknowledged ops)
unfolding list_unacknowledged
list_unacknowledged-IsOrdered [] = tt
list_unacknowledged-IsOrdered ((id, row) ∷ ops) = elim (Bool-cases (unacknowledged row)) [
  | inl h ↦
      rw h (
        insert_row-IsOrdered (id, row) (list_unacknowledged ops)
          (list_unacknowledged-IsOrdered ops))
  | inr h ↦ rw h (list_unacknowledged-IsOrdered ops)
]

module _ (row : Operation) where
  abbrev pub IsRow : String × Operation → Type 0
  IsRow r = r.1 ≡ row

  Any-insert_self :
      (id : String) (rows : List (String × Operation)) → Any IsRow (insert_row (id, row) rows)
  unfolding insert_row
  Any-insert_self id [] = inl refl
  Any-insert_self id (first ∷ rows) = elim (Bool-cases (comes_before (id, row) first)) [
    | inl h ↦ rw h (inl refl)
    | inr h ↦ rw h (inr (Any-insert_self id rows))
  ]

  Any-insert :
      (other : String × Operation) (rows : List (String × Operation))
      → Any IsRow rows
      → Any IsRow (insert_row other rows)
  unfolding insert_row
  Any-insert other [] h = absurd h
  Any-insert other (first ∷ rows) h = elim (Bool-cases (comes_before other first)) [
    | inl k ↦ rw k (inr h)
    | inr k ↦ rw k (elim h [ inl e ↦ inl e | inr l ↦ inr (Any-insert other rows l) ])
  ]

  -- A row that waits for its acknowledgement is listed.
  pub listed :
      (id : String) (ops : Operations)
      → lookup id ops ≡ some row
      → unacknowledged row ≡ true
      → Any IsRow (list_unacknowledged ops)
  unfolding lookup list_unacknowledged
  listed id [] h waits = absurd (ground arith)
  listed id ((j, r) ∷ ops) h waits = elim (Bool-cases (j == id)) [
    | inl same ↦
        (let first : r ≡ row = ground (arith) in
          let kept : unacknowledged r ≡ true = ap unacknowledged first ∙ waits in
          rw kept (
            subst (λ x. Any IsRow (insert_row (j, x) (list_unacknowledged ops))) (sym first)
              (Any-insert_self j (list_unacknowledged ops))))
    | inr other ↦ elim (Bool-cases (unacknowledged r)) [
      | inl k ↦
          rw k (Any-insert (j, r) (list_unacknowledged ops) (listed id ops (ground arith) waits))
      | inr k ↦ rw k (listed id ops (ground arith) waits)
    ]
  ]

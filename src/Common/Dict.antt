-- ===== src/Common/Dict.antt =====
-- A Python `dict` as an association list in insertion order: an assignment to a key that is
-- there keeps its place. A table of the database keyed by its primary key is one too.
use codito_mcp.Common.{false, select, Bool-cases, inl, inr, true, ap}
use Prim.Native.Nat.{◌≤◌}
use mathlib.Core.Path.{◌≡◌, refl}
use mathlib.Core.Bool.{Bool, false}
use mathlib.Core.Option.{Option, none, some}
use mathlib.Core.List.{List, [], ◌∷◌}
use native.Mathlib.Omega.{arith}
use codito_mcp.Common.Tests.{if◌then◌else◌, is_some, Bool-cases}
use codito_mcp.Common.Lists.{length, select}
use codito_mcp.Common.Equality.{Eq, ◌==◌}

abbrev pub Dict {ℓ κ} : Type ℓ → Type κ → Type (ℓ ⊔ κ)
Dict K V = List (K × V)

module _ {ℓ κ} {K : Type ℓ} {V : Type κ} ⦃e : Eq K⦄ where
  -- `d.get(k)`
  unfoldable pub lookup : K → Dict K V → Option V
  lookup k [] = none
  lookup k ((j, v) ∷ d) = if j == k then some v else lookup k d

  -- `d[k] = v`
  unfoldable pub insert : K → V → Dict K V → Dict K V
  insert k v [] = (k, v) ∷ []
  insert k v ((j, w) ∷ d) = if j == k then (j, v) ∷ d else (j, w) ∷ insert k v d

  -- `d.pop(k, None)`
  unfoldable pub remove : K → Dict K V → Dict K V
  remove k [] = []
  remove k ((j, w) ∷ d) = let rest = remove k d in if j == k then rest else (j, w) ∷ rest

  -- `k in d`
  abbrev pub contains : K → Dict K V → Bool
  contains k d = is_some (lookup k d)

  pub lookup-insert :
      (k j : K) (v : V) (d : Dict K V)
      → lookup j (insert k v d) ≡ (if k == j then some v else lookup j d)
  unfolding lookup insert
  lookup-insert k j v [] = refl
  lookup-insert k j v ((i, w) ∷ d) =
      ground (arith, e.beq_iff k j, e.beq_iff i k, e.beq_iff i j, lookup-insert k j v d)

  pub lookup-remove :
      (k j : K) (d : Dict K V) → lookup j (remove k d) ≡ (if k == j then none else lookup j d)
  unfolding lookup remove
  lookup-remove k j [] = ground arith
  lookup-remove k j ((i, w) ∷ d) =
      ground (arith, e.beq_iff k j, e.beq_iff i k, e.beq_iff i j, lookup-remove k j d)

  pub lookup-insert_self : (k : K) (v : V) (d : Dict K V) → lookup k (insert k v d) ≡ some v
  lookup-insert_self k v d = ground (arith, lookup-insert k k v d, e.beq_iff k k)

  pub lookup-remove_self : (k : K) (d : Dict K V) → lookup k (remove k d) ≡ none
  lookup-remove_self k d = ground (arith, lookup-remove k k d, e.beq_iff k k)

  pub length-remove-le : (k : K) (d : Dict K V) → length (remove k d) ≤ length d
  unfolding remove
  length-remove-le k [] = omega arith
  length-remove-le k ((i, w) ∷ d) = ground (arith, length-remove-le k d)

module _ {ℓ κ} {K : Type ℓ} {V : Type κ} ⦃e : Eq K⦄ where
  -- every key has one entry
  abbrev pub Unique : Dict K V → Type 0
  Unique [] = Unit
  Unique ((k, v) ∷ d) = (contains k d ≡ false) × Unique d

  pub insert-Unique : (k : K) (v : V) (d : Dict K V) → Unique d → Unique (insert k v d)
  unfolding insert lookup
  insert-Unique k v [] u = (refl, tt)
  insert-Unique k v ((j, w) ∷ d) (new, u) = elim (Bool-cases (j == k)) [
    | inl same ↦ rw same (new, u)
    | inr other ↦
        rw other (
          ground (arith, lookup-insert k j v d, e.beq_iff j k, e.beq_iff k j),
          insert-Unique k v d u,
        )
  ]

  -- an entry that a query finds is the one of its key
  pub lookup-select :
      (p : K × V → Bool) (k : K) (v : V) (rest d : Dict K V)
      → Unique d
      → select p d ≡ (k, v) ∷ rest
      → lookup k d ≡ some v
  unfolding lookup
  lookup-select p k v rest [] u h = absurd (ground arith)
  lookup-select p k v rest ((j, w) ∷ d) (new, u) h = elim (Bool-cases (p (j, w))) [
    | inl yes_p ↦ ground (arith, e.beq_iff j k)
    | inr no_p ↦ ground (arith, lookup-select p k v rest d u, e.beq_iff j k)
  ]

pub select-holds {ℓ} :
    {A : Type ℓ} (p : A → Bool) (a : A) (rest xs : List A) → select p xs ≡ a ∷ rest → p a ≡ true
select-holds p a rest [] h = absurd (ground arith)
select-holds p a rest (x ∷ xs) h = elim (Bool-cases (p x)) [
  | inl this ↦ ground (arith, ap p {x = x} {y = a})
  | inr other ↦ select-holds p a rest xs (ground arith)
]

pub ruleset dict_laws = (lookup-insert, lookup-remove)

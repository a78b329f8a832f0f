-- ===== src/Patch/Commit/Written.antt =====
-- The files and the records in the midst of a commit.
use codito_mcp.Text.{Text, Bytes}
use codito_mcp.Common.{
  ℕ, zero, suc, ◌≡◌, refl, sym, ap, ◌∙◌, ◌⊎◌, inl, inr, Bool, false, ◌||◌, Option, none, some, List,
  [], ◌∷◌, arith, if◌then◌else◌, ◌==◌, nat_Eq, list_Eq, option_Eq, string_Eq, any, Bool-cases,
  list_beq_iff, All,
}
use codito_mcp.Common.Dict.{Unique, lookup, contains, lookup-insert, lookup-remove}
use codito_mcp.Patch.Commit.{
  Files, Desired, put, write_first, Record, flatten, records, Text, Bytes,
}

-- the paths of the records
abbrev pub is_recorded : Text → List Record → Bool
is_recorded p rs = any (λ r. r.path == p) rs

lookup-put :
    (p q : Text) (d : Option Bytes) (files : Files)
    → lookup q (put p d files) ≡ (if p == q then d else lookup q files)
unfolding put
lookup-put p q none files = lookup-remove p q files
lookup-put p q (some raw) files = lookup-insert p q raw files

pub lookup-write_first_other :
    (n : ℕ) (ds : Desired) (files : Files) (q : Text)
    → contains q ds ≡ false
    → lookup q (write_first n ds files) ≡ lookup q files
unfolding write_first lookup
lookup-write_first_other zero ds files q h = refl
lookup-write_first_other (suc n) [] files q h = refl
lookup-write_first_other (suc n) ((p, d) ∷ ds) files q h = elim (Bool-cases (p == q)) [
  | inl same ↦ absurd (ground (arith, same))
  | inr other ↦
      lookup-write_first_other n ds (put p d files) q (rw other at h)
      ∙ lookup-put p q d files
      ∙ ap (λ b. if b then d else lookup q files) other
]

-- On the way each file is as it was, or as it is wanted.
pub lookup-write_first :
    (n : ℕ) (ds : Desired) (files : Files) (q : Text)
    → Unique ds
    → (lookup q (write_first n ds files) ≡ lookup q files)
      ⊎ (lookup q (write_first n ds files) ≡ flatten (lookup q ds))
unfolding write_first lookup
lookup-write_first zero ds files q u = inl refl
lookup-write_first (suc n) [] files q u = inl refl
lookup-write_first (suc n) ((p, d) ∷ ds) files q u = elim (Bool-cases (p == q)) [
  | inl same ↦
      let e = (list_beq_iff p q).0 same in
      inr (
        lookup-write_first_other n ds (put p d files) q (ap (λ x. contains x ds) (sym e) ∙ u.0)
        ∙ lookup-put p q d files
        ∙ ap (λ b. if b then d else lookup q files) same
        ∙ ap (λ b. flatten (if b then some d else lookup q ds)) (sym same))
  | inr other ↦
      let put_q = lookup-put p q d files ∙ ap (λ b. if b then d else lookup q files) other in
      elim (lookup-write_first n ds (put p d files) q u.1) [
        | inl old ↦ inl (old ∙ put_q)
        | inr new ↦ inr (new ∙ ap (λ b. flatten (if b then some d else lookup q ds)) (sym other))
      ]
]

pub records-made :
    (order : List Text) (ds : Desired) (files : Files)
    → All (λ r. r.original ≡ lookup r.path files) (records order ds files)
unfolding records
records-made [] ds files = tt
records-made (p ∷ ps) ds files = (refl, records-made ps ds files)

pub records-middle :
    (n : ℕ) (order : List Text) (ds : Desired) (files : Files)
    → Unique ds
    → All
        (λ r.
          (lookup r.path (write_first n ds files) ≡ r.original)
          ⊎ (lookup r.path (write_first n ds files) ≡ r.desired))
        (records order ds files)
unfolding records
records-middle n [] ds files u = tt
records-middle n (p ∷ ps) ds files u =
    (lookup-write_first n ds files p u, records-middle n ps ds files u)

pub records-order :
    (q : Text) (order : List Text) (ds : Desired) (files : Files)
    → is_recorded q (records order ds files) ≡ any (λ p. p == q) order
unfolding records
records-order q [] ds files = refl
records-order q (p ∷ ps) ds files = ap (λ b. (p == q) || b) (records-order q ps ds files)

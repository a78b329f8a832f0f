-- ===== src/Patch/Parser/Fields.antt =====
-- The fields that a section has by its kind.
use mathlib.Core.Path.{subst}
use codito_mcp.Text.{Text, codes}
use codito_mcp.Common.{
  refl, ℕ, zero, suc, ◌≡◌, ◌≢◌, inl, inr, true, false, none, some, List, [], ◌∷◌, arith, ok, ◌>>=◌,
  ◌>>◌, raise_if, ◌==◌, nat_Eq, list_Eq, option_Eq, string_Eq, list_beq_iff, All, Option-cases,
  is_empty, ok-injective, >>=-eq-ok, Bool-cases, length, Option, Bool, not,
}
use codito_mcp.Errors.{plain, invalid_patch}
use codito_mcp.Paths.{validate_relative_path, IsRelative, validate-IsRelative}
use codito_mcp.Patch.Types.{
  Prefix, Hunk, add, update, delete, move, PatchSection, old_lines, has_change,
}
use codito_mcp.Patch.Parser.{
  read_hunk, check_hunk, read_hunks, read_all_hunks, move_target, section_with, marker,
  strip_prefix, Text, codes, added, moved,
}

-- a hunk that has lines to be found and changes something
pub record IsHunk (h : Hunk) : Type 0 where
  pub anchored : old_lines h.lines ≢ []
  pub changing : has_change h.lines ≡ true

-- the four kinds of sections, each with the fields that its kind uses
pub data IsSection : PatchSection → Type 0 where
  adds :
      (p : Text) (ls : List Text)
      → IsRelative p
      → ls ≢ []
      → IsSection (section_with add p none ls [])
  deletes : (p : Text) → IsRelative p → IsSection (section_with delete p none [] [])
  updates :
      (p : Text) (hs : List Hunk)
      → IsRelative p
      → hs ≢ []
      → All IsHunk hs
      → IsSection (section_with update p none [] hs)
  moves :
      (p d : Text) (hs : List Hunk)
      → IsRelative p
      → IsRelative d
      → hs ≢ []
      → All IsHunk hs
      → IsSection (section_with move p (some d) [] hs)

pub validated : (v p : Text) → validate_relative_path false v ≡ ok p → IsRelative p
validated v p h = (validate-IsRelative v p h).1

check_hunk-IsHunk : (ls : List (Prefix × Text)) (h : Hunk) → check_hunk ls ≡ ok h → IsHunk h
unfolding check_hunk
check_hunk-IsHunk ls h e =
    let (anchored, changing, same) = tests ls h e in
    subst IsHunk same (record { anchored = anchored; changing = changing })
  where
    tests :
        (ls : List (Prefix × Text)) (h : Hunk)
        → check_hunk ls ≡ ok h
        → (old_lines ls ≢ []) × (has_change ls ≡ true) × ((record { lines = ls }) ≡ h)
    tests ls h e = ground (arith, list_beq_iff (old_lines ls) [])

read_hunks-IsHunk :
    (fuel : ℕ) (content : List Text) (hs : List Hunk)
    → read_hunks fuel content ≡ ok hs
    → All IsHunk hs
unfolding read_hunks
read_hunks-IsHunk fuel [] hs e = subst (All IsHunk) (ok-injective [] hs e) tt
read_hunks-IsHunk zero (line ∷ rest) hs e = absurd (ground arith)
read_hunks-IsHunk (suc fuel) (line ∷ rest) hs e = elim (Bool-cases (line == marker)) [
  | inr other ↦ absurd (let q = rw (other, read_hunks) at e in ground arith)
  | inl here ↦
      let round : (read_hunk rest >>= λ r.
      check_hunk r.0 >>= λ h. read_hunks fuel r.1 >>= λ more. ok (h ∷ more))
          ≡ ok hs =
        rw (here, read_hunks) at e in
      let (r, _, e1) =
        >>=-eq-ok (read_hunk rest)
          (λ r. check_hunk r.0 >>= λ h. read_hunks fuel r.1 >>= λ more. ok (h ∷ more)) round in
      let (h, checked, e2) =
        >>=-eq-ok (check_hunk r.0) (λ h. read_hunks fuel r.1 >>= λ more. ok (h ∷ more)) e1 in
      let (more, read, e3) = >>=-eq-ok (read_hunks fuel r.1) (λ more. ok (h ∷ more)) e2 in
      subst (All IsHunk) (ok-injective (h ∷ more) hs e3)
        (check_hunk-IsHunk r.0 h checked, read_hunks-IsHunk fuel r.1 more read)
]

pub read_all_hunks-IsHunk :
    (content : List Text) (hs : List Hunk)
    → read_all_hunks content ≡ ok hs
    → (hs ≢ []) × All IsHunk hs
read_all_hunks-IsHunk content hs e =
    let (some_hs, read, e1) =
      >>=-eq-ok (read_hunks (length content) content)
        (λ hs. raise_if (is_empty hs) (plain invalid_patch) >> ok hs) e in
    let (_, full, e2) =
      >>=-eq-ok (raise_if (is_empty some_hs) (plain invalid_patch)) (λ _. ok some_hs) e1 in
    let same = ok-injective some_hs hs e2 in
    (
      subst (λ l. l ≢ []) same (nonempty some_hs full),
      subst (All IsHunk) same (read_hunks-IsHunk (length content) content some_hs read),
    )
  where
    nonempty : (l : List Hunk) → raise_if (is_empty l) (plain invalid_patch) ≡ ok tt → l ≢ []
    nonempty [] h = absurd (ground arith)
    nonempty (x ∷ l) h = λ q. ground arith

pub move_target-IsRelative :
    (rest : List Text) (d : Text) (left : List Text)
    → move_target rest ≡ ok (some d, left)
    → IsRelative d
unfolding move_target
move_target-IsRelative [] d left e = absurd (ground arith)
move_target-IsRelative (line ∷ rest) d left e =
    elim (Option-cases (strip_prefix (codes "*** Move to: ") line)) [
      | inl plain_update ↦ absurd (let q = rw (plain_update, move_target) at e in ground arith)
      | inr (target, found) ↦
          let (d', ok_d, e1) =
            >>=-eq-ok (validate_relative_path false target) (λ d. ok (some d, rest))
              (rw (found, move_target) at e) in
          let same : d' ≡ d = ground arith in subst IsRelative same (validated target d' ok_d)
    ]

-- the lines of an Add section, as they are read
added-nonempty : (content ls : List Text) → content ≢ [] → added content ≡ ok ls → ls ≢ []
unfolding added
added-nonempty [] ls full e = absurd (full refl)
added-nonempty ([] ∷ content) ls full e = absurd (ground arith)
added-nonempty ((c ∷ s) ∷ content) ls full e =
    let (_, _, e1) =
      >>=-eq-ok (raise_if (not (c == b'+')) (plain invalid_patch))
        (λ _. added content >>= λ rest. ok (s ∷ rest)) e in
    let (rest, _, e2) = >>=-eq-ok (added content) (λ rest. ok (s ∷ rest)) e1 in
    subst (λ l. l ≢ []) (ok-injective (s ∷ rest) ls e2) (λ q. ground arith)

raise_if-ok : (b : Bool) → raise_if b (plain invalid_patch) ≡ ok tt → b ≡ false
raise_if-ok true h = absurd (ground arith)
raise_if-ok false h = refl

pub read_add-IsSection :
    (p : Text) (content left : List Text) (x : PatchSection × List Text)
    → IsRelative p
    → (raise_if (content == []) (plain invalid_patch)
        >> (added content >>= λ lines. ok (section_with add p none lines [], left)))
      ≡ ok x
    → IsSection x.0
read_add-IsSection p content left x r e =
    let (_, full, e1) =
      >>=-eq-ok (raise_if (content == []) (plain invalid_patch))
        (λ _. added content >>= λ lines. ok (section_with add p none lines [], left)) e in
    let (lines, given, e2) =
      >>=-eq-ok (added content) (λ lines. ok (section_with add p none lines [], left)) e1 in
    let no = raise_if-ok (content == []) full in
    let ne : content ≢ [] = λ q. ground (arith, list_beq_iff content []) in
    subst (λ y. IsSection y.0) (ok-injective (section_with add p none lines [], left) x e2)
      (adds p lines r (added-nonempty content lines ne given))

pub read_delete-IsSection :
    (p : Text) (content left : List Text) (x : PatchSection × List Text)
    → IsRelative p
    → (raise_if (not (content == [])) (plain invalid_patch)
        >> ok (section_with delete p none [] [], left))
      ≡ ok x
    → IsSection x.0
read_delete-IsSection p content left x r e =
    let (_, _, e1) =
      >>=-eq-ok (raise_if (not (content == [])) (plain invalid_patch))
        (λ _. ok (section_with delete p none [] [], left)) e in
    subst (λ y. IsSection y.0) (ok-injective (section_with delete p none [] [], left) x e1)
      (deletes p r)

pub moved-IsSection :
    (p : Text) (target : Option Text) (hs : List Hunk)
    → IsRelative p
    → ((d : Text) → target ≡ some d → IsRelative d)
    → hs ≢ []
    → All IsHunk hs
    → IsSection (section_with (moved target) p target [] hs)
moved-IsSection p none hs r d full good = updates p hs r full good
moved-IsSection p (some t) hs r d full good = moves p t hs r (d t refl) full good

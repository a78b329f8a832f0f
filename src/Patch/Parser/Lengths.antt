-- ===== src/Patch/Parser/Lengths.antt =====
-- How many lines the parser's loops take in a round.
use mathlib.Core.Path.{subst}
use codito_mcp.Text.{Text, codes}
use codito_mcp.Common.{
  suc, ◌≤◌, ◌≡◌, inl, inr, false, not, Option, none, some, List, [], ◌∷◌, arith, ok, ◌>>=◌,
  raise_if, ◌==◌, nat_Eq, list_Eq, option_Eq, string_Eq, length, Bool-cases, ok-injective,
  >>=-eq-ok, Option-cases,
}
use codito_mcp.Errors.{plain, invalid_patch}
use codito_mcp.Paths.{validate_relative_path}
use codito_mcp.Patch.Types.{Prefix, Action, add, update, delete, move}
use codito_mcp.Patch.Parser.Sections.{Edited}
use codito_mcp.Patch.Parser.{
  take_content, added, line_of, cons_line, read_hunk, read_all_hunks, move_target, section_with,
  moved, read_section, marker, strip_prefix, Text, codes, PatchSection,
}

cons_line-length :
    (l : Option (Prefix × Text)) (rest : List Text)
    → ((y : List (Prefix × Text) × List Text) → read_hunk rest ≡ ok y → length y.1 ≤ length rest)
    → (x : List (Prefix × Text) × List Text) → cons_line l (read_hunk rest) ≡ ok x
    → length x.1 ≤ suc (length rest)
cons_line-length none rest ih x h = absurd (ground arith)
cons_line-length (some l) rest ih x h =
    let (y, read, e) = >>=-eq-ok (read_hunk rest) (λ y. ok (l ∷ y.0, y.1)) h in
    let shorter = ih y read in
    subst (λ (y : List (Prefix × Text) × List Text). length y.1 ≤ suc (length rest))
      (ok-injective (l ∷ y.0, y.1) x e) (omega (arith, shorter))

-- a hunk takes a part of the lines
pub read_hunk-length :
    (ls : List Text) (x : List (Prefix × Text) × List Text)
    → read_hunk ls ≡ ok x
    → length x.1 ≤ length ls
unfolding read_hunk
read_hunk-length [] x h =
    subst (λ (y : List (Prefix × Text) × List Text). length y.1 ≤ 0) (ok-injective ([], []) x h)
      (omega arith)
read_hunk-length (line ∷ rest) x h = elim (Bool-cases (line == marker)) [
  | inl here ↦
      subst (λ (y : List (Prefix × Text) × List Text). length y.1 ≤ suc (length rest))
        (ok-injective ([], line ∷ rest) x (rw (here, read_hunk) at h)) (omega arith)
  | inr other ↦
      cons_line-length (line_of line) rest (read_hunk-length rest) x (rw (other, read_hunk) at h)
]

take_content-length : (ls : List Text) → length (take_content ls).1 ≤ length ls
unfolding take_content
take_content-length [] = omega arith
take_content-length (l ∷ ls) = ground (arith, take_content-length ls)

move_target-length :
    (rest : List Text) (m : Option Text × List Text)
    → move_target rest ≡ ok m
    → length m.1 ≤ length rest
unfolding move_target
move_target-length [] m h =
    subst (λ (m : Option Text × List Text). length m.1 ≤ 0) (ok-injective (none, []) m h)
      (omega arith)
move_target-length (line ∷ rest) m h =
    elim (Option-cases (strip_prefix (codes "*** Move to: ") line)) [
      | inl plain_update ↦
          subst (λ (m : Option Text × List Text). length m.1 ≤ suc (length rest))
            (ok-injective (none, line ∷ rest) m (rw (plain_update, move_target) at h)) (omega arith)
      | inr (target, found) ↦
          let (d, _, e) =
            >>=-eq-ok (validate_relative_path false target) (λ d. ok (some d, rest))
              (rw (found, move_target) at h) in
          subst (λ (m : Option Text × List Text). length m.1 ≤ suc (length rest))
            (ok-injective (some d, rest) m e) (omega arith)
    ]

Edited-length :
    (p : Text) (rest : List Text) (x : PatchSection × List Text)
    → Edited p rest ≡ ok x
    → length x.1 ≤ length rest
Edited-length p rest x h =
    let (m, found, e1) =
      >>=-eq-ok (move_target rest)
        (λ m. read_all_hunks (take_content m.1).0 >>= λ hs.
          ok (section_with (moved m.0) p m.0 [] hs, (take_content m.1).1))
        h in
    let (hs, _, e2) =
      >>=-eq-ok (read_all_hunks (take_content m.1).0)
        (λ hs. ok (section_with (moved m.0) p m.0 [] hs, (take_content m.1).1)) e1 in
    let behind = move_target-length rest m found in
    let left = take_content-length m.1 in
    subst (λ (x : PatchSection × List Text). length x.1 ≤ length rest)
      (ok-injective (section_with (moved m.0) p m.0 [] hs, (take_content m.1).1) x e2)
      (omega (arith, behind, left))

pub read_section-length :
    (a : Action) (p : Text) (rest : List Text) (x : PatchSection × List Text)
    → read_section a p rest ≡ ok x
    → length x.1 ≤ length rest
unfolding read_section
read_section-length add p rest x h =
    let c = take_content rest in
    let (_, _, e1) =
      >>=-eq-ok (raise_if (c.0 == []) (plain invalid_patch))
        (λ _. added c.0 >>= λ lines. ok (section_with add p none lines [], c.1)) h in
    let (lines, _, e2) =
      >>=-eq-ok (added c.0) (λ lines. ok (section_with add p none lines [], c.1)) e1 in
    subst (λ (x : PatchSection × List Text). length x.1 ≤ length rest)
      (ok-injective (section_with add p none lines [], c.1) x e2) (take_content-length rest)
read_section-length delete p rest x h =
    let c = take_content rest in
    let (_, _, e1) =
      >>=-eq-ok (raise_if (not (c.0 == [])) (plain invalid_patch))
        (λ _. ok (section_with delete p none [] [], c.1)) h in
    subst (λ (x : PatchSection × List Text). length x.1 ≤ length rest)
      (ok-injective (section_with delete p none [] [], c.1) x e1) (take_content-length rest)
read_section-length update p rest x h = Edited-length p rest x h
read_section-length move p rest x h = Edited-length p rest x h

-- ===== src/Patch/Parser/Sections.antt =====
-- The sections that the parser gives.
use codito_mcp.Patch.Parser.Fields.{
  IsSection, validated, read_all_hunks-IsHunk, move_target-IsRelative, read_add-IsSection,
  read_delete-IsSection, moved-IsSection,
}
use mathlib.Core.Path.{subst}
use codito_mcp.Text.{Text, is_scalar, utf8_encode, splitlines}
use codito_mcp.Common.{
  ℕ, zero, suc, ◌≡◌, inl, inr, false, List, [], ◌∷◌, arith, ok, ◌>>=◌, ◌>>◌, raise_if, nat_Eq,
  list_Eq, option_Eq, string_Eq, All, Option-cases, is_empty, ok-injective, >>=-eq-ok, Bool-cases,
  length, not, ◌∙◌, ap, all, ltb,
}
use codito_mcp.Errors.{plain, invalid_patch, Raises}
use codito_mcp.Paths.{validate_relative_path, IsRelative}
use codito_mcp.Patch.Types.{add, update, delete, move, PatchSection}
use codito_mcp.Patch.Parser.{
  read_all_hunks, move_target, section_with, Text, parse, take_content, read_sections, read_section,
  match_section, Action, moved, is_scalar, max_patch_bytes, utf8_encode, body_lines, splitlines,
}

-- what an Update section is read by
abbrev pub Edited : Text → List Text → Raises (PatchSection × List Text)
Edited p rest = move_target rest >>= λ m. read_all_hunks (take_content m.1).0 >>= λ hs.
    ok (section_with (moved m.0) p m.0 [] hs, (take_content m.1).1)

read_edit-IsSection :
    (p : Text) (rest : List Text) (x : PatchSection × List Text)
    → IsRelative p
    → Edited p rest ≡ ok x
    → IsSection x.0
read_edit-IsSection p rest x r e =
    let ((target, behind), found, e1) =
      >>=-eq-ok (move_target rest)
        (λ m. read_all_hunks (take_content m.1).0 >>= λ hs.
          ok (section_with (moved m.0) p m.0 [] hs, (take_content m.1).1))
        e in
    let (hs, read, e2) =
      >>=-eq-ok (read_all_hunks (take_content behind).0)
        (λ hs. ok (section_with (moved target) p target [] hs, (take_content behind).1)) e1 in
    let (full, good) = read_all_hunks-IsHunk (take_content behind).0 hs read in
    subst (λ y. IsSection y.0)
      (ok-injective (section_with (moved target) p target [] hs, (take_content behind).1) x e2)
      (moved-IsSection p target hs r
        (λ d q. move_target-IsRelative rest d behind (found ∙ ap (λ t. ok (t, behind)) q)) full
        good)

read_section-IsSection :
    (a : Action) (p : Text) (rest : List Text) (x : PatchSection × List Text)
    → IsRelative p
    → read_section a p rest ≡ ok x
    → IsSection x.0
unfolding read_section
read_section-IsSection add p rest x r e =
    read_add-IsSection p (take_content rest).0 (take_content rest).1 x r e
read_section-IsSection delete p rest x r e =
    read_delete-IsSection p (take_content rest).0 (take_content rest).1 x r e
read_section-IsSection update p rest x r e = read_edit-IsSection p rest x r e
read_section-IsSection move p rest x r e = read_edit-IsSection p rest x r e

read_sections-IsSection :
    (fuel : ℕ) (ls : List Text) (ss : List PatchSection)
    → read_sections fuel ls ≡ ok ss
    → All IsSection ss
unfolding read_sections
read_sections-IsSection fuel [] ss e = subst (All IsSection) (ok-injective [] ss e) tt
read_sections-IsSection zero (line ∷ rest) ss e = absurd (ground arith)
read_sections-IsSection (suc fuel) (line ∷ rest) ss e = elim (Option-cases (match_section line)) [
  | inl no_header ↦ absurd (let q = rw (no_header, read_sections) at e in ground arith)
  | inr ((action, target), found) ↦
      let round : (validate_relative_path false target >>= λ p.
      read_section action p rest >>= λ s. read_sections fuel s.1 >>= λ more. ok (s.0 ∷ more))
          ≡ ok ss =
        rw (found, read_sections) at e in
      let (p, valid, e1) =
        >>=-eq-ok (validate_relative_path false target)
          (λ p.
            read_section action p rest >>= λ s. read_sections fuel s.1 >>= λ more. ok (s.0 ∷ more))
          round in
      let (s, one, e2) =
        >>=-eq-ok (read_section action p rest)
          (λ s. read_sections fuel s.1 >>= λ more. ok (s.0 ∷ more)) e1 in
      let (more, others, e3) = >>=-eq-ok (read_sections fuel s.1) (λ more. ok (s.0 ∷ more)) e2 in
      subst (All IsSection) (ok-injective (s.0 ∷ more) ss e3) (
        read_section-IsSection action p rest s (validated target p valid) one,
        read_sections-IsSection fuel s.1 more others,
      )
]

-- Every section of a parsed document has the fields of its kind and no other: relative and safe
-- paths, lines to add where it adds, and where it edits one hunk at least, each with lines to be
-- found and a change.
pub parse-IsSection :
    (document : Text) (ss : List PatchSection) → parse document ≡ ok ss → All IsSection ss
unfolding parse
parse-IsSection document ss e = elim (Bool-cases (not (all is_scalar document))) [
  | inl lone ↦ absurd (let q = rw (lone, parse) at e in ground arith)
  | inr text ↦ elim (Bool-cases (ltb max_patch_bytes (length (utf8_encode document)))) [
    | inl large ↦ absurd (let q = rw (text, large, parse) at e in ground arith)
    | inr fits ↦
        let whole : (body_lines (splitlines document) >>= λ body.
        read_sections (length body) body >>= λ s.
        raise_if (is_empty s) (plain invalid_patch) >> ok s)
            ≡ ok ss =
          rw (text, fits, parse) at e in
        let (body, _, e1) =
          >>=-eq-ok (body_lines (splitlines document))
            (λ body. read_sections (length body) body >>= λ s.
              raise_if (is_empty s) (plain invalid_patch) >> ok s)
            whole in
        let (s, read, e2) =
          >>=-eq-ok (read_sections (length body) body)
            (λ s. raise_if (is_empty s) (plain invalid_patch) >> ok s) e1 in
        let (_, _, e3) = >>=-eq-ok (raise_if (is_empty s) (plain invalid_patch)) (λ _. ok s) e2 in
        subst (All IsSection) (ok-injective s ss e3)
          (read_sections-IsSection (length body) body s read)
  ]
]

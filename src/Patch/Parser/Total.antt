-- ===== src/Patch/Parser/Total.antt =====
-- The bounds on the rounds of the parser's loops.
use codito_mcp.Text.{Text, codes, is_scalar, utf8_encode, splitlines}
use codito_mcp.Common.{
  ℕ, zero, suc, ◌≤◌, ◌≡◌, refl, ◌⊎◌, inl, inr, Bool, true, false, not, Option, none, some, List, [],
  ◌∷◌, arith, ok, err, ◌>>=◌, ◌>>◌, raise_if, ◌==◌, nat_Eq, list_Eq, option_Eq, string_Eq, length,
  Result-cases, Bool-cases, is_empty, Option-cases, all, ltb,
}
use codito_mcp.Errors.{AgentError, Raises, plain, invalid_patch, invalid_path}
use codito_mcp.Paths.{validate_relative_path, validate-error}
use codito_mcp.Patch.Types.{Prefix, Action, add, update, delete, move, old_lines, has_change}
use codito_mcp.Patch.Parser.Lengths.{read_hunk-length, read_section-length}
use codito_mcp.Patch.Parser.Sections.{Edited}
use codito_mcp.Patch.Parser.{
  take_content, added, line_of, cons_line, read_hunk, check_hunk, read_hunks, read_all_hunks,
  move_target, section_with, moved, read_section, marker, strip_prefix, Text, codes, parse,
  PatchSection, read_sections, body_lines, match_section, is_scalar, up_to_end, max_patch_bytes,
  utf8_encode, splitlines,
}

-- the two errors that the parser means to raise
abbrev pub IsRefusal : AgentError → Type 0
IsRefusal e = (e ≡ plain invalid_patch) ⊎ (e ≡ plain invalid_path)

abbrev IsClean : {A : Type 0} → Raises A → Type 0
IsClean (ok a) = Unit
IsClean (err e) = IsRefusal e

bind-IsClean :
    {A B : Type 0} (r : Raises A) (f : A → Raises B)
    → IsClean r
    → ((a : A) → r ≡ ok a → IsClean (f a))
    → IsClean (r >>= f)
bind-IsClean (ok a) f h k = k a refl
bind-IsClean (err e) f h k = h

raise_if-IsClean : (b : Bool) → IsClean (raise_if b (plain invalid_patch))
raise_if-IsClean true = inl refl
raise_if-IsClean false = tt

added-IsClean : (ls : List Text) → IsClean (added ls)
unfolding added
added-IsClean [] = tt
added-IsClean ([] ∷ ls) = inl refl
added-IsClean ((c ∷ s) ∷ ls) =
    bind-IsClean (raise_if (not (c == b'+')) (plain invalid_patch)) _
      (raise_if-IsClean (not (c == b'+')))
      (λ _ _. bind-IsClean (added ls) (λ rest. ok (s ∷ rest)) (added-IsClean ls) (λ _ _. tt))

validate-IsClean : (v : Text) → IsClean (validate_relative_path false v)
validate-IsClean v = elim (Result-cases (validate_relative_path false v)) [
  | inl (p, h) ↦ rw h tt
  | inr (e, h) ↦ rw h (inr (validate-error v e h))
]

read_hunk-IsClean : (ls : List Text) → IsClean (read_hunk ls)
unfolding read_hunk
read_hunk-IsClean [] = tt
read_hunk-IsClean (line ∷ rest) = elim (Bool-cases (line == marker)) [
  | inl here ↦ rw here tt
  | inr other ↦ rw other (cons-IsClean (line_of line) (read_hunk-IsClean rest))
]
  where
    cons-IsClean :
        (l : Option (Prefix × Text))
        → IsClean (read_hunk rest)
        → IsClean (cons_line l (read_hunk rest))
    cons-IsClean none c = inl refl
    cons-IsClean (some l) c = bind-IsClean (read_hunk rest) (λ y. ok (l ∷ y.0, y.1)) c (λ _ _. tt)

check_hunk-IsClean : (ls : List (Prefix × Text)) → IsClean (check_hunk ls)
unfolding check_hunk
check_hunk-IsClean ls = elim (Bool-cases (old_lines ls == [])) [
  | inl bare ↦ rw bare (inl refl)
  | inr found ↦ elim (Bool-cases (not (has_change ls))) [
    | inl same ↦ rw (found, same) (inl refl)
    | inr changed ↦ rw (found, changed) tt
  ]
]

-- As many rounds as lines are enough for the hunks.
read_hunks-IsClean :
    (fuel : ℕ) (content : List Text) → length content ≤ fuel → IsClean (read_hunks fuel content)
unfolding read_hunks
read_hunks-IsClean fuel [] h = tt
read_hunks-IsClean zero (line ∷ rest) h = absurd (omega (arith, h))
read_hunks-IsClean (suc fuel) (line ∷ rest) h = elim (Bool-cases (line == marker)) [
  | inr other ↦ rw other (inl refl)
  | inl here ↦ rw here (
      bind-IsClean (read_hunk rest)
        (λ y. check_hunk y.0 >>= λ k. read_hunks fuel y.1 >>= λ more. ok (k ∷ more))
        (read_hunk-IsClean rest)
        (λ y read.
          let shorter = read_hunk-length rest y read in
          bind-IsClean (check_hunk y.0) (λ k. read_hunks fuel y.1 >>= λ more. ok (k ∷ more))
            (check_hunk-IsClean y.0)
            (λ k _.
              bind-IsClean (read_hunks fuel y.1) (λ more. ok (k ∷ more))
                (read_hunks-IsClean fuel y.1 (omega (arith, shorter, h))) (λ _ _. tt))))
]

read_all_hunks-IsClean : (content : List Text) → IsClean (read_all_hunks content)
read_all_hunks-IsClean content =
    bind-IsClean (read_hunks (length content) content)
      (λ hs. raise_if (is_empty hs) (plain invalid_patch) >> ok hs)
      (read_hunks-IsClean (length content) content (omega arith))
      (λ hs _.
        bind-IsClean (raise_if (is_empty hs) (plain invalid_patch)) (λ _. ok hs)
          (raise_if-IsClean (is_empty hs)) (λ _ _. tt))

move_target-IsClean : (rest : List Text) → IsClean (move_target rest)
unfolding move_target
move_target-IsClean [] = tt
move_target-IsClean (line ∷ rest) =
    elim (Option-cases (strip_prefix (codes "*** Move to: ") line)) [
      | inl plain_update ↦ rw (plain_update, move_target) tt
      | inr (target, found) ↦
          rw (found, move_target)
            (bind-IsClean (validate_relative_path false target) (λ d. ok (some d, rest))
              (validate-IsClean target) (λ _ _. tt))
    ]

Edited-IsClean : (p : Text) (rest : List Text) → IsClean (Edited p rest)
Edited-IsClean p rest =
    bind-IsClean (move_target rest)
      (λ m. read_all_hunks (take_content m.1).0 >>= λ hs.
        ok (section_with (moved m.0) p m.0 [] hs, (take_content m.1).1))
      (move_target-IsClean rest)
      (λ m _.
        bind-IsClean (read_all_hunks (take_content m.1).0)
          (λ hs. ok (section_with (moved m.0) p m.0 [] hs, (take_content m.1).1))
          (read_all_hunks-IsClean (take_content m.1).0) (λ _ _. tt))

read_section-IsClean : (a : Action) (p : Text) (rest : List Text) → IsClean (read_section a p rest)
unfolding read_section
read_section-IsClean add p rest =
    let c = take_content rest in
    bind-IsClean (raise_if (c.0 == []) (plain invalid_patch))
      (λ _. added c.0 >>= λ lines. ok (section_with add p none lines [], c.1))
      (raise_if-IsClean (c.0 == []))
      (λ _ _.
        bind-IsClean (added c.0) (λ lines. ok (section_with add p none lines [], c.1))
          (added-IsClean c.0) (λ _ _. tt))
read_section-IsClean delete p rest =
    let c = take_content rest in
    bind-IsClean (raise_if (not (c.0 == [])) (plain invalid_patch))
      (λ _. ok (section_with delete p none [] [], c.1)) (raise_if-IsClean (not (c.0 == [])))
      (λ _ _. tt)
read_section-IsClean update p rest = Edited-IsClean p rest
read_section-IsClean move p rest = Edited-IsClean p rest

-- As many rounds as lines are enough for the sections.
read_sections-IsClean :
    (fuel : ℕ) (ls : List Text) → length ls ≤ fuel → IsClean (read_sections fuel ls)
unfolding read_sections
read_sections-IsClean fuel [] h = tt
read_sections-IsClean zero (line ∷ rest) h = absurd (omega (arith, h))
read_sections-IsClean (suc fuel) (line ∷ rest) h = elim (Option-cases (match_section line)) [
  | inl no_header ↦ rw (no_header, read_sections) (inl refl)
  | inr ((action, target), found) ↦
      rw (found, read_sections)
        (bind-IsClean (validate_relative_path false target)
          (λ p.
            read_section action p rest >>= λ s. read_sections fuel s.1 >>= λ more. ok (s.0 ∷ more))
          (validate-IsClean target)
          (λ p _.
            bind-IsClean (read_section action p rest)
              (λ s. read_sections fuel s.1 >>= λ more. ok (s.0 ∷ more))
              (read_section-IsClean action p rest)
              (λ s read.
                let shorter = read_section-length action p rest s read in
                bind-IsClean (read_sections fuel s.1) (λ more. ok (s.0 ∷ more))
                  (read_sections-IsClean fuel s.1 (omega (arith, shorter, h))) (λ _ _. tt))))
]

body_lines-IsClean : (ls : List Text) → IsClean (body_lines ls)
unfolding body_lines
body_lines-IsClean [] = inl refl
body_lines-IsClean (first ∷ rest) = elim (Bool-cases (not (first == codes "*** Begin Patch"))) [
  | inl other ↦ rw other (inl refl)
  | inr begins ↦ elim (Option-cases (up_to_end (codes "*** End Patch") rest)) [
    | inl open_end ↦ rw (begins, open_end) (inl refl)
    | inr (body, closed) ↦ rw (begins, closed) tt
  ]
]

parse-IsClean : (document : Text) → all is_scalar document ≡ true → IsClean (parse document)
unfolding parse
parse-IsClean document text =
    elim (Bool-cases (ltb max_patch_bytes (length (utf8_encode document)))) [
      | inl large ↦ rw (text, large, parse) (inl refl)
      | inr fits ↦
          rw (text, fits, parse)
            (bind-IsClean (body_lines (splitlines document))
              (λ body. read_sections (length body) body >>= λ s.
                raise_if (is_empty s) (plain invalid_patch) >> ok s)
              (body_lines-IsClean (splitlines document))
              (λ body _.
                bind-IsClean (read_sections (length body) body)
                  (λ s. raise_if (is_empty s) (plain invalid_patch) >> ok s)
                  (read_sections-IsClean (length body) body (omega arith))
                  (λ s _.
                    bind-IsClean (raise_if (is_empty s) (plain invalid_patch)) (λ _. ok s)
                      (raise_if-IsClean (is_empty s)) (λ _ _. tt))))
    ]

refused : (r : Raises (List PatchSection)) (e : AgentError) → IsClean r → r ≡ err e → IsRefusal e
refused r e c h = rw h at c

-- The parser ends with an answer on every text: sections, or a refusal of the patch or of a path.
-- No document takes more rounds of its loops than it has lines.
pub parse-IsRefusal :
    (document : Text) (e : AgentError)
    → all is_scalar document ≡ true
    → parse document ≡ err e
    → IsRefusal e
parse-IsRefusal document e text h = refused (parse document) e (parse-IsClean document text) h

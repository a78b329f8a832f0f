-- ===== src/Patch/Parser.antt =====
-- `AnchoredPatchParser.parse` of agent/src/codito_agent/patching.py.
-- The loops over an index run on the lines that are left, with the number of these as fuel.
pub mod Fields
pub mod Sections
pub mod Lengths
pub mod Total
use codito_mcp.Common.{
  zero, suc, ℕ, List, Option, err, ◌∷◌, ok, if◌then◌else◌, none, some, is_some, ◌==◌, not, [], all,
  ltb, length, ◌>>◌, nat_Eq, ◌>>=◌, list_Eq, false, raise_if, is_empty, list_beq,
}
use Prim.Native.Nat.{ℕ, suc}
use codito_mcp.Text.{Text, codes, starts_with, splitlines, utf8_encode, is_scalar, has_char}
use codito_mcp.Errors.{Raises, plain, invalid_patch, python_error}
use codito_mcp.Paths.{path_program, validate_relative_path}
use codito_mcp.Patch.Types.{
  Prefix, context, plus, minus, Hunk, Action, add, update, delete, move, PatchSection, old_lines,
  has_change,
}

-- `MAX_PATCH_BYTES`
abbrev pub max_patch_bytes : ℕ
max_patch_bytes = 2_097_152

abbrev pub invalid {ℓ} : {A : Type ℓ} → Raises A
invalid = err (plain invalid_patch)

-- what stands behind a prefix
unfoldable pub strip_prefix : Text → Text → Option Text
strip_prefix [] s = some s
strip_prefix (p ∷ ps) [] = none
strip_prefix (p ∷ ps) (c ∷ s) = let rest = strip_prefix ps s in if p == c then rest else none

-- the group `(.+)`
abbrev pub group : Action → Option Text → Option (Action × Text)
group a none = none
group a (some []) = none
group a (some (c ∷ s)) = if has_char 10 (c ∷ s) then none else some (a, c ∷ s)

abbrev pub or_else : Option (Action × Text) → Option (Action × Text) → Option (Action × Text)
or_else none o = o
or_else (some m) o = some m

-- `_SECTION_RE.fullmatch(line)`: the action and the path
unfoldable pub match_section : Text → Option (Action × Text)
match_section line = or_else (group add (strip_prefix (codes "*** Add File: ") line)) (
    or_else (group update (strip_prefix (codes "*** Update File: ") line))
      (group delete (strip_prefix (codes "*** Delete File: ") line)))

-- the lines up to the next section, and those from it on
unfoldable pub take_content : List Text → List Text × List Text
take_content [] = ([], [])
take_content (l ∷ ls) =
    let (content, rest) = take_content ls in
    if is_some (match_section l) then ([], l ∷ ls) else (l ∷ content, rest)

-- an Add section's lines: every one begins with "+"
unfoldable pub added : List Text → Raises (List Text)
added [] = ok []
added ([] ∷ ls) = invalid
added ((c ∷ s) ∷ ls) = do
  raise_if (not (c == b'+')) (plain invalid_patch)
  rest ← added ls
  ok (s ∷ rest)

unfoldable pub prefix_of : ℕ → Option Prefix
prefix_of c =
    if c == b' '
    then some context
    else if c == b'+'
    then some plus
    else if c == b'-'
    then some minus
    else none

abbrev pub marker : Text
marker = codes "@@"

abbrev pub line_of : Text → Option (Prefix × Text)
line_of [] = none
line_of (c ∷ s) = elim (prefix_of c) [ none ↦ none | some p ↦ some (p, s) ]

abbrev pub cons_line :
    Option (Prefix × Text)
    → Raises (List (Prefix × Text) × List Text)
    → Raises (List (Prefix × Text) × List Text)
cons_line none rest = invalid
cons_line (some l) rest = do (ls, left) ← rest; ok (l ∷ ls, left)

-- the inner loop: the lines of one hunk, and those from the next "@@" on
unfoldable pub read_hunk : List Text → Raises (List (Prefix × Text) × List Text)
read_hunk [] = ok ([], [])
read_hunk (line ∷ rest) =
    let after = cons_line (line_of line) (read_hunk rest) in
    if line == marker then ok ([], line ∷ rest) else after

-- the tests behind the inner loop
unfoldable pub check_hunk : List (Prefix × Text) → Raises Hunk
check_hunk ls =
    if old_lines ls == []
    then invalid
    else if not (has_change ls)
    then invalid
    else ok (record { lines = ls })

-- the outer loop; the first argument bounds its rounds
unfoldable pub read_hunks : ℕ → List Text → Raises (List Hunk)
read_hunks fuel [] = ok []
read_hunks zero (line ∷ rest) = err (plain python_error)
read_hunks (suc fuel) (line ∷ rest) = if not (line == marker) then invalid else do
  (ls, left) ← read_hunk rest
  hunk ← check_hunk ls
  hunks ← read_hunks fuel left
  ok (hunk ∷ hunks)

-- `content` of an Update or a Move section
abbrev pub read_all_hunks : List Text → Raises (List Hunk)
read_all_hunks content = do
  hunks ← read_hunks (length content) content
  raise_if (is_empty hunks) (plain invalid_patch)
  ok hunks

-- an Update header with the lines behind it, before its content is known
unfoldable pub move_target : List Text → Raises (Option Text × List Text)
move_target [] = ok (none, [])
move_target (line ∷ rest) = elim (strip_prefix (codes "*** Move to: ") line) [
  | none ↦ ok (none, line ∷ rest)
  | some target ↦ do destination ← validate_relative_path false target; ok (some destination, rest)
]

abbrev pub section_with : Action → Text → Option Text → List Text → List Hunk → PatchSection
section_with a p d ls hs = record {
  action = a;
  path = p;
  destination = d;
  add_lines = ls;
  hunks = hs;
}

abbrev pub moved : Option Text → Action
moved none = update
moved (some _) = move

-- One round of the loop over the sections: the section, and the lines behind it.
unfoldable pub read_section : Action → Text → List Text → Raises (PatchSection × List Text)
read_section add path rest =
    let (content, left) = take_content rest in
    do
      raise_if (content == []) (plain invalid_patch)
      lines ← added content
      ok (section_with add path none lines [], left)
read_section delete path rest =
    let (content, left) = take_content rest in
    do
      raise_if (not (content == [])) (plain invalid_patch)
      ok (section_with delete path none [] [], left)
read_section _ path rest = do
  (destination, behind) ← move_target rest
  let (content, left) = take_content behind
  hunks ← read_all_hunks content
  ok (section_with (moved destination) path destination [] hunks, left)

-- the loop over the sections; the first argument bounds its rounds
unfoldable pub read_sections : ℕ → List Text → Raises (List PatchSection)
read_sections fuel [] = ok []
read_sections zero (line ∷ rest) = err (plain python_error)
read_sections (suc fuel) (line ∷ rest) = elim (match_section line) [
  | none ↦ invalid
  | some (action, target) ↦ do
    path ← validate_relative_path false target
    (section, left) ← read_section action path rest
    sections ← read_sections fuel left
    ok (section ∷ sections)
]

-- `lines[1:-1]` of the lines behind the first, if the last is `end`
unfoldable pub up_to_end : Text → List Text → Option (List Text)
up_to_end end [] = none
up_to_end end (l ∷ []) = if l == end then some [] else none
up_to_end end (l ∷ m ∷ ls) = elim (up_to_end end (m ∷ ls)) [ none ↦ none | some b ↦ some (l ∷ b) ]

-- the lines between the two markers
unfoldable pub body_lines : List Text → Raises (List Text)
body_lines [] = invalid
body_lines (first ∷ rest) =
    if not (first == codes "*** Begin Patch")
    then invalid
    else elim (up_to_end (codes "*** End Patch") rest) [ none ↦ invalid | some body ↦ ok body ]

-- A document with a lone surrogate cannot be encoded to be measured.
unfoldable pub parse : Text → Raises (List PatchSection)
parse document =
    if not (all is_scalar document)
    then err (plain python_error)
    else if ltb max_patch_bytes (length (utf8_encode document))
    then invalid
    else do
      body ← body_lines (splitlines document)
      sections ← read_sections (length body) body
      raise_if (is_empty sections) (plain invalid_patch)
      ok sections

unfoldable pub parser_program : Unit {0}
unfolding strip_prefix match_section take_content added prefix_of read_hunk check_hunk old_lines
    has_change read_hunks move_target read_section read_sections up_to_end body_lines parse
    splitlines utf8_encode list_beq path_program starts_with
parser_program = tt

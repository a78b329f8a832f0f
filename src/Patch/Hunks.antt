-- ===== src/Patch/Hunks.antt =====
-- `_apply_hunks` of agent/src/codito_agent/patching.py.
use codito_mcp.Common.{
  ℕ, zero, suc, String, ◌+◌, ◌-◌, ◌≤◌, ◌<◌, ◌≡◌, refl, sym, ap, ◌∙◌, ◌≢◌, ◌↔◌, ◌⊎◌, inl, inr, Bool,
  true, false, not, ◌&&◌, ◌||◌, Option, none, some, List, [], ◌∷◌, ◌++◌, map, arith, if◌then◌else◌,
  Result, ok, err, ◌>>=◌, ◌>>◌, raise_if, ◌==◌, nat_Eq, list_Eq, option_Eq, string_Eq, length,
  list_beq, take, drop,
}
mod Search
pub mod Relation
pub mod Exact
use codito_mcp.Text.{Text}
use codito_mcp.Errors.{
  Raises, AgentError, detailed, patch_conflict, Detail, conflict, not_found, ambiguous,
}
use codito_mcp.Patch.Types.{Hunk, old_lines, new_lines}
use codito_mcp.Patch.TextFile.{TextFile}

-- `lines[index : index + len(expected)] == expected`
unfoldable pub matches_at : List Text → List Text → ℕ → Bool
matches_at lines expected index = take (length expected) (drop index lines) == expected

-- the indices from `index` on at which the block matches; the first argument counts those left
unfoldable pub candidates_from : ℕ → ℕ → List Text → List Text → List ℕ
candidates_from zero index lines expected = []
candidates_from (suc count) index lines expected =
    let rest = candidates_from count (suc index) lines expected in
    if matches_at lines expected index then index ∷ rest else rest

-- `range(minimum_index, len(lines) - len(expected) + 1)`, which is empty if it would run backwards
unfoldable pub candidates : ℕ → List Text → List Text → List ℕ
candidates minimum lines expected =
    candidates_from (length lines + 1 - length expected - minimum) minimum lines expected

-- `lines[index : index + n] = replacement`
unfoldable pub splice : List Text → ℕ → ℕ → List Text → List Text
splice lines index n replacement = take index lines ++ (replacement ++ drop (index + n) lines)

-- the only candidate, or the conflict
unfoldable pub unique_candidate : Text → ℕ → List ℕ → Raises ℕ
unique_candidate path number [] =
    err (detailed patch_conflict (conflict path (some number) not_found ∷ []))
unique_candidate path number (index ∷ []) = ok index
unique_candidate path number (index ∷ other ∷ _) =
    err (detailed patch_conflict (conflict path (some number) ambiguous ∷ []))

-- the loop over the hunks: its number, the least index that the hunk may match at, and the lines
unfoldable pub apply_from : Text → ℕ → ℕ → List Text → List Hunk → Raises (List Text)
apply_from path number minimum lines [] = ok lines
apply_from path number minimum lines (hunk ∷ hunks) = do
  let expected = old_lines hunk.lines
  let replacement = new_lines hunk.lines
  index ← unique_candidate path number (candidates minimum lines expected)
  apply_from path (suc number) (index + length replacement)
      (splice lines index (length expected) replacement) hunks

unfoldable pub apply_hunks : TextFile → List Hunk → Text → Raises TextFile
apply_hunks document hunks path = do
  lines ← apply_from path 1 0 document.lines hunks
  ok (record document { lines = lines })

unfoldable pub hunks_program : Unit {0}
unfolding matches_at candidates_from candidates splice unique_candidate apply_from apply_hunks
    old_lines new_lines list_beq
hunks_program = tt

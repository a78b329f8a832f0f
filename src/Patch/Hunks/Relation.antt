-- ===== src/Patch/Hunks/Relation.antt =====
-- What applying hunks means: in order, each hunk's old lines give way to its new lines, and every
-- other line stays. The loop over indices is first brought to a recursion on the lines left.
use mathlib.Core.List.{append_assoc}
use codito_mcp.Common.{
  ℕ, suc, ◌+◌, ◌-◌, ◌≤◌, ◌≡◌, refl, ap, ◌∙◌, inl, inr, List, [], ◌∷◌, ◌++◌, map, arith, ok, err,
  ◌>>=◌, nat_Eq, list_Eq, option_Eq, string_Eq, drop, length, Result-cases, take, length-append,
  length-take,
}
use codito_mcp.Text.{Text}
use codito_mcp.Errors.{Raises}
use codito_mcp.Patch.Types.{Hunk, old_lines, new_lines}
use codito_mcp.Patch.Hunks.{candidates, unique_candidate, apply_from}
use codito_mcp.Patch.Hunks.Search.{candidates-append, splice-append, Only, candidates_one}

-- The same work on the lines that are left: `s` is what lies behind the last replacement.
unfoldable pub apply_rest : Text → ℕ → List Text → List Hunk → Raises (List Text)
apply_rest path number s [] = ok s
apply_rest path number s (hunk ∷ hunks) = do
  let expected = old_lines hunk.lines
  let replacement = new_lines hunk.lines
  index ← unique_candidate path number (candidates 0 s expected)
  rest ← apply_rest path (suc number) (drop (index + length expected) s) hunks
  ok (take index s ++ (replacement ++ rest))

unique_candidate-map :
    (path : Text) (number n : ℕ) (l : List ℕ)
    → unique_candidate path number (map (λ j. n + j) l)
      ≡ (unique_candidate path number l >>= λ j. ok (n + j))
unfolding unique_candidate
unique_candidate-map path number n [] = refl
unique_candidate-map path number n (i ∷ []) = refl
unique_candidate-map path number n (i ∷ j ∷ l) = refl

unique_candidate-eq-ok :
    (path : Text) (number j : ℕ) (l : List ℕ) → unique_candidate path number l ≡ ok j → l ≡ j ∷ []
unfolding unique_candidate
unique_candidate-eq-ok path number j [] h = absurd (ground arith)
unique_candidate-eq-ok path number j (i ∷ []) h = ground arith
unique_candidate-eq-ok path number j (i ∷ k ∷ l) h = absurd (ground arith)

-- The one place of a block in the lines that are left.
abbrev pub Site : List Text → List Text → ℕ → Type 0
Site s expected j = Only (length s + 1 - length expected - 0) 0 j s expected

pub Site-candidates :
    (path : Text) (number j : ℕ) (s expected : List Text)
    → unique_candidate path number (candidates 0 s expected) ≡ ok j
    → Site s expected j
unfolding candidates
Site-candidates path number j s expected h =
    candidates_one _ 0 j s expected (unique_candidate-eq-ok path number j _ h)

-- one more hunk, at a known place
length-prefix :
    (pre s replacement : List Text) (j : ℕ)
    → j ≤ length s
    → length (pre ++ (take j s ++ replacement)) ≡ length pre + j + length replacement
length-prefix pre s replacement j h = omega (
  arith,
  length-append pre (take j s ++ replacement),
  length-append (take j s) replacement,
  length-take j s h,
)

regroup :
    (pre before new : List Text) (r : Raises (List Text))
    → (r >>= λ rest. ok ((pre ++ (before ++ new)) ++ rest))
      ≡ ((r >>= λ rest. ok (before ++ (new ++ rest))) >>= λ rest. ok (pre ++ rest))
regroup pre before new (ok rest) = ap ok (simp append_assoc)
regroup pre before new (err e) = refl

-- The loop over indices is the recursion on the lines left.
pub apply_from-apply_rest :
    (path : Text) (number : ℕ) (pre s : List Text) (hunks : List Hunk)
    → apply_from path number (length pre) (pre ++ s) hunks
      ≡ (apply_rest path number s hunks >>= λ rest. ok (pre ++ rest))
unfolding apply_from apply_rest
apply_from-apply_rest path number pre s [] = refl
apply_from-apply_rest path number pre s (hunk ∷ hunks) =
    rw (candidates-append pre s (old_lines hunk.lines)) (
      rw (unique_candidate-map path number (length pre) (candidates 0 s (old_lines hunk.lines)))
        (elim (Result-cases
          (unique_candidate path number (candidates 0 s (old_lines hunk.lines)))) [
            | inr (e, failed) ↦ rw failed refl
            | inl (j, found) ↦
                let old = old_lines hunk.lines in
                let new = new_lines hunk.lines in
                let site = Site-candidates path number j s old found in
                let size = length-prefix pre s new j (omega (arith, site.below)) in
                rw found (
                  rw (splice-append pre s new j (length old)) (
                    rw (← size) (
                      apply_from-apply_rest path (suc number) (pre ++ (take j s ++ new))
                        (drop (j + length old) s) hunks
                      ∙ regroup pre (take j s) new _)))
          ]))

-- `new` is `old` with each hunk's old lines, in order, replaced by its new lines; each block of
-- old lines stands at one place only in the lines behind the hunk before.
abbrev pub Applies : List Hunk → List Text → List Text → Type 0
Applies [] old new = new ≡ old
Applies (h ∷ hs) old new =
    (before : List Text) × (after : List Text) × (after' : List Text) × (old
      ≡ before ++ (old_lines h.lines ++ after))
    × (new ≡ before ++ (new_lines h.lines ++ after'))
    × Site old (old_lines h.lines) (length before)
    × Applies hs after after'

-- ===== src/Patch/Hunks/Exact.antt =====
-- `apply_hunks` against the relation `Applies`.
use mathlib.Core.Path.{ap₂}
use codito_mcp.Common.{
  ℕ, zero, suc, ◌+◌, ◌≡◌, refl, sym, ap, ◌∙◌, ◌↔◌, true, List, [], ◌∷◌, ◌++◌, arith, ok, err, ◌>>=◌,
  nat_Eq, list_Eq, option_Eq, string_Eq, drop, length, take, >>=-eq-ok, length-take, list_beq_iff,
  drop-length-append, take-append-drop, take-length-append,
}
use codito_mcp.Text.{Text}
use codito_mcp.Errors.{Raises}
use codito_mcp.Patch.Types.{Hunk, old_lines, new_lines}
use codito_mcp.Patch.TextFile.{TextFile}
use codito_mcp.Patch.Hunks.{matches_at, candidates, unique_candidate, apply_from, apply_hunks}
use codito_mcp.Patch.Hunks.Search.{candidates_of_Only}
use codito_mcp.Patch.Hunks.Relation.{apply_rest, Applies, Site-candidates, apply_from-apply_rest}

drop-nil {ℓ} : {A : Type ℓ} (n : ℕ) → drop {A = A} n [] ≡ []
drop-nil zero = refl
drop-nil (suc n) = refl

drop-drop {ℓ} : {A : Type ℓ} (i n : ℕ) (s : List A) → drop n (drop i s) ≡ drop (i + n) s
drop-drop zero n s = let e : n ≡ 0 + n = omega arith in ap (λ k. drop k s) e
drop-drop (suc i) n [] = drop-nil n ∙ sym (drop-nil (suc i + n))
drop-drop (suc i) n (x ∷ s) =
    let e : suc (i + n) ≡ suc i + n = omega arith in drop-drop i n s ∙ ap (λ k. drop k (x ∷ s)) e

-- the lines about the place of a block
split_at_site :
    (s expected : List Text) (j : ℕ)
    → matches_at s expected j ≡ true
    → s ≡ take j s ++ (expected ++ drop (j + length expected) s)
unfolding matches_at
split_at_site s expected j h =
    let block = (list_beq_iff (take (length expected) (drop j s)) expected).0 h in
    sym (take-append-drop j s)
    ∙ ap (◌++◌ (take j s)) (
        sym (take-append-drop (length expected) (drop j s))
        ∙ ap₂ ◌++◌ block (drop-drop j (length expected) s))

apply_rest-Applies :
    (path : Text) (number : ℕ) (s r : List Text) (hunks : List Hunk)
    → apply_rest path number s hunks ≡ ok r
    → Applies hunks s r
unfolding apply_rest
apply_rest-Applies path number s r [] h = ground arith
apply_rest-Applies path number s r (hunk ∷ hunks) h =
    let old = old_lines hunk.lines in
    let (j, found, h') = >>=-eq-ok (unique_candidate path number (candidates 0 s old)) _ h in
    let (rest, later, e) =
      >>=-eq-ok (apply_rest path (suc number) (drop (j + length old) s) hunks) _ h' in
    let site = Site-candidates path number j s old found in
    let size = length-take j s (omega (arith, site.below)) in
    (
      take j s,
      drop (j + length old) s,
      rest,
      split_at_site s old j site.here,
      ground arith,
      rw size site,
      apply_rest-Applies path (suc number) (drop (j + length old) s) rest hunks later,
    )

drop_append2 {ℓ} : {A : Type ℓ} (a b c : List A) → drop (length a + length b) (a ++ (b ++ c)) ≡ c
drop_append2 a b c =
    sym (drop-drop (length a) (length b) (a ++ (b ++ c)))
    ∙ ap (drop (length b)) (drop-length-append a (b ++ c))
    ∙ drop-length-append b c

unique_candidate_one : (path : Text) (number j : ℕ) → unique_candidate path number (j ∷ []) ≡ ok j
unfolding unique_candidate
unique_candidate_one path number j = refl

apply_rest_of_Applies :
    (path : Text) (number : ℕ) (s r : List Text) (hunks : List Hunk)
    → Applies hunks s r
    → apply_rest path number s hunks ≡ ok r
unfolding apply_rest
apply_rest_of_Applies path number s r [] a = ground arith
apply_rest_of_Applies path number s r (hunk ∷ hunks) a =
    let (before, after, after', se, re, site, later) = a in
    let old = old_lines hunk.lines in
    let one : candidates 0 s old ≡ length before ∷ [] =
      unfold candidates in candidates_of_Only _ 0 (length before) s old site in
    let behind : drop (length before + length old) s ≡ after =
      ap (drop (length before + length old)) se ∙ drop_append2 before old after in
    let front : take (length before) s ≡ before =
      ap (take (length before)) se ∙ take-length-append before (old ++ after) in
    rw one (
      rw (unique_candidate_one path number (length before)) (
        rw behind (
          rw (apply_rest_of_Applies path (suc number) after after' hunks later)
            (ap ok (ap (λ b. b ++ (new_lines hunk.lines ++ after')) front ∙ sym re)))))

bind-ok {ℓ} : {A : Type ℓ} (r : Raises A) → (r >>= λ a. ok a) ≡ r
bind-ok (ok a) = refl
bind-ok (err e) = refl

apply_from_start :
    (path : Text) (s : List Text) (hunks : List Hunk)
    → apply_from path 1 0 s hunks ≡ apply_rest path 1 s hunks
apply_from_start path s hunks = apply_from-apply_rest path 1 [] s hunks ∙ bind-ok _

-- Hunks apply exactly when each has one place behind the one before; then every line outside the
-- old lines is kept, in order, and the newlines and the mark of the file too.
pub apply_hunks_iff :
    (document result : TextFile) (hunks : List Hunk) (path : Text)
    → (apply_hunks document hunks path ≡ ok result) ↔ (
        Applies hunks document.lines result.lines
        × (result ≡ record document { lines = result.lines }))
unfolding apply_hunks
apply_hunks_iff document result hunks path =
    rw (apply_from_start path document.lines hunks) (forth, back)
  where
    finish : Raises TextFile
    finish =
        apply_rest path 1 document.lines hunks >>= λ lines. ok (record document { lines = lines })

    forth :
        finish ≡ ok result
        → Applies hunks document.lines result.lines
          × (result ≡ record document { lines = result.lines })
    forth h =
        let (lines, applied, e) = >>=-eq-ok (apply_rest path 1 document.lines hunks) _ h in
        let same : lines ≡ result.lines = ground arith in
        (rw same at (apply_rest-Applies path 1 document.lines lines hunks applied), ground arith)

    back :
        Applies hunks document.lines result.lines
          × (result ≡ record document { lines = result.lines })
        → finish ≡ ok result
    back (a, e) =
        rw (apply_rest_of_Applies path 1 document.lines result.lines hunks a) (ap ok (sym e))

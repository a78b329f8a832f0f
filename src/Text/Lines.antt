-- ===== src/Text/Lines.antt =====
-- `str.splitlines`, and what it gives back of a joined text.
use codito_mcp.Common.{
  ℕ, Bool, false, ◌&&◌, ◌||◌, List, [], ◌∷◌, ◌++◌, ◌≡◌, ◌≢◌, refl, arith, if◌then◌else◌, leb, All,
  nat_eq,
}
use codito_mcp.Text.Basic.{Text, codes, cons_first}

-- the line boundaries of `str.splitlines`
unfoldable pub is_break : ℕ → Bool
is_break c =
    (leb 10 c && leb c 13)
    || (leb 28 c && leb c 30)
    || nat_eq c 133
    || nat_eq c 8232
    || nat_eq c 8233

abbrev pub starts_lf : Text → Bool
starts_lf [] = false
starts_lf (c ∷ _) = nat_eq c 10

-- "\r\n" is one boundary: the "\r" is dropped and the "\n" ends the line.
unfoldable pub splitlines : Text → List Text
unfolding is_break
splitlines [] = []
splitlines (c ∷ s) =
    let rest = splitlines s in
    if nat_eq c 13 && starts_lf s then rest else if is_break c then [] ∷ rest else cons_first c rest

abbrev pub IsLine : Text → Type 0
IsLine = All (λ c. is_break c ≡ false)

abbrev pub lf : Text
lf = 10 ∷ []

abbrev pub crlf : Text
crlf = 13 ∷ 10 ∷ []

abbrev pub cr : Text
cr = 13 ∷ []

pub data IsNewline : Text → Type 0 where
  is_lf : IsNewline lf
  is_crlf : IsNewline crlf
  is_cr : IsNewline cr

splitlines_example : splitlines (codes "a\r\n\nb\r") ≡ codes "a" ∷ [] ∷ codes "b" ∷ []
unfolding splitlines
splitlines_example = refl

pub starts_lf_line : (l rest : Text) → IsLine l → l ≢ [] → starts_lf (l ++ rest) ≡ false
unfolding is_break
starts_lf_line [] rest h ne = absurd (ne refl)
starts_lf_line (c ∷ l) rest h ne = ground arith

-- "\r" alone ends a line only if no "\n" follows.
abbrev pub Follows : {nl : Text} → IsNewline nl → Text → Type 0
Follows is_lf rest = Unit
Follows is_crlf rest = Unit
Follows is_cr rest = starts_lf rest ≡ false

-- A line and a newline in front of a text.
pub splitlines_line :
    {nl : Text} (l rest : Text) (n : IsNewline nl)
    → IsLine l
    → Follows n rest
    → splitlines (l ++ (nl ++ rest)) ≡ l ∷ splitlines rest
unfolding splitlines
splitlines_line [] rest is_lf h k = refl
splitlines_line [] rest is_crlf h k = refl
splitlines_line [] rest is_cr h k = rw k
splitlines_line (c ∷ l) rest is_lf h k = ground (arith, splitlines_line l rest is_lf h.1 k)
splitlines_line (c ∷ l) rest is_crlf h k = ground (arith, splitlines_line l rest is_crlf h.1 k)
splitlines_line (c ∷ l) rest is_cr h k = ground (arith, splitlines_line l rest is_cr h.1 k)

-- A last line with no newline behind it.
pub splitlines_last : (l : Text) → IsLine l → l ≢ [] → splitlines l ≡ l ∷ []
unfolding splitlines
splitlines_last [] h ne = absurd (ne refl)
splitlines_last (c ∷ []) h ne = ground arith
splitlines_last (c ∷ d ∷ l) h ne = ground (arith, splitlines_last (d ∷ l) h.1 (λ e. cc))

-- ===== src/Patch/TextFile/Body.antt =====
-- A text file as its lines and newlines: what `splitlines` and the newline tests find in it.
use mathlib.Core.List.{append_assoc, append-nil}
use codito_mcp.Common.{
  ℕ, ◌≡◌, refl, sym, ap, ◌∙◌, ◌≢◌, ◌⊎◌, inl, inr, Bool, true, false, ◌||◌, List, [], ◌∷◌, ◌++◌,
  arith, if◌then◌else◌, nat_Eq, list_Eq, option_Eq, string_Eq, All, nat_eq_iff,
}
use codito_mcp.Text.{
  Text, join, last_char, has_char, splitlines, IsLine, IsNewline, is_lf, is_crlf, is_cr, Follows,
  splitlines_line, splitlines_last, starts_lf_line, is_break, cr, crlf, lf,
}
use codito_mcp.Patch.TextFile.{has_crlf, newline_of, ends_line}

abbrev pub tail_of : Bool → Text → Text
tail_of final nl = if final then nl else []

-- the text of a file, line by line
abbrev pub body : Text → Bool → List Text → Text
body nl final [] = []
body nl final (l ∷ []) = l ++ tail_of final nl
body nl final (l ∷ m ∷ ls) = l ++ (nl ++ body nl final (m ∷ ls))

pub join-body :
    (nl : Text) (final : Bool) (l : Text) (ls : List Text)
    → join nl (l ∷ ls) ++ tail_of final nl ≡ body nl final (l ∷ ls)
unfolding join
join-body nl final l [] = refl
join-body nl final l (m ∷ ls) =
    append_assoc l (nl ++ join nl (m ∷ ls)) (tail_of final nl)
    ∙ ap (◌++◌ l) (
        append_assoc nl (join nl (m ∷ ls)) (tail_of final nl)
        ∙ ap (◌++◌ nl) (join-body nl final m ls))

-- the last line shows: it has a newline behind it, or a character
abbrev pub Ends : Bool → List Text → Type 0
Ends final [] = final ≡ false
Ends true (l ∷ []) = Unit
Ends false (l ∷ []) = l ≢ []
Ends final (l ∷ m ∷ ls) = Ends final (m ∷ ls)

Follows-body :
    {nl : Text} (n : IsNewline nl) (final : Bool) (ls : List Text)
    → All IsLine ls
    → Follows n (body nl final ls)
Follows-body is_lf final ls h = tt
Follows-body is_crlf final ls h = tt
Follows-body is_cr final [] h = refl
Follows-body is_cr true ([] ∷ []) h = refl
Follows-body is_cr false ([] ∷ []) h = refl
Follows-body is_cr final ([] ∷ m ∷ ls) h = refl
Follows-body is_cr final ((c ∷ l) ∷ []) h = starts_lf_line (c ∷ l) (tail_of final cr) h.0 (λ e. cc)
Follows-body is_cr final ((c ∷ l) ∷ m ∷ ls) h =
    starts_lf_line (c ∷ l) (cr ++ body cr final (m ∷ ls)) h.0 (λ e. cc)

Follows-nil : {nl : Text} (n : IsNewline nl) → Follows n []
Follows-nil is_lf = tt
Follows-nil is_crlf = tt
Follows-nil is_cr = refl

splitlines-one :
    {nl : Text} (n : IsNewline nl) (l : Text) → IsLine l → splitlines (l ++ nl) ≡ l ∷ []
unfolding splitlines
splitlines-one {nl} n l h = rw append-nil at (splitlines_line l [] n h (Follows-nil n))

pub splitlines-body :
    {nl : Text} (n : IsNewline nl) (final : Bool) (ls : List Text)
    → All IsLine ls
    → Ends final ls
    → splitlines (body nl final ls) ≡ ls
splitlines-body n final [] h e = unfold splitlines in refl
splitlines-body n true (l ∷ []) h e = splitlines-one n l h.0
splitlines-body n false (l ∷ []) h e = rw append-nil (splitlines_last l h.0 e)
splitlines-body n final (l ∷ m ∷ ls) h e =
    splitlines_line l (body _ final (m ∷ ls)) n h.0 (Follows-body n final (m ∷ ls) h.1)
    ∙ ap (◌∷◌ l) (splitlines-body n final (m ∷ ls) h.1 e)

has_char-append : (c : ℕ) (a b : Text) → has_char c (a ++ b) ≡ (has_char c a || has_char c b)
has_char-append c [] b = refl
has_char-append c (x ∷ a) b = ground (arith, has_char-append c a b)

pub has_char-IsLine : (c : ℕ) (l : Text) → is_break c ≡ true → IsLine l → has_char c l ≡ false
has_char-IsLine c [] b h = refl
has_char-IsLine c (x ∷ l) b h = ground (arith, nat_eq_iff x c, has_char-IsLine c l b h.1)

-- a boundary other than the file's own newline stands nowhere in it
has_char-body :
    (c : ℕ) (nl : Text) (final : Bool) (ls : List Text)
    → is_break c ≡ true
    → has_char c nl ≡ false
    → All IsLine ls
    → has_char c (body nl final ls) ≡ false
has_char-body c nl final [] b k h = refl
has_char-body c nl final (l ∷ []) b k h =
    ground (arith, has_char-append c l (tail_of final nl), has_char-IsLine c l b h.0)
has_char-body c nl final (l ∷ m ∷ ls) b k h = ground (
  arith,
  has_char-append c l (nl ++ body nl final (m ∷ ls)),
  has_char-append c nl (body nl final (m ∷ ls)),
  has_char-IsLine c l b h.0,
  has_char-body c nl final (m ∷ ls) b k h.1,
)

has_crlf-append : (l rest : Text) → has_crlf (l ++ (13 ∷ 10 ∷ rest)) ≡ true
unfolding has_crlf
has_crlf-append [] rest = refl
has_crlf-append (c ∷ l) rest = ground (arith, has_crlf-append l rest)

pub has_crlf_needs_lf : (s : Text) → has_char 10 s ≡ false → has_crlf s ≡ false
unfolding has_crlf
has_crlf_needs_lf [] h = refl
has_crlf_needs_lf (c ∷ []) h = ground arith
has_crlf_needs_lf (c ∷ d ∷ s) h = ground (arith, has_crlf_needs_lf (d ∷ s))

has_crlf_needs_cr : (s : Text) → has_char 13 s ≡ false → has_crlf s ≡ false
unfolding has_crlf
has_crlf_needs_cr [] h = refl
has_crlf_needs_cr (c ∷ s) h = ground (arith, has_crlf_needs_cr s)

-- the first newline of a file that has one
first_newline :
    (nl : Text) (final : Bool) (l : Text) (ls : List Text)
    → (final ≡ true) ⊎ (ls ≢ [])
    → (rest : Text) × (body nl final (l ∷ ls) ≡ l ++ (nl ++ rest))
first_newline nl true l [] s = ([], rw append-nil)
first_newline nl false l [] (inl f) = absurd (ground arith)
first_newline nl false l [] (inr f) = absurd (f refl)
first_newline nl final l (m ∷ ls) s = (body nl final (m ∷ ls), refl)

pub is_break_lf : is_break 10 ≡ true
unfolding is_break
is_break_lf = refl

pub is_break_cr : is_break 13 ≡ true
unfolding is_break
is_break_cr = refl

-- the newline that `decode` finds
pub newline-body :
    (linesep : Text) {nl : Text} (n : IsNewline nl) (final : Bool) (l : Text) (ls : List Text)
    → (final ≡ true) ⊎ (ls ≢ [])
    → All IsLine (l ∷ ls)
    → newline_of linesep (body nl final (l ∷ ls)) ≡ nl
newline-body linesep is_lf final l ls s h =
    let (rest, e) = first_newline lf final l ls s in
    let no_cr = has_char-body 13 lf final (l ∷ ls) is_break_cr refl h in
    let found : has_char 10 (body lf final (l ∷ ls)) ≡ true =
      rw e (ground (arith, has_char-append 10 l (lf ++ rest))) in
    rw has_crlf_needs_cr (rw found refl)
newline-body linesep is_crlf final l ls s h =
    let (rest, e) = first_newline crlf final l ls s in
    let found : has_crlf (body crlf final (l ∷ ls)) ≡ true = rw e (has_crlf-append l rest) in
    rw found refl
newline-body linesep is_cr final l ls s h =
    let (rest, e) = first_newline cr final l ls s in
    let no_lf = has_char-body 10 cr final (l ∷ ls) is_break_lf refl h in
    let found : has_char 13 (body cr final (l ∷ ls)) ≡ true =
      rw e (ground (arith, has_char-append 13 l (cr ++ rest))) in
    ground (arith, has_crlf_needs_lf (body cr final (l ∷ ls)))

last_char-append : (a b : Text) → b ≢ [] → last_char (a ++ b) ≡ last_char b
last_char-append [] b h = refl
last_char-append (c ∷ []) [] h = absurd (h refl)
last_char-append (c ∷ []) (d ∷ b) h = refl
last_char-append (c ∷ d ∷ a) b h = last_char-append (d ∷ a) b h

ends_line-append : (a b : Text) → b ≢ [] → ends_line (a ++ b) ≡ ends_line b
ends_line-append a b h = rw (last_char-append a b h)

ends_line-IsLine : (l : Text) → IsLine l → ends_line l ≡ false
unfolding is_break
ends_line-IsLine [] h = refl
ends_line-IsLine (c ∷ []) h = ground arith
ends_line-IsLine (c ∷ d ∷ l) h = ends_line-IsLine (d ∷ l) h.1

append-ne : (a b : Text) → b ≢ [] → a ++ b ≢ []
append-ne [] b h = h
append-ne (c ∷ a) b h = λ e. cc

newline-ne : {nl : Text} (n : IsNewline nl) (b : Text) → nl ++ b ≢ []
newline-ne is_lf b = λ e. cc
newline-ne is_crlf b = λ e. cc
newline-ne is_cr b = λ e. cc

body-ne :
    {nl : Text} (n : IsNewline nl) (final : Bool) (l : Text) (ls : List Text)
    → Ends final (l ∷ ls)
    → body nl final (l ∷ ls) ≢ []
body-ne {nl} n true l [] e = append-ne l nl (rw append-nil at (newline-ne n []))
body-ne n false l [] e = rw append-nil e
body-ne {nl} n final l (m ∷ ls) e = append-ne l (nl ++ body nl final (m ∷ ls)) (newline-ne n _)

-- the final newline that `decode` finds
pub ends_line-body :
    {nl : Text} (n : IsNewline nl) (final : Bool) (ls : List Text)
    → All IsLine ls
    → Ends final ls
    → ends_line (body nl final ls) ≡ final
ends_line-body n final [] h e = sym e
ends_line-body is_lf true (l ∷ []) h e = ends_line-append l lf (λ q. cc)
ends_line-body is_crlf true (l ∷ []) h e = ends_line-append l crlf (λ q. cc)
ends_line-body is_cr true (l ∷ []) h e = ends_line-append l cr (λ q. cc)
ends_line-body n false (l ∷ []) h e = rw append-nil (ends_line-IsLine l h.0)
ends_line-body {nl} n final (l ∷ m ∷ ls) h e =
    let later = body nl final (m ∷ ls) in
    ends_line-append l (nl ++ later) (newline-ne n later)
    ∙ ends_line-append nl later (body-ne n final m ls e)
    ∙ ends_line-body n final (m ∷ ls) h.1 e

-- ===== src/Text/Basic.antt =====
-- `str` and `bytes`, literals, prefixes, joining and splitting.
use Prim.Native.Char.{code}
use codito_mcp.Common.{
  ℕ, String, Bool, true, false, ◌&&◌, List, [], ◌∷◌, ◌++◌, ◌≡◌, refl, ◌==◌, nat_Eq, if◌then◌else◌,
  leb, ◌-◌, Option, none, some, any, nat_eq, arith, nat_eq_iff, ltb, ◌||◌,
}

abbrev pub Text : Type 0
Text = List ℕ

abbrev pub Bytes : Type 0
Bytes = List ℕ

-- A literal; every one in this library is ASCII, so its code points are its bytes too.
abbrev pub codes : String → Text
codes String.[] = []
codes (String.◌∷◌ c s) = code c ∷ codes s

-- `s.startswith(prefix)`
unfoldable pub starts_with : Text → Text → Bool
starts_with [] s = true
starts_with (p ∷ ps) [] = false
starts_with (p ∷ ps) (c ∷ s) = p == c && starts_with ps s

-- `s[-1:]`
abbrev pub last_char : Text → Option ℕ
last_char [] = none
last_char (c ∷ []) = some c
last_char (c ∷ d ∷ s) = last_char (d ∷ s)

-- `c in s`
abbrev pub has_char : ℕ → Text → Bool
has_char c s = any (λ d. nat_eq d c) s

-- `sep.join(parts)`
unfoldable pub join : Text → List Text → Text
join sep [] = []
join sep (l ∷ []) = l
join sep (l ∷ m ∷ ls) = l ++ (sep ++ join sep (m ∷ ls))

-- Puts a character in front of the first part.
abbrev pub cons_first : ℕ → List Text → List Text
cons_first c [] = (c ∷ []) ∷ []
cons_first c (l ∷ ls) = (c ∷ l) ∷ ls

-- `s.split(sep)` at a one-character separator: always at least one part.
unfoldable pub split_on : ℕ → Text → List Text
split_on sep [] = [] ∷ []
split_on sep (c ∷ s) =
    let rest = split_on sep s in if c == sep then [] ∷ rest else cons_first c rest

-- `s.split(sep, 1)[0]`
unfoldable pub before : ℕ → Text → Text
before sep [] = []
before sep (c ∷ s) = let rest = before sep s in if c == sep then [] else c ∷ rest

-- `s.upper()` on the ASCII letters
unfoldable pub upper : ℕ → ℕ
upper c = if leb b'a' c && leb c b'z' then c - 32 else c

-- `s.replace(old, new)` at single characters
abbrev pub replace_char : ℕ → ℕ → ℕ → ℕ
replace_char old new c = if c == old then new else c

starts_with_example :
    (starts_with (codes "ab") (codes "abc") ≡ true)
    × (starts_with (codes "b") (codes "abc") ≡ false)
unfolding starts_with
starts_with_example = (refl, refl)

split_example : split_on b'/' (codes "a//b") ≡ codes "a" ∷ [] ∷ codes "b" ∷ []
unfolding split_on
split_example = refl

join-cons_first :
    (sep : Text) (c : ℕ) (ls : List Text) → join sep (cons_first c ls) ≡ c ∷ join sep ls
unfolding join
join-cons_first sep c [] = refl
join-cons_first sep c (l ∷ []) = refl
join-cons_first sep c (l ∷ m ∷ ls) = refl

split_on-cons : (sep : ℕ) (s : Text) → (l : Text) × (ls : List Text) × (split_on sep s ≡ l ∷ ls)
unfolding split_on
split_on-cons sep [] = ([], [], refl)
split_on-cons sep (c ∷ s) =
    let (l, ls, e) = split_on-cons sep s in
    (if c == sep then [] else c ∷ l, if c == sep then l ∷ ls else ls, ground arith)

join-nil_first :
    (sep : ℕ) (l : Text) (ls : List Text)
    → join (sep ∷ []) ([] ∷ l ∷ ls) ≡ sep ∷ join (sep ∷ []) (l ∷ ls)
unfolding join
join-nil_first sep l ls = refl

-- What was split at a character is whole again when it is joined with it.
pub join-split_on : (sep : ℕ) (s : Text) → join (sep ∷ []) (split_on sep s) ≡ s
unfolding split_on
join-split_on sep [] = unfold join in refl
join-split_on sep (c ∷ s) =
    let (l, ls, e) = split_on-cons sep s in
    ground (
      arith,
      nat_eq_iff c sep,
      e,
      join-nil_first sep l ls,
      join-cons_first (sep ∷ []) c (split_on sep s),
      join-split_on sep s,
    )

-- the order of texts, as that of their code points
unfoldable pub text_before : Text → Text → Bool
text_before [] [] = false
text_before [] (d ∷ t) = true
text_before (c ∷ s) [] = false
text_before (c ∷ s) (d ∷ t) = ltb c d || c == d && text_before s t

pub text_before-not : (s t : Text) → text_before s t ≡ true → text_before t s ≡ false
unfolding text_before
text_before-not [] [] h = refl
text_before-not [] (d ∷ t) h = refl
text_before-not (c ∷ s) [] h = absurd (ground arith)
text_before-not (c ∷ s) (d ∷ t) h = ground (arith, text_before-not s t)

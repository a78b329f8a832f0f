-- ===== src/Patch/TextFile/RoundTrip.antt =====
-- What `decode` reads back of what `encode` wrote.
use mathlib.Core.List.{append-nil}
use codito_mcp.Common.{
  ℕ, ◌<◌, ◌≡◌, refl, sym, ap, ◌∙◌, ◌≢◌, ◌⊎◌, inl, inr, Bool, true, false, not, ◌&&◌, Option, none,
  some, List, [], ◌∷◌, ◌++◌, arith, if◌then◌else◌, ok, nat_Eq, list_Eq, option_Eq, string_Eq, All,
  length, is_empty, Bool-cases,
}
use codito_mcp.Text.{
  Text, Bytes, IsLine, IsNewline, is_lf, is_crlf, is_cr, IsScalar, utf8_encode, decode-encode,
  is_scalar, starts_with, encode_char, join,
}
use codito_mcp.Patch.TextFile.{TextFile, text_of, encode, decode, newline_of, bom_bytes, of_text}
use codito_mcp.Patch.TextFile.Body.{
  body, tail_of, join-body, splitlines-body, newline-body, ends_line-body, Ends, has_char-IsLine,
  is_break_lf, is_break_cr, has_crlf_needs_lf,
}

abbrev pub first_char : List Text → Option ℕ
first_char [] = none
first_char ([] ∷ ls) = none
first_char ((c ∷ l) ∷ ls) = some c

-- A file as `decode` makes it: its lines hold no boundary, and all that `decode` has to find
-- (the newline, the final newline, the byte order mark) shows in the bytes.
pub record IsWellFormed (linesep : Text) (f : TextFile) : Type 0 where
  pub clean : All IsLine f.lines
  pub scalar : All IsScalar f.lines
  pub newline : IsNewline f.newline
  pub ends : Ends f.final_newline f.lines
  pub shown : (f.newline ≡ linesep) ⊎ (f.final_newline ≡ true) ⊎ (1 < length f.lines)
  pub marked : (f.bom ≡ true) ⊎ (first_char f.lines ≢ some 65279)

IsScalar-append : (a b : Text) → IsScalar a → IsScalar b → IsScalar (a ++ b)
IsScalar-append [] b h k = k
IsScalar-append (c ∷ a) b h k = (h.0, IsScalar-append a b h.1 k)

IsScalar-newline : {nl : Text} (n : IsNewline nl) → IsScalar nl
IsScalar-newline is_lf = (refl, tt)
IsScalar-newline is_crlf = (refl, (refl, tt))
IsScalar-newline is_cr = (refl, tt)

IsScalar-body :
    {nl : Text} (n : IsNewline nl) (final : Bool) (ls : List Text)
    → All IsScalar ls
    → IsScalar (body nl final ls)
IsScalar-body n final [] h = tt
IsScalar-body {nl} n true (l ∷ []) h = IsScalar-append l nl h.0 (IsScalar-newline n)
IsScalar-body n false (l ∷ []) h = rw append-nil h.0
IsScalar-body {nl} n final (l ∷ m ∷ ls) h = IsScalar-append l (nl ++ body nl final (m ∷ ls)) h.0 (
    IsScalar-append nl (body nl final (m ∷ ls)) (IsScalar-newline n)
      (IsScalar-body n final (m ∷ ls) h.1))

text-body :
    (nl : Text) (final : Bool) (ls : List Text)
    → Ends final ls
    → join nl ls ++ (if final && not (is_empty ls) then nl else []) ≡ body nl final ls
text-body nl final [] e = unfold join in ground arith
text-body nl true (l ∷ ls) e = join-body nl true l ls
text-body nl false (l ∷ ls) e = join-body nl false l ls

newline_of-line : (linesep l : Text) → IsLine l → newline_of linesep l ≡ linesep
newline_of-line linesep l h = ground (
  arith,
  has_char-IsLine 10 l is_break_lf h,
  has_char-IsLine 13 l is_break_cr h,
  has_crlf_needs_lf l,
)

newline_found :
    (linesep : Text) {nl : Text} (n : IsNewline nl) (final : Bool) (ls : List Text)
    → All IsLine ls
    → Ends final ls
    → (nl ≡ linesep) ⊎ (final ≡ true) ⊎ (1 < length ls)
    → newline_of linesep (body nl final ls) ≡ nl
newline_found linesep n final [] h e (inl same) = ground (arith, newline_of-line linesep [] tt)
newline_found linesep n final [] h e (inr (inl f)) = absurd (ground arith)
newline_found linesep n final [] h e (inr (inr f)) = absurd (omega arith)
newline_found linesep n true (l ∷ []) h e s = newline-body linesep n true l [] (inl refl) h
newline_found linesep n false (l ∷ []) h e (inl same) =
    rw append-nil (newline_of-line linesep l h.0 ∙ sym same)
newline_found linesep n false (l ∷ []) h e (inr (inl f)) = absurd (ground arith)
newline_found linesep n false (l ∷ []) h e (inr (inr f)) = absurd (omega arith)
newline_found linesep n final (l ∷ m ∷ ls) h e s =
    newline-body linesep n final l (m ∷ ls) (inr (λ q. cc)) h

-- the byte order mark is the encoding of U+FEFF and of no other first character
encode_char-bom :
    (c : ℕ) (rest : Bytes)
    → is_scalar c ≡ true
    → c ≢ 65279
    → starts_with bom_bytes (encode_char c ++ rest) ≡ false
unfolding encode_char starts_with
encode_char-bom c rest h k = ground arith

bom_absent :
    {nl : Text} (n : IsNewline nl) (final : Bool) (ls : List Text)
    → All IsScalar ls
    → first_char ls ≢ some 65279
    → starts_with bom_bytes (utf8_encode (body nl final ls)) ≡ false
unfolding utf8_encode starts_with
bom_absent n final [] h k = refl
bom_absent is_lf true ([] ∷ []) h k = refl
bom_absent is_crlf true ([] ∷ []) h k = refl
bom_absent is_cr true ([] ∷ []) h k = refl
bom_absent n false ([] ∷ []) h k = refl
bom_absent is_lf final ([] ∷ m ∷ ls) h k = refl
bom_absent is_crlf final ([] ∷ m ∷ ls) h k = refl
bom_absent is_cr final ([] ∷ m ∷ ls) h k = refl
bom_absent {nl} n final ((c ∷ l) ∷ []) h k =
    encode_char-bom c (utf8_encode (l ++ tail_of final nl)) h.0.0 (λ e. k (ap some e))
bom_absent {nl} n final ((c ∷ l) ∷ m ∷ ls) h k =
    encode_char-bom c (utf8_encode (l ++ (nl ++ body nl final (m ∷ ls)))) h.0.0 (λ e. k (ap some e))

of_text-body :
    (linesep : Text) (f : TextFile) (bom : Bool)
    → IsWellFormed linesep f
    → of_text linesep bom (body f.newline f.final_newline f.lines) ≡ record f { bom = bom }
of_text-body linesep f bom w = cc (
  splitlines-body w.newline f.final_newline f.lines w.clean w.ends,
  newline_found linesep w.newline f.final_newline f.lines w.clean w.ends w.shown,
  ends_line-body w.newline f.final_newline f.lines w.clean w.ends,
)

bom_found : (raw : Bytes) → starts_with bom_bytes (bom_bytes ++ raw) ≡ true
unfolding starts_with
bom_found raw = refl

-- Whatever the newlines and the mark, a well-formed file is read back from its bytes.
pub decode-encode_file :
    (linesep : Text) (f : TextFile) → IsWellFormed linesep f → decode linesep (encode f) ≡ ok f
unfolding encode decode text_of
decode-encode_file linesep f w =
    let text = body f.newline f.final_newline f.lines in
    let scalar = IsScalar-body w.newline f.final_newline f.lines w.scalar in
    let read = decode-encode text scalar in
    rw (text-body f.newline f.final_newline f.lines w.ends) (elim (Bool-cases f.bom) [
      | inl marked ↦
          rw marked
            (rw (bom_found (utf8_encode text)) (rw read (ap ok (of_text-body linesep f true w))))
      | inr plain ↦
          let absent =
            bom_absent w.newline f.final_newline f.lines w.scalar (not_marked w.marked plain) in
          rw plain (rw absent (rw read (ap ok (of_text-body linesep f false w))))
    ])
  where
    not_marked :
        (f.bom ≡ true) ⊎ (first_char f.lines ≢ some 65279)
        → f.bom ≡ false
        → first_char f.lines ≢ some 65279
    not_marked (inl t) p = absurd (ground arith)
    not_marked (inr k) p = k

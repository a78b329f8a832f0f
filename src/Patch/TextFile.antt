-- ===== src/Patch/TextFile.antt =====
-- `_TextFile` of agent/src/codito_agent/patching.py. `os.linesep` of the host is an argument.
use codito_mcp.Common.{
  ℕ, zero, suc, String, ◌+◌, ◌-◌, ◌≤◌, ◌<◌, ◌≡◌, refl, sym, ap, ◌∙◌, ◌≢◌, ◌↔◌, ◌⊎◌, inl, inr, Bool,
  true, false, not, ◌&&◌, ◌||◌, Option, none, some, List, [], ◌∷◌, ◌++◌, map, arith, if◌then◌else◌,
  Result, ok, err, ◌>>=◌, ◌>>◌, raise_if, ◌==◌, nat_Eq, list_Eq, option_Eq, string_Eq, drop,
  is_empty,
}
mod Body
pub mod RoundTrip
use codito_mcp.Text.{
  Text, Bytes, codes, join, last_char, has_char, splitlines, starts_lf, utf8_encode, utf8_decode,
  starts_with,
}
use codito_mcp.Errors.{Raises, plain, unsupported_encoding}

pub record TextFile : Type 0 where
  pub lines : List Text
  pub newline : Text
  pub final_newline : Bool
  pub bom : Bool

abbrev pub bom_bytes : Bytes
bom_bytes = 0xef ∷ 0xbb ∷ 0xbf ∷ []

-- `"\r\n" in text`
unfoldable pub has_crlf : Text → Bool
has_crlf [] = false
has_crlf (c ∷ s) = (c == 13 && starts_lf s) || has_crlf s

abbrev pub newline_of : Text → Text → Text
newline_of linesep text =
    if has_crlf text
    then 13 ∷ 10 ∷ []
    else if has_char 10 text
    then 10 ∷ []
    else if has_char 13 text
    then 13 ∷ []
    else linesep

-- `text.endswith(("\r\n", "\n", "\r"))`
abbrev pub ends_line : Text → Bool
ends_line text = last_char text == some 10 || last_char text == some 13

abbrev pub of_text : Text → Bool → Text → TextFile
of_text linesep bom text = record {
  lines = splitlines text;
  newline = newline_of linesep text;
  final_newline = ends_line text;
  bom = bom;
}

abbrev pub decode_body : Text → Bool → Option Text → Raises TextFile
decode_body linesep bom none = err (plain unsupported_encoding)
decode_body linesep bom (some text) = ok (of_text linesep bom text)

unfoldable pub decode : Text → Bytes → Raises TextFile
decode linesep raw =
    if starts_with bom_bytes raw
    then decode_body linesep true (utf8_decode (drop 3 raw))
    else decode_body linesep false (utf8_decode raw)

-- the text that `encode` writes
unfoldable pub text_of : TextFile → Text
text_of f =
    join f.newline f.lines ++ (if f.final_newline && not (is_empty f.lines) then f.newline else [])

unfoldable pub encode : TextFile → Bytes
encode f = let raw = utf8_encode (text_of f) in if f.bom then bom_bytes ++ raw else raw

unfoldable pub text_program : Unit {0}
unfolding has_crlf decode text_of encode join splitlines utf8_encode utf8_decode starts_with
text_program = tt

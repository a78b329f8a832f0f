-- ===== src/Patch/Service/Hashes.antt =====
-- `_normalize_base_hashes`.
use Prim.Native.Char.{Char, code}
use Prim.Native.String.{String}
use codito_mcp.Common.{
  ℕ, String, Bool, not, ◌&&◌, ◌||◌, Option, none, some, [], ◌∷◌, if◌then◌else◌, ok, ◌>>=◌, ◌>>◌,
  raise_if, ◌==◌, nat_Eq, leb, length, all, false, list_Eq,
}
use codito_mcp.Common.Dict.{Dict, insert}
use codito_mcp.Text.{Text, codes}
use codito_mcp.Errors.{Raises, plain, invalid_request}
use codito_mcp.Paths.{validate_relative_path}

unfoldable pub is_hex : ℕ → Bool
is_hex c = leb b'0' c && leb c b'9' || leb b'a' c && leb c b'f' || leb b'A' c && leb c b'F'

-- `_HASH_RE.fullmatch(value)`
unfoldable pub is_hash : String → Bool
is_hash value = length (codes value) == 64 && all is_hex (codes value)

-- `str.lower` on a digit of a hash
unfoldable pub lower_hex : Char → Char
lower_hex c =
    if code c == b'A'
    then "a"
    else if code c == b'B'
    then "b"
    else if code c == b'C'
    then "c"
    else if code c == b'D'
    then "d"
    else if code c == b'E'
    then "e"
    else if code c == b'F'
    then "f"
    else c

unfoldable pub lower : String → String
lower String.[] = ""
lower (String.◌∷◌ c s) = String.◌∷◌ (lower_hex c) (lower s)

unfoldable pub normalize_hash : Option String → Raises (Option String)
normalize_hash none = ok none
normalize_hash (some value) =
    raise_if (not (is_hash value)) (plain invalid_request) >> ok (some (lower value))

-- the loop, with what it has gathered
unfoldable pub normalize_into :
    Dict Text (Option String) → Dict Text (Option String) → Raises (Dict Text (Option String))
normalize_into done [] = ok done
normalize_into done ((path, value) ∷ rest) = validate_relative_path false path >>= λ normalized.
    normalize_hash value >>= λ hash. normalize_into (insert normalized hash done) rest

unfoldable pub normalize_base_hashes :
    Dict Text (Option String) → Raises (Dict Text (Option String))
normalize_base_hashes hashes = normalize_into [] hashes

-- ===== src/Paths/Relative.antt =====
-- `validate_relative_path` of agent/src/codito_agent/paths.py.
use codito_mcp.Common.{
  ℕ, Bool, true, false, ◌||◌, List, [], ◌∷◌, ◌≡◌, refl, ok, err, ◌>>=◌, ◌==◌, nat_Eq, list_Eq,
  option_Eq, if◌then◌else◌, any, map, leb, nat_eq, some, list_beq,
}
use codito_mcp.Text.{
  Text, codes, starts_with, last_char, has_char, join, split_on, before, upper, replace_char,
}
use codito_mcp.Errors.{Raises, plain, invalid_path}

-- `_RESERVED_NAMES`
abbrev pub reserved_names : List Text
reserved_names =
    codes "CON"
    ∷ codes "PRN"
    ∷ codes "AUX"
    ∷ codes "NUL"
    ∷ codes "COM1"
    ∷ codes "COM2"
    ∷ codes "COM3"
    ∷ codes "COM4"
    ∷ codes "COM5"
    ∷ codes "COM6"
    ∷ codes "COM7"
    ∷ codes "COM8"
    ∷ codes "COM9"
    ∷ codes "LPT1"
    ∷ codes "LPT2"
    ∷ codes "LPT3"
    ∷ codes "LPT4"
    ∷ codes "LPT5"
    ∷ codes "LPT6"
    ∷ codes "LPT7"
    ∷ codes "LPT8"
    ∷ codes "LPT9"
    ∷ []

-- `_INVALID_COMPONENT`: one of `<>:"|?*` or a control character
unfoldable pub invalid_char : ℕ → Bool
invalid_char c =
    nat_eq c b'<'
    || nat_eq c b'>'
    || nat_eq c b':'
    || nat_eq c 34
    || nat_eq c b'|'
    || nat_eq c b'?'
    || nat_eq c b'*'
    || leb c 31

-- No letter outside ASCII has an upper case that completes a reserved name, so `upper` on ASCII
-- decides the test as `str.upper` does.
unfoldable pub is_reserved : Text → Bool
is_reserved component = any (λ name. name == map upper (before b'.' component)) reserved_names

-- the body of the loop over the components
unfoldable pub check_component : Text → Raises Text
check_component component =
    if component == [] || component == codes "." || component == codes ".."
    then err (plain invalid_path)
    else if last_char component == some b'.' || last_char component == some b' '
    then err (plain invalid_path)
    else if any invalid_char component
    then err (plain invalid_path)
    else if is_reserved component
    then err (plain invalid_path)
    else ok component

unfoldable pub check_components : List Text → Raises (List Text)
check_components [] = ok []
check_components (c ∷ cs) = do
  component ← check_component c
  rest ← check_components cs
  ok (component ∷ rest)

abbrev pub is_separator : ℕ → Bool
is_separator c = nat_eq c b'\\' || nat_eq c b'/'

-- `PureWindowsPath(value).drive or .root`, and so `.is_absolute()`: a leading separator, or a
-- colon as the second character.
abbrev pub anchored : Text → Bool
anchored [] = false
anchored (c ∷ []) = is_separator c
anchored (c ∷ d ∷ s) = is_separator c || nat_eq d b':'

unfoldable pub validate_relative_path : Bool → Text → Raises Text
validate_relative_path allow_root value =
    if has_char 0 value
    then err (plain invalid_path)
    else if value == [] || value == codes "."
    then (if allow_root then ok (codes ".") else err (plain invalid_path))
    else if starts_with (codes "\\") value || starts_with (codes "//") value
    then err (plain invalid_path)
    else if anchored value
    then err (plain invalid_path)
    else do
      parts ← check_components (split_on b'/' (map (replace_char b'\\' b'/') value))
      ok (join (codes "/") parts)

abbrev pub refuse : Raises Text
refuse = err (plain invalid_path)

unfoldable pub path_program : Unit {0}
unfolding validate_relative_path check_components check_component invalid_char is_reserved upper
    before starts_with split_on join list_beq
path_program = tt

validate_examples :
    (validate_relative_path false (codes "src\\a.py") ≡ ok (codes "src/a.py"))
    × (validate_relative_path false (codes "a/../b") ≡ refuse)
    × (validate_relative_path false (codes "C:a") ≡ refuse)
    × (validate_relative_path false (codes "x/nul.txt") ≡ refuse)
    × (validate_relative_path false (codes "a.") ≡ refuse)
    × (validate_relative_path true [] ≡ ok (codes "."))
unfolding path_program
validate_examples = (refl, refl, refl, refl, refl, refl)

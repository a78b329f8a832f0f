-- ===== src/Tests/Gate.antt =====
-- The gate with one task inside, and a path that is let through.
use Prim.Native.String.{[]}
use codito_mcp.Common.Dict.{insert, lookup}
use codito_mcp.Common.{◌≡◌, refl, ◌∷◌, []}
use codito_mcp.Text.{codes}
use codito_mcp.Gate.{reserve, release}
use codito_mcp.Gate.Exclusion.{here, next, enter, stray, System, IsExclusive, Reach-IsExclusive}
use codito_mcp.Paths.{path_program}
use codito_mcp.Paths.{IsRelative, validate-IsRelative, slash}

abbrev one_inside : System
one_inside = record { gate = record { owners = ("root", "a") ∷ [] }; inside = ("root", "a") ∷ [] }

Reach-IsExclusive_example : IsExclusive one_inside
unfolding reserve release insert lookup
Reach-IsExclusive_example =
    Reach-IsExclusive (next (next here (enter "root" "a" refl)) (stray "root" "b" refl))

validate-IsRelative_example : (codes "a/b" ≡ slash (codes "a\\b")) × IsRelative (codes "a/b")
unfolding path_program
validate-IsRelative_example = validate-IsRelative (codes "a\\b") (codes "a/b") refl

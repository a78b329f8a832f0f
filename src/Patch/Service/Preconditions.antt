-- ===== src/Patch/Service/Preconditions.antt =====
-- `_verify_commit_preconditions`, and the order in which a commit takes its paths.
use codito_mcp.Common.{
  String, Bool, true, false, not, Option, none, some, List, [], ◌∷◌, map, if◌then◌else◌, ok, ◌==◌,
  string_Eq, raise_if, is_empty, nat_Eq, list_Eq, Eq,
}
use codito_mcp.Common.Dict.{Dict, insert}
use codito_mcp.Text.{Text, Bytes, text_before}
use codito_mcp.Errors.{
  Raises, detailed, patch_conflict, Detail, conflict, Reason, already_exists, base_hash_mismatch,
  path_changed,
}
use codito_mcp.Patch.Preflight.{Change}
use codito_mcp.Patch.Service.Types.{Present}

-- `sorted`, of paths that differ
unfoldable pub insert_path : Text → List Text → List Text
insert_path p [] = p ∷ []
insert_path p (q ∷ qs) =
    let rest = insert_path p qs in if text_before p q then p ∷ q ∷ qs else q ∷ rest

unfoldable pub sorted : List Text → List Text
sorted [] = []
sorted (p ∷ ps) = insert_path p (sorted ps)

unfoldable pub expect_destination :
    Option Text → Dict Text (Option String) → Dict Text (Option String)
expect_destination none expected = expected
expect_destination (some d) expected = insert d none expected

-- `expected`, of the changes so far
unfoldable pub expected_from : List Change → Dict Text (Option String) → Dict Text (Option String)
expected_from [] expected = expected
expected_from (c ∷ changes) expected =
    expected_from changes (expect_destination c.destination (insert c.source c.old_hash expected))

module _ (now : Present) (sha : Bytes → String) where
  unfoldable pub read_mismatch : Option Bytes → String → Option Reason
  read_mismatch none hash = some path_changed
  read_mismatch (some raw) hash = if sha raw == hash then none else some base_hash_mismatch

  -- what is wrong with one path
  unfoldable pub mismatch : Text → Option String → Option Reason
  mismatch p none =
      if not (now.is_valid p)
      then some path_changed
      else if now.is_there p
      then some already_exists
      else none
  mismatch p (some hash) =
      if not (now.is_valid p) then some path_changed else read_mismatch (now.read p) hash

  unfoldable pub with_conflict : Text → Option Reason → List Detail → List Detail
  with_conflict p none rest = rest
  with_conflict p (some reason) rest = conflict p none reason ∷ rest

  -- `for relative in sorted(expected)`
  unfoldable pub conflicts : List Text → Dict Text (Option String) → List Detail
  conflicts [] expected = []
  conflicts (p ∷ ps) expected = elim (codito_mcp.Common.Dict.lookup p expected) [
    | none ↦ conflicts ps expected
    | some hash ↦ with_conflict p (mismatch p hash) (conflicts ps expected)
  ]

  unfoldable pub verify_commit_preconditions : List Change → Raises (Unit {0})
  verify_commit_preconditions changes =
      let expected = expected_from changes [] in
      let found = conflicts (sorted (map (λ e. e.0) expected)) expected in
      raise_if (not (is_empty found)) (detailed patch_conflict found)

-- ===== src/Patch/Preflight.antt =====
-- `PatchService._preflight` of agent/src/codito_agent/patching.py: what a patch would make of the
-- files, computed before any of them is touched. The resolver and the files are the argument
-- `Tree`; `check`, which raises when the operation was cancelled, is in it too.
use codito_mcp.Text.{Text, Bytes}
use codito_mcp.Common.{
  ℕ, zero, suc, String, ◌+◌, ◌-◌, ◌≤◌, ◌<◌, ◌≡◌, refl, sym, ap, ◌∙◌, ◌≢◌, ◌↔◌, ◌⊎◌, inl, inr, Bool,
  true, false, not, ◌&&◌, ◌||◌, Option, none, some, List, [], ◌∷◌, ◌++◌, map, arith, if◌then◌else◌,
  Result, ok, err, ◌>>=◌, ◌>>◌, raise_if, ◌==◌, nat_Eq, list_Eq, option_Eq, string_Eq, is_some,
  select, ltb, is_empty, any, length,
}
use codito_mcp.Common.Dict.{Dict, lookup, insert, contains}
use codito_mcp.Errors.{
  Raises, AgentError, plain, detailed, invalid_request, invalid_patch, patch_conflict,
  file_too_large, python_error, Detail, conflict, missing, unexpected, path, already_exists,
  base_hash_mismatch,
}
use codito_mcp.Patch.Types.{Hunk, Action, add, update, delete, move, PatchSection}
use codito_mcp.Patch.TextFile.{TextFile, encode, decode}
use codito_mcp.Patch.Hunks.{apply_hunks}
pub mod Section
pub mod Based

-- `MAX_PATCH_FILE_BYTES`
abbrev pub max_patch_file_bytes : ℕ
max_patch_file_bytes = 8_388_608

-- What the files are like: `resolve p true` raises if `p` is not there, and the answer says whether
-- there is a file; `stat_size` and `read` are of a file that is there. `sha` is `_sha`.
pub record Tree : Type 0 where
  pub check : Text → Raises (Unit {0})
  pub resolve : Text → Bool → Raises Bool
  pub stat_size : Text → ℕ
  pub read : Text → Raises Bytes
  pub sha : Bytes → String
  pub linesep : Text

pub record Change : Type 0 where
  pub action : Action
  pub source : Text
  pub destination : Option Text
  pub old_hash : Option String
  pub new_hash : Option String

pub record Preflight : Type 0 where
  pub desired : Dict Text (Option Bytes)
  pub validated : Dict Text Bool
  pub changes : List Change

abbrev pub Hashes : Type 0
Hashes = Dict Text (Option String)

abbrev pub nothing : Preflight
nothing = record { desired = []; validated = []; changes = [] }

-- `{section.path}` and the destination, if there is one
unfoldable pub paths_of : PatchSection → List Text
paths_of s = elim s.destination [ none ↦ s.path ∷ [] | some d ↦ s.path ∷ d ∷ [] ]

unfoldable pub required : List PatchSection → List Text
required [] = []
required (s ∷ ss) = paths_of s ++ required ss

abbrev pub is_in : Text → List Text → Bool
is_in p ps = any (λ q. q == p) ps

-- `required - set(base_hashes)` and the other difference; their order is not modelled
unfoldable pub missing_paths : List Text → Hashes → List Text
missing_paths ps base = select (λ p. not (contains p base)) ps

unfoldable pub unexpected_paths : List Text → Hashes → List Text
unexpected_paths ps base = select (λ p. not (is_in p ps)) (map (λ h. h.0) base)

-- `required != set(base_hashes)`
unfoldable pub check_cover : List Text → Hashes → Raises (Unit {0})
check_cover ps base =
    let absent = missing_paths ps base in
    let extra = unexpected_paths ps base in
    raise_if (not (is_empty absent && is_empty extra))
      (detailed invalid_request (map missing absent ++ map unexpected extra))

-- `base_hashes[path]`
unfoldable pub hash_of : Text → Hashes → Raises (Option String)
hash_of p base = elim (lookup p base) [ none ↦ err (plain python_error) | some h ↦ ok h ]

abbrev pub extend : Preflight → List (Text × Option Bytes) → List (Text × Bool) → Change → Preflight
extend pre [] [] c = record pre { changes = pre.changes ++ (c ∷ []) }
extend pre ((p, d) ∷ ds) vs c = extend (record pre { desired = insert p d pre.desired }) ds vs c
extend pre [] ((p, v) ∷ vs) c = extend (record pre { validated = insert p v pre.validated }) [] vs c

unfoldable pub preflight_add : Tree → PatchSection → Option String → Preflight → Raises Preflight
preflight_add tree s expected pre = do
  raise_if (is_some expected) (plain invalid_request)
  exists ← tree.resolve s.path false
  raise_if exists (detailed patch_conflict (conflict s.path none already_exists ∷ []))
  let raw =
      encode
        (record { lines = s.add_lines; newline = tree.linesep; final_newline = true; bom = false })
  ok (
      extend pre ((s.path, some raw) ∷ []) ((s.path, exists) ∷ []) (record {
        action = add;
        source = s.path;
        destination = none;
        old_hash = none;
        new_hash = some (tree.sha raw);
      }))

-- the file as it is, if it has the hash that the caller read it with
unfoldable pub read_expected : Tree → Text → Option String → Raises Bytes
read_expected tree p expected = do
  raise_if (ltb max_patch_file_bytes (tree.stat_size p)) (plain file_too_large)
  old ← tree.read p
  raise_if (ltb max_patch_file_bytes (length old)) (plain file_too_large)
  raise_if (not (expected == some (tree.sha old)))
      (detailed patch_conflict (conflict p none base_hash_mismatch ∷ []))
  ok old

unfoldable pub updated_bytes : Tree → PatchSection → Bytes → Raises Bytes
updated_bytes tree s old = do
  document ← decode tree.linesep old
  result ← apply_hunks document s.hunks s.path
  ok (encode result)

-- the last lines of the loop: a move
unfoldable pub preflight_move :
    Tree → PatchSection → Text → Hashes → Bytes → Bytes → Preflight → Raises Preflight
preflight_move tree s d base old new pre = do
  expected ← hash_of d base
  raise_if (is_some expected) (plain invalid_request)
  exists ← tree.resolve d false
  raise_if exists (detailed patch_conflict (conflict d none already_exists ∷ []))
  ok (
      extend pre ((s.path, none) ∷ (d, some new) ∷ []) ((s.path, true) ∷ (d, exists) ∷ []) (record {
        action = move;
        source = s.path;
        destination = some d;
        old_hash = some (tree.sha old);
        new_hash = some (tree.sha new);
      }))

abbrev pub removal : Tree → PatchSection → Bytes → Change
removal tree s old = record {
  action = delete;
  source = s.path;
  destination = none;
  old_hash = some (tree.sha old);
  new_hash = none;
}

abbrev pub rewriting : Tree → PatchSection → Bytes → Bytes → Change
rewriting tree s old new = record {
  action = update;
  source = s.path;
  destination = none;
  old_hash = some (tree.sha old);
  new_hash = some (tree.sha new);
}

-- an Update or a Move; `assert section.destination is not None`
unfoldable pub preflight_edit :
    Action → Tree → PatchSection → Hashes → Bytes → Preflight → Raises Preflight
preflight_edit update tree s base old pre = do
  new ← updated_bytes tree s old
  ok (extend pre ((s.path, some new) ∷ []) ((s.path, true) ∷ []) (rewriting tree s old new))
preflight_edit _ tree s base old pre = do
  new ← updated_bytes tree s old
  elim s.destination [
    | none ↦ err (plain python_error)
    | some d ↦ preflight_move tree s d base old new pre
  ]

-- what is done with the file that was read
unfoldable pub preflight_old :
    Action → Tree → PatchSection → Hashes → Bool → Bytes → Preflight → Raises Preflight
preflight_old delete tree s base exists old pre =
    ok (extend pre ((s.path, none) ∷ []) ((s.path, exists) ∷ []) (removal tree s old))
preflight_old update tree s base exists old pre = preflight_edit update tree s base old pre
preflight_old _ tree s base exists old pre = preflight_edit move tree s base old pre

unfoldable pub preflight_existing :
    Tree → PatchSection → Hashes → Option String → Preflight → Raises Preflight
preflight_existing tree s base expected pre = do
  exists ← tree.resolve s.path true
  old ← read_expected tree s.path expected
  preflight_old s.action tree s base exists old pre

-- the loop's body, behind `check`
unfoldable pub preflight_section :
    Tree → Hashes → PatchSection → List Text → Preflight → Raises Preflight
preflight_section tree base s touched pre = do
  let overlap = select (λ p. is_in p touched) (paths_of s)
  raise_if (not (is_empty overlap)) (detailed invalid_patch (map path overlap))
  expected ← hash_of s.path base
  elim s.action [
    | add ↦ preflight_add tree s expected pre
    | _ ↦ preflight_existing tree s base expected pre
  ]

unfoldable pub preflight_sections :
    Tree → Hashes → List PatchSection → List Text → Preflight → Raises Preflight
preflight_sections tree base [] touched pre = ok pre
preflight_sections tree base (s ∷ ss) touched pre = do
  tree.check s.path
  after ← preflight_section tree base s touched pre
  preflight_sections tree base ss (touched ++ paths_of s) after

unfoldable pub preflight : Tree → List PatchSection → Hashes → Raises Preflight
preflight tree sections base = do
  check_cover (required sections) base
  preflight_sections tree base sections [] nothing

unfoldable pub preflight_program : Unit {0}
unfolding preflight preflight_sections preflight_section preflight_existing preflight_old
    preflight_edit preflight_move preflight_add read_expected updated_bytes hash_of check_cover
    missing_paths unexpected_paths required paths_of lookup insert codito_mcp.Common.list_beq
preflight_program = tt

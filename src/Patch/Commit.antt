-- ===== src/Patch/Commit.antt =====
-- The writing half of `PatchService._commit`, and `_restore`, of
-- agent/src/codito_agent/patching.py: files are written one after another, and an exception on the
-- way puts back what the records say. A path is read and replaced in one step each. Digests are of
-- any type that has equality; the order of the records is that of the argument.
use codito_mcp.Text.{Bytes, Text}
use codito_mcp.Common.{
  ℕ, zero, suc, String, ◌+◌, ◌-◌, ◌≤◌, ◌<◌, ◌≡◌, refl, sym, ap, ◌∙◌, ◌≢◌, ◌↔◌, ◌⊎◌, inl, inr, Bool,
  true, false, not, ◌&&◌, ◌||◌, Option, none, some, List, [], ◌∷◌, ◌++◌, map, arith, if◌then◌else◌,
  Result, ok, err, ◌>>=◌, ◌>>◌, raise_if, ◌==◌, nat_Eq, list_Eq, option_Eq, string_Eq, Eq, is_some,
  length, is_empty,
}
use codito_mcp.Common.Dict.{Dict, lookup, insert, remove, contains}
use codito_mcp.Errors.{Raises, AgentError, plain, detailed, recovery_failed, Detail, path}
pub mod Written
pub mod Rollback

abbrev pub Files : Type 0
Files = Dict Text Bytes

-- `preflight.desired`: the new bytes, or `none` for a removal
abbrev pub Desired : Type 0
Desired = Dict Text (Option Bytes)

-- one path, replaced or unlinked
unfoldable pub put : Text → Option Bytes → Files → Files
put p none files = remove p files
put p (some raw) files = insert p raw files

-- the first `n` rounds of the loop over `preflight.desired`
unfoldable pub write_first : ℕ → Desired → Files → Files
write_first zero ds files = files
write_first (suc n) [] files = files
write_first (suc n) ((p, d) ∷ ds) files = write_first n ds (put p d files)

-- an entry of `records`: `original` is the backup, `none` if the file did not exist
pub record Record : Type 0 where
  pub path : Text
  pub original : Option Bytes
  pub desired : Option Bytes

abbrev pub flatten : Option (Option Bytes) → Option Bytes
flatten none = none
flatten (some d) = d

-- the records that are written before the first mutation, of the files as they were
unfoldable pub records : List Text → Desired → Files → List Record
records [] ds files = []
records (p ∷ ps) ds files =
    record { path = p; original = lookup p files; desired = flatten (lookup p ds) }
    ∷ records ps ds files

module _ {H : Type 0} ⦃e : Eq H⦄ (sha : Bytes → H) where
  -- `_path_hash`
  abbrev pub hash : Option Bytes → Option H
  hash none = none
  hash (some raw) = some (sha raw)

  -- one round of `_restore`: whether it failed, and the files
  unfoldable pub restore_one : Record → Files → Bool × Files
  restore_one r files =
      let current = hash (lookup r.path files) in
      elim r.original [
        | some raw ↦
            if current == some (sha raw)
            then (false, files)
            else if is_some current && not (current == hash r.desired)
            then (true, files)
            else (false, insert r.path raw files)
        | none ↦
            if not (is_some current)
            then (false, files)
            else if not (current == hash r.desired)
            then (true, files)
            else (false, remove r.path files)
      ]

  -- `for record in reversed(records)`: the last one first
  unfoldable pub restore_from_last : List Record → Files → List Text × Files
  restore_from_last [] files = ([], files)
  restore_from_last (r ∷ rs) files =
      let later = restore_from_last rs files in
      let mine = restore_one r later.1 in
      (if mine.0 then later.0 ++ (r.path ∷ []) else later.0, mine.1)

  unfoldable pub restore : List Record → Files → Raises (Unit {0}) × Files
  restore rs files =
      let done = restore_from_last rs files in
      if is_empty done.0
      then (ok tt, done.1)
      else (err (detailed recovery_failed (map Detail.path done.0)), done.1)

  -- An exception `fault` after `n` paths were changed; before the first change nothing is restored.
  -- A replacement that raises has not changed its target.
  unfoldable pub abort : AgentError → ℕ → List Text → Desired → Files → Raises (Unit {0}) × Files
  abort fault zero order ds files = (err fault, files)
  abort fault (suc n) order ds files =
      let undone = restore (records order ds files) (write_first (suc n) ds files) in
      (undone.0 >> err fault, undone.1)

  -- the loop as a whole, with the exception that ends it early, if any
  unfoldable pub commit :
      Option (AgentError × ℕ) → List Text → Desired → Files → Raises (Unit {0}) × Files
  commit none order ds files = (ok tt, write_first (length ds) ds files)
  commit (some (fault, n)) order ds files = abort fault n order ds files

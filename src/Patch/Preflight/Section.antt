-- ===== src/Patch/Preflight/Section.antt =====
-- What one section of a patch adds to a preflight.
use mathlib.Core.Path.{subst}
use codito_mcp.Text.{Bytes, Text}
use codito_mcp.Common.{
  String, ◌≡◌, refl, sym, ap, ◌∙◌, inl, inr, Bool, true, false, not, Option, none, some, List, [],
  ◌∷◌, ◌++◌, map, arith, ok, raise_if, ◌==◌, nat_Eq, list_Eq, option_Eq, string_Eq, Option-cases,
  >>=-eq-ok, ltb, ok-injective, length, option_beq_iff, select, is_some, is_empty,
}
use codito_mcp.Common.Dict.{lookup, Unique, insert-Unique}
use codito_mcp.Errors.{
  AgentError, plain, detailed, invalid_request, invalid_patch, patch_conflict, file_too_large,
  conflict, already_exists, base_hash_mismatch, path,
}
use codito_mcp.Patch.Types.{Action, add, update, delete, move, PatchSection}
use codito_mcp.Patch.Preflight.{
  Tree, Change, Preflight, Hashes, paths_of, is_in, hash_of, preflight_add, read_expected,
  updated_bytes, preflight_move, preflight_edit, preflight_old, preflight_existing,
  preflight_section, removal, rewriting, max_patch_file_bytes, Bytes, Text,
}

-- Where a change moves its file to, there is no file, and the caller gave `none` for it.
abbrev pub HasRoom : Tree → Hashes → Option Text → Type 0
HasRoom tree base none = Unit {0}
HasRoom tree base (some d) = (tree.resolve d false ≡ ok false) × (lookup d base ≡ some none)

-- A change either makes a file where there is none and the caller expected none, or is of a file that
-- was read with the very hash that the caller gave for it.
pub data IsBased (tree : Tree) (base : Hashes) (c : Change) : Type 0 where
  fresh :
      c.old_hash ≡ none
      → lookup c.source base ≡ some none
      → tree.resolve c.source false ≡ ok false
      → IsBased tree base c
  known :
      (old : Bytes)
      → tree.read c.source ≡ ok old
      → c.old_hash ≡ some (tree.sha old)
      → lookup c.source base ≡ some c.old_hash
      → HasRoom tree base c.destination
      → IsBased tree base c

hash_of-ok :
    (p : Text) (base : Hashes) (h : Option String) → hash_of p base ≡ ok h → lookup p base ≡ some h
unfolding hash_of
hash_of-ok p base h e = elim (Option-cases (lookup p base)) [
  | inl absent ↦ absurd (let q = rw (absent, hash_of) at e in ground arith)
  | inr (g, found) ↦ found ∙ ap some (ok-injective g h (rw (found, hash_of) at e))
]

raise_if-false : (b : Bool) (e : AgentError) → raise_if b e ≡ ok tt → b ≡ false
raise_if-false true e h = absurd (ground arith)
raise_if-false false e h = refl

unexpected : (h : Option String) → is_some h ≡ false → h ≡ none
unexpected h e = ground (arith, e)

read_expected-ok :
    (tree : Tree) (p : Text) (expected : Option String) (old : Bytes)
    → read_expected tree p expected ≡ ok old
    → (tree.read p ≡ ok old) × (expected ≡ some (tree.sha old))
unfolding read_expected
read_expected-ok tree p expected old e =
    let mismatch = detailed patch_conflict (conflict p none base_hash_mismatch ∷ []) in
    let (_, _, e1) =
      >>=-eq-ok (raise_if (ltb max_patch_file_bytes (tree.stat_size p)) (plain file_too_large)) _
        e in
    let (raw, read, e2) = >>=-eq-ok (tree.read p) _ e1 in
    let (_, _, e3) =
      >>=-eq-ok (raise_if (ltb max_patch_file_bytes (length raw)) (plain file_too_large)) _ e2 in
    let (_, same, e4) =
      >>=-eq-ok (raise_if (not (expected == some (tree.sha raw))) mismatch) (λ _. ok raw) e3 in
    let q = ok-injective raw old e4 in
    let no = raise_if-false (not (expected == some (tree.sha raw))) mismatch same in
    let h : expected ≡ some (tree.sha raw) =
      (option_beq_iff expected (some (tree.sha raw))).0 (ground arith) in
    (read ∙ ap ok q, h ∙ ap (λ b. some (tree.sha b)) q)

-- the changes made so far, and one more; no path has two contents
abbrev Extends : Tree → Hashes → Preflight → Preflight → Type 0
Extends tree base pre post =
    (c : Change) × (post.changes ≡ pre.changes ++ (c ∷ []))
    × IsBased tree base c
    × (Unique pre.desired → Unique post.desired)

abbrev pub IsUnique : Preflight → Type 0
IsUnique p = Unique p.desired

preflight_move-Extends :
    (tree : Tree) (s : PatchSection) (d : Text) (base : Hashes) (old new : Bytes)
    (pre post : Preflight)
    → tree.read s.path ≡ ok old
    → lookup s.path base ≡ some (some (tree.sha old))
    → preflight_move tree s d base old new pre ≡ ok post
    → Extends tree base pre post
unfolding preflight_move
preflight_move-Extends tree s d base old new pre post read given e =
    let (expected, listed, e1) = >>=-eq-ok (hash_of d base) _ e in
    let (_, unknown, e2) = >>=-eq-ok (raise_if (is_some expected) (plain invalid_request)) _ e1 in
    let (exists, found, e3) = >>=-eq-ok (tree.resolve d false) _ e2 in
    let (_, free, e4) =
      >>=-eq-ok (raise_if exists (detailed patch_conflict (conflict d none already_exists ∷ []))) _
        e3 in
    let gone = raise_if-false exists _ free in
    let new_name = unexpected expected (raise_if-false (is_some expected) _ unknown) in
    (
      _,
      ap (λ (p : Preflight). p.changes) (sym (ok-injective _ post e4)),
      known old read refl given
          (found ∙ ap ok gone, hash_of-ok d base expected listed ∙ ap some new_name),
      λ u.
          subst IsUnique (ok-injective _ post e4)
            (insert-Unique d (some new) _ (insert-Unique s.path none pre.desired u)),
    )

moving-Extends :
    (tree : Tree) (s : PatchSection) (base : Hashes) (old : Bytes) (pre post : Preflight)
    → tree.read s.path ≡ ok old
    → lookup s.path base ≡ some (some (tree.sha old))
    → preflight_edit move tree s base old pre ≡ ok post
    → Extends tree base pre post
unfolding preflight_edit
moving-Extends tree s base old pre post read given e =
    let (new, _, e1) = >>=-eq-ok (updated_bytes tree s old) _ e in
    elim (Option-cases s.destination) [
      | inl nowhere ↦ absurd (let q = rw nowhere at e1 in ground arith)
      | inr (d, to) ↦ preflight_move-Extends tree s d base old new pre post read given (rw to at e1)
    ]

preflight_edit-Extends :
    (a : Action) (tree : Tree) (s : PatchSection) (base : Hashes) (old : Bytes)
    (pre post : Preflight)
    → tree.read s.path ≡ ok old
    → lookup s.path base ≡ some (some (tree.sha old))
    → preflight_edit a tree s base old pre ≡ ok post
    → Extends tree base pre post
unfolding preflight_edit
preflight_edit-Extends update tree s base old pre post read given e =
    let (new, _, e1) = >>=-eq-ok (updated_bytes tree s old) _ e in
    (
      rewriting tree s old new,
      ap (λ (p : Preflight). p.changes) (sym (ok-injective _ post e1)),
      known old read refl given tt,
      λ u. subst IsUnique (ok-injective _ post e1) (insert-Unique s.path (some new) pre.desired u),
    )
preflight_edit-Extends add tree s base old pre post read given e =
    moving-Extends tree s base old pre post read given e
preflight_edit-Extends delete tree s base old pre post read given e =
    moving-Extends tree s base old pre post read given e
preflight_edit-Extends move tree s base old pre post read given e =
    moving-Extends tree s base old pre post read given e

preflight_old-Extends :
    (a : Action) (tree : Tree) (s : PatchSection) (base : Hashes) (exists : Bool) (old : Bytes)
    (pre post : Preflight)
    → tree.read s.path ≡ ok old
    → lookup s.path base ≡ some (some (tree.sha old))
    → preflight_old a tree s base exists old pre ≡ ok post
    → Extends tree base pre post
unfolding preflight_old
preflight_old-Extends delete tree s base exists old pre post read given e = (
  removal tree s old,
  ap (λ (p : Preflight). p.changes) (sym (ok-injective _ post e)),
  known old read refl given tt,
  λ u. subst IsUnique (ok-injective _ post e) (insert-Unique s.path none pre.desired u),
)
preflight_old-Extends update tree s base exists old pre post read given e =
    preflight_edit-Extends update tree s base old pre post read given e
preflight_old-Extends add tree s base exists old pre post read given e =
    preflight_edit-Extends move tree s base old pre post read given e
preflight_old-Extends move tree s base exists old pre post read given e =
    preflight_edit-Extends move tree s base old pre post read given e

preflight_existing-Extends :
    (tree : Tree) (s : PatchSection) (base : Hashes) (expected : Option String)
    (pre post : Preflight)
    → lookup s.path base ≡ some expected
    → preflight_existing tree s base expected pre ≡ ok post
    → Extends tree base pre post
unfolding preflight_existing
preflight_existing-Extends tree s base expected pre post given e =
    let (exists, _, e1) = >>=-eq-ok (tree.resolve s.path true) _ e in
    let (old, checked, e2) = >>=-eq-ok (read_expected tree s.path expected) _ e1 in
    let (read, same) = read_expected-ok tree s.path expected old checked in
    preflight_old-Extends s.action tree s base exists old pre post read (given ∙ ap some same) e2

preflight_add-Extends :
    (tree : Tree) (s : PatchSection) (base : Hashes) (expected : Option String)
    (pre post : Preflight)
    → lookup s.path base ≡ some expected
    → preflight_add tree s expected pre ≡ ok post
    → Extends tree base pre post
unfolding preflight_add
preflight_add-Extends tree s base expected pre post given e =
    let (_, unknown, e1) = >>=-eq-ok (raise_if (is_some expected) (plain invalid_request)) _ e in
    let (exists, found, e2) = >>=-eq-ok (tree.resolve s.path false) _ e1 in
    let (_, clear, e3) =
      >>=-eq-ok
        (raise_if exists (detailed patch_conflict (conflict s.path none already_exists ∷ []))) _
        e2 in
    let h = unexpected expected (raise_if-false (is_some expected) _ unknown) in
    (
      _,
      ap (λ (p : Preflight). p.changes) (sym (ok-injective _ post e3)),
      fresh refl (given ∙ ap some h) (found ∙ ap ok (raise_if-false exists _ clear)),
      λ u. subst IsUnique (ok-injective _ post e3) (insert-Unique s.path _ pre.desired u),
    )

pub preflight_section-Extends :
    (tree : Tree) (base : Hashes) (s : PatchSection) (touched : List Text) (pre post : Preflight)
    → preflight_section tree base s touched pre ≡ ok post
    → Extends tree base pre post
unfolding preflight_section
preflight_section-Extends tree base s touched pre post e =
    let overlap = select (λ p. is_in p touched) (paths_of s) in
    let (_, _, e1) =
      >>=-eq-ok (raise_if (not (is_empty overlap)) (detailed invalid_patch (map path overlap))) _
        e in
    let (expected, found, e2) = >>=-eq-ok (hash_of s.path base) _ e1 in
    by_action s.action expected (hash_of-ok s.path base expected found) e2
  where
    by_action :
        (a : Action) (expected : Option String)
        → lookup s.path base ≡ some expected
        → (elim a [
          | add ↦ preflight_add tree s expected pre
          | _ ↦ preflight_existing tree s base expected pre
        ])
          ≡ ok post
        → Extends tree base pre post
    by_action add expected given e = preflight_add-Extends tree s base expected pre post given e
    by_action update expected given e =
        preflight_existing-Extends tree s base expected pre post given e
    by_action delete expected given e =
        preflight_existing-Extends tree s base expected pre post given e
    by_action move expected given e =
        preflight_existing-Extends tree s base expected pre post given e

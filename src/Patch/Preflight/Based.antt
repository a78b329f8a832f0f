-- ===== src/Patch/Preflight/Based.antt =====
-- The changes that `_preflight` collects.
use codito_mcp.Patch.Preflight.Section.{IsBased, IsUnique, preflight_section-Extends}
use mathlib.Core.Path.{subst}
use codito_mcp.Text.{Text}
use codito_mcp.Common.{
  ◌≡◌, sym, List, [], ◌∷◌, ◌++◌, ok, nat_Eq, list_Eq, option_Eq, string_Eq, >>=-eq-ok, ok-injective,
  All, All-append,
}
use codito_mcp.Common.Dict.{Unique}
use codito_mcp.Patch.Types.{PatchSection}
use codito_mcp.Patch.Preflight.{
  Tree, Preflight, Hashes, nothing, paths_of, required, check_cover, preflight_section,
  preflight_sections, preflight, Text,
}

preflight_sections-IsBased :
    (tree : Tree) (base : Hashes) (ss : List PatchSection) (touched : List Text)
    (pre post : Preflight)
    → All (IsBased tree base) pre.changes
    → preflight_sections tree base ss touched pre ≡ ok post
    → All (IsBased tree base) post.changes
unfolding preflight_sections
preflight_sections-IsBased tree base [] touched pre post good e =
    subst (λ (p : Preflight). All (IsBased tree base) p.changes) (ok-injective pre post e) good
preflight_sections-IsBased tree base (s ∷ ss) touched pre post good e =
    let (_, _, e1) = >>=-eq-ok (tree.check s.path) _ e in
    let (mid, one, e2) = >>=-eq-ok (preflight_section tree base s touched pre) _ e1 in
    let (c, more, based, _) = preflight_section-Extends tree base s touched pre mid one in
    preflight_sections-IsBased tree base ss (touched ++ paths_of s) mid post
      (subst (All (IsBased tree base)) (sym more)
        (All-append (IsBased tree base) pre.changes (c ∷ []) good (based, tt)))
      e2

preflight_sections-Unique :
    (tree : Tree) (base : Hashes) (ss : List PatchSection) (touched : List Text)
    (pre post : Preflight)
    → Unique pre.desired
    → preflight_sections tree base ss touched pre ≡ ok post
    → Unique post.desired
unfolding preflight_sections
preflight_sections-Unique tree base [] touched pre post u e =
    subst IsUnique (ok-injective pre post e) u
preflight_sections-Unique tree base (s ∷ ss) touched pre post u e =
    let (_, _, e1) = >>=-eq-ok (tree.check s.path) _ e in
    let (mid, one, e2) = >>=-eq-ok (preflight_section tree base s touched pre) _ e1 in
    let (_, _, _, kept) = preflight_section-Extends tree base s touched pre mid one in
    preflight_sections-Unique tree base ss (touched ++ paths_of s) mid post (kept u) e2

pub preflight-Unique :
    (tree : Tree) (ss : List PatchSection) (base : Hashes) (post : Preflight)
    → preflight tree ss base ≡ ok post
    → Unique post.desired
unfolding preflight
preflight-Unique tree ss base post e =
    let (_, _, e1) = >>=-eq-ok (check_cover (required ss) base) _ e in
    preflight_sections-Unique tree base ss [] nothing post tt e1

-- Whatever the preflight lets through: each change either makes a file where there is none and for
-- which the caller gave `none` as its hash, or is of a file that was read just now with exactly the
-- hash that the caller gave; and where it moves that file, there is none at the destination, and the
-- caller gave `none` for it.
pub preflight-IsBased :
    (tree : Tree) (ss : List PatchSection) (base : Hashes) (post : Preflight)
    → preflight tree ss base ≡ ok post
    → All (IsBased tree base) post.changes
unfolding preflight
preflight-IsBased tree ss base post e =
    let (_, _, e1) = >>=-eq-ok (check_cover (required ss) base) _ e in
    preflight_sections-IsBased tree base ss [] nothing post tt e1

-- ===== src/Relay/Tunnel/Upserts.antt =====
-- The entries of a device's list, one after another.
use mathlib.Core.Path.{subst}
use codito_mcp.Common.{
  String, ◌≡◌, refl, sym, ap, ◌∙◌, inl, inr, Bool, true, false, not, ◌||◌, some, List, [], ◌∷◌,
  arith, if◌then◌else◌, ok, ◌>>◌, raise_if, ◌==◌, nat_Eq, list_Eq, option_Eq, string_Eq, any,
  >>=-eq-ok, ok-injective, eq_self, Bool-cases, none, Option,
}
use codito_mcp.Common.Dict.{lookup, insert, lookup-insert}
use codito_mcp.Db.Json.{Json, Items, obj, item, end_items}
use codito_mcp.Relay.Tunnel.Types.{Connection, World, value_error}
use codito_mcp.Relay.Tunnel.Projects.{
  available, unavailable, ProjectRow, Projects, Entry, entry_of, check_entry, is_own, project_row,
  upsert_project, upsert_all, left_out, withdraw, has_identifiers, modes,
}

-- the identifier of an entry, and whether the list names a project
unfoldable pub id_of : World → Json → String
id_of w (obj fields) = (entry_of w fields).project_id
id_of w _ = ""

unfoldable pub lists : World → String → Items → Bool
lists w id end_items = false
lists w id (item j items) = id_of w j == id || lists w id items

check_entry-id :
    (w : World) (j : Json) (e : Entry) → check_entry w j ≡ ok e → e.project_id ≡ id_of w j
unfolding check_entry id_of
check_entry-id w (obj fields) e h =
    let (_, _, last) =
      >>=-eq-ok
        (raise_if (not (has_identifiers (entry_of w fields))) value_error
          >> raise_if (not (any (λ m. m == (entry_of w fields).mode) modes)) value_error)
        _ h in
    ap (λ k. k.project_id) (sym (ok-injective (entry_of w fields) e last))
check_entry-id w j e h = absurd (ground arith)

-- the projects that the list named so far are the device's own, and available
abbrev Kept : Connection → List String → Projects → Type 0
Kept c seen projects =
    (id : String)
    → any (λ s. s == id) seen ≡ true
    → (row : ProjectRow) × (lookup id projects ≡ some row)
      × (is_own c row ≡ true)
      × (row.status ≡ available)

upsert-insert :
    (c : Connection) (e : Entry) (projects projects' : Projects)
    → upsert_project c e projects ≡ ok projects'
    → insert e.project_id (project_row c e) projects ≡ projects'
unfolding upsert_project
upsert-insert c e projects projects' h = ground (arith)

own_row : (c : Connection) (e : Entry) → is_own c (project_row c e) ≡ true
unfolding is_own
own_row c e = ground (arith, eq_self c.account, eq_self c.device_id)

upsert-Kept :
    (c : Connection) (e : Entry) (seen : List String) (projects projects' : Projects)
    → upsert_project c e projects ≡ ok projects'
    → Kept c seen projects
    → Kept c (e.project_id ∷ seen) projects'
upsert-Kept c e seen projects projects' h kept id named =
    let at = lookup-insert e.project_id id (project_row c e) projects in
    let e' = upsert-insert c e projects projects' h in
    elim (Bool-cases (e.project_id == id)) [
      | inl same ↦ (project_row c e, ap (lookup id) (sym e') ∙ at ∙ rw same refl, own_row c e, refl)
      | inr other ↦
          let (row, here, own, free) = kept id (ground arith) in
          (row, ap (lookup id) (sym e') ∙ at ∙ rw other here, own, free)
    ]

-- another device's project is not touched
upsert-other :
    (c : Connection) (e : Entry) (projects projects' : Projects) (id : String) (row : ProjectRow)
    → upsert_project c e projects ≡ ok projects'
    → lookup id projects ≡ some row
    → is_own c row ≡ false
    → lookup id projects' ≡ some row
unfolding upsert_project
upsert-other c e projects projects' id row h here other = ground (
  arith,
  lookup-insert e.project_id id (project_row c e) projects,
  string_Eq.beq_iff e.project_id id,
  ap (λ k. lookup k projects) {x = e.project_id} {y = id},
)

pub upsert_all-Kept :
    (w : World) (c : Connection) (items : Items) (seen : List String) (projects : Projects)
    (done : List String × Projects)
    → upsert_all w c items seen projects ≡ ok done
    → Kept c seen projects
    → Kept c done.0 done.1
unfolding upsert_all
upsert_all-Kept w c end_items seen projects done h kept =
    subst (λ d. Kept c d.0 d.1) (ok-injective (seen, projects) done h) kept
upsert_all-Kept w c (item j items) seen projects done h kept =
    let (e, _, rest) = >>=-eq-ok (check_entry w j) _ h in
    let (projects', this, last) = >>=-eq-ok (upsert_project c e projects) _ rest in
    upsert_all-Kept w c items (e.project_id ∷ seen) projects' done last
      (upsert-Kept c e seen projects projects' this kept)

pub upsert_all-other :
    (w : World) (c : Connection) (items : Items) (seen : List String) (projects : Projects)
    (done : List String × Projects) (id : String) (row : ProjectRow)
    → upsert_all w c items seen projects ≡ ok done
    → lookup id projects ≡ some row
    → is_own c row ≡ false
    → lookup id done.1 ≡ some row
unfolding upsert_all
upsert_all-other w c end_items seen projects done id row h here other =
    subst (λ d. lookup id d.1 ≡ some row) (ok-injective (seen, projects) done h) here
upsert_all-other w c (item j items) seen projects done id row h here other =
    let (e, _, rest) = >>=-eq-ok (check_entry w j) _ h in
    let (projects', this, last) = >>=-eq-ok (upsert_project c e projects) _ rest in
    upsert_all-other w c items (e.project_id ∷ seen) projects' done id row last
      (upsert-other c e projects projects' id row this here other) other

-- the identifiers seen are those of the list
pub upsert_all-seen :
    (w : World) (c : Connection) (items : Items) (seen : List String) (projects : Projects)
    (done : List String × Projects) (id : String)
    → upsert_all w c items seen projects ≡ ok done
    → any (λ s. s == id) done.0 ≡ (lists w id items || any (λ s. s == id) seen)
unfolding upsert_all lists
upsert_all-seen w c end_items seen projects done id h =
    ap (λ d. any (λ s. s == id) d.0) (sym (ok-injective (seen, projects) done h))
upsert_all-seen w c (item j items) seen projects done id h =
    let (e, checked, rest) = >>=-eq-ok (check_entry w j) _ h in
    let (projects', this, last) = >>=-eq-ok (upsert_project c e projects) _ rest in
    let at = upsert_all-seen w c items (e.project_id ∷ seen) projects' done id last in
    let same = ap (λ k. k == id) (check_entry-id w j e checked) in ground arith

pub lookup-withdraw :
    (c : Connection) (seen : List String) (id : String) (row : ProjectRow) (projects : Projects)
    → lookup id projects ≡ some row
    → lookup id (withdraw c seen projects)
      ≡ some (if left_out c seen id row then record row { status = unavailable } else row)
unfolding withdraw lookup
lookup-withdraw c seen id row [] h = absurd (ground arith)
lookup-withdraw c seen id row ((i, r) ∷ projects) h =
    ground (arith, lookup-withdraw c seen id row projects, string_Eq.beq_iff i id)

-- a project that is there and is not the device's own
unfoldable pub is_others : Connection → Option ProjectRow → Bool
is_others c none = false
is_others c (some row) = not (is_own c row)

upsert-back :
    (c : Connection) (e : Entry) (projects projects' : Projects) (id : String)
    → upsert_project c e projects ≡ ok projects'
    → is_others c (lookup id projects') ≡ true
    → lookup id projects ≡ lookup id projects'
unfolding is_others
upsert-back c e projects projects' id h other =
    let e' = ap (lookup id) (sym (upsert-insert c e projects projects' h)) in
    let at = lookup-insert e.project_id id (project_row c e) projects in ground (arith, own_row c e)

pub upsert_all-back :
    (w : World) (c : Connection) (items : Items) (seen : List String) (projects : Projects)
    (done : List String × Projects) (id : String)
    → upsert_all w c items seen projects ≡ ok done
    → is_others c (lookup id done.1) ≡ true
    → lookup id projects ≡ lookup id done.1
unfolding upsert_all
upsert_all-back w c end_items seen projects done id h other =
    ap (λ d. lookup id d.1) (ok-injective (seen, projects) done h)
upsert_all-back w c (item j items) seen projects done id h other =
    let (e, _, rest) = >>=-eq-ok (check_entry w j) _ h in
    let (projects', this, last) = >>=-eq-ok (upsert_project c e projects) _ rest in
    let later = upsert_all-back w c items (e.project_id ∷ seen) projects' done id last other in
    upsert-back c e projects projects' id this (ap (is_others c) later ∙ other) ∙ later

-- nothing is lost
pub upsert_all-absent :
    (w : World) (c : Connection) (items : Items) (seen : List String) (projects : Projects)
    (done : List String × Projects) (id : String)
    → upsert_all w c items seen projects ≡ ok done
    → lookup id done.1 ≡ none
    → lookup id projects ≡ none
unfolding upsert_all
upsert_all-absent w c end_items seen projects done id h gone =
    ap (λ d. lookup id d.1) (ok-injective (seen, projects) done h) ∙ gone
upsert_all-absent w c (item j items) seen projects done id h gone =
    let (e, _, rest) = >>=-eq-ok (check_entry w j) _ h in
    let (projects', this, last) = >>=-eq-ok (upsert_project c e projects) _ rest in
    let later = upsert_all-absent w c items (e.project_id ∷ seen) projects' done id last gone in
    let e' = ap (lookup id) (upsert-insert c e projects projects' this) in
    let at = lookup-insert e.project_id id (project_row c e) projects in ground arith

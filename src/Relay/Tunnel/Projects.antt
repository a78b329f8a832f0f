-- ===== src/Relay/Tunnel/Projects.antt =====
-- `_synchronize_projects`: the projects that a device says it has.
use codito_mcp.Common.{
  ℕ, suc, String, Bool, false, not, ◌&&◌, ◌||◌, Option, none, some, List, [], ◌∷◌, if◌then◌else◌,
  ok, err, ◌>>=◌, ◌>>◌, raise_if, ◌==◌, nat_Eq, list_Eq, option_Eq, string_Eq, leb, all, any,
  length,
}
use codito_mcp.Common.Dict.{Dict, lookup, insert}
use codito_mcp.Text.{Text, codes}
use codito_mcp.Db.Json.{Json, Items, Fields, get_field, str, arr, obj, item, end_items}
use codito_mcp.Relay.Tunnel.Types.{Connection, World, Checked, value_error}

pub data ProjectStatus : Type 0 where
  available unavailable withdrawn : ProjectStatus

-- `withdrawn` is `Project.Status.REVOKED`.
pub record ProjectRow : Type 0 where
  pub account_id : ℕ
  pub device_id : String
  pub title : String
  pub root_fingerprint : String
  pub mode : String
  pub status : ProjectStatus

abbrev pub Projects : Type 0
Projects = Dict String ProjectRow

-- `str(item.get(key, default))`
unfoldable pub text_or : World → String → Option Json → String
text_or w default none = default
text_or w default (some (str s)) = s
text_or w default (some j) = w.show j

unfoldable pub is_alphanumeric : ℕ → Bool
is_alphanumeric c = leb b'0' c && leb c b'9' || leb b'A' c && leb c b'Z' || leb b'a' c && leb c b'z'

unfoldable pub is_opaque_char : ℕ → Bool
is_opaque_char c = is_alphanumeric c || c == b'_' || c == b'-'

-- `_OPAQUE_ID_RE.fullmatch(value)`
unfoldable pub is_opaque_id : Text → Bool
is_opaque_id [] = false
is_opaque_id (c ∷ s) =
    is_alphanumeric c && all is_opaque_char s && leb 15 (length s) && leb (length s) 127

abbrev pub modes : List String
modes = "isolated" ∷ "native_approval" ∷ "native_trusted" ∷ "full_access" ∷ "native_project" ∷ []

-- one entry of the list
pub record Entry : Type 0 where
  pub project_id : String
  pub title : String
  pub root_fingerprint : String
  pub mode : String

unfoldable pub entry_of : World → Fields → Entry
entry_of w fields = record {
  project_id = text_or w "" (get_field "project_id" fields);
  title = text_or w "" (get_field "title" fields);
  root_fingerprint = text_or w "" (get_field "root_fingerprint" fields);
  mode = text_or w "isolated" (get_field "mode" fields);
}

unfoldable pub within : ℕ → ℕ → String → Bool
within low high s = leb low (length (codes s)) && leb (length (codes s)) high

unfoldable pub has_identifiers : Entry → Bool
has_identifiers e =
    is_opaque_id (codes e.project_id) && within 1 160 e.title && within 32 128 e.root_fingerprint

unfoldable pub check_entry : World → Json → Checked Entry
check_entry w (obj fields) =
    raise_if (not (has_identifiers (entry_of w fields))) value_error
    >> raise_if (not (any (λ m. m == (entry_of w fields).mode) modes)) value_error
    >> ok (entry_of w fields)
check_entry w _ = err value_error

-- a project of the connection's account and device
unfoldable pub is_own : Connection → ProjectRow → Bool
is_own c row = row.account_id == c.account && row.device_id == c.device_id

abbrev pub project_row : Connection → Entry → ProjectRow
project_row c e = record {
  account_id = c.account;
  device_id = c.device_id;
  title = e.title;
  root_fingerprint = e.root_fingerprint;
  mode = e.mode;
  status = available;
}

unfoldable pub upsert_project : Connection → Entry → Projects → Checked Projects
upsert_project c e projects = elim (lookup e.project_id projects) [
  | none ↦ ok (insert e.project_id (project_row c e) projects)
  | some row ↦
      if is_own c row then ok (insert e.project_id (project_row c e) projects) else err value_error
]

-- `seen` has the identifiers so far
unfoldable pub upsert_all :
    World → Connection → Items → List String → Projects → Checked (List String × Projects)
upsert_all w c end_items seen projects = ok (seen, projects)
upsert_all w c (item j items) seen projects = check_entry w j >>= λ e.
    upsert_project c e projects >>= λ projects'.
    upsert_all w c items (e.project_id ∷ seen) projects'

unfoldable pub left_out : Connection → List String → String → ProjectRow → Bool
left_out c seen id row = is_own c row && not (any (λ s. s == id) seen)

-- `Project.objects.filter(...).exclude(pk__in=seen).update(status=UNAVAILABLE)`
unfoldable pub withdraw : Connection → List String → Projects → Projects
withdraw c seen [] = []
withdraw c seen ((id, row) ∷ projects) =
    (id, if left_out c seen id row then record row { status = unavailable } else row)
    ∷ withdraw c seen projects

unfoldable pub count_items : Items → ℕ
count_items end_items = 0
count_items (item j items) = suc (count_items items)

unfoldable pub synchronized : World → Connection → Items → Projects → Checked Projects
synchronized w c items projects =
    raise_if (not (leb (count_items items) 1000)) value_error
    >> upsert_all w c items [] projects
    >>= λ done. ok (withdraw c done.0 done.1)

unfoldable pub synchronize : World → Connection → Option Json → Projects → Checked Projects
synchronize w c (some (arr items)) projects = synchronized w c items projects
synchronize w c _ projects = err value_error

-- the transaction: a refusal undoes what was done
unfoldable pub synchronize_projects :
    World → Connection → Fields → Projects → Checked (Unit {0}) × Projects
synchronize_projects w c payload projects =
    elim (synchronize w c (get_field "projects" payload) projects) [
      | err refusal ↦ (err refusal, projects)
      | ok projects' ↦ (ok tt, projects')
    ]

-- ===== src/Tests/Db.antt =====
-- The database: a receipt that is delivered twice, a rotation, what a receipt keeps of secrets.
use codito_mcp.Common.Dict.{lookup}
use codito_mcp.Text.{Text, codes}
use codito_mcp.Common.{
  map, if◌then◌else◌, leb, ◌&&◌, ◌+◌, String, ◌≡◌, refl, ap, ◌≢◌, true, Option, none, some, [], ◌∷◌,
  arith, ok, err, nat_Eq, list_Eq, option_Eq, string_Eq,
}
use codito_mcp.Models.{isolated}
use codito_mcp.Db.Json.{Json, obj, arr, item, end_items, end_fields, field, str}
use codito_mcp.Db.Operations.{
  Binding, Operation, Operations, new_operation, record_received, references,
}
use codito_mcp.Db.Operations.Receipts.{acknowledge, run, run-Evolves}
use codito_mcp.Db.Operations.Receipts.{Evolves, rename, renamed}
use codito_mcp.Db.Operations.Delivery.{accepted_once}
use codito_mcp.Db.Idempotency.{lookup}
use codito_mcp.Db.Activity.{
  activity_safe_value, keeps_no_secret, keeps_no_secret-activity_safe_value,
}
use codito_mcp.Db.Projects.{new_row}
use codito_mcp.Db.Projects.Rotation.{Tables, rotate_project_ids}
use codito_mcp.Db.Projects.Consistent.{IsConsistent, rotate-IsConsistent}

abbrev binding : Binding
binding = record {
  correlation_id = "c";
  account_id = "a";
  grant_id = "g";
  link_id = "l";
  device_id = "d";
  project_id = some "p";
  capability = "project_shell";
  action_digest = "x";
  idempotency_key = none;
  request_digest = "r";
  deadline_at = "t";
}

abbrev receipt : Operation
receipt = new_operation binding none 3 100

abbrev receipts : Operations
receipts = ("op", receipt) ∷ []

accepted_once_example :
    (record_received ("p" ∷ []) "op" binding none 4 102 (
      run
        (acknowledge binding 101 ∷ rename "p" "q" ∷ [])
        (record_received ("p" ∷ []) "op" binding none 3 100 []).1)).0
    ≢ ok true
unfolding record_received references lookup
accepted_once_example =
    accepted_once ("p" ∷ []) ("p" ∷ []) "op" binding binding none none 3 4 100 102 []
      (acknowledge binding 101 ∷ rename "p" "q" ∷ []) refl

run-Evolves_example :
    (new : Operation) × (lookup "op" (run (acknowledge binding 101 ∷ rename "p" "q" ∷ []) receipts)
      ≡ some new)
    × Evolves
        (renamed (acknowledge binding 101 ∷ rename "p" "q" ∷ []) receipt.binding.project_id)
        receipt
        new
unfolding lookup
run-Evolves_example =
    run-Evolves (acknowledge binding 101 ∷ rename "p" "q" ∷ []) "op" receipts receipt refl

abbrev tables : Tables
tables = record {
  projects = ("p", new_row (codes "Site") (codes "C", "fingerprint") isolated 0) ∷ [];
  operations = receipts;
  idempotency = [];
}

rotate-IsConsistent_example : IsConsistent (rotate_project_ids (λ _. "z") 5 tables).1
unfolding references
rotate-IsConsistent_example = rotate-IsConsistent (λ _. "z") 5 tables (refl, tt)

abbrev secret_request : Json
secret_request = obj (
    field "path" (str "a") (
      field "headers" (arr (item (obj (field "Client-Secret" (str "x") end_fields)) end_items))
        end_fields))

-- `str.casefold` of ASCII letters
lower_ascii : Text → Text
lower_ascii s = map (λ c. if leb b'A' c && leb c b'Z' then c + 32 else c) s

activity-redacted :
    activity_safe_value lower_ascii secret_request
    ≡ obj (
        field "path" (str "a") (
          field "headers"
            (arr (item (obj (field "Client-Secret" (str "[redacted]") end_fields)) end_items))
            end_fields))
unfolding codito_mcp.Db.Activity.activity_value codito_mcp.Db.Activity.is_secret lower_ascii
    codito_mcp.Common.list_beq
activity-redacted = refl

keeps_no_secret-activity_safe_value_example :
    keeps_no_secret lower_ascii (activity_safe_value lower_ascii secret_request) ≡ true
keeps_no_secret-activity_safe_value_example =
    keeps_no_secret-activity_safe_value lower_ascii secret_request

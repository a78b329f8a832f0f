-- ===== src/Relay/Results.antt =====
-- `_validate_device_result` and `_validate_device_result_for_request` of
-- relay/codito_relay/core/dispatch.py, and `durable_tool_result` of packages/protocol. The schemas
-- of packages/protocol, SHA-256, `urlsplit` and `str.casefold` are the fields of `Contracts`.
pub mod Bound
use codito_mcp.Common.{
  ℕ, String, Bool, true, false, not, ◌&&◌, ◌||◌, Option, none, some, List, [], ◌∷◌, ◌==◌, nat_Eq,
  list_Eq, option_Eq, string_Eq, if◌then◌else◌, ok, err, ◌>>=◌, ◌>>◌, raise_if, any, is_some, leb,
  length, drop, take, ◌-◌, suc,
}
use codito_mcp.Text.{Text, codes}
use codito_mcp.Db.Json.{
  Json, Fields, Items, get_field, null, bool, num, str, arr, obj, end_fields, field, end_items,
  item,
}
use codito_mcp.Relay.Types.{fatal, Dispatched, text_field}

-- what `urlsplit` finds in an address whose port is a number or missing
pub record Url : Type 0 where
  pub scheme : Text
  pub hostname : Option Text
  pub port : Option ℕ

-- `tool_failure` and `tool_result` validate a value and dump it without the fields that are `None`.
pub record Contracts : Type 0 where
  pub tool_failure : Fields → Option Fields
  pub tool_result : String → Fields → Option Fields
  pub sha256 : String → String
  pub urlsplit : String → Option Url
  pub casefold : Text → Text

-- `a == b` on what `json.loads` makes: a dictionary has no order, and `True` is the number 1
unfoldable pub number_of : Json → Option ℕ
number_of (bool true) = some 1
number_of (bool false) = some 0
number_of (num n) = some n
number_of _ = none

unfoldable pub count_fields : Fields → ℕ
count_fields end_fields = 0
count_fields (field k v fs) = suc (count_fields fs)

unfoldable mutual
  pub json_eq : Json → Json → Bool
  json_eq null null = true
  json_eq (str a) (str b) = a == b
  json_eq (arr a) (arr b) = items_eq a b
  json_eq (obj a) (obj b) = count_fields a == count_fields b && fields_in a b
  json_eq (bool a) b = number_of (bool a) == number_of b
  json_eq (num a) b = number_of (num a) == number_of b
  json_eq _ _ = false

  pub items_eq : Items → Items → Bool
  items_eq end_items end_items = true
  items_eq (item x xs) (item y ys) = json_eq x y && items_eq xs ys
  items_eq _ _ = false

  pub fields_in : Fields → Fields → Bool
  fields_in end_fields b = true
  fields_in (field k v fs) b = elim (get_field k b) [
    | none ↦ false
    | some w ↦ json_eq v w && fields_in fs b
  ]

-- `d[key] = v`
unfoldable pub set_field : String → Json → Fields → Fields
set_field k v end_fields = field k v end_fields
set_field k v (field j w fs) =
    let rest = set_field k v fs in if j == k then field j v fs else field j w rest

-- `value is True` and `value is False`
unfoldable pub is_literal : Bool → Option Json → Bool
is_literal true (some (bool true)) = true
is_literal false (some (bool false)) = true
is_literal _ _ = false

-- the value, where it is a `dict`
unfoldable pub dict_of : Option Json → Option Fields
dict_of (some (obj fs)) = some fs
dict_of _ = none

abbrev pub tools : List String
tools =
    "device_desktop" ∷ "device_screenshot" ∷ "device_read" ∷ "project_read" ∷ "project_apply_patch"
    ∷ "project_shell" ∷ "project_manage" ∷ "project_code" ∷ "project_frontend" ∷ []

-- `model_validate`, whose `ValidationError` becomes a `ToolDispatchError`
abbrev pub validated : Option Fields → Dispatched Fields
validated none = err (fatal "protocol_error")
validated (some fs) = ok fs

unfoldable pub validate_success : Contracts → String → Fields → Option Fields → Dispatched Fields
validate_success c tool payload none = err (fatal "protocol_error")
validate_success c tool payload (some result) =
    raise_if (not (any (λ t. t == tool) tools)) (fatal "protocol_error")
    >> validated (c.tool_result tool result)
    >>= λ valid. ok (set_field "result" (obj valid) payload)

unfoldable pub validate_result : Contracts → String → Fields → Dispatched Fields
validate_result c tool payload =
    if is_literal false (get_field "ok" payload)
    then validated (c.tool_failure payload)
    else if is_literal true (get_field "ok" payload)
    then validate_success c tool payload (dict_of (get_field "result" payload))
    else err (fatal "protocol_error")

-- `_RESULT_ECHO_FIELDS`
abbrev pub echo_fields : List String
echo_fields =
    "operation" ∷ "action" ∷ "project_id" ∷ "session_id" ∷ "snapshot_id" ∷ "element_id" ∷ "job_id"
    ∷ "idempotency_key" ∷ "path" ∷ "scope_path" ∷ "browser" ∷ "url" ∷ "display" ∷ "viewport"
    ∷ "dry_run" ∷ "title" ∷ []

-- `field in arguments and field in result and result[field] != arguments[field]`
unfoldable pub differs : Option Json → Option Json → Bool
differs (some asked) (some given) = not (json_eq given asked)
differs _ _ = false

unfoldable pub check_echoes : List String → Fields → Fields → Dispatched (Unit {0})
check_echoes [] args result = ok tt
check_echoes (key ∷ keys) args result =
    raise_if (differs (get_field key args) (get_field key result)) (fatal "protocol_error")
    >> check_echoes keys args result

unfoldable pub ends_with : Text → Text → Bool
ends_with suffix s = leb (length suffix) (length s) && drop (length s - length suffix) s == suffix

unfoldable pub without_dot : Text → Text
without_dot host = if ends_with (codes ".") host then take (length host - 1) host else host

-- `parsed.port or 80`
unfoldable pub port_or : Option ℕ → ℕ
port_or none = 80
port_or (some n) = if n == 0 then 80 else n

unfoldable pub origin_of : Text → Option ℕ → Option (Text × ℕ)
origin_of host port =
    if ends_with (codes "..") host then none else some (without_dot host, port_or port)

unfoldable pub url_origin : Contracts → Url → Option (Text × ℕ)
url_origin c url = elim url.hostname [
  | none ↦ none
  | some host ↦
      if not (c.casefold url.scheme == codes "http") || host == []
      then none
      else origin_of (c.casefold host) url.port
]

unfoldable pub normalized_http_origin : Contracts → String → Option (Text × ℕ)
normalized_http_origin c value = elim (c.urlsplit value) [
  | none ↦ none
  | some url ↦ url_origin c url
]

-- `base_origin is None or page_origin != base_origin`
unfoldable pub same_origin : Option (Text × ℕ) → Option (Text × ℕ) → Bool
same_origin (some (host, port)) (some (host', port')) = host == host' && port == port'
same_origin _ _ = false

unfoldable pub check_session : Contracts → Option Json → Option Json → Dispatched (Unit {0})
check_session c (some (str base)) (some (str page)) =
    raise_if (not (same_origin (normalized_http_origin c base) (normalized_http_origin c page)))
      (fatal "protocol_error")
check_session c _ _ = err (fatal "protocol_error")

unfoldable pub is_text : String → Option Json → Bool
is_text id (some (str given)) = given == id
is_text id _ = false

unfoldable pub names_element : String → Option Fields → Bool
names_element id none = false
names_element id (some element) = is_text id (get_field "element_id" element)

unfoldable pub check_element : Option Json → Fields → Dispatched (Unit {0})
check_element (some (str id)) result =
    raise_if (not (names_element id (dict_of (get_field "element" result))))
      (fatal "protocol_error")
check_element _ result = ok tt

unfoldable pub check_frontend : Contracts → Fields → Fields → Dispatched (Unit {0})
check_frontend c args result =
    if text_field "operation" args == "session_start"
    then check_session c (get_field "base_url" result) (get_field "url" result)
    else if text_field "operation" args == "inspect"
    then check_element (get_field "element_id" args) result
    else ok tt

-- the checks on a result that says `ok`
unfoldable pub check_bound : Contracts → String → Fields → Option Fields → Dispatched (Unit {0})
check_bound c tool args none = err (fatal "protocol_error")
check_bound c tool args (some result) =
    check_echoes echo_fields args result
    >> (if tool == "project_frontend" then check_frontend c args result else ok tt)

-- a failure is bound to nothing
unfoldable pub bind_result : Contracts → String → Fields → Fields → Dispatched Fields
bind_result c tool args normalized =
    if is_literal true (get_field "ok" normalized)
    then check_bound c tool args (dict_of (get_field "result" normalized)) >> ok normalized
    else ok normalized

unfoldable pub validate_for_request : Contracts → String → Fields → Fields → Dispatched Fields
validate_for_request c tool args payload =
    validate_result c tool payload >>= bind_result c tool args

-- the text that replaces an image
abbrev pub not_retained : String
not_retained = "Screenshot bytes are not retained in the durable journal; request a new capture."

-- the image of a result, where there is one
unfoldable pub image_of : Option Fields → Option String
image_of none = none
image_of (some result) = elim (get_field "image_base64" result) [
  | some (str image) ↦ some image
  | _ ↦ none
]

unfoldable pub without_image : Contracts → String → Fields
without_image c image = field "ok" (bool false) (
    field "text" (str not_retained) (
      field "error"
        (obj (
          field "code" (str "outcome_unknown") (
            field "message" (str not_retained) (
              field "retryable" (bool true) (
                field "details" (obj (field "image_digest" (str (c.sha256 image)) end_fields))
                  end_fields)))))
        end_fields))

unfoldable pub durable_tool_result : Contracts → Fields → Fields
durable_tool_result c payload = elim (image_of (dict_of (get_field "result" payload))) [
  | none ↦ payload
  | some image ↦ without_image c image
]

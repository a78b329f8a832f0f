-- ===== src/Db/Json.antt =====
use codito_mcp.Common.{
  ℕ, String, Bool, Option, none, some, if◌then◌else◌, ◌==◌, nat_Eq, list_Eq, option_Eq, string_Eq,
}

-- JSON values, as `json.dumps` writes and `json.loads` reads them: the columns `result_json` and
-- `request_json` are modelled by the values that they hold the text of.
mutual
  pub data Json : Type 0 where
    null : Json
    bool : Bool → Json
    num : ℕ → Json
    str : String → Json
    arr : Items → Json
    obj : Fields → Json

  pub data Items : Type 0 where
    end_items : Items
    item : Json → Items → Items

  pub data Fields : Type 0 where
    end_fields : Fields
    field : String → Json → Fields → Fields

-- `value.get(key)`
unfoldable pub get_field : String → Fields → Option Json
get_field k end_fields = none
get_field k (field j v fs) = if j == k then some v else get_field k fs

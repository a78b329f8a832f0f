-- ===== src/Relay/Tunnel/Binding.antt =====
-- `_validate_operation_binding`: the operation that a message of a device is about.
use codito_mcp.Common.{
  ℕ, String, Bool, false, not, ◌&&◌, Option, none, some, List, [], ◌∷◌, if◌then◌else◌, ok, err,
  ◌>>=◌, ◌>>◌, raise_if, ◌==◌, nat_Eq, list_Eq, option_Eq, string_Eq, select,
}
use codito_mcp.Common.Dict.{lookup}
use codito_mcp.Relay.Types.{Device}
use codito_mcp.Relay.Tunnel.Types.{
  Envelope, Connection, Row, Tables, Checked, value_error, does_not_exist, multiple_objects,
}

-- `device__connection_epoch=connection.epoch`
unfoldable pub has_epoch : ℕ → Option Device → Bool
has_epoch epoch none = false
has_epoch epoch (some d) = d.connection_epoch == epoch

unfoldable pub is_named : Tables → Connection → String → Row → Bool
is_named s c correlation row =
    row.correlation_id == correlation
    && row.operation.scope.account_id == c.account
    && row.operation.scope.device == c.device_id
    && has_epoch c.epoch (lookup c.device_id s.devices)

-- `QuerySet.get`
unfoldable pub get_one : List (String × Row) → Checked (String × Row)
get_one [] = err does_not_exist
get_one (found ∷ []) = ok found
get_one (found ∷ other ∷ rest) = err multiple_objects

-- `str(project_id) if project_id else None`
unfoldable pub project_binding : Option String → Option String
project_binding none = none
project_binding (some id) = if id == "" then none else some id

unfoldable pub correlation_of : Option String → Checked String
correlation_of none = err value_error
correlation_of (some id) = if id == "" then err value_error else ok id

-- the substitutions that a message may not make
unfoldable pub binds_row : Envelope → Row → Bool
binds_row e row =
    e.bindings.project_id == project_binding row.operation.scope.project
    && e.bindings.grant_id == some row.operation.scope.oauth_grant_id
    && e.bindings.link_id == some row.link_id
    && e.action_digest == some row.operation.action_digest

unfoldable pub binds_connection : Connection → Envelope → Bool
binds_connection c e =
    e.bindings.account_id == c.account_wire_id
    && e.bindings.device_id == c.device_id
    && e.connection_epoch == c.epoch

unfoldable pub validate_operation_binding : Connection → Envelope → Tables → Checked (String × Row)
validate_operation_binding c e s =
    raise_if (not (binds_connection c e)) value_error
    >> correlation_of e.correlation_id
    >>= λ correlation. get_one (select (λ r. is_named s c correlation r.1) s.rows) >>= λ found.
        raise_if (not (binds_row e found.1)) value_error >> ok found

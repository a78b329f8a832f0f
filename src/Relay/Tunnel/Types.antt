-- ===== src/Relay/Tunnel/Types.antt =====
-- What relay/codito_relay/core/websocket.py reads and writes: envelopes of packages/protocol, and
-- the rows of relay/codito_relay/core/models.py. A connection
-- keeps its account's number beside the wire form that the number is read back from.
use mathlib.Core.List.{[]}
use Prim.Native.Nat.{zero}
use Prim.Native.String.{◌++◌ as str_append, ◌∷◌, []}
use codito_mcp.Common.{
  ℕ, String, Bool, not, ◌&&◌, Option, List, Result, nat_Eq, list_Eq, option_Eq, string_Eq, suc, ◌/◌,
  ◌%◌, ◌∷◌, [],
}
use codito_mcp.Common.Dict.{Dict}
use codito_mcp.Db.Json.{Fields, Json}
use codito_mcp.Relay.Types.{Device, is_revoked, Operation}
use codito_mcp.Relay.Results.{Contracts}

-- the digits of `format(n, "x")`
abbrev pub hex_alphabet : List String
hex_alphabet =
    "0" ∷ "1" ∷ "2" ∷ "3" ∷ "4" ∷ "5" ∷ "6" ∷ "7" ∷ "8" ∷ "9" ∷ "a" ∷ "b" ∷ "c" ∷ "d" ∷ "e" ∷ "f"
    ∷ []

unfoldable pub nth_text : ℕ → List String → String
nth_text n [] = ""
nth_text zero (t ∷ ts) = t
nth_text (suc n) (t ∷ ts) = nth_text n ts

-- the last digits of a number, in front of a text
unfoldable pub hex_digits : ℕ → ℕ → String → String
hex_digits zero n rest = rest
hex_digits (suc places) n rest =
    hex_digits places (n / 16) (str_append (nth_text (n % 16) hex_alphabet) rest)

-- `f"account_{account_id:016x}"`: an identifier is below 2 ^ 63
unfoldable pub wire_id : ℕ → String
wire_id n = str_append "account_" (hex_digits 16 n "")

pub data MessageKind : Type 0 where
  hello welcome heartbeat heartbeat_ack operation operation_received operation_started : MessageKind
  operation_progress operation_result operation_cancel terminal_ack error goodbye : MessageKind

pub record Bindings : Type 0 where
  pub account_id : String
  pub device_id : String
  pub link_id : Option String
  pub grant_id : Option String
  pub project_id : Option String

pub record Envelope : Type 0 where
  pub kind : MessageKind
  pub message_id : String
  pub correlation_id : Option String
  pub sequence : ℕ
  pub connection_epoch : ℕ
  pub deadline_at : Option ℕ
  pub bindings : Bindings
  pub action_digest : Option String
  pub payload : Fields

-- `DeviceConnection`
pub record Connection : Type 0 where
  pub device_id : String
  pub account : ℕ
  pub account_wire_id : String
  pub epoch : ℕ

pub record Ticket : Type 0 where
  pub device_id : String
  pub challenge : String
  pub expires_at : ℕ
  pub used_at : Option ℕ

-- `Operation` with the columns that only the tunnel uses, and its device link, which is fetched
-- with it. Its primary key and its correlation id are both names of the row.
pub record Row : Type 0 where
  pub operation : Operation
  pub correlation_id : String
  pub message_id : String
  pub link_id : String
  pub link_revoked_at : Option ℕ
  pub created_at : ℕ
  pub delivery_attempted_at : Option ℕ
  pub sent_at : Option ℕ
  pub sent_epoch : Option ℕ
  pub last_device_sequence : ℕ
  pub last_device_sequence_epoch : ℕ

-- The tables; a ticket's key is its token's hash, an audit event the name of its operation.
pub record Tables : Type 0 where
  pub devices : Dict String Device
  pub tickets : Dict String Ticket
  pub rows : Dict String Row
  pub audit : List String

-- What is not written in this file: the hash of a token, the check of a device's signature,
-- `str` of a JSON value that is no text, and the contracts of the tools.
pub record World : Type 0 where
  pub hash_secret : String → String
  pub verify : String → String → String → String → Bool
  pub show : Json → String
  pub contracts : Contracts

-- An exception: `DeviceAuthenticationError`, `ValueError`, `DoesNotExist` or
-- `MultipleObjectsReturned`.
pub data Refusal : Type 0 where
  unauthenticated value_error does_not_exist multiple_objects : Refusal

abbrev pub Checked {ℓ} : Type ℓ → Type ℓ
Checked A = Result Refusal A

-- `Device.active`
unfoldable pub is_active : Device → Bool
is_active d = not d.is_gone && not (is_revoked d.status)

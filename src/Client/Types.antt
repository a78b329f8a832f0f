-- ===== src/Client/Types.antt =====
-- The state of `DeviceWebSocketClient`, and `_ExecutionBudget`. The client of a turn has its ticket
-- and its socket. Times are milliseconds; `min` and the sums are those of Python, as every time is
-- later than the start of its clock.
use codito_mcp.Common.{
  ℕ, String, ◌+◌, ◌-◌, List, if◌then◌else◌, nat_Eq, list_Eq, option_Eq, string_Eq, leb,
}
use codito_mcp.Common.Dict.{Dict}
use codito_mcp.Db.Json.{Fields}
use codito_mcp.Db.Operations.{Operations}
use codito_mcp.Relay.Results.{Contracts}
use codito_mcp.Relay.Tunnel.Types.{Envelope}

-- `WebSocketTicket`
pub record AgentTicket : Type 0 where
  pub account_id : String
  pub device_id : String
  pub link_id : String

-- an envelope of the relay and the time that the relay sent it
pub record Received : Type 0 where
  pub envelope : Envelope
  pub sent_at : ℕ

pub record Moment : Type 0 where
  pub wall : ℕ
  pub monotonic : ℕ

pub record Budget : Type 0 where
  pub local_deadline : ℕ
  pub monotonic_deadline : ℕ

unfoldable pub earlier : ℕ → ℕ → ℕ
earlier a b = if leb a b then a else b

-- `original_received_at`: not given, no time, or a time
pub data Original : Type 0 where
  not_given no_time : Original
  at : ℕ → Original

-- the deadline on the host's clock; `duration` is that of the wire
unfoldable pub local_deadline_of : ℕ → ℕ → ℕ → Original → ℕ
local_deadline_of deadline duration received not_given = earlier deadline (received + duration)
local_deadline_of deadline duration received no_time = received
local_deadline_of deadline duration received (at t) =
    earlier (earlier deadline (received + duration)) (t + duration)

-- `_ExecutionBudget.from_envelope`
unfoldable pub budget_from : ℕ → ℕ → Moment → Original → Budget
budget_from deadline sent now original =
    let local = local_deadline_of deadline (deadline - sent) now.wall original in
    record { local_deadline = local; monotonic_deadline = (now.monotonic + local) - now.wall }

unfoldable pub both_budgets : Budget → Budget → Budget
both_budgets a b = record {
  local_deadline = earlier a.local_deadline b.local_deadline;
  monotonic_deadline = earlier a.monotonic_deadline b.monotonic_deadline;
}

-- `running` has the operations whose task is not done, in `_pending` and in `_operation_tasks`.
pub record Client : Type 0 where
  pub ticket : AgentTicket
  pub epoch : ℕ
  pub out_sequence : ℕ
  pub running : List String
  pub budgets : Dict String Budget
  pub terminal_pending : Dict String Envelope

pub record Agent : Type 0 where
  pub client : Client
  pub operations : Operations

-- What the client does not compute: the digest of an action, fresh message ids, the registered
-- projects, the bound on tasks, `_now()` as the database's
-- times, `isoformat`, and SHA-256 in `contracts`.
pub record Setting : Type 0 where
  pub action_digest : String → Fields → String
  pub message_id : ℕ → ℕ → String
  pub projects : List String
  pub max_pending : ℕ
  pub written_at : ℕ
  pub show_time : ℕ → String
  pub contracts : Contracts

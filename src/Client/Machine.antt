-- ===== src/Client/Machine.antt =====
-- What happens to a device: envelopes, tasks that begin and complete, a new connection, a crash.
use codito_mcp.Common.{
  ℕ, String, Bool, false, none, List, [], ◌∷◌, ◌++◌, ok, err, nat_Eq, list_Eq, option_Eq, string_Eq,
}
use codito_mcp.Relay.Tunnel.Types.{Envelope, hello}
use codito_mcp.Db.Json.{Fields}
use codito_mcp.Client.Types.{AgentTicket, Received, Moment, Budget, Client, Agent, Setting}
use codito_mcp.Client.Send.{Outgoing, send_new, replay_pending_terminals}
use codito_mcp.Client.Receive.{Effect, sends, Turn}
use codito_mcp.Client.Accept.{receive}
use codito_mcp.Client.Work.{Handled, begin_task, complete, outcome, task_done}

pub data Step : Type 0 where
  received : Moment → Received → Step
  begun : Moment → Envelope → Budget → Step
  handled : Envelope → Bool → Bool → Handled → Step
  done : String → Step
  connected : AgentTicket → ℕ → Fields → Step
  crashed : Step

-- effects of a turn that raised are lost with its connection
abbrev pub effects_of : Turn → List Effect
effects_of (err error, a) = []
effects_of (ok effects, a) = effects

-- A connection has a new ticket and a new epoch and counts from 0; what the process remembers stays.
abbrev pub reconnected : AgentTicket → ℕ → Client → Client
reconnected ticket epoch c = record c { ticket = ticket; epoch = epoch; out_sequence = 0 }

-- `HELLO`, with the projects
abbrev pub hello_message : Fields → Outgoing
hello_message projects = record {
  kind = hello;
  payload = projects;
  correlation_id = none;
  bindings = none;
  action_digest = none;
  is_terminal = false;
}

abbrev pub sends_all : List Envelope → List Effect
sends_all [] = []
sends_all (e ∷ es) = sends e ∷ sends_all es

-- `run`, from the WELCOME to the first message that is awaited
unfoldable pub connect : Setting → AgentTicket → ℕ → Fields → Agent → List Effect × Agent
connect set ticket epoch projects a =
    let greeted = send_new set (hello_message projects) (reconnected ticket epoch a.client) in
    let replayed = replay_pending_terminals set a.operations greeted.1 in
    (sends greeted.0 ∷ sends_all replayed.0, record a { client = replayed.1 })

-- a new process: the database is what is left
abbrev pub forgotten : Client → Client
forgotten c = record c { running = []; budgets = []; terminal_pending = [] }

unfoldable pub step : Setting → Step → Agent → List Effect × Agent
step set (received now r) a = let turn = receive set now r a in (effects_of turn, turn.1)
step set (begun now e budget) a =
    let turn = begin_task set now e budget a in (effects_of turn, turn.1)
step set (handled e uncertain late h) a =
    let turn = complete set e (outcome uncertain late e.correlation_id h) a in
    (effects_of turn, turn.1)
step set (done id) a = ([], task_done id a)
step set (connected ticket epoch projects) a = connect set ticket epoch projects a
step set crashed a = ([], record a { client = forgotten a.client })

unfoldable pub run : Setting → List Step → Agent → List Effect × Agent
run set [] a = ([], a)
run set (next ∷ rest) a =
    let first = step set next a in let later = run set rest first.1 in (first.0 ++ later.0, later.1)

-- ===== src/Client/Replayed.antt =====
-- `_replay_pending_terminals` at a new connection.
use mathlib.Core.Path.{subst}
use codito_mcp.Common.{
  ℕ, String, ◌≡◌, refl, sym, inl, inr, true, some, List, [], ◌∷◌, ◌++◌, Option-cases,
  Any-append_left, nat_Eq, list_Eq, option_Eq, string_Eq, Any, Option, Bool-cases, Bool, false,
  arith, any, Any-append_right, ◌==◌,
}
use codito_mcp.Common.Dict.{Dict, lookup}
use codito_mcp.Db.Json.{Fields, obj}
use codito_mcp.Db.Operations.{Operation, unacknowledged}
use codito_mcp.Relay.Tunnel.Types.{Envelope, operation_result}
use codito_mcp.Db.Operations.Unacknowledged.{list_unacknowledged, IsRow, listed}
use codito_mcp.Client.Types.{AgentTicket, Client, Agent, Setting}
use codito_mcp.Client.Send.{
  result_of, keep_terminal, send_new, replays, send_stored, send_kept, replay_pending_terminals,
}
use codito_mcp.Client.Receive.{Effect, sends, starts}
use codito_mcp.Client.Machine.{connect, sends_all, hello_message, reconnected}

-- an envelope that carries a result on the connection of `epoch`
abbrev pub IsReplay : Option String → Option String → Fields → ℕ → Envelope → Type 0
IsReplay correlation digest payload epoch e =
    (e.kind ≡ operation_result)
    × (e.payload ≡ payload)
    × (e.correlation_id ≡ correlation)
    × (e.action_digest ≡ digest)
    × (e.connection_epoch ≡ epoch)

abbrev pub SendsReplay : Option String → Option String → Fields → ℕ → Effect → Type 0
SendsReplay correlation digest payload epoch (sends e) = IsReplay correlation digest payload epoch e
SendsReplay correlation digest payload epoch (starts id budget reconcile) = ⊥

-- A result that is not acknowledged: one in the row of its operation, or one that the process has in
-- memory where no row that is to be sent again has its correlation id.
pub data Waits (a : Agent) : Option String → Option String → Fields → Type 0 where
  stored :
      {payload : Fields} (id : String) (row : Operation)
      → lookup id a.operations ≡ some row
      → unacknowledged row ≡ true
      → row.result ≡ some (obj payload)
      → Waits a (some row.binding.correlation_id) (some row.binding.action_digest) payload
  in_memory :
      (key : String) (e : Envelope)
      → lookup key a.client.terminal_pending ≡ some e
      → any
          (λ r. e.correlation_id == some r.1.binding.correlation_id)
          (list_unacknowledged a.operations)
        ≡ false
      → Waits a e.correlation_id e.action_digest e.payload

module _ (correlation digest : Option String) (payload : Fields) where
  Any-sends :
      (es : List Envelope) (epoch : ℕ)
      → Any (IsReplay correlation digest payload epoch) es
      → Any (SendsReplay correlation digest payload epoch) (sends_all es)
  Any-sends [] epoch h = absurd h
  Any-sends (e ∷ es) epoch (inl h) = inl h
  Any-sends (e ∷ es) epoch (inr h) = inr (Any-sends es epoch h)

module _ (set : Setting) where
  module _ (row : Operation) (payload : Fields) where
    abbrev OfRow : ℕ → Envelope → Type 0
    OfRow = IsReplay (some row.binding.correlation_id) (some row.binding.action_digest) payload

    first_sent :
        (id : String) (rows : List (String × Operation)) (c : Client)
        → row.result ≡ some (obj payload)
        → Any (OfRow c.epoch) (send_stored set ((id, row) ∷ rows) c).0
    unfolding send_stored send_new replays
    first_sent id rows c h = rw h (inl (refl, refl, refl, refl, refl))

    later_sent :
        (r : String × Operation) (rows : List (String × Operation)) (c : Client)
        → ((d : Client) → Any (OfRow d.epoch) (send_stored set rows d).0)
        → Any (OfRow c.epoch) (send_stored set (r ∷ rows) c).0
    unfolding send_stored send_new
    later_sent r rows c rest = elim (Option-cases (replays r.1)) [
      | inl k ↦ rw (k, Any) (rest c)
      | inr (o, k) ↦ rw (k, Any) (inr (rest (send_new set o c).1))
    ]

    -- it is sent with its result
    sent :
        (rows : List (String × Operation)) (c : Client)
        → row.result ≡ some (obj payload)
        → Any (IsRow row) rows
        → Any (OfRow c.epoch) (send_stored set rows c).0
    sent [] c h there = absurd there
    sent (r ∷ rows) c h (inl e) =
        subst (λ x. Any (OfRow c.epoch) (send_stored set ((r.0, x) ∷ rows) c).0) (sym e)
          (first_sent r.0 rows c h)
    sent (r ∷ rows) c h (inr there) = later_sent r rows c (λ d. sent rows d h there)

  epoch-send_stored :
      (rows : List (String × Operation)) (c : Client) → (send_stored set rows c).1.epoch ≡ c.epoch
  unfolding send_stored send_new
  epoch-send_stored [] c = refl
  epoch-send_stored (r ∷ rows) c = elim (Option-cases (replays r.1)) [
    | inl k ↦ rw (k, send_stored) (epoch-send_stored rows c)
    | inr (o, k) ↦ rw (k, send_stored) (epoch-send_stored rows (send_new set o c).1)
  ]

  module _ (rows : List (String × Operation)) (key : String) (e : Envelope) where
    abbrev OfMemory : ℕ → Envelope → Type 0
    OfMemory = IsReplay e.correlation_id e.action_digest e.payload

    abbrev in_rows : Envelope → Bool
    in_rows x = any (λ r. x.correlation_id == some r.1.binding.correlation_id) rows

    kept_first :
        (id : String) (kept : Dict String Envelope) (c : Client)
        → in_rows e ≡ false
        → Any (OfMemory c.epoch) (send_kept set rows ((id, e) ∷ kept) c).0
    unfolding send_kept send_new
    kept_first id kept c alone = rw alone (inl (refl, refl, refl, refl, refl))

    kept_later :
        (id : String) (x : Envelope) (kept : Dict String Envelope) (c : Client)
        → ((d : Client) → Any (OfMemory d.epoch) (send_kept set rows kept d).0)
        → Any (OfMemory c.epoch) (send_kept set rows ((id, x) ∷ kept) c).0
    unfolding send_kept send_new
    kept_later id x kept c rest = elim (Bool-cases (in_rows x)) [
      | inl there ↦ rw (there, Any) (rest c)
      | inr alone ↦ rw (alone, Any) (inr (rest (send_new set (result_of x x.payload) c).1))
    ]

    kept_sent :
        (kept : Dict String Envelope) (c : Client)
        → in_rows e ≡ false
        → lookup key kept ≡ some e
        → Any (OfMemory c.epoch) (send_kept set rows kept c).0
    unfolding lookup
    kept_sent [] c alone found = absurd (ground arith)
    kept_sent ((id, x) ∷ kept) c alone found = elim (Bool-cases (id == key)) [
      | inl same ↦
          let h : ◌≡◌ {A = Option Envelope} (some x) (some e) = rw same at found in
          let q : x ≡ e = cc in
          subst (λ y. Any (OfMemory c.epoch) (send_kept set rows ((id, y) ∷ kept) c).0) (sym q)
            (kept_first id kept c alone)
      | inr other ↦ kept_later id x kept c (λ d. kept_sent kept d alone (rw other at found))
    ]

-- A new connection sends every result that waits in the database for the relay's acknowledgement, and
-- every one that is only in memory, where no row that is to be sent again has its correlation id. Each
-- goes as the operation's result, under the digest and the correlation id that it had, with its payload
-- as it was, and with the epoch of the new connection.
pub connect-replays :
    (set : Setting) (ticket : AgentTicket) (epoch : ℕ) (projects : Fields) (a : Agent)
    (correlation digest : Option String) (payload : Fields)
    → Waits a correlation digest payload
    → Any (SendsReplay correlation digest payload epoch) (connect set ticket epoch projects a).0
unfolding connect replay_pending_terminals send_new keep_terminal
connect-replays set ticket epoch projects a _ _ payload (stored id row found waits has) =
    let c = (send_new set (hello_message projects) (reconnected ticket epoch a.client)).1 in
    let rows = list_unacknowledged a.operations in
    let first = send_stored set rows c in
    inr (
      Any-sends (some row.binding.correlation_id) (some row.binding.action_digest) payload
        (first.0 ++ (send_kept set rows c.terminal_pending first.1).0) epoch
        (Any-append_left (OfRow set row payload epoch) first.0
          (send_kept set rows c.terminal_pending first.1).0
          (sent set row payload rows c has (listed row id a.operations found waits))))
connect-replays set ticket epoch projects a _ _ _ (in_memory key e found alone) =
    let c = (send_new set (hello_message projects) (reconnected ticket epoch a.client)).1 in
    let rows = list_unacknowledged a.operations in
    let first = send_stored set rows c in
    inr (
      Any-sends e.correlation_id e.action_digest e.payload
        (first.0 ++ (send_kept set rows c.terminal_pending first.1).0) epoch
        (Any-append_right (IsReplay e.correlation_id e.action_digest e.payload epoch) first.0
          (send_kept set rows c.terminal_pending first.1).0
          (subst
            (λ n.
              Any (IsReplay e.correlation_id e.action_digest e.payload n)
                (send_kept set rows c.terminal_pending first.1).0)
            (epoch-send_stored set rows c)
            (kept_sent set rows key e c.terminal_pending first.1 alone found))))

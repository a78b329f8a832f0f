-- ===== src/Client/Kept.antt =====
-- The receipts that a turn of the client leaves, and what it starts.
use codito_mcp.Common.{
  ℕ, String, ◌+◌, ◌≡◌, refl, ap, ◌∙◌, inl, inr, true, false, Option, List, [], ◌∷◌, ◌++◌, arith,
  if◌then◌else◌, ◌==◌, nat_Eq, list_Eq, option_Eq, string_Eq, Option-cases,
}
use codito_mcp.Common.Dict.{lookup, contains}
use codito_mcp.Models.{OperationState}
use codito_mcp.Db.Json.{Json}
use codito_mcp.Db.Operations.{
  Binding, Operations, record_received, transition_operation, acknowledge_terminal,
}
use codito_mcp.Db.Operations.Receipts.{
  Call, receive as receive_call, transition, acknowledge, perform, run, run-Evolves,
}
use codito_mcp.Client.Types.{Agent, Setting}
use codito_mcp.Client.Send.{Outgoing, send_new}
use codito_mcp.Client.Receive.{Effect, sends, starts, Turn}
use codito_mcp.Client.Accept.{emit}
use codito_mcp.Client.Machine.{effects_of}

pub call-kept :
    (call : Call) (id : String) (ops : Operations)
    → contains id ops ≡ true
    → contains id (perform call ops) ≡ true
unfolding run
call-kept call id ops h = elim (Option-cases (lookup id ops)) [
  | inl gone ↦ absurd (ground arith)
  | inr (row, here) ↦ let (new, there, _) = run-Evolves (call ∷ []) id ops row here in rw there refl
]

pub transition-kept :
    (j : String) (state : OperationState) (result : Option Json) (now : ℕ) (id : String)
    (ops : Operations)
    → contains id ops ≡ true
    → contains id (transition_operation j state result now ops).1 ≡ true
unfolding perform
transition-kept j state result now id ops h = call-kept (transition j state result now) id ops h

pub received-kept :
    (ps : List String) (j : String) (b : Binding) (req : Option Json) (epoch now : ℕ) (id : String)
    (ops : Operations)
    → contains id ops ≡ true
    → contains id (record_received ps j b req epoch now ops).1 ≡ true
unfolding perform
received-kept ps j b req epoch now id ops h = call-kept (receive_call ps j b req epoch now) id ops h

pub acknowledged-kept :
    (b : Binding) (now : ℕ) (id : String) (ops : Operations)
    → contains id ops ≡ true
    → contains id (acknowledge_terminal b now ops).1 ≡ true
unfolding perform
acknowledged-kept b now id ops h = call-kept (acknowledge b now) id ops h

-- how often a task of `id` starts
abbrev pub start_of : String → Effect → ℕ
start_of id (sends e) = 0
start_of id (starts j budget reconcile) = if j == id then 1 else 0

abbrev pub count_starts : String → List Effect → ℕ
count_starts id [] = 0
count_starts id (x ∷ xs) = start_of id x + count_starts id xs

pub count-append :
    (id : String) (xs ys : List Effect)
    → count_starts id (xs ++ ys) ≡ count_starts id xs + count_starts id ys
count-append id [] ys = omega arith
count-append id (x ∷ xs) ys = omega (arith, count-append id xs ys)

-- A turn keeps the receipts and starts nothing of `id`.
pub record Quiet (id : String) (a : Agent) (t : List Effect × Agent) : Type 0 where
  pub none_started : count_starts id t.0 ≡ 0
  pub kept : contains id a.operations ≡ true → contains id t.1.operations ≡ true

-- A turn starts one task of `id`, whose receipt it has written.
pub record Starts (id : String) (a : Agent) (t : List Effect × Agent) : Type 0 where
  pub one_started : count_starts id t.0 ≡ 1
  pub fresh : contains id a.operations ≡ false
  pub written : contains id t.1.operations ≡ true

abbrev pub plain_turn : Turn → List Effect × Agent
plain_turn t = (effects_of t, t.1)

pub emit-Quiet :
    (set : Setting) (o : Outgoing) (id : String) (a : Agent) → Quiet id a (emit set o a)
unfolding emit send_new
emit-Quiet set o id a = record { none_started = refl; kept = λ h. h }

pub same-Quiet : (id : String) (a b : Agent) → b.operations ≡ a.operations → Quiet id a ([], b)
same-Quiet id a b e = record { none_started = refl; kept = λ h. ap (contains id) e ∙ h }

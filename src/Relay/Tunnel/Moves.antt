-- ===== src/Relay/Tunnel/Moves.antt =====
-- What a caller can rely on: an operation waits, ends with a guess of the relay, or is settled.
use mathlib.Core.Path.{subst}
use codito_mcp.Common.{
  ℕ, ◌≤◌, ◌≡◌, refl, sym, inl, inr, true, false, Option, none, some, arith, if◌then◌else◌, nat_Eq,
  list_Eq, option_Eq, string_Eq, Bool-cases, ap,
}
use codito_mcp.Db.Json.{Fields}
use codito_mcp.Relay.Types.{Status, Operation, in_progress}
use codito_mcp.Relay.Tunnel.Record.{rank}

-- `waiting n`: how far the operation has come; `settled`: its result is kept
pub data Phase : Type 0 where
  waiting : ℕ → Phase
  guessed : Phase
  settled : Status → Fields → Phase

unfoldable pub ended_phase : Status → Option Fields → Phase
ended_phase status none = guessed
ended_phase status (some result) = settled status result

unfoldable pub phase : Operation → Phase
phase op =
    if in_progress op.status then waiting (rank op.status) else ended_phase op.status op.result

-- The moves: on, to an end, and from a guess to a result; never back, and never off a result.
pub data Moves : Phase → Phase → Type 0 where
  stays : (p : Phase) → Moves p p
  goes_on : (m n : ℕ) → m ≤ n → Moves (waiting m) (waiting n)
  gives_up : (m : ℕ) → Moves (waiting m) guessed
  ends : (m : ℕ) (status : Status) (result : Fields) → Moves (waiting m) (settled status result)
  resolves : (status : Status) (result : Fields) → Moves guessed (settled status result)

pub Moves-then : (p q r : Phase) → Moves p q → Moves q r → Moves p r
Moves-then p q r (stays _) b = b
Moves-then p q r a (stays _) = a
Moves-then p q r (goes_on m n le) (goes_on _ k le') = goes_on m k (omega arith)
Moves-then p q r (goes_on m n le) (gives_up _) = gives_up m
Moves-then p q r (goes_on m n le) (ends _ status result) = ends m status result
Moves-then p q r (gives_up m) (resolves status result) = ends m status result

-- a step on the table, seen at one row: the operation it had and the one it has
pub settled-final :
    (status : Status) (result : Fields) (q : Phase)
    → Moves (settled status result) q
    → q ≡ settled status result
settled-final status result q (stays _) = refl

-- every end is one move away from waiting
pub ended-Moves :
    (m : ℕ) (status : Status) (result : Option Fields)
    → Moves (waiting m) (ended_phase status result)
unfolding ended_phase
ended-Moves m status none = gives_up m
ended-Moves m status (some result) = ends m status result

-- an operation that has not ended may be updated to any that is no further back
pub waiting-Moves :
    (old new : Operation)
    → in_progress old.status ≡ true
    → (in_progress new.status ≡ true → rank old.status ≤ rank new.status)
    → Moves (phase old) (phase new)
unfolding phase
waiting-Moves old new live on = rw live (elim (Bool-cases (in_progress new.status)) [
  | inl h ↦ rw h (goes_on (rank old.status) (rank new.status) (on h))
  | inr h ↦ rw h (ended-Moves (rank old.status) new.status new.result)
])

pub guessed-Moves :
    (old : Operation) (status : Status) (result : Fields)
    → in_progress old.status ≡ false
    → old.result ≡ none
    → Moves (phase old) (settled status result)
unfolding phase ended_phase
guessed-Moves old status result ended empty = rw ended (
    subst (λ r. Moves (ended_phase old.status r) (settled status result)) (sym empty)
      (resolves status result))

pub phase-ended :
    {result : Fields} (op : Operation)
    → in_progress op.status ≡ false
    → op.result ≡ some result
    → phase op ≡ settled op.status result
unfolding phase ended_phase
phase-ended op ended kept = rw ended (ap (ended_phase op.status) kept)

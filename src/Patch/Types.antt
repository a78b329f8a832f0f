-- ===== src/Patch/Types.antt =====
-- `Hunk` and `PatchSection` of agent/src/codito_agent/patching.py.
use codito_mcp.Common.{◌∷◌, [], List, Option, Bool, false, true}
use codito_mcp.Text.{Text}

-- the first character of a hunk line: " ", "+" or "-"
pub data Prefix : Type 0 where
  context plus minus : Prefix

pub record Hunk : Type 0 where
  pub lines : List (Prefix × Text)

pub data Action : Type 0 where
  add update delete move : Action

pub record PatchSection : Type 0 where
  pub action : Action
  pub path : Text
  pub destination : Option Text
  pub add_lines : List Text
  pub hunks : List Hunk

-- `[text for prefix, text in lines if prefix != "+"]`
unfoldable pub old_lines : List (Prefix × Text) → List Text
old_lines [] = []
old_lines ((plus, t) ∷ ls) = old_lines ls
old_lines ((context, t) ∷ ls) = t ∷ old_lines ls
old_lines ((minus, t) ∷ ls) = t ∷ old_lines ls

-- `[text for prefix, text in lines if prefix != "-"]`
unfoldable pub new_lines : List (Prefix × Text) → List Text
new_lines [] = []
new_lines ((minus, t) ∷ ls) = new_lines ls
new_lines ((context, t) ∷ ls) = t ∷ new_lines ls
new_lines ((plus, t) ∷ ls) = t ∷ new_lines ls

-- `prefix in {"+", "-"}` for some line
unfoldable pub has_change : List (Prefix × Text) → Bool
has_change [] = false
has_change ((context, t) ∷ ls) = has_change ls
has_change ((_, t) ∷ ls) = true

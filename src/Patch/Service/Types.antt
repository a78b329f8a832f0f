-- ===== src/Patch/Service/Types.antt =====
-- The state of a `PatchService` with its database, its journals and the files, and what a call of it is
-- given.
use codito_mcp.Common.{ℕ, String, Bool, Option, List, map, ok, err}
use codito_mcp.Common.Dict.{Dict}
use codito_mcp.Text.{Text, Bytes}
use codito_mcp.Errors.{AgentError, Raises}
use codito_mcp.Models.{Project}
use codito_mcp.Gate.{Gate}
use codito_mcp.Db.Json.{Fields}
use codito_mcp.Db.Projects.{Projects}
use codito_mcp.Db.Idempotency.{Key, Owner, Rows}
use codito_mcp.Patch.Commit.{Files}
use codito_mcp.Patch.Preflight.{Tree, Change}
use codito_mcp.Patch.Recovery.{Manifest}

-- `journals` has the transactions that have a manifest, by their journal ids.
pub record Service : Type 0 where
  pub files : Files
  pub rows : Rows
  pub journals : Dict String Manifest
  pub gate : Gate
  pub projects : Projects

pub record Request : Type 0 where
  pub project_id : String
  pub patch : Text
  pub base_hashes : Dict Text (Option String)
  pub idempotency_key : String
  pub dry_run : Bool
  pub owner : Owner
  pub reconcile_incomplete : Bool
  pub scope_path : Option Text
  pub target_project : Option Project

-- `result`; `journal_id` is there where the patch is applied
pub record PatchResult : Type 0 where
  pub project_id : String
  pub idempotency_key : String
  pub dry_run : Bool
  pub applied : Bool
  pub files : List Change
  pub journal_id : Option String

-- What `_verify_commit_preconditions` finds: a path that is revalidated, one that exists, and the bytes
-- that are read, unless reading raises.
pub record Present : Type 0 where
  pub is_valid : Text → Bool
  pub is_there : Text → Bool
  pub read : Text → Option Bytes

-- What a call meets: the answers of `check`, the files as the preflight and the commit find them, what
-- raises on the way of the commit, a fresh journal id, the time. `request_digest` is the digest of the
-- request's JSON, and `to_json` writes a result as JSON, whose texts are of another type than paths.
pub record Calls : Type 0 where
  pub check : ℕ → Raises (Unit {0})
  pub tree : Tree
  pub present : Present
  pub fault : Option (AgentError × ℕ)
  pub journal_id : String
  pub now : ℕ
  pub is_root : Text → Text → Bool
  pub request_digest : Text → Dict Text (Option String) → Bool → Option Text → String
  pub to_json : PatchResult → Fields

abbrev pub key_of : Request → Key
key_of r = record {
  project_id = r.project_id;
  capability = "project_apply_patch";
  idempotency_key = r.idempotency_key;
}

abbrev pub registered : Service → List String
registered s = map (λ p. p.0) s.projects

-- a call that may raise, in the midst of a method on the state
unfoldable pub with_ok {ℓ κ} :
    {A : Type ℓ} {B : Type κ} → Raises A → Service → (A → Raises B × Service) → Raises B × Service
with_ok (err e) s next = (err e, s)
with_ok (ok a) s next = next a

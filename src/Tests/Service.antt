-- ===== src/Tests/Service.antt =====
-- A patch that is applied twice, and one whose commit fails, with digests that spell the bytes.
use codito_mcp.Patch.Service.Interrupted.{restarted}
use codito_mcp.Patch.Service.Crashed.{crashed, IsApplied}
use codito_mcp.Patch.Service.Announced.{apply_announced}
use codito_mcp.Patch.Service.Redelivered.{apply_redelivered}
use codito_mcp.Patch.Service.Apply.{apply_fresh}
use codito_mcp.Patch.Preflight.{Preflight}
use codito_mcp.Patch.Types.{add}
use codito_mcp.Patch.Recovery.{writing}
use codito_mcp.Common.{◌⊎◌}
use codito_mcp.Text.{Bytes, codes}
use codito_mcp.Common.{
  ℕ, zero, suc, String, ◌≡◌, refl, sym, ap, ◌∙◌, true, false, none, some, List, [], ◌∷◌, ok, err,
  if◌then◌else◌, ◌==◌, nat_Eq, string_Eq, list_Eq, option_Eq,
}
use codito_mcp.Errors.{plain, python_error, internal_error}
use codito_mcp.Gate.{empty}
use codito_mcp.Models.{Project, isolated, succeeded as succeeded_state}
use codito_mcp.Db.Projects.{Row}
use codito_mcp.Db.Json.{Fields, field, end_fields, bool}
use codito_mcp.Db.Idempotency.{Owner}
use codito_mcp.Patch.Preflight.{Tree}
use codito_mcp.Patch.Service.Types.{Service, Request, Calls, key_of}
use codito_mcp.Patch.Service.Apply.{Prepared, apply, service_program}
use codito_mcp.Patch.Service.Replayed.{apply_replayed}
use codito_mcp.Patch.Service.Undone.{IsUndone, apply-IsUndone}

-- each byte is a bar behind as many letters
tally : ℕ → String → String
tally zero s = String.◌∷◌ "|" s
tally (suc n) s = String.◌∷◌ "a" (tally n s)

spelt : Bytes → String
spelt [] = ""
spelt (n ∷ raw) = tally n (spelt raw)

bump : List ℕ → List ℕ
bump [] = []
bump (n ∷ ns) = suc n ∷ ns

read_spelt : List ℕ → Bytes
read_spelt [] = []
read_spelt (c ∷ s) = let rest = read_spelt s in if c == b'|' then 0 ∷ rest else bump rest

read-tally : (n : ℕ) (s : String) → read_spelt (codes (tally n s)) ≡ n ∷ read_spelt (codes s)
unfolding tally read_spelt bump
read-tally zero s = refl
read-tally (suc n) s = ap bump (read-tally n s)

read-spelt : (raw : Bytes) → read_spelt (codes (spelt raw)) ≡ raw
unfolding spelt read_spelt
read-spelt [] = refl
read-spelt (n ∷ raw) = read-tally n (spelt raw) ∙ ap (λ s. n ∷ s) (read-spelt raw)

spelt-injective : (a b : Bytes) → spelt a ≡ spelt b → a ≡ b
spelt-injective a b h = sym (read-spelt a) ∙ ap (λ s. read_spelt (codes s)) h ∙ read-spelt b

abbrev demo : Project
demo = record {
  project_id = "project";
  title = codes "Project";
  root = codes "/p";
  root_fingerprint = "root";
  mode = isolated;
  enabled = true;
}

abbrev owner : Owner
owner = record {
  account_id = "account";
  grant_id = "grant";
  link_id = "link";
  device_id = "device";
}

abbrev row : Row
row = record {
  title = codes "Project";
  root = codes "/p";
  root_fingerprint = "root";
  mode = isolated;
  enabled = true;
  created_at = 1;
  updated_at = 1;
}

abbrev before : Service
before = record {
  files = (codes "b", codes "old") ∷ [];
  rows = [];
  journals = [];
  gate = empty;
  projects = ("project", row) ∷ [];
}

abbrev patch_request : Request
patch_request = record {
  project_id = "project";
  patch = codes "*** Begin Patch\n*** Add File: a\n+x\n*** End Patch";
  base_hashes = (codes "a", none) ∷ [];
  idempotency_key = "the-key-1";
  dry_run = false;
  owner = owner;
  reconcile_incomplete = true;
  scope_path = none;
  target_project = none;
}

abbrev tree : Tree
tree = record {
  check = λ p. ok tt;
  resolve = λ p must_exist. ok false;
  stat_size = λ p. 0;
  read = λ p. err (plain python_error);
  sha = spelt;
  linesep = codes "\n";
}

abbrev calls : Calls
calls = record {
  check = λ n. ok tt;
  tree = tree;
  present = record { is_valid = λ p. true; is_there = λ p. false; read = λ p. none };
  fault = none;
  journal_id = "journal";
  now = 5;
  is_root = λ root scope. false;
  request_digest = λ patch hashes dry_run scope. spelt patch;
  to_json = λ r. field "dry_run" (bool r.dry_run) end_fields;
}

abbrev answer : Fields
answer = field "dry_run" (bool false) end_fields

abbrev ready : Prepared
ready = record {
  hashes = (codes "a", none) ∷ [];
  digest = spelt patch_request.patch;
  project = demo;
}

abbrev after : Service
after = record before {
  files = (codes "b", codes "old") ∷ (codes "a", codes "x\n") ∷ [];
  rows =
      (
        key_of patch_request,
        record {
          owner = owner;
          request_digest = spelt patch_request.patch;
          state = succeeded_state;
          result = some answer;
          job_id = none;
          created_at = 5;
          updated_at = 5;
        },
      )
      ∷ [];
}

apply-request : apply calls patch_request before ≡ (ok answer, after)
unfolding service_program spelt tally
apply-request = refl

-- at another time, with another journal id
abbrev later : Calls
later = record calls { now = 9; journal_id = "another" }

apply_replayed_example : apply later patch_request after ≡ (ok answer, after)
unfolding service_program spelt tally
apply_replayed_example =
    apply_replayed calls later patch_request ready ready answer before after (λ x. refl) refl refl
      apply-request refl refl

-- the first replacement is followed by a failure
abbrev failing : Calls
failing = record calls { fault = some (plain internal_error, 1) }

-- the gate is free again
abbrev undone : Service
undone = (apply failing patch_request before).1

apply-IsUndone_example : IsUndone patch_request before undone
unfolding service_program spelt tally
apply-IsUndone_example =
    apply-IsUndone failing patch_request before undone (plain internal_error) spelt-injective refl
      refl refl

abbrev adding : Preflight
adding = record {
  desired = (codes "a", some (codes "x\n")) ∷ [];
  validated = (codes "a", false) ∷ [];
  changes =
      record {
        action = add;
        source = codes "a";
        destination = none;
        old_hash = none;
        new_hash = some (spelt (codes "x\n"));
      }
      ∷ [];
}

-- the crash came when the file was there, and before the journal said so
abbrev found : Service
found = restarted later before (crashed later patch_request ready adding 5 before (writing 1))

apply_redelivered_example :
    (t : Service) × ((IsApplied later patch_request ready adding before t
        × (apply later patch_request found ≡ (ok answer, t)))
      ⊎ (IsUndone patch_request before t
          × (apply later patch_request found ≡ apply_fresh later patch_request ready t)))
unfolding service_program spelt tally
apply_redelivered_example =
    apply_redelivered later patch_request ready adding 5 before demo (writing 1) refl refl refl refl
      spelt-injective (refl, tt) refl refl refl

-- the row of the attempt that is done
apply_announced_example : apply later patch_request after ≡ (ok answer, after)
unfolding service_program spelt tally codito_mcp.Patch.Service.Duplicate.reconcile_duplicate
    codito_mcp.Patch.Service.Duplicate.duplicate_digest
    codito_mcp.Patch.Service.Duplicate.reconcile_prior
apply_announced_example =
    apply_announced calls later patch_request ready (some answer) after after refl refl refl

-- ===== src/Tests/Recovery.antt =====
-- A crash in the rollback of a commit, and one at its end.
use codito_mcp.Common.{
  String, ◌≡◌, ◌⊎◌, refl, true, false, none, some, List, [], ◌∷◌, ok, any, ◌==◌, list_Eq, Eq, arith,
  nat_Eq, if◌then◌else◌, is_some, list_beq,
}
use codito_mcp.Text.{Text, Bytes, codes}
use codito_mcp.Common.Dict.{lookup, contains}
use codito_mcp.Db.Json.{end_fields, field, bool}
use codito_mcp.Patch.Commit.{Desired}
use codito_mcp.Patch.Recovery.{Manifest, Disk, prepared, undoing, disk_at, recover}
use codito_mcp.Patch.Recovery.Atomic.{IsRolledBack, IsCommitted, recover-atomic}

abbrev wanted : Desired
wanted = (codes "x", some (codes "new")) ∷ (codes "y", some (codes "two")) ∷ []

abbrev order : List Text
order = codes "x" ∷ codes "y" ∷ []

wanted-covered : (q : Text) → contains q wanted ≡ true → any (λ p. p == q) order ≡ true
unfolding lookup
wanted-covered q h = ground arith

abbrev manifest : Manifest
manifest = record {
  state = prepared;
  records = [];
  key = record {
    project_id = "project";
    capability = "project_apply_patch";
    idempotency_key = "key";
  };
  owner = record {
    account_id = "account";
    grant_id = "grant";
    link_id = "link";
    device_id = "device";
  };
  root_fingerprint = "root";
  request_digest = "digest";
  result = field "ok" (bool true) end_fields;
}

abbrev disk : Disk
disk = record { files = (codes "x", codes "old") ∷ []; manifest = none; rows = [] }

abbrev crashed : Disk
crashed = disk_at (λ (raw : Bytes). raw) order wanted manifest disk (undoing 2 1)

recover-atomic_example :
    IsRolledBack manifest disk (recover (λ raw. raw) ("project" ∷ []) 5 crashed)
    ⊎ IsCommitted wanted manifest disk (recover (λ raw. raw) ("project" ∷ []) 5 crashed)
unfolding lookup codito_mcp.Common.list_beq codito_mcp.Db.Idempotency.put_idempotency
    codito_mcp.Db.Idempotency.reused codito_mcp.Db.Operations.references
recover-atomic_example =
    recover-atomic (λ raw. raw) (λ a b h. h) ("project" ∷ []) 5 order wanted manifest disk
      (undoing 2 1) (refl, (refl, tt)) wanted-covered refl

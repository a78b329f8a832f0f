-- ===== src/Patch/Recovery.antt =====
-- The journal of a commit and `_recover_transaction`, of agent/src/codito_agent/patching.py. A
-- manifest is replaced in one step. The target that the manifest names is found as it was.
pub mod Atomic
use codito_mcp.Common.{ℕ, String, Option, none, some, List, ok, err, drop, length, Eq}
use codito_mcp.Text.{Text, Bytes}
use codito_mcp.Errors.{Raises}
use codito_mcp.Models.{succeeded}
use codito_mcp.Db.Json.{Fields}
use codito_mcp.Db.Idempotency.{Key, Owner, Rows, put_idempotency, delete_idempotency}
use codito_mcp.Patch.Commit.{
  Files, Desired, write_first, Record, records, restore_from_last, restore,
}

pub data ManifestState : Type 0 where
  prepared committing committed rolled_back : ManifestState

pub record Manifest : Type 0 where
  pub state : ManifestState
  pub records : List Record
  pub key : Key
  pub owner : Owner
  pub root_fingerprint : String
  pub request_digest : String
  pub result : Fields

-- what a crash leaves: the project's files, the journal's manifest with its backups, the table
pub record Disk : Type 0 where
  pub files : Files
  pub manifest : Option Manifest
  pub rows : Rows

-- Where a crash meets `_commit`: before the manifest, after it, after `n` changes of files, in the
-- rollback of `n` changes with the first `k` records not yet restored, after it, or at the end.
pub data Point : Type 0 where
  unprepared ready : Point
  writing : ℕ → Point
  undoing : ℕ → ℕ → Point
  undone : ℕ → Point
  finished : Point

-- the manifest that `_commit` writes, in a state
abbrev pub in_state : ManifestState → List Text → Desired → Manifest → Files → Manifest
in_state state order ds m files = record m { state = state; records = records order ds files }

module _ {H : Type 0} ⦃e : Eq H⦄ (sha : Bytes → H) where
  -- the end of a rollback: the key may be used again, and the journal goes
  abbrev pub forgotten : Manifest → Files → Disk → Disk
  forgotten m files d = record {
    files = files;
    manifest = none;
    rows = delete_idempotency m.key d.rows;
  }

  unfoldable pub recover_committed : List String → ℕ → Manifest → Disk → Raises (Unit {0}) × Disk
  recover_committed projects now m d =
      let stored =
        put_idempotency projects m.key m.owner m.request_digest succeeded (some m.result) now
          d.rows in
      elim stored.0 [
        | err error ↦ (err error, record d { rows = stored.1 })
        | ok _ ↦ (ok tt, record d { rows = stored.1; manifest = none })
      ]

  unfoldable pub recover_unfinished : Manifest → Disk → Raises (Unit {0}) × Disk
  recover_unfinished m d =
      let undone = restore sha m.records d.files in
      elim undone.0 [
        | err error ↦ (err error, record d { files = undone.1 })
        | ok _ ↦ (ok tt, forgotten m undone.1 d)
      ]

  -- `_recover_transaction`
  unfoldable pub recover_transaction : List String → ℕ → Manifest → Disk → Raises (Unit {0}) × Disk
  recover_transaction projects now m d = elim m.state [
    | committed ↦ recover_committed projects now m d
    | rolled_back ↦ (ok tt, forgotten m d.files d)
    | _ ↦ recover_unfinished m d
  ]

  -- `recover`, of one journal: one without a manifest is passed over
  unfoldable pub recover : List String → ℕ → Disk → Raises (Unit {0}) × Disk
  recover projects now d = elim d.manifest [
    | none ↦ (ok tt, d)
    | some m ↦ recover_transaction projects now m d
  ]

  -- what is on the disk at a point of a commit that found the disk `d`
  unfoldable pub disk_at : List Text → Desired → Manifest → Disk → Point → Disk
  disk_at order ds m d unprepared = record d { manifest = none }
  disk_at order ds m d ready = record d { manifest = some (in_state prepared order ds m d.files) }
  disk_at order ds m d (writing n) = record d {
    files = write_first n ds d.files;
    manifest = some (in_state committing order ds m d.files);
  }
  disk_at order ds m d (undoing n k) = record d {
    files =
        (restore_from_last sha (drop k (records order ds d.files)) (write_first n ds d.files)).1;
    manifest = some (in_state committing order ds m d.files);
  }
  disk_at order ds m d (undone n) = record d {
    files = (restore_from_last sha (records order ds d.files) (write_first n ds d.files)).1;
    manifest = some (in_state rolled_back order ds m d.files);
  }
  disk_at order ds m d finished = record d {
    files = write_first (length ds) ds d.files;
    manifest = some (in_state committed order ds m d.files);
  }

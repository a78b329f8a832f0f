-- ===== src/Patch/Recovery/Atomic.antt =====
-- The recovery of a crash at any point of a commit.
use codito_mcp.Common.{
  ℕ, zero, suc, String, ◌≡◌, refl, sym, ap, ◌∙◌, ◌⊎◌, inl, inr, true, Option, none, some, List, [],
  ◌∷◌, arith, ok, drop, length, Eq, any, All, Bool-cases, ◌==◌, list_Eq, nat_Eq,
}
use codito_mcp.Text.{Text, Bytes}
use codito_mcp.Errors.{Raises}
use codito_mcp.Models.{succeeded}
use codito_mcp.Common.Dict.{Unique, lookup, contains}
use codito_mcp.Db.Idempotency.{Rows, put_idempotency, get_idempotency, delete_idempotency, encoded}
use codito_mcp.Db.Idempotency.Journal.{put-get}
use codito_mcp.Patch.Commit.{Files, Desired, write_first, Record, records, restore_from_last}
use codito_mcp.Patch.Commit.Rollback.{restore_from_last-lookup, restore-quiet}
use codito_mcp.Patch.Commit.Written.{
  lookup-write_first, lookup-write_first_other, records-made, records-middle, records-order,
}
use codito_mcp.Patch.Recovery.{
  Manifest, Disk, prepared, committing, committed, in_state, Point, unprepared, ready, writing,
  undoing, undone, finished, disk_at, recover, recover_transaction, recover_unfinished,
  recover_committed,
}

-- each file is as before the commit, or as after `n` changes
abbrev IsBetween : ℕ → Desired → Files → Files → Type 0
IsBetween n ds files f =
    (q : Text) → (lookup q f ≡ lookup q files) ⊎ (lookup q f ≡ lookup q (write_first n ds files))

abbrev IsMiddle : Files → Record → Type 0
IsMiddle f r = (lookup r.path f ≡ r.original) ⊎ (lookup r.path f ≡ r.desired)

records-IsMiddle :
    (n : ℕ) (order : List Text) (ds : Desired) (files f : Files)
    → Unique ds
    → IsBetween n ds files f
    → All (IsMiddle f) (records order ds files)
unfolding records
records-IsMiddle n [] ds files f u h = tt
records-IsMiddle n (p ∷ ps) ds files f u h = (
  elim (h p) [
    | inl old ↦ inl old
    | inr new ↦ elim (lookup-write_first n ds files p u) [
      | inl same ↦ inl (new ∙ same)
      | inr wanted ↦ inr (new ∙ wanted)
    ]
  ],
  records-IsMiddle n ps ds files f u h,
)

All-drop : (P : Record → Type 0) (k : ℕ) (rs : List Record) → All P rs → All P (drop k rs)
All-drop P zero rs h = h
All-drop P (suc k) [] h = tt
All-drop P (suc k) (r ∷ rs) (here, rest) = All-drop P k rs rest

module _ {H : Type 0} ⦃e : Eq H⦄ (sha : Bytes → H)
    (injective : (a b : Bytes) → sha a ≡ sha b → a ≡ b) where
  -- a rollback that has done some of its rounds
  undoing-IsBetween :
      (n k : ℕ) (order : List Text) (ds : Desired) (files : Files)
      → Unique ds
      → IsBetween n ds files
          (restore_from_last sha (drop k (records order ds files)) (write_first n ds files)).1
  undoing-IsBetween n k order ds files u q =
      let rs = records order ds files in
      let (quiet, back) =
        restore_from_last-lookup sha injective files (write_first n ds files) (drop k rs)
          (All-drop (λ r. r.original ≡ lookup r.path files) k rs (records-made order ds files))
          (All-drop (IsMiddle (write_first n ds files)) k rs (records-middle n order ds files u)) in
      elim (back q) [ inl old ↦ inl old | inr (same, absent) ↦ inr same ]

  -- a rollback from there puts everything back
  restored :
      (n : ℕ) (order : List Text) (ds : Desired) (files f : Files)
      → Unique ds
      → ((q : Text) → contains q ds ≡ true → any (λ p. p == q) order ≡ true)
      → IsBetween n ds files f
      → ((restore_from_last sha (records order ds files) f).0 ≡ [])
        × ((q : Text)
            → lookup q (restore_from_last sha (records order ds files) f).1 ≡ lookup q files)
  restored n order ds files f u covered between =
      let rs = records order ds files in
      let (quiet, back) =
        restore_from_last-lookup sha injective files f rs (records-made order ds files)
          (records-IsMiddle n order ds files f u between) in
      (
        quiet,
        λ q. elim (back q) [
          | inl old ↦ old
          | inr (same, absent) ↦ elim (between q) [
            | inl old ↦ same ∙ old
            | inr new ↦ elim (Bool-cases (contains q ds)) [
              | inl wanted ↦ absurd (
                  let k = sym (records-order q order ds files ∙ covered q wanted) ∙ absent in
                  ground arith)
              | inr other ↦ same ∙ new ∙ lookup-write_first_other n ds files q other
            ]
          ]
        ],
      )

-- as if the commit had not been
abbrev pub IsRolledBack : Manifest → Disk → Raises (Unit {0}) × Disk → Type 0
IsRolledBack m d r =
    (r.0 ≡ ok tt)
    × (r.1.manifest ≡ none)
    × ((q : Text) → lookup q r.1.files ≡ lookup q d.files)
    × ((r.1.rows ≡ d.rows) ⊎ (r.1.rows ≡ delete_idempotency m.key d.rows))

-- the whole change is there, and its owner reads its result
abbrev pub IsCommitted : Desired → Manifest → Disk → Raises (Unit {0}) × Disk → Type 0
IsCommitted ds m d r =
    (r.0 ≡ ok tt)
    × (r.1.manifest ≡ none)
    × (r.1.files ≡ write_first (length ds) ds d.files)
    × (get_idempotency m.key m.owner r.1.rows
        ≡ ok (
            some (record {
              request_digest = m.request_digest;
              state = succeeded;
              result = encoded (some m.result);
            })))

abbrev put_result : List String → ℕ → Manifest → Disk → Raises (Unit {0}) × Rows
put_result projects now m d =
    put_idempotency projects m.key m.owner m.request_digest succeeded (some m.result) now d.rows

module _ {H : Type 0} ⦃e : Eq H⦄ (sha : Bytes → H)
    (injective : (a b : Bytes) → sha a ≡ sha b → a ≡ b) where
  unfinished-IsRolledBack :
      (m k : Manifest) (d f : Disk)
      → k.key ≡ m.key
      → f.rows ≡ d.rows
      → (restore_from_last sha k.records f.files).0 ≡ []
      → ((q : Text) → lookup q (restore_from_last sha k.records f.files).1 ≡ lookup q d.files)
      → IsRolledBack m d (recover_unfinished sha k f)
  unfolding recover_unfinished
  unfinished-IsRolledBack m k d f named same quiet back =
      let done = restore-quiet sha injective k.records f.files quiet in
      rw (done, recover_unfinished)
        (
          refl,
          refl,
          λ q. ap (λ (r : Raises (Unit {0}) × Files). lookup q r.1) done ∙ back q,
          inr (ap (λ x. delete_idempotency x f.rows) named ∙ ap (delete_idempotency m.key) same),
        )

  committed-IsCommitted :
      (projects : List String) (now : ℕ) (ds : Desired) (m : Manifest) (rs : List Record) (d : Disk)
      (left : Option Manifest)
      → (put_result projects now m d).0 ≡ ok tt
      → IsCommitted ds m d (
          recover_committed sha projects now
            (record m { state = committed; records = rs })
            (record d { files = write_first (length ds) ds d.files; manifest = left }))
  unfolding recover_committed
  committed-IsCommitted projects now ds m rs d left stored =
      rw (stored, recover_committed)
        (
          refl,
          refl,
          refl,
          put-get projects m.key m.owner m.request_digest succeeded (some m.result) now d.rows
              stored,
        )

  -- A commit is all or nothing over a crash: wherever a crash meets it, in its writes, in its rollback
  -- or in between, the recovery succeeds and leaves either every file as before the commit, with the
  -- idempotency key free or as it was, or the whole change, with the result that the owner of the key
  -- reads. No two contents have the same digest, the paths are distinct and have records, nobody else
  -- writes the files, and the table takes the result.
  pub recover-atomic :
      (projects : List String) (now : ℕ) (order : List Text) (ds : Desired) (m : Manifest)
      (d : Disk) (point : Point)
      → Unique ds
      → ((q : Text) → contains q ds ≡ true → any (λ p. p == q) order ≡ true)
      → (put_idempotency projects m.key m.owner m.request_digest succeeded
          (some m.result)
          now
          d.rows).0
        ≡ ok tt
      → IsRolledBack m d (recover sha projects now (disk_at sha order ds m d point))
        ⊎ IsCommitted ds m d (recover sha projects now (disk_at sha order ds m d point))
  unfolding recover recover_transaction disk_at write_first
  recover-atomic projects now order ds m d unprepared u covered stored =
      inl (refl, refl, λ q. refl, inl refl)
  recover-atomic projects now order ds m d ready u covered stored =
      let (quiet, back) =
        restored sha injective 0 order ds d.files d.files u covered (λ q. inl refl) in
      inl
        (unfinished-IsRolledBack m (in_state prepared order ds m d.files) d _ refl refl quiet back)
  recover-atomic projects now order ds m d (writing n) u covered stored =
      let f = write_first n ds d.files in
      let (quiet, back) = restored sha injective n order ds d.files f u covered (λ q. inr refl) in
      inl (
        unfinished-IsRolledBack m (in_state committing order ds m d.files) d _ refl refl quiet back)
  recover-atomic projects now order ds m d (undoing n k) u covered stored =
      let between = undoing-IsBetween sha injective n k order ds d.files u in
      let (quiet, back) = restored sha injective n order ds d.files _ u covered between in
      inl (
        unfinished-IsRolledBack m (in_state committing order ds m d.files) d _ refl refl quiet back)
  recover-atomic projects now order ds m d (undone n) u covered stored =
      let f = write_first n ds d.files in
      let (quiet, back) = restored sha injective n order ds d.files f u covered (λ q. inr refl) in
      inl (refl, refl, back, inr refl)
  recover-atomic projects now order ds m d finished u covered stored =
      inr (committed-IsCommitted projects now ds m (records order ds d.files) d _ stored)

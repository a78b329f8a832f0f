-- ===== src/Patch/Service/Interrupted.antt =====
-- What a crash in the midst of `apply` leaves, and the journals at the redelivery.
use codito_mcp.Errors.{Raises}
use codito_mcp.Patch.Recovery.{recover}
use codito_mcp.Gate.{Gate}
use codito_mcp.Patch.Service.Journals.{after_recovery}
use codito_mcp.Common.{
  String, ◌≡◌, refl, ap, inl, inr, Bool, true, false, none, some, [], ◌∷◌, arith, ok, ◌==◌, nat_Eq,
  string_Eq, option_Eq, any, Bool-cases, sym, ◌∙◌,
}
use codito_mcp.Common.Dict.{Dict, lookup, insert, remove}
use codito_mcp.Gate.{empty, Gate}
use codito_mcp.Db.Idempotency.{key_eq, owner_eq}
use codito_mcp.Patch.Recovery.{Manifest, Disk, recover, recover_transaction}
use codito_mcp.Patch.Service.Types.{Service, Request, Calls, key_of, with_ok, registered}
use codito_mcp.Patch.Service.Journals.{recover_journal, reconcile_journals, after_recovery}

-- the service that finds a disk, with the journals of others; a new process has an empty gate
abbrev pub restarted : Calls → Service → Disk → Service
restarted c s d = record s {
  files = d.files;
  rows = d.rows;
  journals = elim d.manifest [ none ↦ s.journals | some m ↦ insert c.journal_id m s.journals ];
  gate = empty;
}

-- no journal is of the request
abbrev pub is_journaled : Request → Dict String Manifest → Bool
is_journaled r journals = any (λ j. key_eq j.1.key (key_of r)) journals

remove-insert_fresh :
    {V : Type 0} (k : String) (v : V) (d : Dict String V)
    → lookup k d ≡ none
    → remove k (insert k v d) ≡ d
unfolding lookup insert remove
remove-insert_fresh k v [] h = ground (arith, string_Eq.beq_iff k k)
remove-insert_fresh k v ((j, w) ∷ d) h = elim (Bool-cases (j == k)) [
  | inl same ↦ absurd (ground (arith, same))
  | inr other ↦
      rw (other, other) (ap (λ x. (j, w) ∷ x) (remove-insert_fresh k v d (ground (arith, other))))
]

pub reconcile_others :
    (c : Calls) (r : Request) (digest : String) (matched : Bool) (journals : Dict String Manifest)
    (s : Service)
    → is_journaled r journals ≡ false
    → reconcile_journals c r digest matched journals s ≡ (ok matched, s)
unfolding reconcile_journals
reconcile_others c r digest matched [] s h = refl
reconcile_others c r digest matched ((id, m) ∷ journals) s h =
    let other : key_eq m.key (key_of r) ≡ false = ground (arith, h) in
    rw (other, reconcile_journals)
      (reconcile_others c r digest matched journals s (ground (arith, h)))

-- the journal of the request is the last one
pub reconcile_own :
    (c : Calls) (r : Request) (digest id : String) (m : Manifest) (matched : Bool)
    (journals : Dict String Manifest) (s : Service)
    → is_journaled r journals ≡ false
    → lookup id journals ≡ none
    → key_eq m.key (key_of r) ≡ true
    → (m.request_digest == digest) ≡ true
    → owner_eq m.owner r.owner ≡ true
    → (recover_journal c id m s).0 ≡ ok tt
    → reconcile_journals c r digest matched (insert id m journals) s
      ≡ (ok true, (recover_journal c id m s).1)
unfolding reconcile_journals insert lookup with_ok
reconcile_own c r digest id m matched [] s h new k d o done =
    rw (k, d, o, done, reconcile_journals, with_ok) refl
reconcile_own c r digest id m matched ((i, n) ∷ journals) s h new k d o done =
    let other : key_eq n.key (key_of r) ≡ false = ground (arith, h) in
    let apart : (i == id) ≡ false = ground (arith, new) in
    rw (apart, other, reconcile_journals)
      (reconcile_own c r digest id m matched journals s (ground (arith, h))
        (ground (arith, new, apart)) k d o done)

-- what the recovery of a disk leaves of the service
abbrev pub recovered : Calls → Service → Disk → Raises (Unit {0}) × Disk
recovered c s d = recover c.tree.sha (registered s) c.now d

-- the same, in the midst of a reconciliation
abbrev pub before : Calls → Service → Disk → Gate → Service
before c s d held = record (restarted c s d) { gate = held }

module _ (c : Calls) (s : Service) (d : Disk) (m : Manifest) (held : Gate)
    (found : d.manifest ≡ some m) where
  pub transaction-recovered :
      recover_transaction c.tree.sha (registered s) c.now m d ≡ recovered c s d
  unfolding recover
  transaction-recovered =
      ap
        (λ x. elim x [
          | none ↦ (ok tt, d)
          | some k ↦ recover_transaction c.tree.sha (registered s) c.now k d
        ])
        (sym found)

  pub recover_journal-recovered :
      recover_journal c c.journal_id m (before c s d held)
      ≡ ((recovered c s d).0, after_recovery c.journal_id (recovered c s d).1 (before c s d held))
  unfolding recover_journal
  recover_journal-recovered =
      let same : ◌≡◌ {A = Disk} (record { files = d.files; manifest = some m; rows = d.rows }) d =
        ap (λ x. record d { manifest = x }) (sym found) in
      ap (λ x. (x.0, after_recovery c.journal_id x.1 (before c s d held)))
        (ap (recover_transaction c.tree.sha (registered s) c.now m) same ∙ transaction-recovered)

  pub journals-recovered :
      lookup c.journal_id s.journals ≡ none
      → (recovered c s d).1.manifest ≡ none
      → (after_recovery c.journal_id (recovered c s d).1 (before c s d held)).journals ≡ s.journals
  journals-recovered new gone =
      let id = c.journal_id in
      ap
        (λ x. elim x [
          | none ↦ remove id (before c s d held).journals
          | some k ↦ insert id k (before c s d held).journals
        ])
        gone
      ∙ ap (λ x. remove id (elim x [ none ↦ s.journals | some k ↦ insert id k s.journals ])) found
      ∙ remove-insert_fresh id m s.journals new

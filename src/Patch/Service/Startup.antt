-- ===== src/Patch/Service/Startup.antt =====
-- `recover`, before the agent takes requests.
use codito_mcp.Patch.Service.Holding.{raised-ok}
use codito_mcp.Patch.Service.Journals.{recover_journal, recover_all}
use codito_mcp.Patch.Service.Types.{Service, Calls, registered}
use codito_mcp.Patch.Recovery.{
  Manifest, ManifestState, Disk, committed, rolled_back, prepared, committing, recover_transaction,
  recover_committed, recover_unfinished,
}
use codito_mcp.Patch.Commit.{restore}
use codito_mcp.Db.Idempotency.{put_idempotency}
use codito_mcp.Models.{succeeded as succeeded_state}
use codito_mcp.Errors.{Raises}
use codito_mcp.Text.{Bytes}
use codito_mcp.Common.Dict.{Dict, lookup, insert, remove, contains, Unique}
use codito_mcp.Common.{
  ℕ, String, ◌≡◌, refl, sym, ap, ◌∙◌, inl, inr, false, none, some, List, [], ◌∷◌, map, arith, ok,
  ◌==◌, string_Eq, Eq, Result-cases, Bool-cases, >>=-eq-ok, ok-injective,
}

module _ {H : Type 0} ⦃e : Eq H⦄ (sha : Bytes → H) where
  committed-gone :
      (ps : List String) (now : ℕ) (m : Manifest) (d : Disk)
      → (recover_committed sha ps now m d).0 ≡ ok tt
      → (recover_committed sha ps now m d).1.manifest ≡ none
  unfolding recover_committed
  committed-gone ps now m d h =
      let stored =
        put_idempotency ps m.key m.owner m.request_digest succeeded_state (some m.result) now
          d.rows in
      elim (Result-cases stored.0) [
        | inr (error, k) ↦ absurd (let q = rw (k, recover_committed) at h in cc)
        | inl (_, k) ↦ rw (k, recover_committed) refl
      ]

  unfinished-gone :
      (m : Manifest) (d : Disk)
      → (recover_unfinished sha m d).0 ≡ ok tt
      → (recover_unfinished sha m d).1.manifest ≡ none
  unfolding recover_unfinished
  unfinished-gone m d h = elim (Result-cases (restore sha m.records d.files).0) [
    | inr (error, k) ↦ absurd (let q = rw (k, recover_unfinished) at h in cc)
    | inl (_, k) ↦ rw (k, recover_unfinished) refl
  ]

  -- a journal that is recovered goes
  recovered-gone :
      (ps : List String) (now : ℕ) (m : Manifest) (d : Disk) (state : ManifestState)
      → m.state ≡ state
      → (recover_transaction sha ps now m d).0 ≡ ok tt
      → (recover_transaction sha ps now m d).1.manifest ≡ none
  unfolding recover_transaction
  recovered-gone ps now m d committed q h =
      rw (q, recover_transaction) (committed-gone ps now m d (rw (q, recover_transaction) at h))
  recovered-gone ps now m d rolled_back q h = rw (q, recover_transaction) refl
  recovered-gone ps now m d prepared q h =
      rw (q, recover_transaction) (unfinished-gone m d (rw (q, recover_transaction) at h))
  recovered-gone ps now m d committing q h =
      rw (q, recover_transaction) (unfinished-gone m d (rw (q, recover_transaction) at h))

remove-absent :
    {V : Type 0} (k : String) (d : Dict String V) → contains k d ≡ false → remove k d ≡ d
unfolding lookup remove
remove-absent k [] h = refl
remove-absent k ((j, w) ∷ d) h = elim (Bool-cases (j == k)) [
  | inl same ↦ absurd (ground (arith, same))
  | inr other ↦ rw other (ap (λ x. (j, w) ∷ x) (remove-absent k d (ground (arith, other))))
]

remove-first :
    {V : Type 0} (k : String) (v : V) (d : Dict String V)
    → contains k d ≡ false
    → remove k ((k, v) ∷ d) ≡ d
unfolding remove
remove-first k v d h = ground (arith, string_Eq.beq_iff k k, remove-absent k d h)

recover_journal-journals :
    (c : Calls) (id : String) (m : Manifest) (journals : Dict String Manifest) (s : Service)
    → s.journals ≡ (id, m) ∷ journals
    → contains id journals ≡ false
    → (recover_journal c id m s).0 ≡ ok tt
    → (recover_journal c id m s).1.journals ≡ journals
unfolding recover_journal
recover_journal-journals c id m journals s here new h =
    let d : Disk = record { files = s.files; manifest = some m; rows = s.rows } in
    let gone = recovered-gone c.tree.sha (registered s) c.now m d m.state refl h in
    ap (λ x. elim x [ none ↦ remove id s.journals | some k ↦ insert id k s.journals ]) gone
    ∙ ap (remove id) here
    ∙ remove-first id m journals new

-- When the agent starts and `recover` succeeds, no journal is left, and each that was there was
-- recovered, once and in their order.
recover_all-empty :
    (c : Calls) (journals : Dict String Manifest) (s t : Service) (ids : List String)
    → Unique journals
    → s.journals ≡ journals
    → recover_all c journals s ≡ (ok ids, t)
    → (t.journals ≡ []) × (ids ≡ map (λ j. j.0) journals)
unfolding recover_all
recover_all-empty c [] s t ids u here h = (
  ap (λ (x : Raises (List String) × Service). x.1.journals) (sym h) ∙ here,
  sym (ok-injective [] ids (ap (λ (x : Raises (List String) × Service). x.0) h)),
)
recover_all-empty c ((id, m) ∷ journals) s t ids (new, u) here h =
    let done = recover_journal c id m s in
    let rest = recover_all c journals done.1 in
    elim (Result-cases done.0) [
      | inr (e, k) ↦ raised-ok (rw (k, recover_all) at h)
      | inl (_, k) ↦
          let q = rw (k, recover_all) at h in
          let (later, e, last) =
            >>=-eq-ok rest.0 (λ ids. ok (id ∷ ids))
              (ap (λ (x : Raises (List String) × Service). x.0) q) in
          let (empty, same) =
            recover_all-empty c journals done.1 t later u
              (recover_journal-journals c id m journals s here new k)
              (ap (λ x. (x, rest.1)) e
                ∙ ap (λ x. (ok later, x)) (ap (λ (x : Raises (List String) × Service). x.1) q)) in
          (empty, sym (ok-injective (id ∷ later) ids last) ∙ ap (λ x. id ∷ x) same)
    ]

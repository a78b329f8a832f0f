-- ===== src/Patch/Service/Kept.antt =====
-- The rows of a request through `_reconcile_incomplete_attempt`.
use mathlib.Core.Path.{subst}
use codito_mcp.Text.{Bytes}
use codito_mcp.Patch.Recovery.{
  Manifest, Disk, committing, committed, prepared, rolled_back, recover_transaction,
  recover_committed, recover_unfinished, ManifestState,
}
use codito_mcp.Common.{
  ℕ, String, ◌≡◌, refl, sym, ap, ◌∙◌, inl, inr, Bool, true, false, Option, none, some, List, [],
  ◌∷◌, ok, ◌==◌, nat_Eq, string_Eq, option_Eq, Result-cases, Bool-cases, ok-injective, Eq,
}
use codito_mcp.Common.Dict.{lookup-remove_self}
use codito_mcp.Patch.Service.Holding.{raised-ok, with_ok-ok, holding-ok}
use codito_mcp.Errors.{Raises}
use codito_mcp.Patch.Commit.{restore}
use codito_mcp.Models.{succeeded as succeeded_state, state_Eq}
use codito_mcp.Db.Json.{Fields}
use codito_mcp.Db.Idempotency.{
  Rows, Recorded, get_idempotency, put_idempotency, delete_idempotency, Key, Owner, key_Eq, key_eq,
  key_eq_iff, owner_eq, owner_eq_iff,
}
use codito_mcp.Db.Idempotency.Journal.{put-get}
use codito_mcp.Patch.Service.Types.{Service, Request, Calls, key_of, registered}
use codito_mcp.Patch.Service.Journals.{
  recover_journal, reconcile_journals, drop_marker, reconcile_incomplete_attempt,
}
use mathlib.Core.Option.{some-injective}

-- the owner's row under the key is of this request, where there is one
abbrev pub IsOf : Key → Owner → String → Rows → Type 0
IsOf k owner digest rows =
    (prior : Recorded)
    → get_idempotency k owner rows ≡ ok (some prior)
    → prior.request_digest ≡ digest

pub found-IsOf :
    (k : Key) (owner : Owner) (digest : String) (rows : Rows) (prior : Recorded)
    → get_idempotency k owner rows ≡ ok (some prior)
    → prior.request_digest ≡ digest
    → IsOf k owner digest rows
found-IsOf k owner digest rows prior found same other h =
    let q = some-injective _ _ (ok-injective _ _ (sym found ∙ h)) in
    ap (λ (x : Recorded). x.request_digest) (sym q) ∙ same

pub get-delete :
    (k : Key) (owner : Owner) (rows : Rows)
    → get_idempotency k owner (delete_idempotency k rows) ≡ ok none
unfolding get_idempotency delete_idempotency
get-delete k owner rows = rw (lookup-remove_self k rows, get_idempotency) refl

deleted-IsOf :
    (k : Key) (owner : Owner) (digest : String) (rows : Rows)
    → IsOf k owner digest (delete_idempotency k rows)
deleted-IsOf k owner digest rows prior h = absurd (let q = sym (get-delete k owner rows) ∙ h in cc)

put-IsOf :
    (ps : List String) (k : Key) (o : Owner) (digest : String) (result : Option Fields) (now : ℕ)
    (rows : Rows)
    → (put_idempotency ps k o digest succeeded_state result now rows).0 ≡ ok tt
    → IsOf k o digest (put_idempotency ps k o digest succeeded_state result now rows).1
put-IsOf ps k o digest result now rows h prior found =
    let q =
      some-injective _ _ (
        ok-injective _ _ (sym (put-get ps k o digest succeeded_state result now rows h) ∙ found)) in
    ap (λ (x : Recorded). x.request_digest) (sym q)

module _ {H : Type 0} ⦃e : Eq H⦄ (sha : Bytes → H) where
  committed-IsOf :
      (ps : List String) (now : ℕ) (m : Manifest) (d : Disk)
      → (recover_committed sha ps now m d).0 ≡ ok tt
      → IsOf m.key m.owner m.request_digest (recover_committed sha ps now m d).1.rows
  unfolding recover_committed
  committed-IsOf ps now m d h =
      let stored =
        put_idempotency ps m.key m.owner m.request_digest succeeded_state (some m.result) now
          d.rows in
      elim (Result-cases stored.0) [
        | inr (error, k) ↦ absurd (let q = rw (k, recover_committed) at h in cc)
        | inl (_, k) ↦
            rw (k, recover_committed)
              (put-IsOf ps m.key m.owner m.request_digest (some m.result) now d.rows k)
      ]

  unfinished-IsOf :
      (m : Manifest) (d : Disk)
      → (recover_unfinished sha m d).0 ≡ ok tt
      → IsOf m.key m.owner m.request_digest (recover_unfinished sha m d).1.rows
  unfolding recover_unfinished
  unfinished-IsOf m d h = elim (Result-cases (restore sha m.records d.files).0) [
    | inr (error, k) ↦ absurd (let q = rw (k, recover_unfinished) at h in cc)
    | inl (_, k) ↦ rw (k, recover_unfinished) (deleted-IsOf m.key m.owner m.request_digest d.rows)
  ]

  recover-IsOf :
      (ps : List String) (now : ℕ) (m : Manifest) (d : Disk) (state : ManifestState)
      → m.state ≡ state
      → (recover_transaction sha ps now m d).0 ≡ ok tt
      → IsOf m.key m.owner m.request_digest (recover_transaction sha ps now m d).1.rows
  unfolding recover_transaction
  recover-IsOf ps now m d committed q h =
      rw (q, recover_transaction) (committed-IsOf ps now m d (rw (q, recover_transaction) at h))
  recover-IsOf ps now m d rolled_back q h =
      rw (q, recover_transaction) (deleted-IsOf m.key m.owner m.request_digest d.rows)
  recover-IsOf ps now m d prepared q h =
      rw (q, recover_transaction) (unfinished-IsOf m d (rw (q, recover_transaction) at h))
  recover-IsOf ps now m d committing q h =
      rw (q, recover_transaction) (unfinished-IsOf m d (rw (q, recover_transaction) at h))

module _ (c : Calls) (r : Request) (digest : String) where
  abbrev IsKept : Service → Type 0
  IsKept s = IsOf (key_of r) r.owner digest s.rows

  recover_journal-IsKept :
      (id : String) (m : Manifest) (s : Service)
      → key_eq m.key (key_of r) ≡ true
      → (m.request_digest == digest) ≡ true
      → owner_eq m.owner r.owner ≡ true
      → (recover_journal c id m s).0 ≡ ok tt
      → IsKept (recover_journal c id m s).1
  unfolding recover_journal
  recover_journal-IsKept id m s same_key same_digest same_owner h =
      let k = (key_eq_iff m.key (key_of r)).0 same_key in
      let g = (string_Eq.beq_iff m.request_digest digest).0 same_digest in
      let o = (owner_eq_iff m.owner r.owner).0 same_owner in
      let rows = (recover_journal c id m s).1.rows in
      subst (λ x. IsOf x r.owner digest rows) k
        (subst (λ x. IsOf m.key x digest rows) o
          (subst (λ x. IsOf m.key m.owner x rows) g
            (recover-IsOf c.tree.sha (registered s) c.now m _ m.state refl h)))

  reconcile_journals-IsKept :
      (matched found : Bool) (journals : List (String × Manifest)) (s t : Service)
      → IsKept s
      → reconcile_journals c r digest matched journals s ≡ (ok found, t)
      → IsKept t
  unfolding reconcile_journals
  reconcile_journals-IsKept matched found [] s t kept h =
      subst IsKept (ap (λ (x : Raises Bool × Service). x.1) h) kept
  reconcile_journals-IsKept matched found ((id, m) ∷ journals) s t kept h =
      elim (Bool-cases (key_eq m.key (key_of r))) [
        | inr other ↦
            reconcile_journals-IsKept matched found journals s t kept
              (rw (other, reconcile_journals) at h)
        | inl same ↦ elim (Bool-cases (m.request_digest == digest)) [
          | inr wrong ↦ raised-ok (rw (same, wrong, reconcile_journals) at h)
          | inl same_digest ↦ elim (Bool-cases (owner_eq m.owner r.owner)) [
            | inr wrong ↦ raised-ok (rw (same, same_digest, wrong, reconcile_journals) at h)
            | inl same_owner ↦
                let q = rw (same, same_digest, same_owner, reconcile_journals) at h in
                let (_, recovered, rest) = with_ok-ok _ _ t _ found q in
                reconcile_journals-IsKept true found journals _ t
                  (recover_journal-IsKept id m s same same_digest same_owner recovered) rest
          ]
        ]
      ]

  drop_marker-IsKept :
      (matched : Bool) (prior : Option Recorded) (s t : Service)
      → IsKept s
      → drop_marker r matched prior s ≡ (ok tt, t)
      → IsKept t
  unfolding drop_marker
  drop_marker-IsKept matched none s t kept h =
      subst IsKept (ap (λ (x : Raises (Unit {0}) × Service). x.1) h) kept
  drop_marker-IsKept matched (some prior) s t kept h =
      elim (Bool-cases (prior.state == succeeded_state)) [
        | inl done ↦
            subst IsKept
              (ap (λ (x : Raises (Unit {0}) × Service). x.1) (rw (done, drop_marker) at h)) kept
        | inr unfinished ↦ elim (Bool-cases matched) [
          | inl some_journal ↦ raised-ok (rw (unfinished, some_journal, drop_marker) at h)
          | inr wrong ↦
              subst IsKept
                (ap (λ (x : Raises (Unit {0}) × Service). x.1)
                  (rw (unfinished, wrong, drop_marker) at h))
                (deleted-IsOf (key_of r) r.owner digest s.rows)
        ]
      ]

  pub reconcile-IsKept :
      (s t : Service) → IsKept s → reconcile_incomplete_attempt c r digest s ≡ (ok tt, t) → IsKept t
  unfolding reconcile_incomplete_attempt
  reconcile-IsKept s t kept h =
      let (project, _, held) = with_ok-ok _ s t _ tt h in
      let (before, after, body, rows, same) = holding-ok _ _ _ s t tt held in
      let (matched, journals, rest) = with_ok-ok _ _ after _ tt body in
      let (prior, _, last) = with_ok-ok _ _ after _ tt rest in
      let now : IsKept after =
        drop_marker-IsKept matched prior _ after
          (reconcile_journals-IsKept false matched before.journals before _
            (subst (IsOf (key_of r) r.owner digest) (sym same) kept)
            (ap (λ x. (x, (reconcile_journals c r digest false before.journals before).1))
              journals))
          last in
      subst (IsOf (key_of r) r.owner digest) (sym rows) now

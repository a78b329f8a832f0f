-- ===== src/Db/Idempotency/Journal.antt =====
-- `put_idempotency` and `get_idempotency` on one key.
use codito_mcp.Common.{
  ℕ, String, ◌≡◌, refl, ap, ◌∙◌, ◌≢◌, inl, inr, false, Option, some, List, arith, ok, err, nat_Eq,
  list_Eq, option_Eq, string_Eq, Option-cases, Bool-cases, ok-injective, true,
}
use codito_mcp.Common.Dict.{lookup, lookup-insert_self}
use codito_mcp.Errors.{plain, idempotency_conflict}
use mathlib.Core.Option.{some-injective}
use codito_mcp.Db.Operations.{references}
use codito_mcp.Models.{OperationState}
use codito_mcp.Db.Json.{Fields}
use codito_mcp.Db.Idempotency.{
  Owner, owner_eq, owner_eq_iff, Key, key_Eq, Idempotency, Rows, get_idempotency, put_idempotency,
  upsert, reused, encoded, Recorded,
}

put_idempotency-ok :
    (ps : List String) (k : Key) (o : Owner) (digest : String) (state : OperationState)
    (result : Option Fields) (now : ℕ) (rows : Rows)
    → (put_idempotency ps k o digest state result now rows).0 ≡ ok tt
    → (reused o digest (lookup k rows) ≡ false)
      × ((put_idempotency ps k o digest state result now rows).1
          ≡ upsert k o digest state result now rows)
unfolding put_idempotency
put_idempotency-ok ps k o digest state result now rows h = ground arith

get-found :
    (k : Key) (o : Owner) (rows : Rows) (row : Idempotency)
    → lookup k rows ≡ some row
    → row.owner ≡ o
    → get_idempotency k o rows
      ≡ ok (
          some (record {
            request_digest = row.request_digest;
            state = row.state;
            result = row.result;
          }))
unfolding get_idempotency
get-found k o rows row h e = rw (h, (owner_eq_iff row.owner o).1 e, get_idempotency) refl

upsert-get :
    (k : Key) (o : Owner) (digest : String) (state : OperationState) (result : Option Fields)
    (now : ℕ) (rows : Rows)
    → reused o digest (lookup k rows) ≡ false
    → get_idempotency k o (upsert k o digest state result now rows)
      ≡ ok (some (record { request_digest = digest; state = state; result = encoded result }))
unfolding upsert reused
upsert-get k o digest state result now rows h = elim (Option-cases (lookup k rows)) [
  | inl missing ↦ rw (missing, upsert) (get-found k o _ _ (lookup-insert_self k _ rows) refl)
  | inr (row, found) ↦
      let q = rw (found, reused) at h in
      rw (found, upsert)
        (get-found k o _ _ (lookup-insert_self k _ rows)
            ((owner_eq_iff row.owner o).0 (ground arith))
          ∙ ap
              (λ d.
                ok (some (record { request_digest = d; state = state; result = encoded result })))
              ((string_Eq.beq_iff row.request_digest digest).0 (ground arith)))
]

-- A put that succeeds is what its owner gets under the key: the digest, the state and the result, an
-- empty result being none.
pub put-get :
    (ps : List String) (k : Key) (o : Owner) (digest : String) (state : OperationState)
    (result : Option Fields) (now : ℕ) (rows : Rows)
    → (put_idempotency ps k o digest state result now rows).0 ≡ ok tt
    → get_idempotency k o (put_idempotency ps k o digest state result now rows).1
      ≡ ok (some (record { request_digest = digest; state = state; result = encoded result }))
put-get ps k o digest state result now rows h =
    let (fresh, e) = put_idempotency-ok ps k o digest state result now rows h in
    ap (get_idempotency k o) e ∙ upsert-get k o digest state result now rows fresh

get-row :
    (k : Key) (o : Owner) (rows : Rows) (prior : Recorded)
    → get_idempotency k o rows ≡ ok (some prior)
    → reused o prior.request_digest (lookup k rows) ≡ false
unfolding get_idempotency reused
get-row k o rows prior h = elim (Option-cases (lookup k rows)) [
  | inl missing ↦ rw (missing, reused) refl
  | inr (row, found) ↦ elim (Bool-cases (owner_eq row.owner o)) [
    | inr other ↦ absurd (let q = rw (found, other, get_idempotency) at h in cc)
    | inl mine ↦
        let q = some-injective _ _ (ok-injective _ _ (rw (found, mine, get_idempotency) at h)) in
        let same = ap (λ (x : Recorded). x.request_digest) q in
        rw (found, mine, (string_Eq.beq_iff row.request_digest prior.request_digest).1 same, reused)
          refl
  ]
]

-- a request that got its key may put another state under it
pub put-again :
    (ps : List String) (k : Key) (o : Owner) (digest : String) (state after : OperationState)
    (result answer : Option Fields) (now later : ℕ) (rows : Rows)
    → (put_idempotency ps k o digest state result now rows).0 ≡ ok tt
    → (put_idempotency ps k o digest after answer later
        (put_idempotency ps k o digest state result now rows).1).0
      ≡ ok tt
unfolding put_idempotency
put-again ps k o digest state after result answer now later rows h =
    let known : references ps (some k.project_id) ≡ true = ground (arith, h) in
    let free =
      get-row k o (put_idempotency ps k o digest state result now rows).1 _
        (put-get ps k o digest state result now rows h) in
    rw (free, known, put_idempotency) refl

-- For anybody but the owner of a key the journal has neither an answer nor room for a request: both
-- raise a conflict, and the table stays as it is.
key-owned :
    (ps : List String) (k : Key) (o : Owner) (digest : String) (state : OperationState)
    (result : Option Fields) (now : ℕ) (rows : Rows) (row : Idempotency)
    → lookup k rows ≡ some row
    → row.owner ≢ o
    → (get_idempotency k o rows ≡ err (plain idempotency_conflict))
      × (put_idempotency ps k o digest state result now rows
          ≡ (err (plain idempotency_conflict), rows))
unfolding get_idempotency put_idempotency reused
key-owned ps k o digest state result now rows row h other =
    let no : owner_eq row.owner o ≡ false = ground (arith, owner_eq_iff row.owner o) in
    (rw (h, no, get_idempotency) refl, rw (h, put_idempotency) (ground (arith, no)))

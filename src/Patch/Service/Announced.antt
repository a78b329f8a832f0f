-- ===== src/Patch/Service/Announced.antt =====
-- `reconcile_duplicate`, and the `apply` behind it.
use codito_mcp.Patch.Service.Holding.{with_ok-ok}
use codito_mcp.Patch.Service.Kept.{IsOf, found-IsOf, reconcile-IsKept}
use codito_mcp.Patch.Service.Recorded.{IsRecorded, prior_answer-ok}
use codito_mcp.Patch.Service.Replayed.{apply-of_recorded}
use mathlib.Core.Path.{subst}
use codito_mcp.Common.{
  string_Eq, String, ◌≡◌, refl, sym, ap, ◌∙◌, inl, inr, not, ◌&&◌, Option, none, some, ok,
  >>=-eq-ok, raise_if, Option-cases, ok-injective, leb, length,
}
use codito_mcp.Text.{codes}
use codito_mcp.Errors.{Raises, plain, invalid_request}
use codito_mcp.Db.Json.{Fields}
use codito_mcp.Db.Idempotency.{Recorded, get_idempotency, Rows}
use codito_mcp.Patch.Service.Types.{Service, Request, Calls, key_of, with_ok}
use codito_mcp.Patch.Service.Hashes.{normalize_base_hashes}
use codito_mcp.Patch.Service.Journals.{answer_of, reconcile_incomplete_attempt}
use codito_mcp.Patch.Service.Apply.{
  Prepared, enabled_project, target_of, prepare, prior_answer, apply_fresh, apply_prior, apply,
}
use codito_mcp.Patch.Service.Duplicate.{
  duplicate_digest, recovered_answer, reconcile_prior, reconcile_duplicate,
}

-- the two calls take the same digest of a request
prepare-digest :
    (c again : Calls) (r : Request) (s t : Service) (digest : String) (p : Prepared)
    → c.request_digest ≡ again.request_digest
    → duplicate_digest c r s ≡ ok digest
    → prepare again r t ≡ ok p
    → digest ≡ p.digest
unfolding duplicate_digest prepare
prepare-digest c again r s t digest p alike asked checked =
    let (hashes, a, e1) = >>=-eq-ok (normalize_base_hashes r.base_hashes) _ asked in
    let (_, _, e2) = >>=-eq-ok (enabled_project r s) _ e1 in
    let (_, _, f1) = >>=-eq-ok (again.check 0) _ checked in
    let (_, _, f2) =
      >>=-eq-ok
        (raise_if
          (not (
            leb 8 (length (codes r.idempotency_key)) && leb (length (codes r.idempotency_key)) 200))
          (plain invalid_request))
        _ f1 in
    let (others, b, f3) = >>=-eq-ok (normalize_base_hashes r.base_hashes) _ f2 in
    let (project, _, f4) = >>=-eq-ok (enabled_project r t) _ f3 in
    let (_, _, f5) = >>=-eq-ok (target_of again r.scope_path r.target_project project) _ f4 in
    let same = ok-injective hashes others (sym a ∙ b) in
    sym (ok-injective _ digest e2)
    ∙ ap (λ x. c.request_digest r.patch x r.dry_run r.scope_path) same
    ∙ ap (λ f. f r.patch others r.dry_run r.scope_path) alike
    ∙ ap (λ (x : Prepared). x.digest) (ok-injective _ p f5)

-- what is announced: an answer that is in the table, or a key that is free
abbrev IsAnnounced : Request → String → Option Fields → Rows → Type 0
IsAnnounced r digest none rows = get_idempotency (key_of r) r.owner rows ≡ ok none
IsAnnounced r digest (some result) rows = IsRecorded r digest result rows

module _ (c : Calls) (r : Request) (digest : String) where
  recovered-IsAnnounced :
      (again : Option Recorded) (answer : Option Fields) (t : Service)
      → get_idempotency (key_of r) r.owner t.rows ≡ ok again
      → IsOf (key_of r) r.owner digest t.rows
      → recovered_answer again ≡ ok answer
      → IsAnnounced r digest answer t.rows
  unfolding recovered_answer
  recovered-IsAnnounced none answer t found kept h =
      subst (λ x. IsAnnounced r digest x t.rows) (ok-injective none answer h) found
  recovered-IsAnnounced (some prior) answer t found kept h = elim (Option-cases (answer_of prior)) [
    | inl nothing ↦ absurd (let q = rw (nothing, recovered_answer) at h in cc)
    | inr (result, k) ↦
        subst (λ x. IsAnnounced r digest x t.rows)
          (ok-injective (some result) answer (rw (k, recovered_answer) at h))
          (record { prior = prior; found = found; same = kept prior found; answered = k })
  ]

  reconcile_prior-IsAnnounced :
      (prior : Option Recorded) (answer : Option Fields) (s t : Service)
      → get_idempotency (key_of r) r.owner s.rows ≡ ok prior
      → reconcile_prior c r digest prior s ≡ (ok answer, t)
      → IsAnnounced r digest answer t.rows
  unfolding reconcile_prior
  reconcile_prior-IsAnnounced none answer s t found h =
      let moved = ap (λ (x : Raises (Option Fields) × Service). x.1) h in
      let told = ok-injective none answer (ap (λ (x : Raises (Option Fields) × Service). x.0) h) in
      subst (λ x. IsAnnounced r digest x t.rows) told
        (subst (λ (x : Service). IsAnnounced r digest none x.rows) moved found)
  reconcile_prior-IsAnnounced (some prior) answer s t found h =
      let (kept, given, rest) = with_ok-ok (prior_answer digest prior) s t _ answer h in
      let (same, e) = prior_answer-ok digest prior kept given in
      elim (Option-cases kept) [
        | inr (result, k) ↦
            let q = rw k at rest in
            let moved = ap (λ (x : Raises (Option Fields) × Service). x.1) q in
            let told =
              ok-injective (some result) answer
                (ap (λ (x : Raises (Option Fields) × Service). x.0) q) in
            subst (λ x. IsAnnounced r digest x t.rows) told
              (subst (λ (x : Service). IsAnnounced r digest (some result) x.rows) moved
                (record { prior = prior; found = found; same = same; answered = e ∙ k }))
        | inl nothing ↦
            let q = rw nothing at rest in
            let done = reconcile_incomplete_attempt c r digest s in
            let (_, settled, read) = with_ok-ok done.0 done.1 t _ answer q in
            let (again, reread, told) =
              with_ok-ok (get_idempotency (key_of r) r.owner done.1.rows) done.1 t _ answer read in
            let moved = ap (λ (x : Raises (Option Fields) × Service). x.1) told in
            subst (λ (x : Service). IsAnnounced r digest answer x.rows) moved
              (recovered-IsAnnounced again answer done.1 reread
                (reconcile-IsKept c r digest s done.1
                  (found-IsOf (key_of r) r.owner digest s.rows prior found same)
                  (ap (λ x. (x, done.1)) settled))
                (ap (λ (x : Raises (Option Fields) × Service). x.0) told))
      ]

  announced :
      (answer : Option Fields) (s t : Service)
      → duplicate_digest c r s ≡ ok digest
      → reconcile_duplicate c r s ≡ (ok answer, t)
      → IsAnnounced r digest answer t.rows
  unfolding reconcile_duplicate
  announced answer s t asked h =
      let (other, e, looked) = with_ok-ok (duplicate_digest c r s) s t _ answer h in
      let q =
        subst
          (λ x.
            with_ok (get_idempotency (key_of r) r.owner s.rows) s
              (λ prior. reconcile_prior c r x prior s)
            ≡ (ok answer, t))
          (ok-injective other digest (sym e ∙ asked)) looked in
      let (prior, found, rest) = with_ok-ok _ s t _ answer q in
      reconcile_prior-IsAnnounced prior answer s t found rest

apply-of_announced :
    (c : Calls) (r : Request) (p : Prepared) (answer : Option Fields) (t : Service)
    → prepare c r t ≡ ok p
    → IsAnnounced r p.digest answer t.rows
    → apply c r t ≡ elim answer [ some result ↦ (ok result, t) | none ↦ apply_fresh c r p t ]
unfolding apply apply_prior with_ok
apply-of_announced c r p none t checked free = rw (checked, free, apply, with_ok) refl
apply-of_announced c r p (some result) t checked recorded =
    apply-of_recorded c r p result t checked recorded

-- What `reconcile_duplicate` tells a redelivered patch, before its user is asked again, is what
-- `apply` then does, at whatever time and with whatever files: where it gives a result, `apply`
-- answers just that and changes nothing; where it gives none, `apply` makes a fresh attempt. The
-- digest of a request is the same function in both calls.
pub apply_announced :
    (c again : Calls) (r : Request) (p : Prepared) (answer : Option Fields) (s t : Service)
    → c.request_digest ≡ again.request_digest
    → reconcile_duplicate c r s ≡ (ok answer, t)
    → prepare again r t ≡ ok p
    → apply again r t
      ≡ elim answer [ some result ↦ (ok result, t) | none ↦ apply_fresh again r p t ]
unfolding reconcile_duplicate
apply_announced c again r p answer s t same told checked =
    let (digest, asked, _) = with_ok-ok (duplicate_digest c r s) s t _ answer told in
    apply-of_announced again r p answer t checked (
      subst (λ x. IsAnnounced r x answer t.rows)
        (prepare-digest c again r s t digest p same asked checked)
        (announced c r digest answer s t asked told))

-- ===== src/Patch/Service/Holding.antt =====
-- What a call that may raise, and one that holds the gate, leave of the service.
use codito_mcp.Common.{
  String, ◌≡◌, refl, sym, ap, inl, inr, ok, err, Result-cases, ◌⊎◌, err-injective, ◌∙◌,
}
use codito_mcp.Errors.{AgentError, Raises}
use codito_mcp.Gate.{Gate, reserve}
use codito_mcp.Patch.Service.Types.{Service, with_ok}
use codito_mcp.Patch.Service.Journals.{holding}

-- a call that raised gave no result
pub raised-ok :
    {A B : Type 0} {e : AgentError} {a : A} {s t : Service}
    → ◌≡◌ {A = Raises A × Service} (err e, s) (ok a, t)
    → B
raised-ok {A = A} h = absurd (let q = ap (λ (x : Raises A × Service). x.0) h in cc)

pub with_ok-ok :
    {A B : Type 0} (m : Raises A) (s t : Service) (next : A → Raises B × Service) (b : B)
    → with_ok m s next ≡ (ok b, t)
    → (a : A) × (m ≡ ok a) × (next a ≡ (ok b, t))
unfolding with_ok
with_ok-ok (err e) s t next b h = raised-ok h
with_ok-ok (ok a) s t next b h = (a, refl, h)

-- the body starts from the rows that are there, and the rows are those that it leaves
pub holding-ok :
    {B : Type 0} (resource_key owner : String) (body : Service → Raises B × Service) (s t : Service)
    (b : B)
    → holding resource_key owner body s ≡ (ok b, t)
    → (before after : Service) × (body before ≡ (ok b, after))
      × (t.rows ≡ after.rows)
      × (before.rows ≡ s.rows)
unfolding holding
holding-ok {B = B} resource_key owner body s t b h =
    elim (Result-cases (reserve resource_key owner s.gate)) [
      | inr (e, k) ↦ raised-ok (rw (k, holding) at h)
      | inl (held, k) ↦
          let q = rw (k, holding) at h in
          let before = record s { gate = held } in
          (
            before,
            (body before).1,
            ap (λ (x : Raises B × Service). (x.0, (body before).1)) q,
            sym (ap (λ (x : Raises B × Service). x.1.rows) q),
            refl,
          )
    ]

pub with_ok-err :
    {A B : Type 0} (m : Raises A) (s t : Service) (next : A → Raises B × Service) (e : AgentError)
    → with_ok m s next ≡ (err e, t)
    → ((m ≡ err e) × (s ≡ t)) ⊎ ((a : A) × (m ≡ ok a) × (next a ≡ (err e, t)))
unfolding with_ok
with_ok-err {B = B} (err f) s t next e h = inl (
  ap err (err-injective f e (ap (λ (x : Raises B × Service). x.0) h)),
  ap (λ (x : Raises B × Service). x.1) h,
)
with_ok-err (ok a) s t next e h = inr (a, refl, h)

pub holding-err :
    {B : Type 0} (resource_key owner : String) (body : Service → Raises B × Service) (s t : Service)
    (e : AgentError)
    → holding resource_key owner body s ≡ (err e, t)
    → (s ≡ t)
      ⊎ ((held : Gate) × (after : Service) × (body (record s { gate = held }) ≡ (err e, after))
          × ((record after { gate = t.gate }) ≡ t))
unfolding holding
holding-err {B = B} resource_key owner body s t e h =
    elim (Result-cases (reserve resource_key owner s.gate)) [
      | inr (_, k) ↦ inl (ap (λ (x : Raises B × Service). x.1) (rw (k, holding) at h))
      | inl (held, k) ↦
          let q = rw (k, holding) at h in
          let after = (body (record s { gate = held })).1 in
          let same = ap (λ (x : Raises B × Service). x.1) q in
          inr (
            held,
            after,
            ap (λ (x : Raises B × Service). (x.0, after)) q,
            ap (λ (x : Service). record after { gate = x.gate }) (sym same) ∙ same,
          )
    ]

-- ===== src/Approvals/Given.antt =====
-- What gives an approval, beside the code of `ApprovalManager` that decides it.
use codito_mcp.Common.{
  ℕ, String, ◌+◌, ◌≤◌, ◌≡◌, refl, inl, inr, true, Option, none, some, List, [], ◌∷◌, arith, ok,
  nat_Eq, list_Eq, option_Eq, string_Eq, Option-cases, any, Bool-cases, Any,
}
use codito_mcp.Db.Permissions.{Permissions}
use codito_mcp.Approvals.Types.{
  Decision, deny, allow_once, allow_session, allow_always_read, allow_always_shell,
  allow_always_screen, unrecognized, Subject, SessionGrant, ApprovalRequest, Manager,
  subject_eq_iff,
}
use codito_mcp.Approvals.Grants.{is_live, covers, has_session_grant, has_session_grant_iff}
use codito_mcp.Approvals.Saved.{Options}
use codito_mcp.Approvals.Request.{decide, save_in}

-- The user's answers that allow a request: once; for the session, where the request may use a session
-- grant; for good, where there is a scope to save and a database to save it in.
pub data Allows (o : Options) (db : Option Permissions) : Decision → Type 0 where
  allows_once : Allows o db allow_once
  allows_session : o.session_eligible ≡ true → Allows o db allow_session
  allows_read :
      (scope : String × String) (p : Permissions)
      → o.read_scope ≡ some scope
      → db ≡ some p
      → Allows o db allow_always_read
  allows_shell :
      (scope : String × String) (p : Permissions)
      → o.shell_scope ≡ some scope
      → db ≡ some p
      → Allows o db allow_always_shell
  allows_screen :
      (scope : String × (String × String)) (p : Permissions)
      → o.screen_scope ≡ some scope
      → db ≡ some p
      → Allows o db allow_always_screen

save_in-ok :
    {A : Type 0} (scope : Option A) (f : A → Permissions → Permissions) (m : Manager)
    → (save_in scope f m).0 ≡ ok tt
    → (s : A) × (p : Permissions) × (scope ≡ some s) × (m.database ≡ some p)
unfolding save_in
save_in-ok none f m h = absurd (ground arith)
save_in-ok (some s) f m h = elim (Option-cases m.database) [
  | inl e ↦ absurd (let q = rw (e, save_in) at h in ground arith)
  | inr (p, e) ↦ (s, p, refl, e)
]

pub decide-Allows :
    (d : Decision) (r : ApprovalRequest) (o : Options) (key : String) (now : ℕ) (m : Manager)
    → (decide d r o key now m).0 ≡ ok tt
    → Allows o m.database d
unfolding decide
decide-Allows deny r o key now m h = absurd (ground arith)
decide-Allows allow_once r o key now m h = allows_once
decide-Allows allow_session r o key now m h = elim (Bool-cases o.session_eligible) [
  | inl t ↦ allows_session t
  | inr f ↦ absurd (let q = rw (f, decide) at h in ground arith)
]
decide-Allows allow_always_read r o key now m h =
    let (scope, p, e, k) = save_in-ok o.read_scope _ m h in allows_read scope p e k
decide-Allows allow_always_shell r o key now m h =
    let (scope, p, e, k) = save_in-ok o.shell_scope _ m h in allows_shell scope p e k
decide-Allows allow_always_screen r o key now m h =
    let (scope, p, e, k) = save_in-ok o.screen_scope _ m h in allows_screen scope p e k
decide-Allows unrecognized r o key now m h = absurd (ground arith)

-- A grant for exactly this subject, not older than thirty minutes and used in the last ten.
pub record IsFor (s : Subject) (now : ℕ) (g : SessionGrant) : Type 0 where
  pub same : g.subject ≡ s
  pub young : now ≤ g.created_at + 1800000000
  pub in_use : now ≤ g.last_used_at + 600000000

covers-IsFor : (s : Subject) (now : ℕ) (g : SessionGrant) → covers s now g ≡ true → IsFor s now g
unfolding is_live
covers-IsFor s now g h = record {
  same = (subject_eq_iff g.subject s).0 (ground arith);
  young = ground arith;
  in_use = ground arith;
}

any-IsFor :
    (s : Subject) (now : ℕ) (gs : List SessionGrant)
    → any (covers s now) gs ≡ true
    → Any (IsFor s now) gs
any-IsFor s now [] h = absurd (ground arith)
any-IsFor s now (g ∷ gs) h = elim (Bool-cases (covers s now g)) [
  | inl t ↦ inl (covers-IsFor s now g t)
  | inr f ↦ inr (any-IsFor s now gs (rw (f, any) at h))
]

pub has_session_grant-IsFor :
    (s : Subject) (now : ℕ) (m : Manager)
    → (has_session_grant s now m).0 ≡ true
    → Any (IsFor s now) m.grants
has_session_grant-IsFor s now m h = any-IsFor s now m.grants ((has_session_grant_iff s now m).0 h)

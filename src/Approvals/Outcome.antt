-- ===== src/Approvals/Outcome.antt =====
-- What has to be the case for an approval to be given.
use codito_mcp.Common.{
  ℕ, String, ◌<◌, ◌≡◌, refl, sym, ap, ◌∙◌, ◌≢◌, ◌⊎◌, inl, inr, Bool, true, false, not, ◌||◌, List,
  arith, if◌then◌else◌, ok, err, ◌==◌, nat_Eq, list_Eq, option_Eq, string_Eq, Bool-cases, leb,
  Result-cases, Any,
}
use codito_mcp.Errors.{plain, approval_expired, Raises}
use codito_mcp.Approvals.Types.{Decision, ApprovalRequest, Manager}
use codito_mcp.Approvals.Given.{Allows, decide-Allows, IsFor, has_session_grant-IsFor}
use codito_mcp.Approvals.Earlier.{IsSaved, saved_permission-IsSaved}
use codito_mcp.Approvals.Grants.{has_session_grant}
use codito_mcp.Approvals.Saved.{Options, allowed, ask, saved_permission}
use codito_mcp.Approvals.Request.{
  Times, Answer, decided, timed_out, Prompt, is_late, ensure_before_deadline, shown, decide,
  conclude, ask_user, request,
}

-- The user was asked and gave an answer that allows it: in time, and with no security event since the
-- question.
pub record Consent (prompt : Prompt) (r : ApprovalRequest) (o : Options) (t : Times) (m : Manager)
    : Type 0 where
  pub decision : Decision
  pub answer : (prompt (shown r o) m).0 ≡ decided decision
  pub allows : Allows o (prompt (shown r o) m).1.database decision
  pub in_time : t.answered < r.deadline_at
  pub same_generation : (prompt (shown r o) m).1.security_generation ≡ m.security_generation

is_late-not : (now : ℕ) (r : ApprovalRequest) → is_late now r ≡ false → now < r.deadline_at
unfolding is_late
is_late-not now r h = ground arith

pub conclude-err :
    (a : Answer) (r : ApprovalRequest) (o : Options) (key : String) (t : Times) (g : ℕ)
    (m : Manager)
    → (is_late t.answered r || not (g == m.security_generation)) ≡ true
    → conclude a r o key t g m ≡ (err (plain approval_expired), m)
unfolding conclude
conclude-err timed_out r o key t g m h = refl
conclude-err (decided d) r o key t g m h = rw h refl

conclude-decided :
    (d : Decision) (r : ApprovalRequest) (o : Options) (key : String) (t : Times) (g : ℕ)
    (m : Manager)
    → (is_late t.answered r || not (g == m.security_generation)) ≡ false
    → conclude (decided d) r o key t g m ≡ decide d r o key t.stored m
unfolding conclude
conclude-decided d r o key t g m h = rw h refl

-- why `conclude` gave its approval
abbrev Concluded : Answer → ApprovalRequest → Options → Times → ℕ → Manager → Type 0
Concluded a r o t g m =
    (d : Decision) × (a ≡ decided d)
    × Allows o m.database d
    × (t.answered < r.deadline_at)
    × (m.security_generation ≡ g)

conclude-on_time :
    (a : Answer) (r : ApprovalRequest) (o : Options) (key : String) (t : Times) (g : ℕ)
    (m : Manager)
    → (is_late t.answered r || not (g == m.security_generation)) ≡ false
    → (conclude a r o key t g m).0 ≡ ok tt
    → Concluded a r o t g m
unfolding conclude
conclude-on_time timed_out r o key t g m good h = absurd (ground arith)
conclude-on_time (decided d) r o key t g m good h = (
  d,
  refl,
  decide-Allows d r o key t.stored m
      (sym (ap (λ x. x.0) (conclude-decided d r o key t g m good)) ∙ h),
  is_late-not t.answered r (ground arith),
  ground (arith, nat_Eq.beq_iff g m.security_generation),
)

conclude-ok :
    (a : Answer) (r : ApprovalRequest) (o : Options) (key : String) (t : Times) (g : ℕ)
    (m : Manager)
    → (conclude a r o key t g m).0 ≡ ok tt
    → Concluded a r o t g m
conclude-ok a r o key t g m h =
    elim (Bool-cases (is_late t.answered r || not (g == m.security_generation))) [
      | inl bad ↦
          absurd
            (let e = sym (ap (λ x. x.0) (conclude-err a r o key t g m bad)) ∙ h in ground arith)
      | inr good ↦ conclude-on_time a r o key t g m good h
    ]

ask_user-Consent :
    (prompt : Prompt) (r : ApprovalRequest) (o : Options) (key : String) (t : Times) (m : Manager)
    → (ask_user prompt r o key t m).0 ≡ ok tt
    → Consent prompt r o t m
unfolding ask_user
ask_user-Consent prompt r o key t m h = elim (Bool-cases (leb r.deadline_at t.asking)) [
  | inl late ↦ absurd (ground arith)
  | inr early ↦
      let asked = prompt (shown r o) m in
      let (d, answer, allows, in_time, same) =
        conclude-ok asked.0 r o key t m.security_generation asked.1 (rw early at h) in
      record {
        decision = d;
        answer = answer;
        allows = allows;
        in_time = in_time;
        same_generation = same;
      }
]

-- Why a request is granted: a permission saved before, a live session grant, or consent given now;
-- a request that may use a session grant is put to the user with the expired grants pruned. What the
-- code tests stands beside what it is to mean.
pub data Grounds (digest : List String → String) (prompt : Prompt) (r : ApprovalRequest)
    (o : Options) (t : Times) (m : Manager) : Type 0 where
  saved :
      saved_permission digest r o m.database ≡ ok allowed
      → IsSaved digest r o m.database
      → Grounds digest prompt r o t m
  session :
      o.session_eligible ≡ true
      → (has_session_grant r.subject t.checked m).0 ≡ true
      → Any (IsFor r.subject t.checked) m.grants
      → Grounds digest prompt r o t m
  consent : o.session_eligible ≡ false → Consent prompt r o t m → Grounds digest prompt r o t m
  session_consent :
      o.session_eligible ≡ true
      → Consent prompt r o t (has_session_grant r.subject t.checked m).1
      → Grounds digest prompt r o t m

-- what `request` does once it has a key
abbrev Asking :
    Prompt → ApprovalRequest → Options → Times → Manager → String → Raises (Unit {0}) × Manager
Asking prompt r o t m key =
    let held = has_session_grant r.subject t.checked m in
    if not o.session_eligible
    then ask_user prompt r o key t m
    else if held.0
    then (ok tt, held.1)
    else ask_user prompt r o key t held.1

asked-cases :
    (eligible held : Bool) (x y z : Raises (Unit {0}) × Manager)
    → (if not eligible then x else if held then y else z).0 ≡ ok tt
    → ((eligible ≡ false) × (x.0 ≡ ok tt)) ⊎ ((eligible ≡ true) × ((held ≡ true) ⊎ (z.0 ≡ ok tt)))
asked-cases false held x y z h = inl (refl, h)
asked-cases true true x y z h = inr (refl, inl refl)
asked-cases true false x y z h = inr (refl, inr h)

asked-Grounds :
    (digest : List String → String) (prompt : Prompt) (r : ApprovalRequest) (o : Options)
    (t : Times) (m : Manager) (key : String)
    → (Asking prompt r o t m key).0 ≡ ok tt
    → Grounds digest prompt r o t m
asked-Grounds digest prompt r o t m key h =
    let held = has_session_grant r.subject t.checked m in
    elim (asked-cases o.session_eligible held.0 (ask_user prompt r o key t m) (ok tt, held.1)
      (ask_user prompt r o key t held.1) h) [
        | inl (fixed, given) ↦ consent fixed (ask_user-Consent prompt r o key t m given)
        | inr (eligible, inl held) ↦
            session eligible held (has_session_grant-IsFor r.subject t.checked m held)
        | inr (eligible, inr given) ↦
            session_consent eligible
              (ask_user-Consent prompt r o key t (has_session_grant r.subject t.checked m).1 given)
      ]

-- Whatever is granted was requested before its deadline, and on one of the grounds: a row that an
-- earlier answer saved for this very account, grant, link, device, capability and scope; where the
-- request may use one, a session grant for exactly this subject, given at most thirty minutes and used
-- at most ten minutes ago; or an answer that the user gives now, which allows this request, in time
-- and with no security event since the question. An answer that is not recognized allows nothing.
pub request-Grounds :
    (digest : List String → String) (prompt : Prompt) (r : ApprovalRequest) (o : Options)
    (t : Times) (m : Manager)
    → (request digest prompt r o t m).0 ≡ ok tt
    → (t.entered < r.deadline_at) × Grounds digest prompt r o t m
unfolding request ensure_before_deadline
request-Grounds digest prompt r o t m h = elim (Bool-cases (is_late t.entered r)) [
  | inl late ↦ absurd (let e = rw (late, request, ensure_before_deadline) at h in ground arith)
  | inr early ↦ (
    is_late-not t.entered r early,
    elim (Result-cases (saved_permission digest r o m.database)) [
      | inl (allowed, s) ↦ saved s (saved_permission-IsSaved digest r o m.database s)
      | inl (ask key, s) ↦
          asked-Grounds digest prompt r o t m key
            (rw (early, s, request, ensure_before_deadline) at h)
      | inr (e, s) ↦
          absurd (let q = rw (early, s, request, ensure_before_deadline) at h in ground arith)
    ],
  )
]

-- A security event while the user is asked leaves only what was granted before: then a request is
-- granted by a saved permission or by a live session grant, whatever the user answers.
pub request-invalidated :
    (digest : List String → String) (prompt : Prompt) (r : ApprovalRequest) (o : Options)
    (t : Times) (m : Manager)
    → ((shown_request : ApprovalRequest) (n : Manager)
        → (prompt shown_request n).1.security_generation ≢ n.security_generation)
    → (request digest prompt r o t m).0 ≡ ok tt
    → (saved_permission digest r o m.database ≡ ok allowed)
      ⊎ ((o.session_eligible ≡ true) × ((has_session_grant r.subject t.checked m).0 ≡ true))
request-invalidated digest prompt r o t m event h =
    elim (request-Grounds digest prompt r o t m h).1 [
      | saved s _ ↦ inl s
      | session eligible held _ ↦ inr (eligible, held)
      | consent _ c ↦ absurd (event (shown r o) m c.same_generation)
      | session_consent _ c ↦
          absurd (event (shown r o) (has_session_grant r.subject t.checked m).1 c.same_generation)
    ]

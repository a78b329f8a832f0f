-- ===== src/Approvals/Grants.antt =====
-- Session grants: `_has_session_grant` and `_add_session_grant`, and what a grant is good for.
use codito_mcp.Common.{
  refl, ℕ, ◌-◌, Bool, true, false, ◌&&◌, List, [], ◌∷◌, ◌++◌, if◌then◌else◌, nat_Eq, list_Eq,
  option_Eq, string_Eq, leb, select, ◌≡◌, any, arith, ◌↔◌, any-select, sym, ◌∙◌,
}
use codito_mcp.Approvals.Types.{Subject, SessionGrant, Manager, subject_eq}

-- `SESSION_MAX` and `SESSION_IDLE`, in microseconds
abbrev pub session_max : ℕ
session_max = 1800000000

abbrev pub session_idle : ℕ
session_idle = 600000000

-- Not expired. A clock that was set back makes the difference negative, and no bound is exceeded.
unfoldable pub is_live : ℕ → SessionGrant → Bool
is_live now g = leb (now - g.created_at) session_max && leb (now - g.last_used_at) session_idle

unfoldable pub prune : ℕ → List SessionGrant → List SessionGrant
prune now gs = select (is_live now) gs

-- Marks the first grant of the subject as used, if there is one.
unfoldable pub use_grant : Subject → ℕ → List SessionGrant → Bool × List SessionGrant
use_grant s now [] = (false, [])
use_grant s now (g ∷ gs) =
    let rest = use_grant s now gs in
    if subject_eq g.subject s
    then (true, record g { last_used_at = now } ∷ gs)
    else (rest.0, g ∷ rest.1)

unfoldable pub has_session_grant : Subject → ℕ → Manager → Bool × Manager
has_session_grant s now m =
    let used = use_grant s now (prune now m.grants) in (used.0, record m { grants = used.1 })

unfoldable pub add_session_grant : Subject → ℕ → Manager → Manager
add_session_grant s now m = record m {
  grants = m.grants ++ (record { subject = s; created_at = now; last_used_at = now } ∷ []);
}

-- a grant of the subject that is not expired
abbrev pub covers : Subject → ℕ → SessionGrant → Bool
covers s now g = is_live now g && subject_eq g.subject s

use_grant-any :
    (s : Subject) (now : ℕ) (gs : List SessionGrant)
    → (use_grant s now (prune now gs)).0 ≡ any (covers s now) gs
unfolding use_grant prune
use_grant-any s now [] = refl
use_grant-any s now (g ∷ gs) = ground (arith, use_grant-any s now gs)

-- A request is covered exactly by an unexpired grant of the same subject, epoch included.
pub has_session_grant_iff :
    (s : Subject) (now : ℕ) (m : Manager)
    → ((has_session_grant s now m).0 ≡ true) ↔ (any (covers s now) m.grants ≡ true)
unfolding has_session_grant
has_session_grant_iff s now m = rw (use_grant-any s now m.grants) (λ h. h, λ h. h)

-- how long ago a grant of the subject was given
abbrev pub given_within : Subject → ℕ → SessionGrant → Bool
given_within s now g = leb (now - g.created_at) session_max && subject_eq g.subject s

given_within-use_grant :
    (s u : Subject) (now at : ℕ) (gs : List SessionGrant)
    → any (given_within s now) (use_grant u at gs).1 ≡ any (given_within s now) gs
unfolding use_grant
given_within-use_grant s u now at [] = refl
given_within-use_grant s u now at (g ∷ gs) = ground (arith, given_within-use_grant s u now at gs)

unfoldable pub uses : List (Subject × ℕ) → Manager → Manager
uses [] m = m
uses ((s, at) ∷ rest) m = uses rest (has_session_grant s at m).1

uses-given_within :
    (s : Subject) (now : ℕ) (rest : List (Subject × ℕ)) (m : Manager)
    → any (given_within s now) (uses rest m).grants ≡ true
    → any (given_within s now) m.grants ≡ true
unfolding uses has_session_grant prune
uses-given_within s now [] m h = h
uses-given_within s now ((u, at) ∷ rest) m h =
    any-select (given_within s now) (is_live at) m.grants (
      sym (given_within-use_grant s u now at (prune at m.grants))
      ∙ uses-given_within s now rest (has_session_grant u at m).1 h)

covers-given_within :
    (s : Subject) (now : ℕ) (gs : List SessionGrant)
    → any (covers s now) gs ≡ true
    → any (given_within s now) gs ≡ true
unfolding is_live
covers-given_within s now [] h = h
covers-given_within s now (g ∷ gs) h = ground (arith, covers-given_within s now gs)

-- However often and for whomever grants are used in between, a request that a grant covers was
-- granted for the same subject at most thirty minutes ago: use does not prolong a grant.
pub uses-session_max :
    (s : Subject) (now : ℕ) (between : List (Subject × ℕ)) (m : Manager)
    → (has_session_grant s now (uses between m)).0 ≡ true
    → any (given_within s now) m.grants ≡ true
uses-session_max s now between m h = uses-given_within s now between m (
    covers-given_within s now (uses between m).grants
      ((has_session_grant_iff s now (uses between m)).0 h))

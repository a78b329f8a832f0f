-- ===== src/Db/Projects/Next.antt =====
-- Which registration request the local user is shown.
use mathlib.Core.Path.{subst}
use codito_mcp.Common.{
  ℕ, String, ◌≤◌, ◌<◌, ◌≡◌, inl, inr, true, false, Option, none, some, [], ◌∷◌, arith, nat_Eq,
  list_Eq, option_Eq, string_Eq, All, Bool-cases, Option-cases, ltb, All-map,
}
use codito_mcp.Db.Projects.Registration.{
  is_pending, Request, Requests, is_stale, expire_requests, oldest_pending, next_request,
}

-- pending, not expired, and no later than any other pending request of the table
pub record IsNext (now : ℕ) (table : Requests) (r : Request) : Type 0 where
  pub waiting : is_pending r.status ≡ true
  pub unexpired : now < r.expires_at
  pub oldest : All (λ q. is_pending q.1.status ≡ true → r.created_at ≤ q.1.created_at) table

-- a pending request is not expired
abbrev IsLive : ℕ → String × Request → Type 0
IsLive now q = is_pending q.1.status ≡ true → now < q.1.expires_at

expire-IsLive : (now : ℕ) (table : Requests) → All (IsLive now) (expire_requests now table)
unfolding expire_requests is_stale is_pending
expire-IsLive now [] = tt
expire-IsLive now ((id, r) ∷ table) = (λ p. ground arith, expire-IsLive now table)

abbrev NotEarlier : ℕ → String × Request → Type 0
NotEarlier t q = is_pending q.1.status ≡ true → t ≤ q.1.created_at

some-same : (a b : String × Request) → ◌≡◌ {A = Option (String × Request)} (some a) (some b) → a ≡ b
some-same a b h = cc

head-none :
    (id : String) (r : Request) (table : Requests)
    → oldest_pending ((id, r) ∷ table) ≡ none
    → (is_pending r.status ≡ false) × (oldest_pending table ≡ none)
unfolding oldest_pending
head-none id r table h = ground arith

oldest_pending-none :
    (t : ℕ) (table : Requests) → oldest_pending table ≡ none → All (NotEarlier t) table
oldest_pending-none t [] h = tt
oldest_pending-none t ((id, r) ∷ table) h =
    let (idle, rest) = head-none id r table h in
    (λ p. absurd (ground (arith, idle, p)), oldest_pending-none t table rest)

-- what is found is pending, live, and not later than any other
abbrev IsOldest : ℕ → Requests → String × Request → Type 0
IsOldest now table x =
    (is_pending x.1.status ≡ true) × (now < x.1.expires_at) × All (NotEarlier x.1.created_at) table

oldest_pending-IsOldest :
    (now : ℕ) (table : Requests) (x : String × Request)
    → All (IsLive now) table
    → oldest_pending table ≡ some x
    → IsOldest now table x
unfolding oldest_pending
oldest_pending-IsOldest now [] x live h = absurd (ground arith)
oldest_pending-IsOldest now ((id, r) ∷ table) x live h = elim (Bool-cases (is_pending r.status)) [
  | inr idle ↦
      let (p, alive, old) =
        oldest_pending-IsOldest now table x live.1 (rw (idle, oldest_pending) at h) in
      (p, alive, (λ p. absurd (ground (arith, idle, p)), old))
  | inl waiting ↦ elim (Option-cases (oldest_pending table)) [
    | inl alone ↦
        subst (IsOldest now ((id, r) ∷ table))
          (some-same (id, r) x (rw (waiting, alone, oldest_pending) at h))
          (
            waiting,
            live.0 waiting,
            (λ _. omega arith, oldest_pending-none r.created_at table alone),
          )
    | inr (b, found) ↦
        let (p, alive, old) = oldest_pending-IsOldest now table b live.1 found in
        elim (Bool-cases (ltb b.1.created_at r.created_at)) [
          | inl before ↦
              subst (IsOldest now ((id, r) ∷ table))
                (some-same b x (rw (waiting, found, before, oldest_pending) at h))
                (p, alive, (λ _. ground (arith, before), old))
          | inr not_before ↦
              subst (IsOldest now ((id, r) ∷ table))
                (some-same (id, r) x (rw (waiting, found, not_before, oldest_pending) at h))
                (
                  waiting,
                  live.0 waiting,
                  (
                    λ _. omega arith,
                    All-map table (λ q older p. let k = older p in ground (arith, not_before, k))
                        old,
                  ),
                )
        ]
  ]
]

-- The request that the local user is shown is pending and not expired, and no pending request of
-- the table that the call leaves was created before it.
next_request-IsNext :
    (now : ℕ) (table : Requests) (x : String × Request)
    → (next_request now table).0 ≡ some x
    → IsNext now (next_request now table).1 x.1
unfolding next_request
next_request-IsNext now table x h =
    let (p, alive, old) =
      oldest_pending-IsOldest now (expire_requests now table) x (expire-IsLive now table) h in
    record { waiting = p; unexpired = alive; oldest = old }

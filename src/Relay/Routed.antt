-- ===== src/Relay/Routed.antt =====
-- What a route leads to, beside `_lookup_route` and `_device_is_connected`.
use codito_mcp.Common.{
  ℕ, String, ◌+◌, ◌≤◌, ◌≡◌, refl, ap, ◌⊎◌, inl, inr, Bool, true, false, not, ◌&&◌, ◌||◌, Option,
  some, arith, ok, ◌==◌, nat_Eq, list_Eq, option_Eq, string_Eq, Option-cases, >>=-eq-ok, Bool-cases,
  ok-injective,
}
use mathlib.Core.Path.{subst}
use codito_mcp.Common.Dict.{lookup}
use codito_mcp.Db.Json.{Fields}
use codito_mcp.Relay.Types.{
  Principal, Device, RelayProject, Store, text_field, online, is_online, DeviceStatus, enrolling,
  offline, revoked,
}
use codito_mcp.Relay.Route.{
  lookup_route, find_device, find_project, route_project, needs_no_project, is_device_tool,
  is_reachable, is_connected, seen_recently,
}
use codito_mcp.Relay.Dispatch.{is_local}

-- the principal's own device, which is not revoked
pub record OwnDevice (p : Principal) (d : Device) (s : Store) : Type 0 where
  pub found : lookup p.device_id s.devices ≡ some d
  pub account : d.account_id ≡ p.account_id
  pub kept : d.is_gone ≡ false

-- a project of the principal's own that is available on its device
pub record OwnProject (p : Principal) (id : String) (s : Store) : Type 0 where
  pub project : RelayProject
  pub found : lookup id s.projects ≡ some project
  pub account : project.account_id ≡ p.account_id
  pub device : project.device_id ≡ p.device_id
  pub is_available : project.available ≡ true

-- The call is for the relay or for the device as a whole, or for one project.
pub data Target (p : Principal) (tool : String) (args : Fields) (s : Store) : Type 0 where
  on_device :
      (tool ≡ "device_read") ⊎ ((tool ≡ "device_screenshot") ⊎ (tool ≡ "device_desktop"))
      → text_field "project_id" args ≡ ""
      → Target p tool args s
  listing :
      tool ≡ "project_read" → text_field "operation" args ≡ "list_projects" → Target p tool args s
  managing :
      tool ≡ "project_manage"
      → (text_field "operation" args ≡ "get_projects")
        ⊎ (text_field "operation" args ≡ "request_add_project")
      → Target p tool args s
  on_project : OwnProject p (text_field "project_id" args) s → Target p tool args s

-- the calls that the relay answers itself
abbrev pub IsLocal : String → Fields → Type 0
IsLocal tool args =
    ((tool ≡ "project_read") × (text_field "operation" args ≡ "list_projects"))
    ⊎ ((tool ≡ "project_manage") × (text_field "operation" args ≡ "get_projects"))

-- online, and seen lately
pub record IsSeen (now offline_after : ℕ) (d : Device) : Type 0 where
  pub at : ℕ
  pub is_up : d.status ≡ online
  pub seen : d.last_seen_at ≡ some at
  pub lately : now ≤ at + offline_after

same_text : (a b : String) → (a == b) ≡ true → a ≡ b
same_text a b h = (string_Eq.beq_iff a b).0 h

||-cases : (a b : Bool) → (a || b) ≡ true → (a ≡ true) ⊎ (b ≡ true)
||-cases true b h = inl refl
||-cases false b h = inr h

&&-both : (a b : Bool) → (a && b) ≡ true → (a ≡ true) × (b ≡ true)
&&-both true b h = (refl, h)
&&-both false b h = absurd (ground arith)

pub find_device-ok :
    (p : Principal) (d : Device) (s : Store) → find_device p s ≡ ok d → OwnDevice p d s
unfolding find_device
find_device-ok p d s h = elim (Option-cases (lookup p.device_id s.devices)) [
  | inl gone ↦ absurd (let q = rw (gone, find_device) at h in ground arith)
  | inr (x, there) ↦
      let q = rw (there, find_device) at h in
      elim (Bool-cases (x.account_id == p.account_id && not x.is_gone)) [
        | inr other ↦ absurd (let r = rw other at q in ground arith)
        | inl own ↦
            let e = ok-injective x d (rw own at q) in
            subst (λ d. OwnDevice p d s) e
              (record {
                found = there;
                account = (nat_Eq.beq_iff x.account_id p.account_id).0 (ground arith);
                kept = ground arith;
              })
      ]
]

find_project-ok :
    (p : Principal) (id : String) (project : Option String) (s : Store)
    → find_project p id s ≡ ok project
    → OwnProject p id s
unfolding find_project is_reachable
find_project-ok p id project s h = elim (Option-cases (lookup id s.projects)) [
  | inl gone ↦ absurd (let q = rw (gone, find_project) at h in ground arith)
  | inr (x, there) ↦
      let q = rw (there, find_project) at h in
      elim (Bool-cases
        (x.account_id == p.account_id && x.device_id == p.device_id && x.available)) [
          | inr other ↦ absurd (let r = rw other at q in ground arith)
          | inl own ↦ record {
            project = x;
            found = there;
            account = (nat_Eq.beq_iff x.account_id p.account_id).0 (ground arith);
            device = (string_Eq.beq_iff x.device_id p.device_id).0 (ground arith);
            is_available = ground arith;
          }
        ]
]

one_of : (a b c : String) → (a == b || a == c) ≡ true → (a ≡ b) ⊎ (a ≡ c)
one_of a b c h = elim (||-cases (a == b) (a == c) h) [
  | inl k ↦ inl (same_text a b k)
  | inr k ↦ inr (same_text a c k)
]

is_device_tool-cases :
    (tool : String)
    → is_device_tool tool ≡ true
    → (tool ≡ "device_read") ⊎ ((tool ≡ "device_screenshot") ⊎ (tool ≡ "device_desktop"))
unfolding is_device_tool
is_device_tool-cases tool h =
    elim (||-cases (tool == "device_read" || tool == "device_screenshot") (tool == "device_desktop")
      h) [
        | inr k ↦ inr (inr (same_text tool "device_desktop" k))
        | inl k ↦ elim (one_of tool "device_read" "device_screenshot" k) [
          | inl e ↦ inl e
          | inr e ↦ inr (inl e)
        ]
      ]

needs_no_project-Target :
    (p : Principal) (tool : String) (args : Fields) (s : Store)
    → needs_no_project tool args ≡ true
    → Target p tool args s
unfolding needs_no_project is_device_tool
needs_no_project-Target p tool args s h =
    let op = text_field "operation" args in
    let none_named = text_field "project_id" args == "" in
    let is_listing = tool == "project_read" && op == "list_projects" in
    let is_managing =
      tool == "project_manage" && (op == "get_projects" || op == "request_add_project") in
    elim (||-cases (is_device_tool tool && none_named || is_listing) is_managing h) [
      | inr k ↦
          let (t, e) =
            &&-both (tool == "project_manage") (op == "get_projects" || op == "request_add_project")
              k in
          managing (same_text tool "project_manage" t)
            (one_of op "get_projects" "request_add_project" e)
      | inl k ↦ elim (||-cases (is_device_tool tool && none_named) is_listing k) [
        | inl k ↦
            let (t, e) = &&-both (is_device_tool tool) none_named k in
            on_device (is_device_tool-cases tool t) (same_text (text_field "project_id" args) "" e)
        | inr k ↦
            let (t, e) = &&-both (tool == "project_read") (op == "list_projects") k in
            listing (same_text tool "project_read" t) (same_text op "list_projects" e)
      ]
    ]

route_project-ok :
    (p : Principal) (tool : String) (args : Fields) (project : Option String) (s : Store)
    → route_project p tool args s ≡ ok project
    → Target p tool args s
unfolding route_project
route_project-ok p tool args named s h = elim (Bool-cases (needs_no_project tool args)) [
  | inl t ↦ needs_no_project-Target p tool args s t
  | inr f ↦
      let q = rw f at h in
      elim (Bool-cases (text_field "project_id" args == "")) [
        | inl empty ↦ absurd (let r = rw empty at q in ground arith)
        | inr filled ↦
            on_project (find_project-ok p (text_field "project_id" args) named s (rw filled at q))
      ]
]

pub lookup_route-ok :
    (p : Principal) (tool : String) (args : Fields) (d : Device) (project : Option String)
    (s : Store)
    → lookup_route p tool args s ≡ ok (d, project)
    → OwnDevice p d s × Target p tool args s
unfolding lookup_route
lookup_route-ok p tool args d project s h =
    let (x, found, later) = >>=-eq-ok (find_device p s) _ h in
    let (named, routed, made) = >>=-eq-ok (route_project p tool args s) (λ k. ok (x, k)) later in
    let e = ap (λ r. r.0) (ok-injective (x, named) (d, project) made) in
    (
      subst (λ d. OwnDevice p d s) e (find_device-ok p x s found),
      route_project-ok p tool args named s routed,
    )

pub is_local-IsLocal :
    (tool : String) (args : Fields) → is_local tool args ≡ true → IsLocal tool args
unfolding is_local
is_local-IsLocal tool args h =
    let op = text_field "operation" args in
    let is_read = tool == "project_read" && op == "list_projects" in
    let is_managing = tool == "project_manage" && op == "get_projects" in
    elim (||-cases is_read is_managing h) [
      | inl k ↦
          let (t, e) = &&-both (tool == "project_read") (op == "list_projects") k in
          inl (same_text tool "project_read" t, same_text op "list_projects" e)
      | inr k ↦
          let (t, e) = &&-both (tool == "project_manage") (op == "get_projects") k in
          inr (same_text tool "project_manage" t, same_text op "get_projects" e)
    ]

is_online-eq : (status : DeviceStatus) → is_online status ≡ true → status ≡ online
unfolding is_online
is_online-eq online h = refl
is_online-eq enrolling h = absurd (ground arith)
is_online-eq offline h = absurd (ground arith)
is_online-eq revoked h = absurd (ground arith)

pub is_connected-IsSeen :
    (now offline_after : ℕ) (d : Device)
    → is_connected now offline_after d ≡ true
    → IsSeen now offline_after d
unfolding is_connected seen_recently
is_connected-IsSeen now offline_after d h =
    let (up, seen) =
      &&-both (is_online d.status) (seen_recently now offline_after d.last_seen_at) h in
    elim (Option-cases d.last_seen_at) [
      | inl never ↦ absurd (let q = rw (never, seen_recently) at seen in ground arith)
      | inr (t, e) ↦
          let q = rw (e, seen_recently) at seen in
          record { at = t; is_up = is_online-eq d.status up; seen = e; lately = ground arith }
    ]

-- ===== src/Relay/Tunnel/Synchronized.antt =====
-- What a synchronization of a device's projects leaves.
use mathlib.Core.Path.{subst}
use codito_mcp.Common.{
  String, ◌≡◌, refl, sym, ap, ◌∙◌, inl, inr, true, false, not, some, List, [], ◌∷◌, arith,
  if◌then◌else◌, ok, ◌>>◌, raise_if, nat_Eq, list_Eq, option_Eq, string_Eq, >>=-eq-ok, ok-injective,
  Bool-cases, Option-cases, none, Option, ◌⊎◌, ◌&&◌, ◌≤◌, Result-cases, leb, leb→le,
}
use codito_mcp.Common.Dict.{lookup}
use codito_mcp.Db.Json.{Items, Fields, get_field, arr}
use codito_mcp.Relay.Tunnel.Types.{Connection, World, value_error}
use codito_mcp.Relay.Tunnel.Projects.{
  available, unavailable, ProjectRow, Projects, is_own, upsert_all, left_out, withdraw,
  synchronize_projects, synchronize, synchronized, count_items,
}
use codito_mcp.Relay.Tunnel.Upserts.{
  lists, upsert_all-Kept, upsert_all-other, upsert_all-seen, lookup-withdraw, is_others,
  upsert_all-back, upsert_all-absent,
}

absent-withdraw :
    (c : Connection) (seen : List String) (id : String) (projects : Projects)
    → lookup id projects ≡ none
    → lookup id (withdraw c seen projects) ≡ none
unfolding withdraw lookup
absent-withdraw c seen id [] h = refl
absent-withdraw c seen id ((i, r) ∷ projects) h = ground (arith, absent-withdraw c seen id projects)

-- What a project is after a list was taken: not there, where it was not there and is not listed;
-- the device's own, where no other had it, and available exactly if it is listed; or another's, as
-- it was.
abbrev pub Reflects :
    World → Connection → Items → String → Option ProjectRow → Option ProjectRow → Type 0
Reflects w c items id before none = (before ≡ none) × (lists w id items ≡ false)
Reflects w c items id before (some row) =
    ((is_own c row ≡ true)
      × (is_others c before ≡ false)
      × (row.status ≡ (if lists w id items then available else unavailable)))
    ⊎ ((is_own c row ≡ false) × (before ≡ some row))

others-remain :
    (w : World) (c : Connection) (items : Items) (projects : Projects)
    (done : List String × Projects) (id : String) (row : ProjectRow)
    → upsert_all w c items [] projects ≡ ok done
    → lookup id done.1 ≡ some row
    → is_own c row ≡ true
    → is_others c (lookup id projects) ≡ false
unfolding is_others
others-remain w c items projects done id row h here own = elim (Option-cases (lookup id projects)) [
  | inl gone ↦ rw gone refl
  | inr (old, there) ↦ ground (
    arith,
    upsert_all-other w c items [] projects done id old h there,
    ap (is_own c) {x = old} {y = row},
  )
]

listed-available :
    (w : World) (c : Connection) (items : Items) (projects : Projects)
    (done : List String × Projects) (id : String)
    → upsert_all w c items [] projects ≡ ok done
    → lists w id items ≡ true
    → (row : ProjectRow) × (lookup id done.1 ≡ some row)
      × (is_own c row ≡ true)
      × (row.status ≡ available)
listed-available w c items projects done id h listed =
    upsert_all-Kept w c items [] projects done h (λ k none_named. absurd (ground arith)) id
      (upsert_all-seen w c items [] projects done id h ∙ rw listed refl)

left_out-lists :
    (w : World) (c : Connection) (items : Items) (projects : Projects)
    (done : List String × Projects) (id : String) (row : ProjectRow)
    → upsert_all w c items [] projects ≡ ok done
    → left_out c done.0 id row ≡ (is_own c row && not (lists w id items))
unfolding left_out
left_out-lists w c items projects done id row h =
    let at = upsert_all-seen w c items [] projects done id h in ground arith

unlisted-absent :
    (w : World) (c : Connection) (items : Items) (projects : Projects)
    (done : List String × Projects) (id : String)
    → upsert_all w c items [] projects ≡ ok done
    → lookup id done.1 ≡ none
    → lists w id items ≡ false
unlisted-absent w c items projects done id h gone = elim (Bool-cases (lists w id items)) [
  | inr unlisted ↦ unlisted
  | inl listed ↦
      let (row, here, _, _) = listed-available w c items projects done id h listed in
      absurd (ground arith)
]

own-Reflects :
    (w : World) (c : Connection) (items : Items) (projects : Projects)
    (done : List String × Projects) (id : String) (row : ProjectRow)
    → upsert_all w c items [] projects ≡ ok done
    → lookup id done.1 ≡ some row
    → is_own c row ≡ true
    → Reflects w c items id
        (lookup id projects)
        (some (if not (lists w id items) then record row { status = unavailable } else row))
unfolding is_own
own-Reflects w c items projects done id row h here own =
    let before = others-remain w c items projects done id row h here own in
    elim (Bool-cases (lists w id items)) [
      | inr unlisted ↦ rw unlisted (inl (own, before, refl))
      | inl listed ↦
          let (r, there, _, free) = listed-available w c items projects done id h listed in
          rw listed (inl (own, before, ground (arith, ap (λ k. k.status) {x = r} {y = row})))
    ]

row-Reflects :
    (w : World) (c : Connection) (items : Items) (projects : Projects)
    (done : List String × Projects) (id : String) (row : ProjectRow)
    → upsert_all w c items [] projects ≡ ok done
    → lookup id done.1 ≡ some row
    → Reflects w c items id (lookup id projects) (
        some (
          if is_own c row && not (lists w id items)
          then record row { status = unavailable }
          else row))
unfolding is_others
row-Reflects w c items projects done id row h here = elim (Bool-cases (is_own c row)) [
  | inl own ↦
      subst
        (λ b.
          Reflects w c items id (lookup id projects) (
            some
              (if b && not (lists w id items) then record row { status = unavailable } else row)))
        (sym own) (own-Reflects w c items projects done id row h here own)
  | inr other ↦
      subst
        (λ b.
          Reflects w c items id (lookup id projects) (
            some
              (if b && not (lists w id items) then record row { status = unavailable } else row)))
        (sym other)
        (inr (
          other,
          upsert_all-back w c items [] projects done id h (ap (is_others c) here ∙ ap not other)
              ∙ here,
        ))
]

withdraw-Reflects :
    (w : World) (c : Connection) (items : Items) (projects : Projects)
    (done : List String × Projects) (id : String)
    → upsert_all w c items [] projects ≡ ok done
    → Reflects w c items id (lookup id projects) (lookup id (withdraw c done.0 done.1))
withdraw-Reflects w c items projects done id h = elim (Option-cases (lookup id done.1)) [
  | inl gone ↦ rw (absent-withdraw c done.0 id done.1 gone) (
    upsert_all-absent w c items [] projects done id h gone,
    unlisted-absent w c items projects done id h gone,
  )
  | inr (row, here) ↦
      rw
        (
          lookup-withdraw c done.0 id row done.1 here,
          left_out-lists w c items projects done id row h,
        )
        (row-Reflects w c items projects done id row h here)
]

synchronize-ok :
    (w : World) (c : Connection) (payload : Fields) (items : Items) (projects : Projects)
    → get_field "projects" payload ≡ some (arr items)
    → (synchronize_projects w c payload projects).0 ≡ ok tt
    → synchronized w c items projects ≡ ok (synchronize_projects w c payload projects).1
unfolding synchronize_projects synchronize
synchronize-ok w c payload items projects here done =
    elim (Result-cases (synchronized w c items projects)) [
      | inr (refusal, h) ↦
          absurd (let q = rw (here, h, synchronize_projects, synchronize) at done in ground arith)
      | inl (projects', h) ↦ h ∙ sym (rw (here, h, synchronize_projects, synchronize) refl)
    ]

-- When a device's list of projects is accepted, it holds at most 1000 entries, and every project of
-- the relay reflects it: the device's own projects are available exactly if they are listed,
-- projects that were another's are as they were, and none is lost or taken over.
pub synchronize-Reflects :
    (w : World) (c : Connection) (payload : Fields) (items : Items) (projects : Projects)
    (id : String)
    → get_field "projects" payload ≡ some (arr items)
    → (synchronize_projects w c payload projects).0 ≡ ok tt
    → (count_items items ≤ 1000)
      × Reflects w c items id
          (lookup id projects)
          (lookup id (synchronize_projects w c payload projects).1)
unfolding synchronized
synchronize-Reflects w c payload items projects id here done =
    let after = (synchronize_projects w c payload projects).1 in
    let (upserted, first, last) =
      >>=-eq-ok
        (raise_if (not (leb (count_items items) 1000)) value_error
          >> upsert_all w c items [] projects)
        _ (synchronize-ok w c payload items projects here done) in
    let (_, small, all_of_them) =
      >>=-eq-ok (raise_if (not (leb (count_items items) 1000)) value_error) _ first in
    (
      leb→le (count_items items) 1000 (ground arith),
      subst (λ p. Reflects w c items id (lookup id projects) (lookup id p))
          (ok-injective (withdraw c upserted.0 upserted.1) after last)
          (withdraw-Reflects w c items projects upserted id all_of_them),
    )

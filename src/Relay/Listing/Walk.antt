-- ===== src/Relay/Listing/Walk.antt =====
-- A client that follows the continuations of a listing.
use mathlib.Core.Path.{subst}
use mathlib.Core.List.{append_assoc}
use codito_mcp.Common.{
  ℕ, zero, suc, String, ◌+◌, ◌-◌, ◌≤◌, ◌<◌, ◌≡◌, refl, sym, ap, ◌∙◌, Bool, true, false, Option,
  none, some, List, [], ◌∷◌, ◌++◌, map, arith, ok, ◌>>=◌, ◌==◌, nat_Eq, string_Eq, ltb, length,
  take, drop, select, Bool-cases, inl, inr, length-take, length-drop, take-append-drop, eq_self,
  length-select-le,
}
use codito_mcp.Relay.Types.{Principal, Dispatched, Device}
use codito_mcp.Relay.Route.{is_connected}
use codito_mcp.Relay.Listing.{
  cursor_at, ListedProject, Signing, Entry, is_listed, is_after, is_bound, open_cursor,
  after_cursor, nth_id, entry_of, listing, list_projects,
}
use codito_mcp.Relay.Listing.Pages.{
  IsAscending, select-after, nth_id-take, take-take_more, take-all, select-IsAscending,
}

module _ (keys : Signing) (now offline_after : ℕ) (who : Principal) (device : Device) (limit : ℕ)
    (table : List ListedProject) where
  -- the entries of at most `n` pages
  unfoldable pub walk : ℕ → Option String → Dispatched (List Entry)
  walk zero cursor = ok []
  walk (suc n) cursor = list_projects keys now offline_after who device cursor limit table >>= λ l.
      elim l.continuation [
        | none ↦ ok l.projects
        | some next ↦ walk n (some next) >>= λ rest. ok (l.projects ++ rest)
      ]

  abbrev own : List ListedProject
  own = select (is_listed who) table

  abbrev shown : List ListedProject → List Entry
  shown = map (entry_of (is_connected now offline_after device))

  shown-append : (ps qs : List ListedProject) → shown (ps ++ qs) ≡ shown ps ++ shown qs
  shown-append [] qs = refl
  shown-append (p ∷ ps) qs =
      ap (◌∷◌ (entry_of (is_connected now offline_after device) p)) (shown-append ps qs)

  abbrev next_of : List ListedProject → String
  next_of ps = keys.dumps (cursor_at who (nth_id (limit - 1) ps))

  abbrev online : Bool
  online = is_connected now offline_after device

  listing-short :
      (ps : List ListedProject)
      → length ps ≤ limit
      → ((listing keys who online limit ps).projects ≡ shown ps)
        × ((listing keys who online limit ps).continuation ≡ none)
  unfolding listing
  listing-short ps short =
      let page = take-all (limit + 1) ps (omega (arith, short)) in
      let closed : ltb limit (length (take (limit + 1) ps)) ≡ false =
        ground (arith, ap (length {A = ListedProject}) page, short) in
      (ap (λ t. shown (take limit t)) page ∙ ap shown (take-all limit ps short), rw closed refl)

  listing-long :
      (ps : List ListedProject)
      → 1 ≤ limit
      → limit < length ps
      → ((listing keys who online limit ps).projects ≡ shown (take limit ps))
        × ((listing keys who online limit ps).continuation ≡ some (next_of ps))
  unfolding listing
  listing-long ps positive long =
      let full = length-take (limit + 1) ps (omega (arith, long)) in
      let open_page : ltb limit (length (take (limit + 1) ps)) ≡ true = ground (arith, full) in
      (
        ap (λ k. shown (take limit (take k ps))) {x = limit + 1} {y = suc limit} (omega arith)
            ∙ ap shown (take-take_more limit ps),
        rw open_page (
            ap (λ id. some (keys.dumps (cursor_at who id)))
              (nth_id-take (limit - 1) (limit + 1) ps (omega arith))),
      )

  listed :
      (cursor : Option String) (ps : List ListedProject)
      → after_cursor keys who cursor own ≡ ok ps
      → list_projects keys now offline_after who device cursor limit table
        ≡ ok (listing keys who online limit ps)
  unfolding list_projects
  listed cursor ps found = rw found refl

  last_page :
      (n : ℕ) (cursor : Option String) (ps : List ListedProject)
      → after_cursor keys who cursor own ≡ ok ps
      → length ps ≤ limit
      → walk (suc n) cursor ≡ ok (shown ps)
  unfolding walk
  last_page n cursor ps found short =
      let (entries, closed) = listing-short ps short in
      rw (listed cursor ps found) (rw closed (ap ok entries))

  more_pages :
      (n : ℕ) (cursor : Option String) (ps : List ListedProject)
      → after_cursor keys who cursor own ≡ ok ps
      → 1 ≤ limit
      → limit < length ps
      → walk (suc n) cursor
        ≡ (walk n (some (next_of ps)) >>= λ rest. ok (shown (take limit ps) ++ rest))
  unfolding walk
  more_pages n cursor ps found positive long =
      let (entries, continued) = listing-long ps positive long in
      rw (listed cursor ps found)
        (rw continued (ap (λ es. walk n (some (next_of ps)) >>= λ rest. ok (es ++ rest)) entries))

  next_found :
      (pre ps : List ListedProject)
      → ((id : ℕ) → keys.loads (keys.dumps (cursor_at who id)) ≡ some (cursor_at who id))
      → ((id : ℕ) → (keys.dumps (cursor_at who id) == "") ≡ false)
      → own ≡ pre ++ ps
      → IsAscending 0 own
      → 1 ≤ limit
      → limit < length ps
      → after_cursor keys who (some (next_of ps)) own ≡ ok (drop limit ps)
  unfolding after_cursor open_cursor is_bound
  next_found pre ps opens given split up positive long = rw (given _) (
      rw (opens _) (
        rw (eq_self who.account_id, eq_self who.device_id, eq_self who.link_id)
          (ap ok (
            ap (select (is_after (nth_id (limit - 1) ps))) split
            ∙ select-after 0 (limit - 1) pre ps (subst (IsAscending 0) split up)
                (omega (arith, positive, long))
            ∙ ap (λ k. drop k ps) {x = suc (limit - 1)} {y = limit} (omega (arith, positive))))))

  walk_from :
      (n : ℕ) (cursor : Option String) (pre ps : List ListedProject)
      → ((id : ℕ) → keys.loads (keys.dumps (cursor_at who id)) ≡ some (cursor_at who id))
      → ((id : ℕ) → (keys.dumps (cursor_at who id) == "") ≡ false)
      → 1 ≤ limit
      → IsAscending 0 own
      → own ≡ pre ++ ps
      → after_cursor keys who cursor own ≡ ok ps
      → length ps < n
      → walk n cursor ≡ ok (shown ps)
  walk_from zero cursor pre ps opens given positive up split found enough =
      absurd (omega (arith, enough))
  walk_from (suc n) cursor pre ps opens given positive up split found enough =
      elim (Bool-cases (ltb limit (length ps))) [
        | inr short ↦ last_page n cursor ps found (ground (arith, short))
        | inl long ↦
            let more : limit < length ps = ground (arith, long) in
            let rest =
              walk_from n (some (next_of ps)) (pre ++ take limit ps) (drop limit ps) opens given
                positive up
                (split
                  ∙ ap (λ t. pre ++ t) (sym (take-append-drop limit ps))
                  ∙ sym (append_assoc pre (take limit ps) (drop limit ps)))
                (next_found pre ps opens given split up positive more)
                (omega (arith, length-drop limit ps, positive, more, enough)) in
            more_pages n cursor ps found positive more
            ∙ ap (λ r. r >>= λ es. ok (shown (take limit ps) ++ es)) rest
            ∙ ap ok (
                sym (shown-append (take limit ps) (drop limit ps))
                ∙ ap shown (take-append-drop limit ps))
      ]

  -- A client that follows the continuations gets every available project of its account and its
  -- device exactly once, in the order of the identifiers, and nothing else, whatever the size of a page
  -- is: where a signed cursor of the client is loaded as it was and is not empty, the table is in order, and the
  -- client asks once more often than there are rows.
  pub walk_complete :
      (n : ℕ)
      → ((id : ℕ) → keys.loads (keys.dumps (cursor_at who id)) ≡ some (cursor_at who id))
      → ((id : ℕ) → (keys.dumps (cursor_at who id) == "") ≡ false)
      → 1 ≤ limit
      → IsAscending 0 table
      → length table < n
      → walk n none
        ≡ ok (map (entry_of (is_connected now offline_after device)) (select (is_listed who) table))
  unfolding after_cursor
  walk_complete n opens given positive up enough =
      walk_from n none [] own opens given positive (select-IsAscending (is_listed who) 0 table up)
        refl refl (omega (arith, length-select-le (is_listed who) table, enough))

-- ===== src/Tests/Listing.antt =====
-- Three of four projects, in pages of two.
use codito_mcp.Common.{
  ℕ, String, ◌≡◌, refl, true, false, none, some, List, [], ◌∷◌, ok, zero, suc, ◌-◌, ap, map, select,
  ◌==◌, string_Eq, arith, Bool-cases, inl, inr,
}
use Prim.Native.String.{String}
use codito_mcp.Relay.Types.{Principal, Device, online}
use codito_mcp.Relay.Route.{is_connected}
use codito_mcp.Relay.Listing.{ListedProject, cursor_at, Signing, is_listed, entry_of}
use codito_mcp.Relay.Listing.Walk.{walk, walk_complete}

abbrev caller : Principal
caller = record {
  account_id = 7;
  device_id = "device";
  link_id = "link";
  device_link_id = 3;
  oauth_grant_id = "grant";
  scopes = [];
}

abbrev device : Device
device = record {
  account_id = 7;
  status = online;
  connection_epoch = 4;
  last_seen_at = some 100;
  is_gone = false;
}

abbrev project : ℕ → String → ListedProject
project id device_id = record {
  id = id;
  account_id = 7;
  device_id = device_id;
  is_available = true;
  title = "title";
  mode = "project";
}

abbrev table : List ListedProject
table = project 1 "device" ∷ project 2 "other" ∷ project 5 "device" ∷ project 9 "device" ∷ []

unfoldable text_of : ℕ → String
text_of zero = ""
text_of (suc n) = String.◌∷◌ "x" (text_of n)

unfoldable count : String → ℕ
count String.[] = 0
count (String.◌∷◌ c s) = suc (count s)

-- a signature that tells the cursors of one caller apart
abbrev keys : Signing
keys = record {
  dumps = λ c. text_of (suc c.id);
  loads = λ text. some (cursor_at caller (count text - 1));
}

count-text_of : (n : ℕ) → count (text_of n) ≡ n
unfolding count text_of
count-text_of zero = refl
count-text_of (suc n) = ap suc (count-text_of n)

keys-opens : (id : ℕ) → keys.loads (keys.dumps (cursor_at caller id)) ≡ some (cursor_at caller id)
keys-opens id =
    ap (λ n. some (cursor_at caller n)) {x = count (text_of (suc id)) - 1} {y = id}
      (omega (arith, count-text_of (suc id)))

keys-given : (id : ℕ) → (keys.dumps (cursor_at caller id) == "") ≡ false
unfolding count
keys-given id = elim (Bool-cases (text_of (suc id) == "")) [
  | inl same ↦ absurd (
      let none_left = ap count ((string_Eq.beq_iff (text_of (suc id)) "").0 same) in
      omega (arith, none_left, count-text_of (suc id)))
  | inr other ↦ other
]

walk_complete_example :
    walk keys 110 30 caller device 2 table 5 none
    ≡ ok (map (entry_of (is_connected 110 30 device)) (select (is_listed caller) table))
walk_complete_example =
    walk_complete keys 110 30 caller device 2 table 5 keys-opens keys-given (omega arith)
      (omega arith, (omega arith, (omega arith, (omega arith, tt)))) (omega arith)

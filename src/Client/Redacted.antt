-- ===== src/Client/Redacted.antt =====
-- The paths of the device in an error's details.
use codito_mcp.Common.{
  ℕ, zero, suc, String, ◌≡◌, refl, ap, ◌∙◌, Bool, true, false, not, ◌&&◌, [], ◌∷◌, arith, ◌==◌,
  nat_Eq, string_Eq, Bool-cases, inl, inr, take,
}
use Prim.Native.String.{String}
use Prim.Native.Char.{code}
use codito_mcp.Text.{Text, codes, starts_with}
use codito_mcp.Db.Json.{
  Json, Items, Fields, null, bool, num, str, arr, obj, end_items, item, end_fields, field,
}
use codito_mcp.Db.Projects.{is_space}
use codito_mcp.Relay.Results.{set_field}
use codito_mcp.Client.Shown.{ShowsPath, ShowsPath-found}
use codito_mcp.Client.WireErrors.{
  take_text, is_letter, drive_at, has_drive, is_local_path, safe_text, safe_details, safe_items,
  safe_fields,
}

-- no text value in it is taken for a path
unfoldable mutual
  is_redacted : Json → Bool
  is_redacted (str s) = not (is_local_path (codes s))
  is_redacted (arr items) = are_redacted items
  is_redacted (obj fs) = have_redacted fs
  is_redacted (bool b) = true
  is_redacted (num n) = true
  is_redacted null = true

  are_redacted : Items → Bool
  are_redacted end_items = true
  are_redacted (item v items) = is_redacted v && are_redacted items

  have_redacted : Fields → Bool
  have_redacted end_fields = true
  have_redacted (field k v fs) = is_redacted v && have_redacted fs

codes-take_text : (n : ℕ) (s : String) → codes (take_text n s) ≡ take n (codes s)
unfolding take_text
codes-take_text zero s = refl
codes-take_text (suc n) String.[] = refl
codes-take_text (suc n) (String.◌∷◌ c s) = ap (λ t. code c ∷ t) (codes-take_text n s)

drive_at-take : (n : ℕ) (s : Text) → drive_at (take n s) ≡ true → drive_at s ≡ true
unfolding drive_at
drive_at-take zero s h = absurd (ground arith)
drive_at-take (suc n) [] h = h
drive_at-take (suc zero) (c ∷ s) h = absurd (ground arith)
drive_at-take (suc (suc n)) (c ∷ []) h = h
drive_at-take (suc (suc zero)) (c ∷ d ∷ s) h = absurd (ground arith)
drive_at-take (suc (suc (suc n))) (c ∷ d ∷ []) h = h
drive_at-take (suc (suc (suc n))) (c ∷ d ∷ e ∷ s) h = h

has_drive-take :
    (n : ℕ) (here : Bool) (s : Text) → has_drive here (take n s) ≡ true → has_drive here s ≡ true
unfolding has_drive
has_drive-take zero here s h = absurd (ground arith)
has_drive-take (suc n) here [] h = h
has_drive-take (suc n) here (c ∷ s) h =
    ground (arith, has_drive-take n (is_space c) s, drive_at-take (suc n) (c ∷ s))

starts_with-take : (n : ℕ) (p s : Text) → starts_with p (take n s) ≡ true → starts_with p s ≡ true
unfolding starts_with
starts_with-take n [] s h = refl
starts_with-take zero (q ∷ p) s h = absurd (ground arith)
starts_with-take (suc n) (q ∷ p) [] h = h
starts_with-take (suc n) (q ∷ p) (c ∷ s) h = ground (arith, starts_with-take n p s)

is_local_path-take : (n : ℕ) (s : Text) → is_local_path (take n s) ≡ true → is_local_path s ≡ true
unfolding is_local_path
is_local_path-take n s h = ground (
  arith,
  has_drive-take n true s,
  starts_with-take n (codes "\\\\") s,
  starts_with-take n (codes "//") s,
)

contraposed : (a b : Bool) → (a ≡ true → b ≡ true) → b ≡ false → a ≡ false
contraposed true b h k = absurd (let q = h refl in ground arith)
contraposed false b h k = refl

placeholder_redacted : is_local_path (codes "[local path redacted]") ≡ false
unfolding is_local_path has_drive drive_at is_letter is_space starts_with
placeholder_redacted = refl

safe_text-redacted : (s : String) → is_local_path (codes (safe_text s)) ≡ false
unfolding safe_text
safe_text-redacted s = elim (Bool-cases (is_local_path (codes s))) [
  | inl hidden ↦ rw hidden placeholder_redacted
  | inr shown ↦ rw shown (
      ap is_local_path (codes-take_text 1024 s)
      ∙ contraposed (is_local_path (take 1024 (codes s))) (is_local_path (codes s))
          (is_local_path-take 1024 (codes s)) shown)
]

have_redacted-set_field :
    (k : String) (v : Json) (fs : Fields)
    → is_redacted v ≡ true
    → have_redacted fs ≡ true
    → have_redacted (set_field k v fs) ≡ true
unfolding set_field is_redacted
have_redacted-set_field k v end_fields h g = ground arith
have_redacted-set_field k v (field j w fs) h g = elim (Bool-cases (j == k)) [
  | inl same ↦ rw same (ground arith)
  | inr other ↦ rw other (ground (arith, have_redacted-set_field k v fs h))
]

mutual
  unfolding is_redacted safe_details

  details_redacted : (v : Json) → is_redacted (safe_details v) ≡ true
  details_redacted (str s) = ap not (safe_text-redacted s)
  details_redacted (arr items) = items_redacted 64 items
  details_redacted (obj fs) = fields_redacted 64 fs end_fields refl
  details_redacted (bool b) = refl
  details_redacted (num n) = refl
  details_redacted null = refl

  items_redacted : (n : ℕ) (items : Items) → are_redacted (safe_items n items) ≡ true
  items_redacted zero items = refl
  items_redacted (suc n) end_items = refl
  items_redacted (suc n) (item v items) = ground (arith, details_redacted v, items_redacted n items)

  fields_redacted :
      (n : ℕ) (fs kept : Fields)
      → have_redacted kept ≡ true
      → have_redacted (safe_fields n fs kept) ≡ true
  fields_redacted zero fs kept h = h
  fields_redacted (suc n) end_fields kept h = h
  fields_redacted (suc n) (field k v fs) kept h =
      fields_redacted n fs (set_field (take_text 100 k) (safe_details v) kept)
        (have_redacted-set_field (take_text 100 k) (safe_details v) kept (details_redacted v) h)

-- no text value in it, at any depth, shows a path
unfoldable mutual
  pub IsRedacted : Json → Type 0
  IsRedacted (str s) = ShowsPath (codes s) → ⊥
  IsRedacted (arr items) = AreRedacted items
  IsRedacted (obj fs) = HaveRedacted fs
  IsRedacted (bool b) = Unit {0}
  IsRedacted (num n) = Unit {0}
  IsRedacted null = Unit {0}

  pub AreRedacted : Items → Type 0
  AreRedacted end_items = Unit {0}
  AreRedacted (item v items) = IsRedacted v × AreRedacted items

  pub HaveRedacted : Fields → Type 0
  HaveRedacted end_fields = Unit {0}
  HaveRedacted (field k v fs) = IsRedacted v × HaveRedacted fs

shows_none : (s : Text) → is_local_path s ≡ false → ShowsPath s → ⊥
shows_none s h shown = let found = ShowsPath-found shown in ground arith

mutual
  unfolding is_redacted IsRedacted

  IsRedacted-value : (v : Json) → is_redacted v ≡ true → IsRedacted v
  IsRedacted-value (str s) h = shows_none (codes s) (ground arith)
  IsRedacted-value (arr items) h = AreRedacted-items items h
  IsRedacted-value (obj fs) h = HaveRedacted-fields fs h
  IsRedacted-value (bool b) h = tt
  IsRedacted-value (num n) h = tt
  IsRedacted-value null h = tt

  AreRedacted-items : (items : Items) → are_redacted items ≡ true → AreRedacted items
  AreRedacted-items end_items h = tt
  AreRedacted-items (item v items) h =
      (IsRedacted-value v (ground arith), AreRedacted-items items (ground arith))

  HaveRedacted-fields : (fs : Fields) → have_redacted fs ≡ true → HaveRedacted fs
  HaveRedacted-fields end_fields h = tt
  HaveRedacted-fields (field k v fs) h =
      (IsRedacted-value v (ground arith), HaveRedacted-fields fs (ground arith))

-- In the details of an error that go to the relay, no text value, at any depth, has a drive's path at
-- its start or after a space, or starts as a UNC path does. A path in another place of a text, as in
-- quotes, and the names of fields are not covered.
pub safe_details-IsRedacted : (v : Json) → IsRedacted (safe_details v)
safe_details-IsRedacted v = IsRedacted-value (safe_details v) (details_redacted v)

-- ===== src/Client/Shown.antt =====
-- The forms in which a text shows a path, beside the tests of `_safe_details`.
use codito_mcp.Common.{ℕ, ◌≡◌, Bool, true, [], ◌∷◌, arith, nat_Eq, string_Eq, ◌≤◌, ◌++◌, ◌⊎◌}
use codito_mcp.Text.{Text, starts_with}
use codito_mcp.Db.Projects.{is_space}
use codito_mcp.Client.WireErrors.{is_letter, drive_at, has_drive, is_local_path}

-- a letter, a colon and a slash or a backslash
pub record IsDrive (a b c : ℕ) : Type 0 where
  pub letter : ((b'A' ≤ a) × (a ≤ b'Z')) ⊎ ((b'a' ≤ a) × (a ≤ b'z'))
  pub colon : b ≡ b':'
  pub slash : (c ≡ b'/') ⊎ (c ≡ b'\\')

-- A text that shows a path of the device, in a form that the agent looks for: a drive at its start or
-- after a space, or two slashes or two backslashes at its start.
pub data ShowsPath : Text → Type 0 where
  drive_first : {a b c : ℕ} (rest : Text) → IsDrive a b c → ShowsPath (a ∷ b ∷ c ∷ rest)
  drive_after :
      {a b c : ℕ} (before : Text) (space : ℕ) (rest : Text)
      → is_space space ≡ true
      → IsDrive a b c
      → ShowsPath (before ++ space ∷ a ∷ b ∷ c ∷ rest)
  slashes : (rest : Text) → ShowsPath (b'/' ∷ b'/' ∷ rest)
  backslashes : (rest : Text) → ShowsPath (b'\\' ∷ b'\\' ∷ rest)

drive_at-IsDrive : {a b c : ℕ} (rest : Text) → IsDrive a b c → drive_at (a ∷ b ∷ c ∷ rest) ≡ true
unfolding drive_at is_letter
drive_at-IsDrive {a} {b} {c} rest d = ground (arith, d.letter, d.colon, d.slash)

has_drive-after :
    (here : Bool) (before : Text) (space : ℕ) (rest : Text)
    → is_space space ≡ true
    → drive_at rest ≡ true
    → has_drive here (before ++ space ∷ rest) ≡ true
unfolding has_drive drive_at
has_drive-after here [] space [] h d = absurd (ground arith)
has_drive-after here [] space (r ∷ rest) h d = rw (h, has_drive) (ground (arith, d))
has_drive-after here (b ∷ before) space rest h d =
    ground (arith, has_drive-after (is_space b) before space rest h d)

pub ShowsPath-found : {s : Text} → ShowsPath s → is_local_path s ≡ true
unfolding is_local_path has_drive starts_with
ShowsPath-found (drive_first rest d) = ground (arith, drive_at-IsDrive rest d)
ShowsPath-found (drive_after {a} {b} {c} before space rest h d) =
    ground (arith, has_drive-after true before space (a ∷ b ∷ c ∷ rest) h (drive_at-IsDrive rest d))
ShowsPath-found (slashes rest) = ground arith
ShowsPath-found (backslashes rest) = ground arith

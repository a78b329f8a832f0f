-- ===== src/Patch/Commit/Rollback.antt =====
-- `_restore` behind a commit that raises.
use codito_mcp.Patch.Commit.Written.{
  is_recorded, lookup-write_first_other, records-made, records-middle, records-order,
}
use codito_mcp.Text.{Text, Bytes}
use codito_mcp.Common.{
  ℕ, zero, suc, ◌≡◌, refl, sym, ap, ◌∙◌, ◌⊎◌, inl, inr, true, false, not, ◌&&◌, ◌||◌, Option, none,
  some, List, [], ◌∷◌, map, arith, if◌then◌else◌, ok, err, ◌>>◌, ◌==◌, nat_Eq, list_Eq, option_Eq,
  string_Eq, Eq, any, Bool-cases, is_some, option_beq_iff, list_beq_iff, All, is_empty,
}
use codito_mcp.Common.Dict.{Unique, lookup, contains, lookup-insert, lookup-remove}
use codito_mcp.Errors.{Raises, AgentError, Detail, detailed, recovery_failed}
use codito_mcp.Patch.Commit.{
  Files, Desired, write_first, Record, records, hash, restore_one, restore_from_last, restore,
  abort, Text, Bytes,
}

module _ {H : Type 0} ⦃e : Eq H⦄ (sha : Bytes → H)
    (injective : (a b : Bytes) → sha a ≡ sha b → a ≡ b) where
  hash-injective : (a b : Option Bytes) → hash sha a ≡ hash sha b → a ≡ b
  hash-injective none none h = refl
  hash-injective none (some b) h = absurd (ground arith)
  hash-injective (some a) none h = absurd (ground arith)
  hash-injective (some a) (some b) h = ap some (injective a b (ground arith))

  -- reading one path, where it is as it was
  kept :
      (p q : Text) (o : Option Bytes) (files : Files)
      → lookup p files ≡ o
      → lookup q files ≡ (if p == q then o else lookup q files)
  kept p q o files h = elim (Bool-cases (p == q)) [
    | inl same ↦ rw same (ap (λ x. lookup x files) (sym ((list_beq_iff p q).0 same)) ∙ h)
    | inr other ↦ rw other refl
  ]

  wanted_change :
      (c d : Option Bytes) (raw : Bytes)
      → (c ≡ some raw) ⊎ (c ≡ d)
      → (hash sha c == some (sha raw)) ≡ false
      → (is_some (hash sha c) && not (hash sha c == hash sha d)) ≡ false
  wanted_change c d raw (inl same) changed = absurd (
      let k = (option_beq_iff (hash sha c) (some (sha raw))).1 (ap (hash sha) same) in ground arith)
  wanted_change c d raw (inr same) changed =
      let k = (option_beq_iff (hash sha c) (hash sha d)).1 (ap (hash sha) same) in ground arith

  hash-none : (c : Option Bytes) → not (is_some (hash sha c)) ≡ true → c ≡ none
  hash-none none h = refl
  hash-none (some raw) h = absurd (ground arith)

  wanted_file :
      (c d : Option Bytes)
      → (c ≡ none) ⊎ (c ≡ d)
      → not (is_some (hash sha c)) ≡ false
      → not (hash sha c == hash sha d) ≡ false
  wanted_file c d (inl same) there =
      absurd (let k = ap (λ x. not (is_some (hash sha x))) same in ground arith)
  wanted_file c d (inr same) there =
      let k = (option_beq_iff (hash sha c) (hash sha d)).1 (ap (hash sha) same) in ground arith

  -- A file that is as it was, or as it is wanted, is put back.
  restore_some :
      (p : Text) (raw : Bytes) (d : Option Bytes) (files : Files)
      → (lookup p files ≡ some raw) ⊎ (lookup p files ≡ d)
      → ((restore_one sha (record { path = p; original = some raw; desired = d }) files).0 ≡ false)
        × ((q : Text)
            → lookup q
                (restore_one sha (record { path = p; original = some raw; desired = d }) files).1
              ≡ (if p == q then some raw else lookup q files))
  unfolding restore_one
  restore_some p raw d files h = elim (Bool-cases (hash sha (lookup p files) == some (sha raw))) [
    | inl same ↦
        let found =
          hash-injective (lookup p files) (some raw)
            ((option_beq_iff (hash sha (lookup p files)) (some (sha raw))).0 same) in
        rw same (refl, λ q. kept p q (some raw) files found)
    | inr changed ↦
        let wanted : (is_some (hash sha (lookup p files))
              && not (hash sha (lookup p files) == hash sha d))
            ≡ false =
          wanted_change (lookup p files) d raw h changed in
        rw (changed, wanted) (refl, λ q. lookup-insert p q raw files)
  ]

  restore_none :
      (p : Text) (d : Option Bytes) (files : Files)
      → (lookup p files ≡ none) ⊎ (lookup p files ≡ d)
      → ((restore_one sha (record { path = p; original = none; desired = d }) files).0 ≡ false)
        × ((q : Text)
            → lookup q (restore_one sha (record { path = p; original = none; desired = d }) files).1
              ≡ (if p == q then none else lookup q files))
  unfolding restore_one
  restore_none p d files h = elim (Bool-cases (not (is_some (hash sha (lookup p files))))) [
    | inl absent ↦
        let gone : lookup p files ≡ none = hash-none (lookup p files) absent in
        rw absent (refl, λ q. kept p q none files gone)
    | inr there ↦
        let wanted : not (hash sha (lookup p files) == hash sha d) ≡ false =
          wanted_file (lookup p files) d h there in
        rw (there, wanted) (refl, λ q. lookup-remove p q files)
  ]

  restore_one-lookup :
      (p : Text) (o d : Option Bytes) (files : Files)
      → (lookup p files ≡ o) ⊎ (lookup p files ≡ d)
      → ((restore_one sha (record { path = p; original = o; desired = d }) files).0 ≡ false)
        × ((q : Text)
            → lookup q (restore_one sha (record { path = p; original = o; desired = d }) files).1
              ≡ (if p == q then o else lookup q files))
  restore_one-lookup p none d files h = restore_none p d files h
  restore_one-lookup p (some raw) d files h = restore_some p raw d files h

  -- Each file is as it was, or is untouched by the rounds so far and not recorded in them.
  pub restore_from_last-lookup :
      (before files : Files) (rs : List Record)
      → All (λ r. r.original ≡ lookup r.path before) rs
      → All (λ r. (lookup r.path files ≡ r.original) ⊎ (lookup r.path files ≡ r.desired)) rs
      → ((restore_from_last sha rs files).0 ≡ [])
        × ((q : Text)
            → (lookup q (restore_from_last sha rs files).1 ≡ lookup q before)
              ⊎ ((lookup q (restore_from_last sha rs files).1 ≡ lookup q files)
                  × (is_recorded q rs ≡ false)))
  unfolding restore_from_last
  restore_from_last-lookup before files [] made middle = (refl, λ q. inr (refl, refl))
  restore_from_last-lookup before files (r ∷ rs) made middle =
      let (quiet, ih) = restore_from_last-lookup before files rs made.1 middle.1 in
      let later = restore_from_last sha rs files in
      let mine = restore_one-lookup r.path r.original r.desired later.1 (now_middle (ih r.path)) in
      (
        rw (mine.0, restore_from_last) quiet,
        λ q. elim (Bool-cases (r.path == q)) [
          | inl same ↦ inl (
              mine.1 q
              ∙ ap (λ b. if b then r.original else lookup q later.1) same
              ∙ made.0
              ∙ ap (λ x. lookup x before) ((list_beq_iff r.path q).0 same))
          | inr other ↦
              let mine_q = mine.1 q ∙ ap (λ b. if b then r.original else lookup q later.1) other in
              elim (ih q) [
                | inl old ↦ inl (mine_q ∙ old)
                | inr (same, absent) ↦
                    inr (mine_q ∙ same, ap (λ b. b || is_recorded q rs) other ∙ absent)
              ]
        ],
      )
    where
      now_middle :
          (lookup r.path (restore_from_last sha rs files).1 ≡ lookup r.path before)
            ⊎ ((lookup r.path (restore_from_last sha rs files).1 ≡ lookup r.path files)
                × (is_recorded r.path rs ≡ false))
          → (lookup r.path (restore_from_last sha rs files).1 ≡ r.original)
            ⊎ (lookup r.path (restore_from_last sha rs files).1 ≡ r.desired)
      now_middle (inl old) = inl (old ∙ sym made.0)
      now_middle (inr (same, _)) = elim middle.0 [ inl a ↦ inl (same ∙ a) | inr b ↦ inr (same ∙ b) ]

  pub restore-quiet :
      (rs : List Record) (files : Files)
      → (restore_from_last sha rs files).0 ≡ []
      → restore sha rs files ≡ (ok tt, (restore_from_last sha rs files).1)
  unfolding restore
  restore-quiet rs files h =
      ap
        (λ l. if is_empty l then (ok tt, (restore_from_last sha rs files).1) else (
          err (detailed recovery_failed (map Detail.path l)),
          (restore_from_last sha rs files).1,
        ))
        h

  -- A commit that an exception ends at any point raises that exception and leaves every file as it
  -- was, where no two contents have the same digest, every path to be changed has a record, and
  -- nobody else writes the files meanwhile.
  pub abort-unchanged :
      (fault : AgentError) (n : ℕ) (order : List Text) (ds : Desired) (files : Files)
      → Unique ds
      → ((q : Text) → contains q ds ≡ true → any (λ p. p == q) order ≡ true)
      → ((abort sha fault n order ds files).0 ≡ err fault)
        × ((q : Text) → lookup q (abort sha fault n order ds files).1 ≡ lookup q files)
  unfolding abort restore
  abort-unchanged fault zero order ds files u covered = (refl, λ q. refl)
  abort-unchanged fault (suc n) order ds files u covered =
      let mid = write_first (suc n) ds files in
      let (quiet, back) =
        restore_from_last-lookup files mid (records order ds files) (records-made order ds files)
          (records-middle (suc n) order ds files u) in
      let done = restore-quiet (records order ds files) mid quiet in
      (
        ap (λ (r : Raises (Unit {0}) × Files). r.0 >> err fault) done,
        λ q. ap (λ (r : Raises (Unit {0}) × Files). lookup q r.1) done ∙ elim (back q) [
          | inl old ↦ old
          | inr (same, absent) ↦ elim (Bool-cases (contains q ds)) [
            | inl wanted ↦ absurd (
                let k = sym (records-order q order ds files ∙ covered q wanted) ∙ absent in
                ground arith)
            | inr other ↦ same ∙ lookup-write_first_other (suc n) ds files q other
          ]
        ],
      )

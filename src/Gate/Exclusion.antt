-- ===== src/Gate/Exclusion.antt =====
-- Any number of tasks that reserve and release, in any order, as a step relation.
use codito_mcp.Common.Dict.{lookup, lookup-remove, remove, insert, lookup-insert}
use codito_mcp.Common.{
  ℕ, String, ◌+◌, ◌≤◌, ◌≡◌, refl, sym, ap, ◌∙◌, ◌↔◌, inl, inr, false, none, some, List, [], ◌∷◌,
  ◌++◌, arith, if◌then◌else◌, ok, err, ◌==◌, nat_Eq, list_Eq, option_Eq, string_Eq, eq_self,
  Bool-cases,
}
use codito_mcp.Gate.{Gate, empty, busy, reserve, release, lookup}

-- The tasks inside, the last to enter first: each with its key and its owner.
abbrev pub Tasks : Type 0
Tasks = List (String × String)

pub record System : Type 0 where
  pub gate : Gate
  pub inside : Tasks

-- how many tasks are inside on a key
unfoldable pub holders : String → Tasks → ℕ
holders k [] = 0
holders k ((j, _) ∷ ts) = (if j == k then 1 else 0) + holders k ts

-- A task enters by `reserve`, which may refuse it; one that is inside leaves by `release`. A task that
-- is not inside may release as well: a job that was cancelled does so a second time as it ends.
pub data Step : System → System → Type 0 where
  enter :
      {s : System} {g : Gate} (k o : String)
      → reserve k o s.gate ≡ ok g
      → Step s (record { gate = g; inside = (k, o) ∷ s.inside })
  refused : {s : System} (k o : String) → reserve k o s.gate ≡ err busy → Step s s
  leave :
      {s : System} (k o : String) (later earlier : Tasks)
      → s.inside ≡ later ++ (k, o) ∷ earlier
      → Step s (record { gate = release k o s.gate; inside = later ++ earlier })
  stray :
      {s : System} (k o : String)
      → (lookup k s.inside == some o) ≡ false
      → Step s (record { gate = release k o s.gate; inside = s.inside })

pub data Reach (s : System) : System → Type 0 where
  here : Reach s s
  next : {t u : System} → Reach s t → Step t u → Reach s u

pub record IsExclusive (s : System) : Type 0 where
  pub one : (k : String) → holders k s.inside ≤ 1
  pub recorded : (k : String) → lookup k s.gate.owners ≡ lookup k s.inside

-- nobody inside on a key, and nothing recorded for it, say the same
holders-lookup : (k : String) (ts : Tasks) → lookup k ts ≡ none → holders k ts ≡ 0
unfolding lookup holders
holders-lookup k [] h = refl
holders-lookup k ((j, o) ∷ ts) h = ground (arith, holders-lookup k ts)

holders_append :
    (k j o : String) (later earlier : Tasks)
    → holders k (later ++ (j, o) ∷ earlier)
      ≡ (if j == k then 1 else 0) + holders k (later ++ earlier)
unfolding holders
holders_append k j o [] earlier = refl
holders_append k j o ((i, p) ∷ later) earlier = omega (arith, holders_append k j o later earlier)

lookup-holders : (k : String) (ts : Tasks) → holders k ts ≡ 0 → lookup k ts ≡ none
unfolding lookup holders
lookup-holders k [] h = refl
lookup-holders k ((j, o) ∷ ts) h = ground (arith, lookup-holders k ts)

lookup_other :
    (k j o : String) (later earlier : Tasks)
    → (j == k) ≡ false
    → lookup k (later ++ (j, o) ∷ earlier) ≡ lookup k (later ++ earlier)
unfolding lookup
lookup_other k j o [] earlier h = rw h
lookup_other k j o ((i, p) ∷ later) earlier h = ground (arith, lookup_other k j o later earlier h)

-- the one task inside on a key is the one that a lookup finds
lookup_one :
    (k o : String) (later earlier : Tasks)
    → holders k (later ++ (k, o) ∷ earlier) ≤ 1
    → lookup k (later ++ (k, o) ∷ earlier) ≡ some o
unfolding lookup holders
lookup_one k o [] earlier h = ground (arith, string_Eq.beq_iff k k)
lookup_one k o ((i, p) ∷ later) earlier h = ground (
  arith,
  lookup_one k o later earlier,
  holders_append k k o later earlier,
  string_Eq.beq_iff k k,
  string_Eq.beq_iff i k,
)

reserve-eq-ok :
    (k o : String) (g h : Gate)
    → reserve k o g ≡ ok h
    → (lookup k g.owners ≡ none) × (h ≡ record { owners = insert k o g.owners })
unfolding reserve
reserve-eq-ok k o g h e = ground arith

release_own :
    (k o : String) (g : Gate)
    → lookup k g.owners ≡ some o
    → release k o g ≡ record { owners = remove k g.owners }
unfolding release
release_own k o g h = rw h (rw (eq_self o))

release_other :
    (k o : String) (g : Gate) → (lookup k g.owners == some o) ≡ false → release k o g ≡ g
unfolding release
release_other k o g h = rw h refl

enter-IsExclusive :
    (s : System) (g : Gate) (k o : String)
    → reserve k o s.gate ≡ ok g
    → IsExclusive s
    → IsExclusive (record { gate = g; inside = (k, o) ∷ s.inside })
unfolding holders lookup
enter-IsExclusive s g k o r inv =
    let (free, e) = reserve-eq-ok k o s.gate g r in
    let alone = holders-lookup k s.inside (sym (inv.recorded k) ∙ free) in
    record {
      one = λ j. ground (arith, inv.one j, string_Eq.beq_iff k j);
      recorded = λ j.
          ap (λ (x : Gate). lookup j x.owners) e
          ∙ ground (arith, lookup-insert k j o s.gate.owners, inv.recorded j);
    }

leave-IsExclusive :
    (s : System) (k o : String) (later earlier : Tasks)
    → s.inside ≡ later ++ (k, o) ∷ earlier
    → IsExclusive s
    → IsExclusive (record { gate = release k o s.gate; inside = later ++ earlier })
leave-IsExclusive s k o later earlier e inv =
    let one : (j : String) → holders j (later ++ (k, o) ∷ earlier) ≤ 1 = λ j. rw e at (inv.one j) in
    let mine : lookup k s.gate.owners ≡ some o =
      inv.recorded k ∙ ap (lookup k) e ∙ lookup_one k o later earlier (one k) in
    let gone : holders k (later ++ earlier) ≡ 0 =
      ground (arith, one k, holders_append k k o later earlier, string_Eq.beq_iff k k) in
    record {
      one = λ j. omega (arith, one j, holders_append j k o later earlier);
      recorded = λ j.
          ap (λ (g : Gate). lookup j g.owners) (release_own k o s.gate mine)
          ∙ lookup-remove k j s.gate.owners
          ∙ elim (Bool-cases (string_Eq.beq k j)) [
            | inl same ↦
                let q : k ≡ j = (string_Eq.beq_iff k j).0 same in
                rw same (sym (lookup-holders j (later ++ earlier) (rw q at gone)))
            | inr other ↦
                rw other (inv.recorded j ∙ ap (lookup j) e ∙ lookup_other j k o later earlier other)
          ];
    }

stray-IsExclusive :
    (s : System) (k o : String)
    → (lookup k s.inside == some o) ≡ false
    → IsExclusive s
    → IsExclusive (record { gate = release k o s.gate; inside = s.inside })
stray-IsExclusive s k o h inv =
    let same = release_other k o s.gate (ap (λ x. x == some o) (inv.recorded k) ∙ h) in
    record {
      one = inv.one;
      recorded = λ j. ap (λ (g : Gate). lookup j g.owners) same ∙ inv.recorded j;
    }

pub Step-IsExclusive : {s t : System} → Step s t → IsExclusive s → IsExclusive t
Step-IsExclusive {s} (enter {g = g} k o r) inv = enter-IsExclusive s g k o r inv
Step-IsExclusive (refused k o r) inv = inv
Step-IsExclusive {s} (leave k o later earlier e) inv = leave-IsExclusive s k o later earlier e inv
Step-IsExclusive {s} (stray k o h) inv = stray-IsExclusive s k o h inv

abbrev pub start : System
start = record { gate = empty; inside = [] }

start-IsExclusive : IsExclusive start
unfolding holders lookup
start-IsExclusive = record { one = λ k. omega arith; recorded = λ k. refl }

-- Whatever the order in which tasks enter and leave, and whichever tasks that are not inside release
-- as well, be it again or without having entered: at most one is inside on each key, and the
-- gate's entry for a key is the owner that is inside on it.
pub Reach-IsExclusive : {s : System} → Reach start s → IsExclusive s
Reach-IsExclusive here = start-IsExclusive
Reach-IsExclusive (next r st) = Step-IsExclusive st (Reach-IsExclusive r)

-- A task is let in exactly when nobody is inside on its key.
reserve_iff_free :
    (s : System) (k o : String)
    → Reach start s
    → ((g : Gate) × (reserve k o s.gate ≡ ok g)) ↔ (holders k s.inside ≡ 0)
unfolding reserve
reserve_iff_free s k o r =
    let inv = Reach-IsExclusive r in
    (
      λ p. holders-lookup k s.inside (sym (inv.recorded k) ∙ (reserve-eq-ok k o s.gate p.0 p.1).0),
      λ h.
          let free : lookup k s.gate.owners ≡ none = inv.recorded k ∙ lookup-holders k s.inside h in
          (record { owners = insert k o s.gate.owners }, rw (free, reserve) refl),
    )

-- ===== src/Patch/Hunks/Search.antt =====
-- The search for a hunk's place: behind a prefix, and what a single candidate is.
use native.Mathlib.Decide.{dec_lt}
use mathlib.Core.List.{append_assoc}
use mathlib.Core.Path.{ap₂}
use codito_mcp.Common.{
  ℕ, zero, suc, ◌+◌, ◌-◌, ◌≤◌, ◌<◌, ◌≡◌, refl, sym, ap, ◌∙◌, inl, inr, true, false, List, [], ◌∷◌,
  ◌++◌, map, arith, nat_Eq, list_Eq, option_Eq, string_Eq, drop, take, length, length-append,
  Bool-cases,
}
use codito_mcp.Text.{Text}
use codito_mcp.Patch.Hunks.{matches_at, candidates_from, candidates, splice}

true_not_false : true ≡ false → ⊥
true_not_false e = cc

drop_append_add {ℓ} :
    {A : Type ℓ} (pre s : List A) (i : ℕ) → drop (length pre + i) (pre ++ s) ≡ drop i s
drop_append_add [] s i = ap (λ n. drop n s) (omega arith)
drop_append_add (x ∷ pre) s i =
    ap (λ n. drop n (x ∷ (pre ++ s))) (add-suc-left (length pre) i) ∙ drop_append_add pre s i
  where
    add-suc-left : (a b : ℕ) → suc a + b ≡ suc (a + b)
    add-suc-left a b = omega arith

take_append_add {ℓ} :
    {A : Type ℓ} (pre s : List A) (i : ℕ) → take (length pre + i) (pre ++ s) ≡ pre ++ take i s
take_append_add [] s i = ap (λ n. take n s) (omega arith)
take_append_add (x ∷ pre) s i =
    ap (λ n. take n (x ∷ (pre ++ s))) (add-suc-left (length pre) i)
    ∙ ap (◌∷◌ x) (take_append_add pre s i)
  where
    add-suc-left : (a b : ℕ) → suc a + b ≡ suc (a + b)
    add-suc-left a b = omega arith

pub matches_at-append :
    (pre s expected : List Text) (i : ℕ)
    → matches_at (pre ++ s) expected (length pre + i) ≡ matches_at s expected i
unfolding matches_at
matches_at-append pre s expected i = rw (drop_append_add pre s i)

candidates_from-append :
    (count i : ℕ) (pre s expected : List Text)
    → candidates_from count (length pre + i) (pre ++ s) expected
      ≡ map (λ j. length pre + j) (candidates_from count i s expected)
unfolding candidates_from
candidates_from-append zero i pre s expected = refl
candidates_from-append (suc count) i pre s expected =
    let next : suc (length pre + i) ≡ length pre + suc i = omega arith in
    rw (next, matches_at-append pre s expected i)
      (rw (candidates_from-append count (suc i) pre s expected) (ground arith))

-- The search behind a prefix is the search in what follows it.
pub candidates-append :
    (pre s expected : List Text)
    → candidates (length pre) (pre ++ s) expected
      ≡ map (λ j. length pre + j) (candidates 0 s expected)
unfolding candidates
candidates-append pre s expected =
    let count = length s + 1 - length expected - 0 in
    ap₂ (λ c i. candidates_from c i (pre ++ s) expected) (omega (arith, length-append pre s))
      (omega arith)
    ∙ candidates_from-append count 0 pre s expected

pub splice-append :
    (pre s replacement : List Text) (i n : ℕ)
    → splice (pre ++ s) (length pre + i) n replacement
      ≡ (pre ++ (take i s ++ replacement)) ++ drop (i + n) s
unfolding splice
splice-append pre s replacement i n =
    let behind : drop (length pre + i + n) (pre ++ s) ≡ drop (i + n) s =
      ap (λ k. drop k (pre ++ s)) (omega arith) ∙ drop_append_add pre s (i + n) in
    ap₂ (λ a b. a ++ (replacement ++ b)) (take_append_add pre s i) behind ∙ simp append_assoc

-- no candidate: the block matches nowhere in the range
candidates_none :
    (count i : ℕ) (lines expected : List Text)
    → candidates_from count i lines expected ≡ []
    → (m : ℕ) → i ≤ m
    → m < i + count
    → matches_at lines expected m ≡ false
unfolding candidates_from
candidates_none zero i lines expected h m lo hi = absurd (omega arith)
candidates_none (suc count) i lines expected h m lo hi = elim (dec_lt i m) [
  | yes p ↦
      candidates_none count (suc i) lines expected (ground arith) m (omega arith) (omega arith)
  | no p ↦ let e : m ≡ i = omega arith in rw e (ground arith)
]

-- The block matches at `j`, and nowhere else in the range.
pub record Only (count i j : ℕ) (lines expected : List Text) : Type 0 where
  pub least : i ≤ j
  pub below : j < i + count
  pub here : matches_at lines expected j ≡ true
  pub alone : (m : ℕ) → i ≤ m → m < i + count → matches_at lines expected m ≡ true → m ≡ j

pub candidates_one :
    (count i j : ℕ) (lines expected : List Text)
    → candidates_from count i lines expected ≡ j ∷ []
    → Only count i j lines expected
unfolding candidates_from
candidates_one zero i j lines expected h = absurd (ground arith)
candidates_one (suc count) i j lines expected h = elim (Bool-cases (matches_at lines expected i)) [
  | inl found ↦
      let e : i ≡ j = ground arith in
      let rest : candidates_from count (suc i) lines expected ≡ [] = ground arith in
      record {
        least = omega arith;
        below = omega arith;
        here = rw e at found;
        alone = λ m lo hi t. elim (dec_lt i m) [
          | yes p ↦ absurd (
              true_not_false
                (sym t ∙ candidates_none count (suc i) lines expected rest m p (omega arith)))
          | no p ↦ omega arith
        ];
      }
  | inr missed ↦
      let o = candidates_one count (suc i) j lines expected (ground arith) in
      record {
        least = omega (arith, o.least);
        below = omega (arith, o.below);
        here = o.here;
        alone = λ m lo hi t. elim (dec_lt i m) [
          | yes p ↦ o.alone m p (omega arith) t
          | no p ↦ let e : m ≡ i = omega arith in absurd (true_not_false (sym t ∙ rw e missed))
        ];
      }
]

candidates_empty :
    (count i : ℕ) (lines expected : List Text)
    → ((m : ℕ) → i ≤ m → m < i + count → matches_at lines expected m ≡ false)
    → candidates_from count i lines expected ≡ []
unfolding candidates_from
candidates_empty zero i lines expected h = refl
candidates_empty (suc count) i lines expected h =
    rw (h i (omega arith) (omega arith))
      (candidates_empty count (suc i) lines expected (λ m lo hi. h m (omega arith) (omega arith)))

module _ (lines expected : List Text) where
  missed_behind :
      (count i : ℕ)
      → Only (suc count) i i lines expected
      → (m : ℕ) → suc i ≤ m
      → m < suc i + count
      → matches_at lines expected m ≡ false
  missed_behind count i o m lo hi = elim (Bool-cases (matches_at lines expected m)) [
    | inl t ↦ absurd (omega (arith, o.alone m (omega arith) (omega arith) t))
    | inr f ↦ f
  ]

  Only-suc :
      (count i j : ℕ)
      → Only (suc count) i j lines expected
      → i < j
      → Only count (suc i) j lines expected
  Only-suc count i j o lt = record {
    least = lt;
    below = omega (arith, o.below);
    here = o.here;
    alone = λ m lo hi. o.alone m (omega arith) (omega arith);
  }

-- The only place of a block is the one candidate.
pub candidates_of_Only :
    (count i j : ℕ) (lines expected : List Text)
    → Only count i j lines expected
    → candidates_from count i lines expected ≡ j ∷ []
unfolding candidates_from
candidates_of_Only zero i j lines expected o = absurd (omega (arith, o.least, o.below))
candidates_of_Only (suc count) i j lines expected o = elim (dec_lt i j) [
  | yes p ↦
      let first : matches_at lines expected i ≡ false =
        elim (Bool-cases (matches_at lines expected i)) [
          | inl t ↦ absurd (omega (arith, o.alone i (omega arith) (omega arith) t))
          | inr f ↦ f
        ] in
      rw first
        (candidates_of_Only count (suc i) j lines expected (Only-suc lines expected count i j o p))
  | no p ↦
      let e : j ≡ i = omega (arith, o.least) in
      let o' : Only (suc count) i i lines expected = rw e at o in
      rw o'.here (
        rw e (
          ap (◌∷◌ i) (
            candidates_empty count (suc i) lines expected
              (missed_behind lines expected count i o'))))
]

-- ===== src/Relay/Listing/Pages.antt =====
-- The pages of a listing, one after another.
use codito_mcp.Common.{
  ℕ, zero, suc, ◌≤◌, ◌<◌, ◌≡◌, refl, ap, ◌∙◌, Bool, true, false, List, [], ◌∷◌, ◌++◌, arith, nat_Eq,
  string_Eq, ltb, length, take, drop, select, Bool-cases, inl, inr,
}
use codito_mcp.Relay.Listing.{ListedProject, is_after, nth_id}

-- the identifiers grow, from `lo` on
abbrev pub IsAscending : ℕ → List ListedProject → Type 0
IsAscending lo [] = Unit
IsAscending lo (p ∷ ps) = (lo ≤ p.id) × IsAscending (suc p.id) ps

lower-IsAscending :
    (lo hi : ℕ) (ps : List ListedProject) → lo ≤ hi → IsAscending hi ps → IsAscending lo ps
lower-IsAscending lo hi [] h a = tt
lower-IsAscending lo hi (p ∷ ps) h (here, rest) = (omega (arith, h, here), rest)

pub select-IsAscending :
    (keep : ListedProject → Bool) (lo : ℕ) (ps : List ListedProject)
    → IsAscending lo ps
    → IsAscending lo (select keep ps)
select-IsAscending keep lo [] a = tt
select-IsAscending keep lo (p ∷ ps) (here, rest) = elim (Bool-cases (keep p)) [
  | inl h ↦ rw h (here, select-IsAscending keep (suc p.id) ps rest)
  | inr h ↦ rw h (
      lower-IsAscending lo (suc p.id) (select keep ps) (omega (arith, here))
        (select-IsAscending keep (suc p.id) ps rest))
]

nth_id-ge :
    (lo k : ℕ) (pre ps : List ListedProject)
    → IsAscending lo (pre ++ ps)
    → k < length ps
    → lo ≤ nth_id k ps
unfolding nth_id
nth_id-ge lo k [] [] a h = absurd (omega (arith, h))
nth_id-ge lo zero [] (p ∷ ps) a h = a.0
nth_id-ge lo (suc k) [] (p ∷ ps) a h =
    omega (arith, a.0, nth_id-ge (suc p.id) k [] ps a.1 (omega (arith, h)))
nth_id-ge lo k (q ∷ pre) ps a h = omega (arith, a.0, nth_id-ge (suc q.id) k pre ps a.1 h)

select-after_all :
    (c lo : ℕ) (ps : List ListedProject) → IsAscending lo ps → c < lo → select (is_after c) ps ≡ ps
select-after_all c lo [] a h = refl
select-after_all c lo (p ∷ ps) (here, rest) h =
    let after : ltb c p.id ≡ true = ground (arith, h, here) in
    rw after (ap (◌∷◌ p) (select-after_all c (suc p.id) ps rest (omega (arith, h, here))))

select-after_first :
    (c : ℕ) (p : ListedProject) (ps : List ListedProject)
    → p.id ≤ c
    → select (is_after c) (p ∷ ps) ≡ select (is_after c) ps
select-after_first c p ps h = let before : ltb c p.id ≡ false = ground (arith, h) in rw before refl

-- behind the `k`-th of a part stands the rest of the part
pub select-after :
    (lo k : ℕ) (pre ps : List ListedProject)
    → IsAscending lo (pre ++ ps)
    → k < length ps
    → select (is_after (nth_id k ps)) (pre ++ ps) ≡ drop (suc k) ps
unfolding nth_id
select-after lo k [] [] a h = absurd (omega (arith, h))
select-after lo zero [] (p ∷ ps) a h =
    select-after_first p.id p ps (omega arith)
    ∙ select-after_all p.id (suc p.id) ps a.1 (omega arith)
select-after lo (suc k) [] (p ∷ ps) a h =
    select-after_first (nth_id k ps) p ps
      (let q = nth_id-ge (suc p.id) k [] ps a.1 (omega (arith, h)) in omega (arith, q))
    ∙ select-after (suc p.id) k [] ps a.1 (omega (arith, h))
select-after lo k (q ∷ pre) ps a h =
    select-after_first (nth_id k ps) q (pre ++ ps)
      (let low = nth_id-ge (suc q.id) k pre ps a.1 h in omega (arith, low))
    ∙ select-after (suc q.id) k pre ps a.1 h

pub nth_id-take : (k m : ℕ) (ps : List ListedProject) → k < m → nth_id k (take m ps) ≡ nth_id k ps
unfolding nth_id
nth_id-take k zero ps h = absurd (omega (arith, h))
nth_id-take k (suc m) [] h = refl
nth_id-take zero (suc m) (p ∷ ps) h = refl
nth_id-take (suc k) (suc m) (p ∷ ps) h = nth_id-take k m ps (omega (arith, h))

pub take-take_more : (m : ℕ) (ps : List ListedProject) → take m (take (suc m) ps) ≡ take m ps
take-take_more zero ps = refl
take-take_more (suc m) [] = refl
take-take_more (suc m) (p ∷ ps) = ap (◌∷◌ p) (take-take_more m ps)

pub take-all : (m : ℕ) (ps : List ListedProject) → length ps ≤ m → take m ps ≡ ps
take-all zero [] h = refl
take-all zero (p ∷ ps) h = absurd (omega (arith, h))
take-all (suc m) [] h = refl
take-all (suc m) (p ∷ ps) h = ap (◌∷◌ p) (take-all m ps (omega (arith, h)))

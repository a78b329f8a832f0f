-- ===== src/Shell/Reading.antt =====
-- A client that polls a job by its cursor, while output arrives.
use mathlib.Core.Path.{subst}
use codito_mcp.Common.{
  ℕ, zero, suc, String, ◌+◌, ◌≤◌, ◌≡◌, refl, sym, ap, ◌∙◌, Bool, true, false, ◌&&◌, List, [], ◌∷◌,
  ◌++◌, arith, ltb, leb, length, drop, length-append, length-drop, Bool-cases, inl, inr,
}
use mathlib.Core.List.{append_assoc}
use codito_mcp.Text.{Text}
use codito_mcp.Shell.Output.{
  OutputChunk, Output, size, with_chunk, append, page_from, next_cursor, page_of, poll_result,
}
use codito_mcp.Shell.Kept.{IsNumbered, IsWithin, append-IsWithin}

-- output arrives, or the client asks for a page of the size
pub data Event : Type 0 where
  writes : String → Text → Event
  polls : ℕ → Event

-- a job's output, and the client's cursor with the chunks it has got
pub record Reader : Type 0 where
  pub output : Output
  pub cursor : ℕ
  pub got : List OutputChunk

unfoldable pub react : Event → Reader → Reader
react (writes stream text) r = record r { output = append stream text r.output }
react (polls max) r =
    let page = poll_result r.output r.cursor max in
    record r { cursor = page.next_sequence_cursor; got = r.got ++ page.chunks }

unfoldable pub react_all : List Event → Reader → Reader
react_all [] r = r
react_all (event ∷ events) r = react_all events (react event r)

-- the client has every chunk up to its cursor, once and in order
pub record IsCaught (r : Reader) : Type 0 where
  pub within : IsWithin r.output
  pub reached : r.cursor ≤ length r.output.chunks
  pub in_order : r.got ++ drop r.cursor r.output.chunks ≡ r.output.chunks

drop-drop : (m n : ℕ) (chunks : List OutputChunk) → drop (m + n) chunks ≡ drop n (drop m chunks)
drop-drop zero n chunks = ap (λ k. drop k chunks) (omega arith)
drop-drop (suc m) zero [] = ap (λ k. drop k []) {x = suc m + 0} {y = suc m} (omega arith)
drop-drop (suc m) (suc n) [] =
    ap (λ k. drop k []) {x = suc m + suc n} {y = suc (m + suc n)} (omega arith)
drop-drop (suc m) n (c ∷ chunks) =
    ap (λ k. drop k (c ∷ chunks)) {x = suc m + n} {y = suc (m + n)} (omega arith)
    ∙ drop-drop m n chunks

drop-append :
    (n : ℕ) (chunks more : List OutputChunk)
    → n ≤ length chunks
    → drop n (chunks ++ more) ≡ drop n chunks ++ more
drop-append zero chunks more h = refl
drop-append (suc n) [] more h = absurd (omega arith)
drop-append (suc n) (c ∷ chunks) more h = drop-append n chunks more (omega arith)

pub drop-all : (n : ℕ) (chunks : List OutputChunk) → length chunks ≤ n → drop n chunks ≡ []
drop-all zero [] h = refl
drop-all zero (c ∷ chunks) h = absurd (omega arith)
drop-all (suc n) [] h = refl
drop-all (suc n) (c ∷ chunks) h = drop-all n chunks (omega arith)

drop-IsNumbered :
    (k n : ℕ) (chunks : List OutputChunk) → IsNumbered n chunks → IsNumbered (n + k) (drop k chunks)
drop-IsNumbered zero n chunks h = subst (λ m. IsNumbered m chunks) (omega arith) h
drop-IsNumbered (suc k) n [] h = tt
drop-IsNumbered (suc k) n (c ∷ chunks) (here, rest) =
    subst (λ m. IsNumbered m (drop k chunks)) (omega arith) (drop-IsNumbered k (suc n) chunks rest)

pub rest-IsNumbered :
    (k : ℕ) (chunks : List OutputChunk) → IsNumbered 0 chunks → IsNumbered k (drop k chunks)
rest-IsNumbered k chunks h =
    subst (λ m. IsNumbered m (drop k chunks)) {x = 0 + k} {y = k} (omega arith)
      (drop-IsNumbered k 0 chunks h)

-- the chunks of a page stand at the front, and the cursor behind them
module _ (max : ℕ) where
  page_from-front :
      (started : Bool) (bytes : ℕ) (chunks : List OutputChunk)
      → page_from max started bytes chunks
          ++ drop (length (page_from max started bytes chunks)) chunks
        ≡ chunks
  unfolding page_from
  page_from-front started bytes [] = refl
  page_from-front started bytes (c ∷ chunks) =
      elim (Bool-cases (started && ltb max (bytes + size c.text))) [
        | inl full ↦ rw full refl
        | inr room ↦ rw room (ap (◌∷◌ c) (page_from-front true (bytes + size c.text) chunks))
      ]

  length-page_from :
      (started : Bool) (bytes : ℕ) (chunks : List OutputChunk)
      → length (page_from max started bytes chunks) ≤ length chunks
  unfolding page_from
  length-page_from started bytes [] = omega arith
  length-page_from started bytes (c ∷ chunks) =
      elim (Bool-cases (started && ltb max (bytes + size c.text))) [
        | inl full ↦ rw full (omega arith)
        | inr room ↦ rw room (omega (arith, length-page_from true (bytes + size c.text) chunks))
      ]

  pub next_cursor-page_from :
      (started : Bool) (bytes cursor : ℕ) (chunks : List OutputChunk)
      → IsNumbered cursor chunks
      → next_cursor cursor (page_from max started bytes chunks)
        ≡ cursor + length (page_from max started bytes chunks)
  unfolding page_from next_cursor
  next_cursor-page_from started bytes cursor [] h = omega arith
  next_cursor-page_from started bytes cursor (c ∷ chunks) (here, rest) =
      elim (Bool-cases (started && ltb max (bytes + size c.text))) [
        | inl full ↦ rw full (omega arith)
        | inr room ↦ rw room (
            ap (λ n. next_cursor n (page_from max true (bytes + size c.text) chunks)) here
            ∙ next_cursor-page_from true (bytes + size c.text) (suc cursor) chunks rest
            ∙ omega arith)
      ]

  -- a page has a chunk where there is one
  pub page_from-some :
      (chunks : List OutputChunk) → 1 ≤ length chunks → 1 ≤ length (page_from max false 0 chunks)
  unfolding page_from
  page_from-some [] h = h
  page_from-some (c ∷ chunks) h = omega arith

poll-IsCaught : (max : ℕ) (r : Reader) → IsCaught r → IsCaught (react (polls max) r)
unfolding react poll_result page_of
poll-IsCaught max r h =
    let left = drop r.cursor r.output.chunks in
    let page = page_from max false 0 left in
    let moved =
      next_cursor-page_from max false 0 r.cursor left
        (rest-IsNumbered r.cursor r.output.chunks h.within.numbered) in
    record {
      within = h.within;
      reached = omega (
        arith,
        moved,
        length-page_from max false 0 left,
        length-drop r.cursor r.output.chunks,
        h.reached,
      );
      in_order =
          ap (λ k. (r.got ++ page) ++ drop k r.output.chunks) moved
          ∙ append_assoc r.got page (drop (r.cursor + length page) r.output.chunks)
          ∙ ap (λ t. r.got ++ (page ++ t)) (drop-drop r.cursor (length page) r.output.chunks)
          ∙ ap (λ t. r.got ++ t) (page_from-front max false 0 left)
          ∙ h.in_order;
    }

more-IsCaught :
    (r : Reader) (chunks more : List OutputChunk)
    → r.cursor ≤ length chunks
    → r.got ++ drop r.cursor chunks ≡ chunks
    → r.got ++ drop r.cursor (chunks ++ more) ≡ chunks ++ more
more-IsCaught r chunks more h e =
    ap (λ t. r.got ++ t) (drop-append r.cursor chunks more h)
    ∙ sym (append_assoc r.got (drop r.cursor chunks) more)
    ∙ ap (λ t. t ++ more) e

-- what a write leaves of the two facts about the chunks
with_chunk-front :
    (r : Reader) (stream : String) (text : Text) (cut : Bool) (chunks : List OutputChunk)
    → r.cursor ≤ length chunks
    → r.got ++ drop r.cursor chunks ≡ chunks
    → (r.cursor ≤ length (with_chunk stream text cut chunks))
      × (r.got ++ drop r.cursor (with_chunk stream text cut chunks)
          ≡ with_chunk stream text cut chunks)
unfolding with_chunk
with_chunk-front r stream [] cut chunks h e = (h, e)
with_chunk-front r stream (c ∷ text) cut chunks h e =
    let added =
      record { sequence = length chunks + 1; stream = stream; text = c ∷ text; truncated = cut }
      ∷ [] in
    (omega (arith, h, length-append chunks added), more-IsCaught r chunks added h e)

append-front :
    (r : Reader) (stream : String) (text : Text)
    → IsCaught r
    → (r.cursor ≤ length (append stream text r.output).chunks)
      × (r.got ++ drop r.cursor (append stream text r.output).chunks
          ≡ (append stream text r.output).chunks)
unfolding append
append-front r stream text h = elim (Bool-cases (leb r.output.limit r.output.bytes)) [
  | inl full ↦ rw full (h.reached, h.in_order)
  | inr free ↦ rw free (with_chunk-front r stream _ _ r.output.chunks h.reached h.in_order)
]

pub react-IsCaught : (event : Event) (r : Reader) → IsCaught r → IsCaught (react event r)
unfolding react
react-IsCaught (polls max) r h = poll-IsCaught max r h
react-IsCaught (writes stream text) r h =
    let (reached, in_order) = append-front r stream text h in
    record {
      within = append-IsWithin stream text r.output h.within;
      reached = reached;
      in_order = in_order;
    }

-- A client that polls with the cursor of its last page gets each chunk exactly once and in order,
-- however its polls and the arriving output come, and whatever the sizes of its pages are: what it
-- has got and what stands behind its cursor are always the whole output.
pub react_all-IsCaught :
    (events : List Event) (r : Reader) → IsCaught r → IsCaught (react_all events r)
unfolding react_all
react_all-IsCaught [] r h = h
react_all-IsCaught (event ∷ events) r h =
    react_all-IsCaught events (react event r) (react-IsCaught event r h)

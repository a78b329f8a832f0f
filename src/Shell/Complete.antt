-- ===== src/Shell/Complete.antt =====
-- The whole of a job's output: by polling, and from the journal when the job is gone.
use mathlib.Core.List.{append-nil}
use codito_mcp.Common.{
  ℕ, zero, suc, ◌+◌, ◌≤◌, ◌≡◌, refl, sym, ap, ◌∙◌, Bool, true, false, ◌&&◌, List, [], ◌∷◌, ◌++◌,
  arith, ltb, length, drop, length-drop, Bool-cases, inl, inr,
}
use codito_mcp.Shell.Output.{
  OutputChunk, Output, size, page_from, page_of, poll_result, terminal_result, page_durable_result,
  default_page,
}
use codito_mcp.Shell.Kept.{chunk_bytes}
use codito_mcp.Shell.Reading.{
  Event, polls, Reader, react, react_all, IsCaught, react-IsCaught, drop-all, next_cursor-page_from,
  page_from-some, rest-IsNumbered,
}

-- `n` polls in a row
unfoldable pub polled : ℕ → ℕ → List Event
polled max zero = []
polled max (suc n) = polls max ∷ polled max n

poll-moves :
    (max n : ℕ) (r : Reader)
    → IsCaught r
    → length r.output.chunks ≤ r.cursor + suc n
    → length r.output.chunks ≤ (react (polls max) r).cursor + n
unfolding react poll_result page_of
poll-moves max n r h enough =
    let left = drop r.cursor r.output.chunks in
    let moved =
      next_cursor-page_from max false 0 r.cursor left
        (rest-IsNumbered r.cursor r.output.chunks h.within.numbered) in
    elim (Bool-cases (ltb r.cursor (length r.output.chunks))) [
      | inl more ↦
          ground (arith, moved, length-drop r.cursor r.output.chunks, page_from-some max left)
      | inr none_left ↦ ground (arith, moved)
    ]

-- Polling ends: a client that has got every chunk up to its cursor has the whole output after as many
-- polls as there are chunks behind the cursor, whatever the size of its pages is.
pub polled_complete :
    (max n : ℕ) (r : Reader)
    → IsCaught r
    → length r.output.chunks ≤ r.cursor + n
    → (react_all (polled max n) r).got ≡ r.output.chunks
unfolding react_all polled react
polled_complete max zero r h enough =
    sym (append-nil r.got)
    ∙ ap (λ t. r.got ++ t) (sym (drop-all r.cursor r.output.chunks (omega (arith, enough))))
    ∙ h.in_order
polled_complete max (suc n) r h enough =
    polled_complete max n (react (polls max) r) (react-IsCaught (polls max) r h)
      (poll-moves max n r h enough)

page_from-all :
    (max : ℕ) (started : Bool) (bytes : ℕ) (chunks : List OutputChunk)
    → bytes + chunk_bytes chunks ≤ max
    → page_from max started bytes chunks ≡ chunks
unfolding page_from
page_from-all max started bytes [] h = refl
page_from-all max started bytes (c ∷ chunks) h =
    let room : (started && ltb max (bytes + size c.text)) ≡ false = ground arith in
    rw room (ap (◌∷◌ c) (page_from-all max true (bytes + size c.text) chunks (omega (arith, h))))

-- An ended job is read from the journal page by page as it was read from memory, where its output is
-- at most 256 KiB, whatever the cursor and the size of the page are.
pub page_durable_result-live :
    (o : Output) (cursor max : ℕ)
    → chunk_bytes o.chunks ≤ default_page
    → page_durable_result (terminal_result o) cursor max ≡ poll_result o cursor max
unfolding page_durable_result poll_result page_of
page_durable_result-live o cursor max h =
    ap (λ chunks. page_of o.is_truncated chunks cursor max)
      (page_from-all default_page false 0 o.chunks (omega (arith, h)))

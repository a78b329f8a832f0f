-- ===== src/Shell/Written.antt =====
-- The output that a job keeps against the texts that `_append` was given.
use codito_mcp.Common.{
  String, ◌-◌, ◌≡◌, refl, sym, ap, ◌∙◌, Bool, false, List, [], ◌∷◌, ◌++◌, arith, if◌then◌else◌, ltb,
  leb, length, take, Bool-cases, inl, inr, ◌==◌, string_Eq,
}
use mathlib.Core.List.{append_assoc, append-nil}
use codito_mcp.Text.{Text, utf8_encode}
use codito_mcp.Shell.Output.{OutputChunk, Output, size, with_chunk, append}
use codito_mcp.Shell.Kept.{append_all, decode_prefix-all, length-take_le}

-- the text that the chunks of a stream have
unfoldable pub stream_text : String → List OutputChunk → Text
stream_text stream [] = []
stream_text stream (c ∷ chunks) =
    let rest = stream_text stream chunks in if c.stream == stream then c.text ++ rest else rest

-- the text that is handed to `_append` for a stream
unfoldable pub written : String → List (String × Text) → Text
written stream [] = []
written stream ((s, text) ∷ writes) =
    let rest = written stream writes in if s == stream then text ++ rest else rest

abbrev of_stream : String → OutputChunk → Text
of_stream stream c = if c.stream == stream then c.text else []

stream_text-append :
    (stream : String) (chunks : List OutputChunk) (c : OutputChunk)
    → stream_text stream (chunks ++ (c ∷ [])) ≡ stream_text stream chunks ++ of_stream stream c
unfolding stream_text
stream_text-append stream [] c = elim (Bool-cases (c.stream == stream)) [
  | inl h ↦ rw h (append-nil c.text)
  | inr h ↦ rw h refl
]
stream_text-append stream (d ∷ chunks) c = elim (Bool-cases (d.stream == stream)) [
  | inl h ↦ rw h (
      ap (λ t. d.text ++ t) (stream_text-append stream chunks c)
      ∙ sym (append_assoc d.text (stream_text stream chunks) (of_stream stream c)))
  | inr h ↦ rw h (stream_text-append stream chunks c)
]

stream_text-with_chunk :
    (stream s : String) (text : Text) (cut : Bool) (chunks : List OutputChunk)
    → stream_text stream (with_chunk s text cut chunks)
      ≡ stream_text stream chunks ++ (if s == stream then text else [])
unfolding with_chunk
stream_text-with_chunk stream s [] cut chunks = elim (Bool-cases (s == stream)) [
  | inl h ↦ rw h (sym (append-nil (stream_text stream chunks)))
  | inr h ↦ rw h (sym (append-nil (stream_text stream chunks)))
]
stream_text-with_chunk stream s (c ∷ text) cut chunks = stream_text-append stream chunks _

-- Output that did not become truncated took the whole text.
append-whole :
    (stream s : String) (text : Text) (o : Output)
    → (append s text o).is_truncated ≡ false
    → (o.is_truncated ≡ false)
      × (stream_text stream (append s text o).chunks
          ≡ stream_text stream o.chunks ++ (if s == stream then text else []))
unfolding append
append-whole stream s text o h = elim (Bool-cases (leb o.limit o.bytes)) [
  | inl full ↦ absurd (let q = rw full at h in ground arith)
  | inr free ↦
      let q = rw free at h in
      let remaining = o.limit - o.bytes in
      let cut = ltb (length (take remaining (utf8_encode text))) (size text) in
      let whole =
        decode_prefix-all remaining text
          (ground (arith, length-take_le remaining (utf8_encode text))) in
      rw free (
        ground arith,
        ap (λ t. stream_text stream (with_chunk s t cut o.chunks)) whole
            ∙ stream_text-with_chunk stream s text cut o.chunks,
      )
]

append_all-flag :
    (writes : List (String × Text)) (o : Output)
    → (append_all writes o).is_truncated ≡ false
    → o.is_truncated ≡ false
append_all-flag [] o h = h
append_all-flag ((s, text) ∷ writes) o h =
    (append-whole s s text o (append_all-flag writes (append s text o) h)).0

-- Where the texts that are handed to `_append` leave the job's output not truncated, the chunks of
-- each stream have, in order, the whole of what was handed over for it since. The decoding of a
-- process's bytes to those texts comes before `_append` and is not part of this.
pub append_all-written :
    (stream : String) (writes : List (String × Text)) (o : Output)
    → (append_all writes o).is_truncated ≡ false
    → stream_text stream (append_all writes o).chunks
      ≡ stream_text stream o.chunks ++ written stream writes
unfolding written
append_all-written stream [] o h = sym (append-nil (stream_text stream o.chunks))
append_all-written stream ((s, text) ∷ writes) o h =
    let (flag, first) = append-whole stream s text o (append_all-flag writes (append s text o) h) in
    append_all-written stream writes (append s text o) h
    ∙ ap (λ t. t ++ written stream writes) first
    ∙ elim (Bool-cases (s == stream)) [
      | inl same ↦ rw same (append_assoc (stream_text stream o.chunks) text (written stream writes))
      | inr other ↦
          rw other (ap (λ t. t ++ written stream writes) (append-nil (stream_text stream o.chunks)))
    ]

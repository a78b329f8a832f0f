-- ===== src/Shell/Output.antt =====
-- `OutputChunk`, the output of a `ShellJob`, `_append`, `_poll_result` and `_page_durable_result`.
use codito_mcp.Common.{
  ℕ, String, ◌+◌, ◌-◌, Bool, true, false, ◌&&◌, ◌||◌, List, [], ◌∷◌, ◌++◌, if◌then◌else◌, ltb, leb,
  length, take, drop,
}
use codito_mcp.Text.{Text, encode_char, utf8_encode}

pub record OutputChunk : Type 0 where
  pub sequence : ℕ
  pub stream : String
  pub text : Text
  pub truncated : Bool

-- the fields of a `ShellJob` that hold its output
pub record Output : Type 0 where
  pub limit : ℕ
  pub bytes : ℕ
  pub is_truncated : Bool
  pub chunks : List OutputChunk

abbrev pub no_output : ℕ → Output
no_output limit = record { limit = limit; bytes = 0; is_truncated = false; chunks = [] }

abbrev pub size : Text → ℕ
size text = length (utf8_encode text)

-- `encoded[:n].decode("utf-8", errors="ignore")` of a text's own encoding: the characters that fit
-- whole, as the bytes of a character that the cut splits are no character
unfoldable pub decode_prefix : ℕ → Text → Text
decode_prefix n [] = []
decode_prefix n (c ∷ text) =
    let width = length (encode_char c) in
    let rest = decode_prefix (n - width) text in if leb width n then c ∷ rest else []

unfoldable pub with_chunk : String → Text → Bool → List OutputChunk → List OutputChunk
with_chunk stream [] cut chunks = chunks
with_chunk stream (c ∷ text) cut chunks =
    chunks
    ++ (record { sequence = length chunks + 1; stream = stream; text = c ∷ text; truncated = cut }
        ∷ [])

-- `_append`
unfoldable pub append : String → Text → Output → Output
append stream text o =
    if leb o.limit o.bytes
    then record o { is_truncated = true }
    else (let remaining = o.limit - o.bytes in
        let kept = take remaining (utf8_encode text) in
        let cut = ltb (length kept) (size text) in
        record o {
          bytes = o.bytes + length kept;
          is_truncated = o.is_truncated || cut;
          chunks = with_chunk stream (decode_prefix remaining text) cut o.chunks;
        })

-- the chunks of a page: as many as fit, and at least one
unfoldable pub page_from : ℕ → Bool → ℕ → List OutputChunk → List OutputChunk
page_from max started bytes [] = []
page_from max started bytes (c ∷ chunks) =
    let rest = page_from max true (bytes + size c.text) chunks in
    if started && ltb max (bytes + size c.text) then [] else c ∷ rest

-- `chunks[-1]["sequence"] if chunks else cursor`
unfoldable pub next_cursor : ℕ → List OutputChunk → ℕ
next_cursor cursor [] = cursor
next_cursor cursor (c ∷ chunks) = next_cursor c.sequence chunks

pub record Page : Type 0 where
  pub chunks : List OutputChunk
  pub next_sequence_cursor : ℕ
  pub available_sequence_cursor : ℕ
  pub has_more_output : Bool
  pub output_truncated : Bool

unfoldable pub page_of : Bool → List OutputChunk → ℕ → ℕ → Page
page_of cut stored cursor max =
    let chunks = page_from max false 0 (drop cursor stored) in
    let next = next_cursor cursor chunks in
    record {
      chunks = chunks;
      next_sequence_cursor = next;
      available_sequence_cursor = length stored;
      has_more_output = ltb next (length stored);
      output_truncated = cut;
    }

-- `_poll_result`
unfoldable pub poll_result : Output → ℕ → ℕ → Page
poll_result o cursor max = page_of o.is_truncated o.chunks cursor max

-- `max_output_bytes` where a caller gives none: `256 * 1024`
abbrev pub default_page : ℕ
default_page = 262144

-- the result that is stored when a job ends
abbrev pub terminal_result : Output → Page
terminal_result o = poll_result o 0 default_page

-- `_page_durable_result`, of a result that was stored so
unfoldable pub page_durable_result : Page → ℕ → ℕ → Page
page_durable_result stored cursor max = page_of stored.output_truncated stored.chunks cursor max

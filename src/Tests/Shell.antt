-- ===== src/Tests/Shell.antt =====
-- The output of a shell job: cut inside a character, truncated, and read page by page.
use codito_mcp.Common.{String, ◌≡◌, refl, true, List, [], ◌∷◌, ◌++◌, arith}
use codito_mcp.Text.{Text, codes, utf8_encode, encode_char}
use codito_mcp.Shell.Output.{
  no_output, append, decode_prefix, with_chunk, page_from, next_cursor, page_of, poll_result,
  page_durable_result, terminal_result,
}
use codito_mcp.Shell.Kept.{IsWithin, append_all, append_all-IsWithin}
use codito_mcp.Shell.Written.{stream_text, written, append_all-written}
use codito_mcp.Shell.Reading.{
  Event, writes, polls, Reader, react, react_all, IsCaught, react_all-IsCaught,
}
use codito_mcp.Shell.Complete.{polled, polled_complete, page_durable_result-live}

unfoldable output_program : Unit {0}
unfolding utf8_encode encode_char append decode_prefix with_chunk page_from next_cursor page_of
    poll_result page_durable_result react react_all polled stream_text written
output_program = tt

abbrev lines : List (String × Text)
lines = ("stdout", codes "one") ∷ ("stderr", codes "two") ∷ ("stdout", 233 ∷ []) ∷ []

-- a character that the limit splits is dropped, and its bytes count
cut_test : append "stdout" (97 ∷ 233 ∷ []) (no_output 2) ≡ record {
  limit = 2;
  bytes = 2;
  is_truncated = true;
  chunks = record { sequence = 1; stream = "stdout"; text = 97 ∷ []; truncated = true } ∷ [];
}
unfolding output_program
cut_test = refl

no_output-IsWithin : IsWithin (no_output 8)
no_output-IsWithin = record { numbered = tt; held = omega arith; bounded = omega arith }

append_all-IsWithin_example : IsWithin (append_all lines (no_output 8))
append_all-IsWithin_example = append_all-IsWithin lines (no_output 8) no_output-IsWithin

append_all-written_example :
    stream_text "stdout" (append_all lines (no_output 8)).chunks
    ≡ stream_text "stdout" [] ++ written "stdout" lines
unfolding output_program
append_all-written_example = append_all-written "stdout" lines (no_output 8) refl

abbrev start : Reader
start = record { output = no_output 8; cursor = 0; got = [] }

start-IsCaught : IsCaught start
start-IsCaught = record { within = no_output-IsWithin; reached = omega arith; in_order = refl }

abbrev events : List Event
events =
    polls 4
    ∷ writes "stdout" (codes "one")
    ∷ writes "stderr" (codes "two")
    ∷ polls 4
    ∷ writes "stdout" (233 ∷ [])
    ∷ []

react_all-IsCaught_example : IsCaught (react_all events start)
react_all-IsCaught_example = react_all-IsCaught events start start-IsCaught

polled_complete_example :
    (react_all (polled 4 2) (react_all events start)).got ≡ (react_all events start).output.chunks
unfolding output_program
polled_complete_example =
    polled_complete 4 2 (react_all events start) (react_all-IsCaught events start start-IsCaught)
      (omega arith)

page_durable_result-live_example :
    page_durable_result (terminal_result (append_all lines (no_output 8))) 1 4
    ≡ poll_result (append_all lines (no_output 8)) 1 4
unfolding output_program
page_durable_result-live_example =
    page_durable_result-live (append_all lines (no_output 8)) 1 4 (omega arith)

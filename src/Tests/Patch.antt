-- ===== src/Tests/Patch.antt =====
-- Patches: the parser, the hunks and their theorems on small documents.
use codito_mcp.Common.{
  ◌≡◌, refl, none, some, [], ◌∷◌, ok, err, nat_Eq, list_Eq, option_Eq, string_Eq, ◌↔◌, true, inr,
  inl, All, ◌++◌, any, ◌==◌, arith,
}
use codito_mcp.Text.{Text, codes, is_crlf}
use codito_mcp.Errors.{plain, python_error, invalid_patch, invalid_path}
use codito_mcp.Patch.Types.{context, plus, minus, Hunk, add, move, delete}
use codito_mcp.Patch.TextFile.{TextFile, encode, decode}
use codito_mcp.Patch.TextFile.RoundTrip.{IsWellFormed, decode-encode_file}
use codito_mcp.Patch.Hunks.{apply_hunks, hunks_program}
use codito_mcp.Patch.Hunks.Relation.{Applies}
use codito_mcp.Patch.Parser.Sections.{parse-IsSection}
use codito_mcp.Patch.Parser.Fields.{IsSection}
use codito_mcp.Patch.Parser.Total.{IsRefusal, parse-IsRefusal}
use codito_mcp.Patch.Preflight.{Tree, Preflight, preflight_program}
use codito_mcp.Patch.Preflight.Based.{preflight-IsBased}
use codito_mcp.Patch.Preflight.Section.{IsBased}
use codito_mcp.Patch.Commit.{Files, Desired, abort}
use codito_mcp.Patch.Commit.Rollback.{abort-unchanged}
use codito_mcp.Common.Dict.{lookup, contains}
use codito_mcp.Patch.Hunks.Exact.{apply_hunks_iff}
use codito_mcp.Patch.Parser.{parse, parser_program, section_with}

abbrev document : Text
document =
    codes
      "*** Begin Patch\n*** Update File: a\\b.txt\n*** Move to: c.txt\n@@\n x\n-y\n+z\n*** Add File: d\n+1\n*** End Patch\n"

abbrev hunk : Hunk
hunk = record { lines = (context, codes "x") ∷ (minus, codes "y") ∷ (plus, codes "z") ∷ [] }

parse-document :
    parse document
    ≡ ok (
        section_with move (codes "a/b.txt") (some (codes "c.txt")) [] (hunk ∷ [])
        ∷ section_with add (codes "d") none (codes "1" ∷ []) []
        ∷ [])
unfolding parser_program
parse-document = refl

parse_errors :
    (parse (codes "*** Begin Patch\n*** End Patch") ≡ err (plain invalid_patch))
    × (parse (codes "*** Begin Patch\n*** Delete File: ../x\n*** End Patch")
        ≡ err (plain invalid_path))
    × (parse (codes "*** Begin Patch\n*** Update File: x\n@@\n+a\n*** End Patch")
        ≡ err (plain invalid_patch))
unfolding parser_program
parse_errors = (refl, refl, refl)

abbrev old_file : TextFile
old_file = record {
  lines = codes "a" ∷ codes "b" ∷ codes "a" ∷ [];
  newline = 13 ∷ 10 ∷ [];
  final_newline = true;
  bom = true;
}

abbrev edit : Hunk
edit = record { lines = (minus, codes "b") ∷ (plus, codes "c") ∷ [] }

abbrev new_file : TextFile
new_file = record old_file { lines = codes "a" ∷ codes "c" ∷ codes "a" ∷ [] }

apply_hunks_iff_example : (apply_hunks old_file (edit ∷ []) (codes "f") ≡ ok new_file) ↔ (
    Applies (edit ∷ []) old_file.lines new_file.lines
    × (new_file ≡ record old_file { lines = new_file.lines }))
apply_hunks_iff_example = apply_hunks_iff old_file new_file (edit ∷ []) (codes "f")

-- The replacement does happen.
apply_hunks_run : apply_hunks old_file (edit ∷ []) (codes "f") ≡ ok new_file
unfolding hunks_program
apply_hunks_run = refl

old_file-IsWellFormed : IsWellFormed (10 ∷ []) old_file
unfolding codito_mcp.Text.is_break
old_file-IsWellFormed = record {
  clean = ((refl, tt), ((refl, tt), ((refl, tt), tt)));
  scalar = ((refl, tt), ((refl, tt), ((refl, tt), tt)));
  newline = is_crlf;
  ends = tt;
  shown = inr (inl refl);
  marked = inl refl;
}

decode-encode_file_example : decode (10 ∷ []) (encode old_file) ≡ ok old_file
decode-encode_file_example = decode-encode_file (10 ∷ []) old_file old_file-IsWellFormed

abbrev small_document : Text
small_document = codes "*** Begin Patch\n*** Delete File: x\n*** End Patch"

parse-IsSection_example : All IsSection (section_with delete (codes "x") none [] [] ∷ [])
unfolding parser_program
parse-IsSection_example =
    parse-IsSection small_document (section_with delete (codes "x") none [] [] ∷ []) refl

parse-IsRefusal_example : IsRefusal (plain invalid_path)
unfolding parser_program
parse-IsRefusal_example =
    parse-IsRefusal (codes "*** Begin Patch\n*** Delete File: ../x\n*** End Patch")
      (plain invalid_path) refl refl

abbrev tree : Tree
tree = record {
  check = λ p. ok tt;
  resolve = λ p must_exist. ok must_exist;
  stat_size = λ p. 2;
  read = λ p. ok (codes "a" ++ (10 ∷ []));
  sha = λ raw. "hash";
  linesep = 10 ∷ [];
}

abbrev removed : Preflight
removed = record {
  desired = (codes "x", none) ∷ [];
  validated = (codes "x", true) ∷ [];
  changes =
      record {
        action = delete;
        source = codes "x";
        destination = none;
        old_hash = some "hash";
        new_hash = none;
      }
      ∷ [];
}

preflight-IsBased_example : All (IsBased tree ((codes "x", some "hash") ∷ [])) removed.changes
unfolding preflight_program
preflight-IsBased_example =
    preflight-IsBased tree (section_with delete (codes "x") none [] [] ∷ [])
      ((codes "x", some "hash") ∷ []) removed refl

abbrev before : Files
before = (codes "x", codes "old") ∷ []

abbrev wanted : Desired
wanted = (codes "x", some (codes "new")) ∷ (codes "y", some (codes "two")) ∷ []

wanted-covered :
    (q : Text) → contains q wanted ≡ true → any (λ p. p == q) (codes "x" ∷ codes "y" ∷ []) ≡ true
unfolding lookup
wanted-covered q h = ground arith

abort-unchanged_example :
    ((abort (λ raw. raw) (plain python_error) 1 (codes "x" ∷ codes "y" ∷ []) wanted before).0
      ≡ err (plain python_error))
    × ((q : Text)
        → lookup q
            (abort (λ raw. raw) (plain python_error) 1 (codes "x" ∷ codes "y" ∷ []) wanted before).1
          ≡ lookup q before)
unfolding lookup codito_mcp.Common.list_beq
abort-unchanged_example =
    abort-unchanged (λ raw. raw) (λ a b h. h) (plain python_error) 1 (codes "x" ∷ codes "y" ∷ [])
      wanted before (refl, (refl, tt)) wanted-covered

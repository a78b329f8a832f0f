-- ===== src/Shell/Kept.antt =====
-- What is kept of a job's output, and its limit.
use codito_mcp.Common.{
  ℕ, zero, suc, String, ◌+◌, ◌-◌, ◌≤◌, ◌≡◌, refl, ap, Bool, true, List, [], ◌∷◌, ◌++◌, arith, ltb,
  leb, length, take, length-append, Bool-cases, inl, inr,
}
use codito_mcp.Text.{Text, encode_char, utf8_encode}
use codito_mcp.Shell.Output.{OutputChunk, Output, size, decode_prefix, with_chunk, append}

abbrev pub chunk_bytes : List OutputChunk → ℕ
chunk_bytes [] = 0
chunk_bytes (c ∷ chunks) = size c.text + chunk_bytes chunks

-- the sequence numbers run on from `n`
abbrev pub IsNumbered : ℕ → List OutputChunk → Type 0
IsNumbered n [] = Unit
IsNumbered n (c ∷ chunks) = (c.sequence ≡ suc n) × IsNumbered (suc n) chunks

pub record IsWithin (o : Output) : Type 0 where
  pub numbered : IsNumbered 0 o.chunks
  pub held : chunk_bytes o.chunks ≤ o.bytes
  pub bounded : o.bytes ≤ o.limit

-- what the readers of a process hand over, in order
abbrev pub append_all : List (String × Text) → Output → Output
append_all [] o = o
append_all ((stream, text) ∷ writes) o = append_all writes (append stream text o)

size-cons : (c : ℕ) (text : Text) → size (c ∷ text) ≡ length (encode_char c) + size text
unfolding utf8_encode
size-cons c text = length-append (encode_char c) (utf8_encode text)

size-empty : size [] ≡ 0
unfolding utf8_encode
size-empty = refl

length-take_ge :
    {A : Type 0} (m n : ℕ) (xs : List A) → m ≤ n → m ≤ length xs → m ≤ length (take n xs)
length-take_ge zero n xs h k = omega arith
length-take_ge (suc m) zero xs h k = absurd (omega arith)
length-take_ge (suc m) (suc n) [] h k = absurd (omega arith)
length-take_ge (suc m) (suc n) (x ∷ xs) h k =
    omega (arith, length-take_ge m n xs (omega arith) (omega arith))

pub length-take_le : {A : Type 0} (n : ℕ) (xs : List A) → length (take n xs) ≤ n
length-take_le zero xs = omega arith
length-take_le (suc n) [] = omega arith
length-take_le (suc n) (x ∷ xs) = omega (arith, length-take_le n xs)

size-decode_prefix :
    (n : ℕ) (text : Text)
    → (size (decode_prefix n text) ≤ n) × (size (decode_prefix n text) ≤ size text)
unfolding decode_prefix
size-decode_prefix n [] = (omega (arith, size-empty), omega (arith, size-empty))
size-decode_prefix n (c ∷ text) = elim (Bool-cases (leb (length (encode_char c)) n)) [
  | inl h ↦
      (let (low, below) = size-decode_prefix (n - length (encode_char c)) text in
        rw h (
          ground (arith, size-cons c (decode_prefix (n - length (encode_char c)) text), low),
          ground (
            arith,
            size-cons c text,
            size-cons c (decode_prefix (n - length (encode_char c)) text),
            below,
          ),
        ))
  | inr h ↦ rw h (omega (arith, size-empty), omega (arith, size-empty))
]

pub decode_prefix-all : (n : ℕ) (text : Text) → size text ≤ n → decode_prefix n text ≡ text
unfolding decode_prefix
decode_prefix-all n [] h = refl
decode_prefix-all n (c ∷ text) h =
    let fits : leb (length (encode_char c)) n ≡ true = ground (arith, size-cons c text) in
    rw fits (
      ap (◌∷◌ c)
        (decode_prefix-all (n - length (encode_char c)) text (ground (arith, size-cons c text))))

IsNumbered-append :
    (n : ℕ) (chunks : List OutputChunk) (c : OutputChunk)
    → IsNumbered n chunks
    → c.sequence ≡ suc (n + length chunks)
    → IsNumbered n (chunks ++ (c ∷ []))
IsNumbered-append n [] c h e = (omega (arith, e), tt)
IsNumbered-append n (d ∷ chunks) c (here, rest) e =
    (here, IsNumbered-append (suc n) chunks c rest (omega (arith, e)))

chunk_bytes-append :
    (chunks : List OutputChunk) (c : OutputChunk)
    → chunk_bytes (chunks ++ (c ∷ [])) ≡ chunk_bytes chunks + size c.text
chunk_bytes-append [] c = omega arith
chunk_bytes-append (d ∷ chunks) c = omega (arith, chunk_bytes-append chunks c)

with_chunk-IsNumbered :
    (stream : String) (text : Text) (cut : Bool) (chunks : List OutputChunk)
    → IsNumbered 0 chunks
    → IsNumbered 0 (with_chunk stream text cut chunks)
unfolding with_chunk
with_chunk-IsNumbered stream [] cut chunks h = h
with_chunk-IsNumbered stream (c ∷ text) cut chunks h = IsNumbered-append 0 chunks _ h (omega arith)

chunk_bytes-with_chunk :
    (stream : String) (text : Text) (cut : Bool) (chunks : List OutputChunk)
    → chunk_bytes (with_chunk stream text cut chunks) ≡ chunk_bytes chunks + size text
unfolding with_chunk
chunk_bytes-with_chunk stream [] cut chunks = omega (arith, size-empty)
chunk_bytes-with_chunk stream (c ∷ text) cut chunks = chunk_bytes-append chunks _

pub append-IsWithin :
    (stream : String) (text : Text) (o : Output) → IsWithin o → IsWithin (append stream text o)
unfolding append
append-IsWithin stream text o w = elim (Bool-cases (leb o.limit o.bytes)) [
  | inl full ↦ rw full (record { numbered = w.numbered; held = w.held; bounded = w.bounded })
  | inr free ↦
      let remaining = o.limit - o.bytes in
      let rendered = decode_prefix remaining text in
      let (low, below) = size-decode_prefix remaining text in
      rw free (record {
        numbered = with_chunk-IsNumbered stream rendered _ o.chunks w.numbered;
        held = omega (
          arith,
          chunk_bytes-with_chunk stream rendered
              (ltb (length (take remaining (utf8_encode text))) (size text)) o.chunks,
          w.held,
          length-take_ge (size rendered) remaining (utf8_encode text) low below,
        );
        bounded = ground (arith, w.bounded, length-take_le remaining (utf8_encode text));
      })
]

-- Whatever a process writes, the chunks that are kept have the sequence numbers from one on without
-- a gap, their bytes are at most those that were counted, and these are at most the limit.
pub append_all-IsWithin :
    (writes : List (String × Text)) (o : Output) → IsWithin o → IsWithin (append_all writes o)
append_all-IsWithin [] o w = w
append_all-IsWithin ((stream, text) ∷ writes) o w =
    append_all-IsWithin writes (append stream text o) (append-IsWithin stream text o w)

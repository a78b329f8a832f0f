-- ===== src/Text/Decodes.antt =====
-- The strict decoder of UTF-8 against the encoder.
use codito_mcp.Text.Utf8.{
  char, more, bad, encode_char, utf8_encode, is_scalar, Decoded, is_tail, second_ok, decode_byte,
  push, decode_from, continue, utf8_decode, IsScalar,
}
use mathlib.Core.Path.{ap₂}
use mathlib.Core.List.{append_assoc}
use codito_mcp.Common.{
  ℕ, ◌+◌, ◌-◌, ◌*◌, ◌/◌, ◌%◌, ◌≤◌, ◌<◌, ◌⊎◌, true, ◌&&◌, [], ◌∷◌, ◌++◌, ◌≡◌, refl, ◌∙◌, arith, leb,
  Option, none, some, Bool-cases, inl, inr,
}
use codito_mcp.Text.Basic.{Text, Bytes}

-- What the decoder may have read of a character.
abbrev IsPending : Bytes → Type 0
IsPending [] = Unit
IsPending (a ∷ []) = (leb 194 a && leb a 244) ≡ true
IsPending (a ∷ b ∷ []) = ((leb 224 a && leb a 244) ≡ true) × (second_ok a b ≡ true)
IsPending (a ∷ b ∷ c ∷ []) =
    ((leb 240 a && leb a 244) ≡ true) × (second_ok a b ≡ true) × (is_tail c ≡ true)
IsPending _ = ⊥

-- A character ends exactly at its encoding, and is a scalar value.
abbrev Reads : Bytes → Decoded → Type 0
Reads _ bad = Unit
Reads read (more pending) = (pending ≡ read) × IsPending pending
Reads read (char c) = (encode_char c ≡ read) × (is_scalar c ≡ true)

-- the digits, to base 64, of a character above U+FFFF
record Digits (v x y z w : ℕ) : Type 0 where
  least : 65536 ≤ v
  most : v ≤ 1114111
  first : v / 262144 ≡ x
  second : (v / 4096) % 64 ≡ y
  third : (v / 64) % 64 ≡ z
  fourth : v % 64 ≡ w

Digits-char :
    (x y z w : ℕ)
    → x ≤ 4
    → y < 64
    → z < 64
    → w < 64
    → (1 ≤ x) ⊎ (16 ≤ y)
    → (x < 4) ⊎ (y < 16)
    → Digits (x * 262144 + y * 4096 + z * 64 + w) x y z w
Digits-char x y z w hx hy hz hw low high = omega arith

encode-Digits :
    (v x y z w : ℕ)
    → Digits v x y z w
    → (encode_char v ≡ (240 + x) ∷ (128 + y) ∷ (128 + z) ∷ (128 + w) ∷ []) × (is_scalar v ≡ true)
unfolding encode_char
encode-Digits v x y z w d = ground arith

record Quad (a b c d : ℕ) : Type 0 where
  first_low : 240 ≤ a
  first_high : a ≤ 244
  second_low : 128 ≤ b
  second_high : b ≤ 191
  third_low : 128 ≤ c
  third_high : c ≤ 191
  fourth_low : 128 ≤ d
  fourth_high : d ≤ 191
  overlong : (240 < a) ⊎ (144 ≤ b)
  beyond : (a < 244) ⊎ (b ≤ 143)

Quad-char :
    (a b c d : ℕ)
    → (leb 240 a && leb a 244) ≡ true
    → second_ok a b ≡ true
    → is_tail c ≡ true
    → is_tail d ≡ true
    → Quad a b c d
Quad-char a b c d ha hb hc hd = record {
  first_low = ground arith;
  first_high = ground arith;
  second_low = ground arith;
  second_high = ground arith;
  third_low = ground arith;
  third_high = ground arith;
  fourth_low = ground arith;
  fourth_high = ground arith;
  overlong = ground arith;
  beyond = ground arith;
}

encode-Quad :
    (a b c d : ℕ)
    → Quad a b c d
    → Reads
        (a ∷ b ∷ c ∷ d ∷ [])
        (char ((a - 240) * 262144 + (b - 128) * 4096 + (c - 128) * 64 + (d - 128)))
encode-Quad a b c d q =
    let (code, scalar) = encode-Digits _ _ _ _ _ (
      Digits-char (a - 240) (b - 128) (c - 128) (d - 128) (omega arith) (omega arith) (omega arith)
        (omega arith) (omega arith) (omega arith)) in
    (code ∙ ground arith, scalar)

decode_byte-Reads :
    (pending : Bytes) (b : ℕ)
    → IsPending pending
    → Reads (pending ++ b ∷ []) (decode_byte pending b)
unfolding decode_byte encode_char
decode_byte-Reads [] b h = ground arith
decode_byte-Reads (a ∷ []) b h = ground arith
decode_byte-Reads (a ∷ b ∷ []) c h = ground arith
decode_byte-Reads (a ∷ b ∷ c ∷ []) d h = elim (Bool-cases (is_tail d)) [
  | inl t ↦ rw t (encode-Quad a b c d (Quad-char a b c d h.0 h.1 h.2 t))
  | inr f ↦ rw f tt
]
decode_byte-Reads (a ∷ b ∷ c ∷ d ∷ r) x h = absurd h

push-eq-some :
    (c : ℕ) (o : Option Text) (s : Text)
    → push c o ≡ some s
    → (t : Text) × (o ≡ some t) × (s ≡ c ∷ t)
push-eq-some c none s e = absurd (ground arith)
push-eq-some c (some t) s e = (t, refl, ground arith)

-- `s` is what was decoded, and its encoding is what was read.
record Decodes (read : Bytes) (s : Text) : Type 0 where
  encoded : utf8_encode s ≡ read
  scalar : IsScalar s

module _ (b : ℕ) (bs : Bytes)
    (ih : (q : Bytes) (t : Text)
      → IsPending q
      → decode_from q bs ≡ some t
      → Decodes (q ++ bs) t) where
  decoded_then :
      (pending : Bytes) (d : Decoded) (s : Text)
      → Reads (pending ++ b ∷ []) d
      → continue d bs ≡ some s
      → Decodes (pending ++ b ∷ bs) s
  unfolding utf8_encode
  decoded_then pending bad s r e = absurd (ground arith)
  decoded_then pending (more q) s r e =
      let d = ih q s r.1 e in
      record {
        encoded = d.encoded ∙ (rw (r.0) (append_assoc pending (b ∷ []) bs));
        scalar = d.scalar;
      }
  decoded_then pending (char c) s r e =
      let (t, rest, whole) = push-eq-some c (decode_from [] bs) s e in
      let d = ih [] t tt rest in
      rw whole (record {
        encoded = ap₂ ◌++◌ r.0 d.encoded ∙ append_assoc pending (b ∷ []) bs;
        scalar = (r.1, d.scalar);
      })

decode_from-Decodes :
    (pending bs : Bytes) (s : Text)
    → IsPending pending
    → decode_from pending bs ≡ some s
    → Decodes (pending ++ bs) s
unfolding decode_from utf8_encode
decode_from-Decodes [] [] s h e =
    let q : s ≡ [] = ground arith in rw q (record { encoded = refl; scalar = tt })
decode_from-Decodes (p ∷ ps) [] s h e = absurd (ground arith)
decode_from-Decodes pending (b ∷ bs) s h e =
    decoded_then b bs (λ q t hq eq. decode_from-Decodes q bs t hq eq) pending
      (decode_byte pending b) s (decode_byte-Reads pending b h) (ground arith)

-- Bytes that decode are the encoding of the text that they decode to.
pub encode-decode :
    (raw : Bytes) (s : Text) → utf8_decode raw ≡ some s → (utf8_encode s ≡ raw) × IsScalar s
encode-decode raw s e =
    let d = decode_from-Decodes [] raw s tt (unfold utf8_decode in e) in (d.encoded, d.scalar)

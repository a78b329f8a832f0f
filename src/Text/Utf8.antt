-- ===== src/Text/Utf8.antt =====
-- UTF-8: `str.encode` and the strict `bytes.decode`. The decoder keeps the bytes of the character
-- that it is in the middle of; it admits the sequences that Python admits (no overlong form, no
-- surrogate, nothing above U+10FFFF).
use codito_mcp.Common.{
  ℕ, ◌+◌, ◌-◌, ◌*◌, ◌/◌, ◌%◌, Bool, true, ◌&&◌, [], ◌∷◌, ◌++◌, ◌≡◌, refl, ◌∙◌, ap, arith,
  if◌then◌else◌, leb, ltb, Option, none, some, All, nat_eq, ◌||◌,
}
use codito_mcp.Text.Basic.{Text, Bytes}

unfoldable pub encode_char : ℕ → Bytes
encode_char c =
    if ltb c 128
    then c ∷ []
    else if ltb c 2048
    then (192 + c / 64) ∷ (128 + c % 64) ∷ []
    else if ltb c 65536
    then (224 + c / 4096) ∷ (128 + (c / 64) % 64) ∷ (128 + c % 64) ∷ []
    else (240 + c / 262144) ∷ (128 + (c / 4096) % 64) ∷ (128 + (c / 64) % 64) ∷ (128 + c % 64) ∷ []

unfoldable pub utf8_encode : Text → Bytes
unfolding encode_char
utf8_encode [] = []
utf8_encode (c ∷ s) = encode_char c ++ utf8_encode s

-- a Unicode scalar value: what a decoded `str` holds
abbrev pub is_scalar : ℕ → Bool
is_scalar c = ltb c 55296 || (leb 57344 c && leb c 1114111)

-- After a byte: the character that it ends, if any, and the bytes of the one begun.
pub data Decoded : Type 0 where
  bad : Decoded
  more : Bytes → Decoded
  char : ℕ → Decoded

abbrev pub is_tail : ℕ → Bool
is_tail b = leb 128 b && leb b 191

abbrev pub second_ok : ℕ → ℕ → Bool
second_ok a b =
    if nat_eq a 224
    then leb 160 b && leb b 191
    else if nat_eq a 237
    then leb 128 b && leb b 159
    else if nat_eq a 240
    then leb 144 b && leb b 191
    else if nat_eq a 244
    then leb 128 b && leb b 143
    else is_tail b

unfoldable pub decode_byte : Bytes → ℕ → Decoded
decode_byte [] b =
    if ltb b 128 then char b else if leb 194 b && leb b 244 then more (b ∷ []) else bad
decode_byte (a ∷ []) b =
    if second_ok a b
    then (if ltb a 224 then char ((a - 192) * 64 + (b - 128)) else more (a ∷ b ∷ []))
    else bad
decode_byte (a ∷ b ∷ []) c =
    if is_tail c
    then (if ltb a 240
        then char ((a - 224) * 4096 + (b - 128) * 64 + (c - 128))
        else more (a ∷ b ∷ c ∷ []))
    else bad
decode_byte (a ∷ b ∷ c ∷ []) d =
    if is_tail d
    then char ((a - 240) * 262144 + (b - 128) * 4096 + (c - 128) * 64 + (d - 128))
    else bad
decode_byte _ _ = bad

abbrev pub push : ℕ → Option Text → Option Text
push c none = none
push c (some s) = some (c ∷ s)

unfoldable pub decode_from : Bytes → Bytes → Option Text
unfolding decode_byte
decode_from [] [] = some []
decode_from (_ ∷ _) [] = none
decode_from pending (b ∷ bs) = elim (decode_byte pending b) [
  | bad ↦ none
  | more pending' ↦ decode_from pending' bs
  | char c ↦ push c (decode_from [] bs)
]

abbrev pub continue : Decoded → Bytes → Option Text
continue bad bs = none
continue (more pending) bs = decode_from pending bs
continue (char c) bs = push c (decode_from [] bs)

-- `raw.decode("utf-8")`
unfoldable pub utf8_decode : Bytes → Option Text
unfolding decode_from
utf8_decode = decode_from []

decode_example :
    (utf8_decode (104 ∷ 195 ∷ 169 ∷ 226 ∷ 130 ∷ 172 ∷ []) ≡ some (104 ∷ 233 ∷ 8364 ∷ []))
    × (utf8_decode (192 ∷ 128 ∷ []) ≡ none)
    × (utf8_decode (237 ∷ 160 ∷ 128 ∷ []) ≡ none)
    × (utf8_decode (226 ∷ 130 ∷ []) ≡ none)
unfolding utf8_decode
decode_example = (refl, refl, refl, refl)

decode-encode_char :
    (c : ℕ) (bs : Bytes)
    → is_scalar c ≡ true
    → decode_from [] (encode_char c ++ bs) ≡ push c (decode_from [] bs)
unfolding encode_char decode_from
decode-encode_char c bs h = ground arith

abbrev pub IsScalar : Text → Type 0
IsScalar = All (λ c. is_scalar c ≡ true)

-- A text of scalar values is read back from its encoding.
pub decode-encode : (s : Text) → IsScalar s → utf8_decode (utf8_encode s) ≡ some s
unfolding utf8_encode utf8_decode
decode-encode [] h = refl
decode-encode (c ∷ s) h =
    decode-encode_char c (utf8_encode s) h.0 ∙ ap (push c) (decode-encode s h.1)

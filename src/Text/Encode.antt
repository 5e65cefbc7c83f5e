-- ===== src/Text/Encode.antt =====
-- `str::as_bytes`: the UTF-8 encoding, and its reading by `from_utf8_lossy`; and decimal numbers.
use whispy.Base.{
  ℕ, ◌+◌, ◌*◌, ◌/◌, ◌%◌, ◌<◌, ◌≤◌, [], ◌∷◌, ◌++◌, ltb, ◌==◌, if◌then◌else◌, ◌≡◌, refl, arith, ◌∙◌,
  ap, ◌⊎◌, inl, inr, Bool-cases,
}
use whispy.Text.Utf8.{from_utf8_lossy, decode, ground_state, Decoder}
use whispy.Text.{Text, Bytes}

abbrev pub encode_char : ℕ → Bytes
encode_char c =
    if ltb c 0x80
    then c ∷ []
    else if ltb c 0x800
    then (0xc0 + c / 64) ∷ (0x80 + c % 64) ∷ []
    else if ltb c 0x10000
    then (0xe0 + c / 4096) ∷ (0x80 + c / 64 % 64) ∷ (0x80 + c % 64) ∷ []
    else (0xf0 + c / 262144) ∷ (0x80 + c / 4096 % 64) ∷ (0x80 + c / 64 % 64) ∷ (0x80 + c % 64) ∷ []

-- `as_bytes`.
unfoldable pub as_bytes : Text → Bytes
as_bytes [] = []
as_bytes (c ∷ s) = encode_char c ++ as_bytes s

-- What a `char` is: a code point that is no surrogate.
abbrev pub IsScalar : ℕ → Type 0
IsScalar c = (c < 0xd800) ⊎ ((0xe000 ≤ c) × (c < 0x110000))

abbrev pub IsText : Text → Type 0
IsText [] = Unit
IsText (c ∷ s) = IsScalar c × IsText s

-- The bytes of one character, read in front of others.
decode_one :
    (c : ℕ) (bs : Bytes) → c < 0x80 → decode ground_state (c ∷ bs) ≡ c ∷ decode ground_state bs
unfolding decode
decode_one c bs h = ground arith

decode_two :
    (c : ℕ) (bs : Bytes)
    → 0x80 ≤ c
    → c < 0x800
    → decode ground_state ((0xc0 + c / 64) ∷ (0x80 + c % 64) ∷ bs) ≡ c ∷ decode ground_state bs
unfolding decode
decode_two c bs lo hi = ground arith

-- The state behind a leading byte and some of those that follow it.
abbrev inner : ℕ → ℕ → Decoder
inner missing point = record { missing = missing; point = point; lower = 0x80; upper = 0xbf }

abbrev after_three : ℕ → Decoder
after_three p = record {
  missing = 2;
  point = p;
  lower = if p == 0 then 0xa0 else 0x80;
  upper = if p == 13 then 0x9f else 0xbf;
}

abbrev after_four : ℕ → Decoder
after_four p = record {
  missing = 3;
  point = p;
  lower = if p == 0 then 0x90 else 0x80;
  upper = if p == 4 then 0x8f else 0xbf;
}

decode_last :
    (p q : ℕ) (bs : Bytes)
    → q < 64
    → decode (inner 1 p) ((0x80 + q) ∷ bs) ≡ (p * 64 + q) ∷ decode ground_state bs
unfolding decode
decode_last p q bs h = ground arith

decode-inner :
    (p q : ℕ) (bs : Bytes)
    → q < 64
    → decode (inner 2 p) ((0x80 + q) ∷ bs) ≡ decode (inner 1 (p * 64 + q)) bs
unfolding decode
decode-inner p q bs h = ground arith

decode_open_three :
    (p : ℕ) (bs : Bytes)
    → p < 16
    → decode ground_state ((0xe0 + p) ∷ bs) ≡ decode (after_three p) bs
unfolding decode
decode_open_three p bs h = ground arith

decode-after_three :
    (p q : ℕ) (bs : Bytes)
    → q < 64
    → ((p ≡ 0) → 32 ≤ q)
    → ((p ≡ 13) → q < 32)
    → decode (after_three p) ((0x80 + q) ∷ bs) ≡ decode (inner 1 (p * 64 + q)) bs
unfolding decode
decode-after_three p q bs h lo hi = ground arith

decode_open_four :
    (p : ℕ) (bs : Bytes) → p < 5 → decode ground_state ((0xf0 + p) ∷ bs) ≡ decode (after_four p) bs
unfolding decode
decode_open_four p bs h = ground arith

decode-after_four :
    (p q : ℕ) (bs : Bytes)
    → q < 64
    → ((p ≡ 0) → 16 ≤ q)
    → ((p ≡ 4) → q < 16)
    → decode (after_four p) ((0x80 + q) ∷ bs) ≡ decode (inner 2 (p * 64 + q)) bs
unfolding decode
decode-after_four p q bs h lo hi = ground arith

decode_three :
    (c : ℕ) (bs : Bytes)
    → 0x800 ≤ c
    → c < 0x10000
    → IsScalar c
    → decode ground_state ((0xe0 + c / 4096) ∷ (0x80 + c / 64 % 64) ∷ (0x80 + c % 64) ∷ bs)
      ≡ c ∷ decode ground_state bs
decode_three c bs lo hi h =
    decode_open_three (c / 4096) _ (omega arith)
    ∙ decode-after_three (c / 4096) (c / 64 % 64) _ (omega arith) (λ e. omega arith)
        (λ e. ground arith)
    ∙ decode_last (c / 4096 * 64 + c / 64 % 64) (c % 64) bs (omega arith)
    ∙ ap (λ x. x ∷ decode ground_state bs) (omega arith)

decode_four :
    (c : ℕ) (bs : Bytes)
    → 0x10000 ≤ c
    → IsScalar c
    → decode ground_state
        ((0xf0 + c / 262144) ∷ (0x80 + c / 4096 % 64) ∷ (0x80 + c / 64 % 64) ∷ (0x80 + c % 64) ∷ bs)
      ≡ c ∷ decode ground_state bs
decode_four c bs lo h =
    decode_open_four (c / 262144) _ (omega arith)
    ∙ decode-after_four (c / 262144) (c / 4096 % 64) _ (omega arith) (λ e. omega arith)
        (λ e. ground arith)
    ∙ decode-inner (c / 262144 * 64 + c / 4096 % 64) (c / 64 % 64) _ (omega arith)
    ∙ decode_last ((c / 262144 * 64 + c / 4096 % 64) * 64 + c / 64 % 64) (c % 64) bs (omega arith)
    ∙ ap (λ x. x ∷ decode ground_state bs) (omega arith)

decode-encode_char :
    (c : ℕ) (bs : Bytes)
    → IsScalar c
    → decode ground_state (encode_char c ++ bs) ≡ c ∷ decode ground_state bs
decode-encode_char c bs h = elim (Bool-cases (ltb c 0x80)) [
  | inl a ↦ rw a (decode_one c bs (ground arith))
  | inr a ↦ elim (Bool-cases (ltb c 0x800)) [
    | inl b ↦ rw (a, b) (decode_two c bs (ground arith) (ground arith))
    | inr b ↦ elim (Bool-cases (ltb c 0x10000)) [
      | inl d ↦ rw (a, b, d) (decode_three c bs (ground arith) (ground arith) h)
      | inr d ↦ rw (a, b, d) (decode_four c bs (ground arith) h)
    ]
  ]
]

-- Text encoded as UTF-8 is read back.
pub from_utf8_lossy-as_bytes : (s : Text) → IsText s → from_utf8_lossy (as_bytes s) ≡ s
unfolding from_utf8_lossy as_bytes
from_utf8_lossy-as_bytes [] h = refl
from_utf8_lossy-as_bytes (c ∷ s) (h, hs) =
    decode-encode_char c (as_bytes s) h ∙ ap (◌∷◌ c) (from_utf8_lossy-as_bytes s hs)

-- ===== src/Codec/Varint.antt =====
-- The decoding of what `encode_varint` of chainbreaker/codec.py writes, for each width.
use chain_breaker.Base.{
  ℕ, ◌+◌, ◌%◌, ◌^◌, ◌<◌, ◌≤◌, ◌≡◌, refl, sym, ap, ◌∙◌, inl, inr, [], ◌∷◌, ◌++◌, Bytes, length, drop,
  arith, Bool-cases, ok, ltb, leb, drop_append,
}
use chain_breaker.Stdlib.{to_le, pack, slice}
use chain_breaker.Stdlib.Integers.{length-to_le, from_le-to_le}
use chain_breaker.Codec.{
  need, byte_at, encode_varint, decode_varint, decode_wide, canonical_length, max_varint,
}
use chain_breaker.Codec.Reading.{need_here, slice_here, drop_here, byte_at_here}

decode_wide_here :
    (bs : Bytes) (offset m n width : ℕ) (rest : Bytes)
    → drop offset bs ≡ m ∷ (to_le width n ++ rest)
    → 0 < width
    → n < 256 ^ width
    → canonical_length n ≡ width + 1
    → decode_wide bs offset width ≡ ok (n, offset + (width + 1))
unfolding decode_wide
decode_wide_here bs offset m n width rest here pos fits canonical =
    let size = length-to_le width n in
    let behind : drop (offset + 1) bs ≡ to_le width n ++ rest =
      drop_here bs offset (m ∷ []) (to_le width n ++ rest) here in
    let read = need_here bs (offset + 1) (to_le width n) rest behind (omega (arith, size)) in
    let part = slice_here bs (offset + 1) (to_le width n) rest behind in
    let read' : need bs (offset + 1) width ≡ ok tt = rw size at read in
    let part' : slice bs (offset + 1) width ≡ to_le width n = rw size at part in
    rw (read', part', from_le-to_le width n fits, canonical) (ground arith)

pub encode_small : (n : ℕ) → n < 0xFD → encode_varint n ≡ ok (n ∷ [])
unfolding encode_varint to_le
encode_small n h = let byte : n % 256 ≡ n = omega arith in ground (arith, byte)

pub encode_two : (n : ℕ) → 0xFD ≤ n → n ≤ 0xFFFF → encode_varint n ≡ ok (0xFD ∷ to_le 2 n)
unfolding encode_varint pack
encode_two n h k = ground arith

pub encode_four : (n : ℕ) → 0xFFFF < n → n ≤ 0xFFFFFFFF → encode_varint n ≡ ok (0xFE ∷ to_le 4 n)
unfolding encode_varint pack
encode_four n h k = ground arith

pub encode_eight :
    (n : ℕ) → 0xFFFFFFFF < n → n ≤ max_varint → encode_varint n ≡ ok (0xFF ∷ to_le 8 n)
unfolding encode_varint pack
encode_eight n h k = ground arith

-- The four ranges of the encoder.
data Range (n : ℕ) : Type 0 where
  small : n < 0xFD → encode_varint n ≡ ok (n ∷ []) → Range n
  wide :
      (m width : ℕ)
      → encode_varint n ≡ ok (m ∷ to_le width n)
      → 0 < width
      → n < 256 ^ width
      → canonical_length n ≡ width + 1
      → ((bs : Bytes) (offset : ℕ)
          → need bs offset 1 ≡ ok tt
          → byte_at bs offset ≡ ok m
          → decode_varint bs offset ≡ decode_wide bs offset width)
      → Range n

range : (n : ℕ) → n ≤ max_varint → Range n
unfolding canonical_length decode_varint
range n h = elim (Bool-cases (ltb n 0xFD)) [
  | inl a ↦ small (ground arith) (encode_small n (ground arith))
  | inr a ↦ elim (Bool-cases (leb n 0xFFFF)) [
    | inl b ↦
        wide 0xFD 2 (encode_two n (ground arith) (ground arith)) (omega arith) (ground arith)
          (ground arith) (λ bs offset e f. rw (e, f) refl)
    | inr b ↦ elim (Bool-cases (leb n 0xFFFFFFFF)) [
      | inl c ↦
          wide 0xFE 4 (encode_four n (ground arith) (ground arith)) (omega arith) (ground arith)
            (ground arith) (λ bs offset e f. rw (e, f) refl)
      | inr c ↦
          wide 0xFF 8 (encode_eight n (ground arith) h) (omega arith) (ground arith) (ground arith)
            (λ bs offset e f. rw (e, f) refl)
    ]
  ]
]

decode_range :
    (n : ℕ)
    → Range n
    → (enc : Bytes) × (encode_varint n ≡ ok enc)
      × ((bs : Bytes) (offset : ℕ) (rest : Bytes)
          → drop offset bs ≡ enc ++ rest
          → decode_varint bs offset ≡ ok (n, offset + length enc))
unfolding decode_varint
decode_range n (small h e) = (
  n ∷ [],
  e,
  λ bs offset rest here.
      let read = need_here bs offset (n ∷ []) rest here (omega arith) in
      let at = byte_at_here bs offset n rest here in rw (read, at) (ground arith),
)
decode_range n (wide m width e pos fits canonical step) = (
  m ∷ to_le width n,
  e,
  λ bs offset rest here.
      let size = length-to_le width n in
      let read = need_here bs offset (m ∷ []) (to_le width n ++ rest) here (omega arith) in
      let at = byte_at_here bs offset m (to_le width n ++ rest) here in
      step bs offset read at
      ∙ decode_wide_here bs offset m n width rest here pos fits canonical
      ∙ ap (λ k. ok (n, offset + k)) (omega (arith, size)),
)

-- What a successful encoding is decoded to, wherever it stands.
pub decode_varint_here :
    (n : ℕ) (enc : Bytes) (bs : Bytes) (offset : ℕ) (rest : Bytes)
    → n ≤ max_varint
    → encode_varint n ≡ ok enc
    → drop offset bs ≡ enc ++ rest
    → decode_varint bs offset ≡ ok (n, offset + length enc)
decode_varint_here n enc bs offset rest h e here =
    let (enc', e', step) = decode_range n (range n h) in
    let same : enc' ≡ enc = cc in
    step bs offset rest (here ∙ ap (λ x. x ++ rest) (sym same))
    ∙ ap (λ x. ok (n, offset + length x)) same

-- Each number up to 2^64 - 1 is encoded, and its bytes, with any bytes before and behind them, are
-- decoded to the number and the offset behind them.
pub decode_varint-encode_varint :
    (n : ℕ) (pre rest : Bytes)
    → n ≤ max_varint
    → (enc : Bytes) × (encode_varint n ≡ ok enc)
      × (decode_varint (pre ++ (enc ++ rest)) (length pre) ≡ ok (n, length pre + length enc))
decode_varint-encode_varint n pre rest h =
    let (enc, e, step) = decode_range n (range n h) in
    (enc, e, step (pre ++ (enc ++ rest)) (length pre) rest (drop_append pre (enc ++ rest)))

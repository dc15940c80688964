-- ===== src/Codec/Canonical.antt =====
-- The encoding of the numbers that `decode_varint` of chainbreaker/codec.py accepts.
use mathlib.Core.Path.{subst}
use chain_breaker.Base.{
  >>=-eq-ok, if◌then◌else◌, ℕ, zero, suc, ◌+◌, ◌-◌, ◌^◌, ◌<◌, ◌≤◌, ◌≡◌, refl, sym, ap, ◌∙◌, some,
  inl, inr, [], ◌∷◌, Bytes, IsBytes, length, take, drop, get_elem?, arith, Bool-cases, Result, ok,
  raise, codec_error, ltb, ◌==◌, drop-get_elem?, length-take, length-drop, IsBytes-take,
  IsBytes-drop,
}
use chain_breaker.Stdlib.{to_le, from_le, slice}
use chain_breaker.Stdlib.Integers.{to_le-from_le, from_le-lt}
use chain_breaker.Codec.{need, byte_at, encode_varint, decode_varint, decode_wide, canonical_length}
use chain_breaker.Codec.Varint.{encode_small, encode_two, encode_four, encode_eight}

need-eq-ok :
    (bs : Bytes) (offset size : ℕ) → need bs offset size ≡ ok tt → offset + size ≤ length bs
unfolding need
need-eq-ok bs offset size h = ground arith

byte_at-eq-ok :
    (bs : Bytes) (offset : ℕ) {b : ℕ} → byte_at bs offset ≡ ok b → get_elem? bs offset ≡ some b
unfolding byte_at
byte_at-eq-ok bs offset h = ground arith

decode_wide-eq-ok :
    (bs : Bytes) (offset width n end : ℕ)
    → decode_wide bs offset width ≡ ok (n, end)
    → (offset + 1 + width ≤ length bs)
      × (n ≡ from_le (slice bs (offset + 1) width))
      × (canonical_length n ≡ width + 1)
      × (end ≡ offset + (width + 1))
unfolding decode_wide need
decode_wide-eq-ok bs offset width n end h = ground arith

pub length-slice :
    (bs : Bytes) (offset size : ℕ)
    → offset + size ≤ length bs
    → length (slice bs offset size) ≡ size
length-slice bs offset size h =
    length-take size (drop offset bs) (omega (arith, length-drop offset bs))

slice_cons :
    (bs : Bytes) (offset width : ℕ) {m : ℕ}
    → get_elem? bs offset ≡ some m
    → slice bs offset (suc width) ≡ m ∷ slice bs (offset + 1) width
slice_cons bs offset width {m} e =
    let next : suc offset ≡ offset + 1 = omega arith in
    ap (take (suc width)) (drop-get_elem? offset bs e) ∙ ap (λ k. m ∷ take width (drop k bs)) next

-- What a wide branch has read is written back.
wide_back :
    (bs : Bytes) (offset width n end : ℕ) {m : ℕ}
    → IsBytes bs
    → get_elem? bs offset ≡ some m
    → decode_wide bs offset width ≡ ok (n, end)
    → (to_le width n ≡ slice bs (offset + 1) width)
      × (n < 256 ^ width)
      × (canonical_length n ≡ width + 1)
      × (end ≡ offset + (width + 1))
      × (end ≤ length bs)
      × (slice bs offset (end - offset) ≡ m ∷ slice bs (offset + 1) width)
wide_back bs offset width n end {m} valid at h =
    let (inside, value, canonical, stop) = decode_wide-eq-ok bs offset width n end h in
    let part = slice bs (offset + 1) width in
    let size = length-slice bs (offset + 1) width inside in
    let bytes : IsBytes part = IsBytes-take width _ (IsBytes-drop (offset + 1) bs valid) in
    let bound : from_le part < 256 ^ width = rw size at (from_le-lt part bytes) in
    let span : end - offset ≡ suc width = omega arith in
    (
      ap (to_le width) value
          ∙ ap (λ w. to_le w (from_le part)) (sym size)
          ∙ to_le-from_le part bytes,
      subst (λ k. k < 256 ^ width) (sym value) bound,
      canonical,
      stop,
      omega arith,
      ap (slice bs offset) span ∙ slice_cons bs offset width at,
    )

wide_ranges :
    (n width : ℕ)
    → canonical_length n ≡ width + 1
    → (width ≡ 2 → (0xFD ≤ n) × (n ≤ 0xFFFF))
      × (width ≡ 4 → (0xFFFF < n) × (n ≤ 0xFFFFFFFF))
      × (width ≡ 8 → 0xFFFFFFFF < n)
unfolding canonical_length
wide_ranges n width h = (λ e. ground arith, λ e. ground arith, λ e. ground arith)

get_elem?-lt : (bs : Bytes) (i : ℕ) {b : ℕ} → get_elem? bs i ≡ some b → i < length bs
get_elem?-lt [] i e = cc
get_elem?-lt (x ∷ bs) zero e = omega arith
get_elem?-lt (x ∷ bs) (suc i) e = omega (arith, get_elem?-lt bs i e)

-- The statement of canonicity, for what was read at `offset`.
abbrev Back : Bytes → ℕ → ℕ → ℕ → Type 0
Back bs offset n end = (encode_varint n ≡ ok (slice bs offset (end - offset))) × (end ≤ length bs)

small_again :
    (bs : Bytes) (offset m n end : ℕ)
    → get_elem? bs offset ≡ some m
    → m < 0xFD
    → ◌≡◌ {A = Result (ℕ × ℕ)} (ok (m, offset + 1)) (ok (n, end))
    → Back bs offset n end
small_again bs offset m n end at small e =
    let inside = get_elem?-lt bs offset at in
    let value : m ≡ n = ground arith in
    let stop : end ≡ offset + 1 = ground arith in
    let span : end - offset ≡ 1 = omega arith in
    let byte : n < 0xFD = omega arith in
    (
      encode_small n byte
          ∙ ap ok (
              ap (λ x. x ∷ []) (sym value)
              ∙ sym (slice_cons bs offset 0 at)
              ∙ ap (slice bs offset) (sym span)),
      omega arith,
    )

wide_dispatch :
    (bs : Bytes) (offset m n end width : ℕ)
    → IsBytes bs
    → get_elem? bs offset ≡ some m
    → (n < 256 ^ width → canonical_length n ≡ width + 1 → encode_varint n ≡ ok (m ∷ to_le width n))
    → decode_wide bs offset width ≡ ok (n, end)
    → Back bs offset n end
wide_dispatch bs offset m n end width valid at encoded h =
    let (same, fits, canonical, stop, inside, whole) = wide_back bs offset width n end valid at h in
    (encoded fits canonical ∙ ap (λ x. ok (m ∷ x)) same ∙ ap ok (sym whole), inside)

-- Whatever `decode_varint` accepts, in bytes, is the encoding of the number that it returns, and
-- the offset that it returns lies within the data: there is no second encoding of a number.
pub encode_varint-decode_varint :
    (bs : Bytes) (offset n end : ℕ)
    → IsBytes bs
    → decode_varint bs offset ≡ ok (n, end)
    → (encode_varint n ≡ ok (slice bs offset (end - offset))) × (end ≤ length bs)
unfolding decode_varint
encode_varint-decode_varint bs offset n end valid h =
    let (_, _, h1) = >>=-eq-ok (need bs offset 1) _ h in
    let (m, at, h2) = >>=-eq-ok (byte_at bs offset) _ h1 in
    dispatch m (byte_at-eq-ok bs offset at) h2
  where
    no_prefix : ◌≡◌ {A = Result (ℕ × ℕ)} (raise codec_error) (ok (n, end)) → ⊥
    no_prefix e = cc

    dispatch :
        (m : ℕ)
        → get_elem? bs offset ≡ some m
        → ◌≡◌ {A = Result (ℕ × ℕ)}
            (if ltb m 0xFD
              then ok (m, offset + 1)
              else if m == 0xFD
              then decode_wide bs offset 2
              else if m == 0xFE
              then decode_wide bs offset 4
              else if m == 0xFF
              then decode_wide bs offset 8
              else raise codec_error)
            (ok (n, end))
        → (encode_varint n ≡ ok (slice bs offset (end - offset))) × (end ≤ length bs)
    dispatch m at e = elim (Bool-cases (ltb m 0xFD)) [
      | inl a ↦ small_again bs offset m n end at (ground arith) (rw a at e)
      | inr a ↦ elim (Bool-cases (m == 0xFD)) [
        | inl b ↦
            let tag : m ≡ 0xFD = ground arith in
            wide_dispatch bs offset m n end 2 valid at
              (λ fits c. rw tag (encode_two n ((wide_ranges n 2 c).0 refl).0 (omega arith)))
              (rw (a, b) at e)
        | inr b ↦ elim (Bool-cases (m == 0xFE)) [
          | inl d ↦
              let tag : m ≡ 0xFE = ground arith in
              wide_dispatch bs offset m n end 4 valid at
                (λ fits c. rw tag (encode_four n ((wide_ranges n 4 c).1 refl).0 (omega arith)))
                (rw (a, b, d) at e)
          | inr d ↦ elim (Bool-cases (m == 0xFF)) [
            | inl f ↦
                let tag : m ≡ 0xFF = ground arith in
                wide_dispatch bs offset m n end 8 valid at
                  (λ fits c. rw tag (encode_eight n ((wide_ranges n 8 c).2 refl) (omega arith)))
                  (rw (a, b, d, f) at e)
            | inr f ↦ absurd (no_prefix (rw (a, b, d, f) at e))
          ]
        ]
      ]
    ]

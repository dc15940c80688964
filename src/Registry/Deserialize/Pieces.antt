-- ===== src/Registry/Deserialize/Pieces.antt =====
-- The pieces of a serialized registry state of chainbreaker/registry_state.py, read where they stand.
use chain_breaker.Base.{
  ℕ, suc, ◌+◌, ◌^◌, ◌<◌, ◌≡◌, refl, ap, ◌∙◌, true, false, inl, inr, [], ◌∷◌, ◌++◌, append_assoc,
  Bytes, Str, length, length-append, drop, Result, ok, arith, ltb, leb, Bool-cases,
}
use chain_breaker.Stdlib.{to_le, from_le, utf8, is_encodable, slice}
use chain_breaker.Stdlib.Integers.{length-to_le, from_le-to_le}
use chain_breaker.Codec.Reading.{byte_at_here, length_here, slice_at, move}
use chain_breaker.Registry.{to_bytes, encode_varint, encode_str}
use chain_breaker.Registry.Deserialize.{
  wide_varint, decode_registry_varint, decode_bytes_at, decode_str_at,
}

pub to_bytes_fits : (w n : ℕ) → n < 256 ^ w → to_bytes w n ≡ ok (to_le w n)
unfolding to_bytes
to_bytes_fits w n h = ground arith

-- Where the varint of a number stands, it is read, and the offset moves behind it.
abbrev pub VarintReads : ℕ → Bytes → Type 0
VarintReads n part =
    (raw : Bytes) (offset : ℕ) (rest : Bytes)
    → drop offset raw ≡ part ++ rest
    → decode_registry_varint raw offset ≡ ok (n, offset + length part)

varint_reads :
    (n first : ℕ) (bytes : Bytes)
    → ((raw : Bytes) (offset : ℕ) (rest : Bytes)
        → drop (offset + 1) raw ≡ bytes ++ rest
        → wide_varint raw offset first ≡ ok (n, offset + suc (length bytes)))
    → VarintReads n (first ∷ bytes)
unfolding decode_registry_varint
varint_reads n first bytes reads raw offset rest here =
    let some_left : leb (length raw) offset ≡ false =
      ground (arith, length_here raw offset (first ∷ bytes) rest here) in
    rw (some_left, byte_at_here raw offset first (bytes ++ rest) here)
      (reads raw offset rest
        (move raw offset (offset + 1) 1 (first ∷ []) (bytes ++ rest) here refl refl))

wide_reads :
    (w n first : ℕ) (raw : Bytes) (offset : ℕ) (rest : Bytes)
    → n < 256 ^ w
    → drop (offset + 1) raw ≡ to_le w n ++ rest
    → from_le (slice raw (offset + 1) w) ≡ n
wide_reads w n first raw offset rest small here =
    ap from_le (slice_at raw (offset + 1) w (to_le w n) rest here (length-to_le w n))
    ∙ from_le-to_le w n small

-- The varint of a number below 2 ^ 64, with what reads it.
abbrev pub Varint : ℕ → Type 0
Varint n = (part : Bytes) × (encode_varint n ≡ ok part) × VarintReads n part

pub varint : (n : ℕ) → n < 256 ^ 8 → Varint n
unfolding encode_varint wide_varint
varint n small = elim (Bool-cases (ltb n 0xFD)) [
  | inl byte ↦ (n ∷ [], rw byte refl, varint_reads n n [] (λ raw offset rest here. rw byte refl))
  | inr wide ↦ elim (Bool-cases (leb n 0xFFFF)) [
    | inl two ↦
        let fits : n < 256 ^ 2 = ground (arith, two) in
        (
          0xFD ∷ to_le 2 n,
          rw (wide, two, to_bytes_fits 2 n fits) refl,
          varint_reads n 0xFD (to_le 2 n) (λ raw offset rest here.
              rw (wide_reads 2 n 0xFD raw offset rest fits here, length-to_le 2 n) refl),
        )
    | inr more ↦ elim (Bool-cases (leb n 0xFFFFFFFF)) [
      | inl four ↦
          let fits : n < 256 ^ 4 = ground (arith, four) in
          (
            0xFE ∷ to_le 4 n,
            rw (wide, more, four, to_bytes_fits 4 n fits) refl,
            varint_reads n 0xFE (to_le 4 n) (λ raw offset rest here.
                rw (wide_reads 4 n 0xFE raw offset rest fits here, length-to_le 4 n) refl),
          )
      | inr most ↦
          let fits : leb n 0xFFFFFFFFFFFFFFFF ≡ true = ground (arith, small) in
          (
            0xFF ∷ to_le 8 n,
            rw (wide, more, most, fits, to_bytes_fits 8 n small) refl,
            varint_reads n 0xFF (to_le 8 n) (λ raw offset rest here.
                rw (wide_reads 8 n 0xFF raw offset rest small here, length-to_le 8 n) refl),
          )
    ]
  ]
]

varint_inside :
    (raw : Bytes) (offset : ℕ) {x : ℕ × ℕ}
    → decode_registry_varint raw offset ≡ ok x
    → offset < length raw
unfolding decode_registry_varint
varint_inside raw offset e = elim (Bool-cases (leb (length raw) offset)) [
  | inl past ↦ ground (arith, past, e)
  | inr inside ↦ ground (arith, inside)
]

module _ (decode_utf8 : Bytes → Result Str)
    (decodes : (s : Str) → is_encodable s ≡ true → decode_utf8 (utf8 s) ≡ ok s) where
  -- Where a text with its length stands, it is read.
  abbrev pub TextReads : Str → Bytes → Type 0
  TextReads s part =
      (raw : Bytes) (offset : ℕ) (rest : Bytes)
      → drop offset raw ≡ part ++ rest
      → decode_str_at decode_utf8 raw offset ≡ ok (s, offset + length part)

  abbrev pub Text : Str → Type 0
  Text s = (part : Bytes) × (encode_str s ≡ ok part) × TextReads s part

  pub name_here : (s : Str) → is_encodable s ≡ true → length (utf8 s) < 256 ^ 8 → Text s
  unfolding encode_str decode_str_at decode_bytes_at
  name_here s encodable small =
      let body = utf8 s in
      let (size, written, reads) = varint (length body) small in
      (
        size ++ body,
        rw written refl,
        λ raw offset rest here.
            let split : drop offset raw ≡ size ++ (body ++ rest) =
              here ∙ append_assoc size body rest in
            let behind : drop (offset + length size) raw ≡ body ++ rest =
              move raw offset (offset + length size) (length size) size (body ++ rest) split refl
                refl in
            let room : ltb (length raw) (offset + length size + length body) ≡ false = ground (
              arith,
              length_here raw offset (size ++ body) rest here,
              length-append size body,
              varint_inside raw offset (reads raw offset (body ++ rest) split),
            ) in
            let sum : offset + length size + length body ≡ offset + length (size ++ body) =
              omega (arith, length-append size body) in
            rw
              (
                reads raw offset (body ++ rest) split,
                room,
                slice_at raw (offset + length size) (length body) body rest behind refl,
                decodes s encodable,
                sum,
              )
              refl,
      )

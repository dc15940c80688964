-- ===== src/Stdlib.antt =====
-- What the code uses of Python's standard library: `struct.pack` and `int.to_bytes`, their
-- inverses, `bytes.hex`, `bytes.fromhex`, `str.encode` and slices.
pub mod Integers
pub mod Hex
use mathlib.Core.List.{reverse}
use chain_breaker.Base.{
  ℕ, zero, suc, ◌+◌, ◌-◌, ◌*◌, ◌/◌, ◌%◌, ◌^◌, Bool, true, false, ◌&&◌, ◌||◌, Option, none, some,
  List, [], ◌∷◌, ◌++◌, Bytes, Str, take, drop, replicate, Result, ok, raise, Exn, ltb, leb, ◌==◌,
  if◌then◌else◌, struct_error,
}

-- `n.to_bytes(width, "little")` for an `n` that fits
unfoldable pub to_le : ℕ → ℕ → Bytes
to_le zero n = []
to_le (suc width) n = n % 256 ∷ to_le width (n / 256)

-- `int.from_bytes(data, "little")`
unfoldable pub from_le : Bytes → ℕ
from_le [] = 0
from_le (b ∷ bs) = b + 256 * from_le bs

-- `struct.pack("<B" | "<H" | "<I" | "<Q", n)`, by the width in bytes
unfoldable pub pack : ℕ → ℕ → Result Bytes
unfolding to_le
pack width n = if ltb n (256 ^ width) then ok (to_le width n) else raise struct_error

-- `int.from_bytes(data, "big")`
unfoldable pub from_be : Bytes → ℕ
from_be bs = from_le (reverse bs)

-- `struct.pack(">B" | ">H" | ">I", n)`, by the width in bytes
unfoldable pub pack_be : ℕ → ℕ → Result Bytes
pack_be width n = if ltb n (256 ^ width) then ok (reverse (to_le width n)) else raise struct_error

-- `data[offset : offset + length]`
abbrev pub slice : Bytes → ℕ → ℕ → Bytes
slice bs offset size = take size (drop offset bs)

-- the digit of a number below 16
unfoldable pub digit : ℕ → ℕ
digit n = if ltb n 10 then 48 + n else 87 + n

-- `data.hex()`
unfoldable pub hex : Bytes → Str
unfolding digit
hex [] = []
hex (b ∷ bs) = digit (b / 16) ∷ digit (b % 16) ∷ hex bs

unfoldable pub digit_value : ℕ → Option ℕ
digit_value c =
    if leb 48 c && leb c 57
    then some (c - 48)
    else if leb 97 c && leb c 102
    then some (c - 87)
    else if leb 65 c && leb c 70
    then some (c - 55)
    else none

is_space : ℕ → Bool
is_space c = c == 32 || (leb 9 c && leb c 13)

-- two digits and the bytes after them
unfoldable pub add_byte : Option ℕ → Option ℕ → Option Bytes → Option Bytes
add_byte (some high) (some low) (some rest) = some ((16 * high + low) ∷ rest)
add_byte _ _ _ = none

-- `bytes.fromhex(text)`, with `none` for its `ValueError`; white space may stand between bytes
unfoldable pub unhex : Str → Option Bytes
unfolding digit_value is_space add_byte
unhex [] = some []
unhex (c ∷ []) = if is_space c then some [] else none
unhex (c ∷ d ∷ rest) =
    let skipped = unhex (d ∷ rest) in
    let taken = add_byte (digit_value c) (digit_value d) (unhex rest) in
    if is_space c then skipped else taken

-- The UTF-8 bytes of one code point.
unfoldable pub encode_char : ℕ → Bytes
encode_char c =
    if ltb c 128
    then c ∷ []
    else if ltb c 2048
    then (192 + c / 64) ∷ (128 + c % 64) ∷ []
    else if ltb c 65536
    then (224 + c / 4096) ∷ (128 + c / 64 % 64) ∷ (128 + c % 64) ∷ []
    else (240 + c / 262144) ∷ (128 + c / 4096 % 64) ∷ (128 + c / 64 % 64) ∷ (128 + c % 64) ∷ []

-- Whether a number is a code point that UTF-8 encodes: at most 0x10FFFF and no surrogate.
unfoldable pub is_scalar : ℕ → Bool
is_scalar c = ltb c 0xD800 || (leb 0xE000 c && ltb c 0x110000)

-- whether `text.encode("utf-8")` succeeds
unfoldable pub is_encodable : Str → Bool
unfolding is_scalar
is_encodable [] = true
is_encodable (c ∷ cs) = is_scalar c && is_encodable cs

-- `text.encode("utf-8")`, of a text that `is_encodable`
unfoldable pub utf8 : Str → Bytes
unfolding encode_char
utf8 [] = []
utf8 (c ∷ cs) = encode_char c ++ utf8 cs

-- `"0" * 64`
abbrev pub zero_hash : Str
zero_hash = hex (replicate 32 0)

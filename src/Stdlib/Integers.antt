-- ===== src/Stdlib/Integers.antt =====
-- Little-endian integers, `int.to_bytes` and `int.from_bytes`.
use native.Mathlib.Nat.{pow-suc}
use mathlib.Core.List.{reverse, reverse-cons, reverse-reverse}
use chain_breaker.Base.{
  List, length-append, ◌∙◌, ℕ, zero, suc, ◌+◌, ◌*◌, ◌/◌, ◌%◌, ◌^◌, ◌<◌, ◌≡◌, refl, ap, [], ◌∷◌,
  Bytes, IsBytes, length, arith, ok,
}
use chain_breaker.Stdlib.{to_le, from_le, pack, from_be, pack_be}

pub length-to_le : (width n : ℕ) → length (to_le width n) ≡ width
unfolding to_le
length-to_le zero n = refl
length-to_le (suc width) n = ap suc (length-to_le width (n / 256))

pub to_le-IsBytes : (width n : ℕ) → IsBytes (to_le width n)
unfolding to_le
to_le-IsBytes zero n = tt
to_le-IsBytes (suc width) n = (omega arith, to_le-IsBytes width (n / 256))

pub from_le-to_le : (width n : ℕ) → n < 256 ^ width → from_le (to_le width n) ≡ n
unfolding to_le from_le
from_le-to_le zero n h = omega arith
from_le-to_le (suc width) n h =
    omega (arith, from_le-to_le width (n / 256) (omega (arith, pow-suc 256 width)))

pub from_le-lt : (bs : Bytes) → IsBytes bs → from_le bs < 256 ^ length bs
unfolding from_le
from_le-lt [] h = omega arith
from_le-lt (b ∷ bs) h = omega (arith, from_le-lt bs h.1, pow-suc 256 (length bs))

pub to_le-from_le : (bs : Bytes) → IsBytes bs → to_le (length bs) (from_le bs) ≡ bs
unfolding to_le from_le
to_le-from_le [] h = refl
to_le-from_le (b ∷ bs) h =
    let low : (b + 256 * from_le bs) % 256 ≡ b = omega (arith, h.0) in
    let high : (b + 256 * from_le bs) / 256 ≡ from_le bs = omega (arith, h.0) in
    rw (low, high, to_le-from_le bs h.1)

pub pack_fits : (w n : ℕ) → n < 256 ^ w → pack w n ≡ ok (to_le w n)
unfolding pack
pack_fits w n h = ground arith

pub length-reverse {ℓ} : {A : Type ℓ} (xs : List A) → length (reverse xs) ≡ length xs
length-reverse [] = refl
length-reverse (x ∷ xs) =
    ap length (reverse-cons x xs)
    ∙ length-append (reverse xs) (x ∷ [])
    ∙ omega (arith, length-reverse xs)

pub pack_be_fits :
    (w n : ℕ)
    → n < 256 ^ w
    → (bs : Bytes) × (pack_be w n ≡ ok bs) × (length bs ≡ w) × (from_be bs ≡ n)
unfolding pack_be from_be
pack_be_fits w n h = (
  reverse (to_le w n),
  ground arith,
  length-reverse (to_le w n) ∙ length-to_le w n,
  ap from_le (reverse-reverse (to_le w n)) ∙ from_le-to_le w n h,
)

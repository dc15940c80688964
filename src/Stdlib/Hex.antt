-- ===== src/Stdlib/Hex.antt =====
-- Hexadecimal text, `bytes.hex` and `bytes.fromhex`.
use chain_breaker.Base.{ℕ, ◌+◌, ◌*◌, ◌/◌, ◌%◌, ◌≡◌, ◌<◌, refl, some, [], ◌∷◌, Bytes, IsBytes, arith}
use chain_breaker.Stdlib.{hex, unhex, digit, digit_value}

digit_value-digit : (n : ℕ) → n < 16 → digit_value (digit n) ≡ some n
unfolding digit digit_value
digit_value-digit n h = ground arith

digit-lt : (n : ℕ) → n < 16 → (47 < digit n) × (digit n < 128)
unfolding digit
digit-lt n h = ground arith

pub unhex-hex : (bs : Bytes) → IsBytes bs → unhex (hex bs) ≡ some bs
unfolding hex unhex
unhex-hex [] h = refl
unhex-hex (b ∷ bs) h =
    let high : b / 16 < 16 = omega (arith, h.0) in
    let low : b % 16 < 16 = omega arith in
    let joined : 16 * (b / 16) + b % 16 ≡ b = omega arith in
    let seen = digit-lt (b / 16) high in
    rw (digit_value-digit (b / 16) high, digit_value-digit (b % 16) low, unhex-hex bs h.1, unhex)
      (ground (arith, joined))

-- ===== src/Codec/Reading.antt =====
-- Reads at an offset, by what stands there.
use mathlib.Core.Path.{subst}
use chain_breaker.Base.{
  ℕ, ◌+◌, ◌-◌, ◌<◌, ◌≡◌, refl, sym, ap, ◌∙◌, ◌∷◌, ◌++◌, Bytes, length, take, drop, length-append,
  length-drop, take_append, drop_append, drop-add, get_elem?-drop, ok, arith,
}
use chain_breaker.Stdlib.{from_le, slice, hex}
use chain_breaker.Codec.{need, byte_at, read_number, read_hash, decode_hash}

module _ (bs : Bytes) (offset : ℕ) (part rest : Bytes) (here : drop offset bs ≡ part ++ rest) where
  pub length_here : length bs - offset ≡ length part + length rest
  length_here = sym (length-drop offset bs) ∙ ap length here ∙ length-append part rest

  pub need_here : 0 < length part → need bs offset (length part) ≡ ok tt
  unfolding need
  need_here h = ground (arith, length_here)

  pub slice_here : slice bs offset (length part) ≡ part
  slice_here = ap (take (length part)) here ∙ take_append part rest

  pub drop_here : drop (offset + length part) bs ≡ rest
  drop_here =
      drop-add offset (length part) bs ∙ ap (drop (length part)) here ∙ drop_append part rest

  pub read_number_here : 0 < length part → read_number (length part) bs offset ≡ ok (from_le part)
  unfolding read_number
  read_number_here h = rw (need_here h, slice_here)

  pub read_hash_here : length part ≡ 32 → read_hash bs offset ≡ ok (hex part)
  unfolding read_hash decode_hash
  read_hash_here h = rw (← h) (rw (need_here (omega arith), slice_here, h) refl)

pub byte_at_here :
    (bs : Bytes) (offset : ℕ) (b : ℕ) (rest : Bytes)
    → drop offset bs ≡ b ∷ rest
    → byte_at bs offset ≡ ok b
unfolding byte_at
byte_at_here bs offset b rest here = rw (get_elem?-drop offset bs here, byte_at)

-- the offset behind a part of known length
pub move :
    (bs : Bytes) (a b w : ℕ) (part rest : Bytes)
    → drop a bs ≡ part ++ rest
    → length part ≡ w
    → a + w ≡ b
    → drop b bs ≡ rest
move bs a b w part rest here size sum =
    subst (λ k. drop k bs ≡ rest) (ap (◌+◌ a) size ∙ sum) (drop_here bs a part rest here)

pub number :
    (bs : Bytes) (a w : ℕ) (part rest : Bytes)
    → drop a bs ≡ part ++ rest
    → length part ≡ w
    → 0 < w
    → read_number w bs a ≡ ok (from_le part)
number bs a w part rest here size pos =
    subst (λ k. read_number k bs a ≡ ok (from_le part)) size
      (read_number_here bs a part rest here (omega (arith, size)))

-- a slice of known length, by what stands at the offset
pub slice_at :
    (bs : Bytes) (a w : ℕ) (part rest : Bytes)
    → drop a bs ≡ part ++ rest
    → length part ≡ w
    → slice bs a w ≡ part
slice_at bs a w part rest here size =
    subst (λ k. slice bs a k ≡ part) size (slice_here bs a part rest here)

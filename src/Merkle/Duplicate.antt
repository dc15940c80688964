-- ===== src/Merkle/Duplicate.antt =====
-- The root of an odd number of leaves, whose last is doubled by `MerkleTree` of
-- chainbreaker/crypto.py.
use chain_breaker.Base.{
  ℕ, zero, suc, ◌+◌, ◌%◌, ◌≤◌, ◌<◌, ◌≡◌, refl, sym, ap, ◌∙◌, List, [], ◌∷◌, ◌++◌, Bytes, length,
  length-append, arith,
}
use chain_breaker.Merkle.{next_level, build_from, levels, top, root, double_sha256}
use chain_breaker.Merkle.Proofs.{length-next_level-lt, length-next_level-pos, above}

module _ (sha256 : Bytes → Bytes) where
  next_level_doubled :
      (l : List Bytes) (c : Bytes)
      → length l % 2 ≡ 0
      → next_level sha256 (l ++ (c ∷ c ∷ [])) ≡ next_level sha256 (l ++ (c ∷ []))
  unfolding next_level
  next_level_doubled [] c h = refl
  next_level_doubled (a ∷ []) c h = absurd (omega arith)
  next_level_doubled (a ∷ b ∷ l) c h =
      ap (◌∷◌ (double_sha256 sha256 (a ++ b))) (next_level_doubled l c (omega arith))

  -- More fuel than nodes changes nothing.
  build_from_fuel :
      (f g : ℕ) (l : List Bytes)
      → length l ≤ suc f
      → f ≤ g
      → 0 < length l
      → build_from sha256 f l ≡ build_from sha256 g l
  unfolding build_from
  build_from_fuel f g [] h k p = elim p [ ]
  build_from_fuel zero zero (a ∷ l) h k p = refl
  build_from_fuel zero (suc g) (a ∷ []) h k p = ground arith
  build_from_fuel zero (suc g) (a ∷ b ∷ l) h k p = absurd (omega arith)
  build_from_fuel (suc f) zero (a ∷ l) h k p = absurd (omega arith)
  build_from_fuel (suc f) (suc g) (a ∷ []) h k p = ground arith
  build_from_fuel (suc f) (suc g) (a ∷ b ∷ l) h k p =
      let cur = a ∷ b ∷ l in
      let small = length-next_level-lt sha256 cur (omega arith) in
      let pos = length-next_level-pos sha256 cur (omega arith) in
      ground (arith, build_from_fuel f g (next_level sha256 cur) (omega arith) (omega arith) pos)

  top-levels :
      (l : List Bytes)
      → 1 < length l
      → top (levels sha256 l) ≡ top (build_from sha256 (length l) (next_level sha256 l))
  unfolding levels build_from
  top-levels [] h = absurd (omega arith)
  top-levels (a ∷ []) h = absurd (omega arith)
  top-levels (a ∷ b ∷ l) h =
      let cur = a ∷ b ∷ l in
      let small = length-next_level-lt sha256 cur h in
      let pos = length-next_level-pos sha256 cur (omega arith) in
      let (_, same) = above sha256 cur (suc (length l)) (next_level sha256 cur) 0 in
      let below : levels sha256 cur
          ≡ cur ∷ build_from sha256 (suc (length l)) (next_level sha256 cur) =
        ground arith in
      ap top below
      ∙ same
      ∙ ap top (
          build_from_fuel (suc (length l)) (length cur) (next_level sha256 cur) (omega arith)
            (omega arith) pos)

  -- Appending a copy of the last leaf to an odd number of leaves, more than one, keeps the root.
  pub root_doubled :
      (l : List Bytes) (c : Bytes)
      → length l % 2 ≡ 0
      → 0 < length l
      → root sha256 (l ++ (c ∷ c ∷ [])) ≡ root sha256 (l ++ (c ∷ []))
  unfolding root
  root_doubled l c even pos =
      let two = l ++ (c ∷ c ∷ []) in
      let one = l ++ (c ∷ []) in
      let n2 : length two ≡ length l + 2 = length-append l (c ∷ c ∷ []) in
      let n1 : length one ≡ length l + 1 = length-append l (c ∷ []) in
      let up = next_level sha256 one in
      let small = length-next_level-lt sha256 one (omega arith) in
      let some_up = length-next_level-pos sha256 one (omega arith) in
      top-levels two (omega arith)
      ∙ ap (λ u. top (build_from sha256 (length two) u)) (next_level_doubled l c even)
      ∙ sym (
          ap top (build_from_fuel (length one) (length two) up (omega arith) (omega arith) some_up))
      ∙ sym (top-levels one (omega arith))

-- ===== src/Reorg/Ancestor.antt =====
-- The search for the common ancestor of two chains in chainbreaker/reorg.py.
use std.Path.{subst}
use chain_breaker.Base.{
  ℕ, zero, suc, ◌-◌, ◌≤◌, ◌<◌, ◌≡◌, false, List, [], ◌∷◌, Str, str_eq, eq_of_bytes_eq, Result, ok,
  ◌>>=◌, >>=-eq-ok, Bool-cases, inl, inr, length, min, arith, sym, ◌⊎◌,
}
use chain_breaker.Block.{BlockV2, block_hash}
use chain_breaker.Platform.{Platform}
use chain_breaker.Retarget.{block_at}
use chain_breaker.Reorg.{walk_back, find_common_ancestor}

module _ (p : Platform) where
  -- the hash of the block at a height
  unfoldable pub hash_at : List BlockV2 → ℕ → Result Str
  hash_at chain h = block_at chain h >>= λ b. block_hash p.sha256 b

  -- Both chains have one block hash at the height.
  abbrev pub Agree : List BlockV2 → List BlockV2 → ℕ → Type 0
  Agree xs ys h = (s : Str) × (hash_at xs h ≡ ok s) × (hash_at ys h ≡ ok s)

  -- Both chains have a block at the height, of different hashes.
  abbrev pub Differ : List BlockV2 → List BlockV2 → ℕ → Type 0
  Differ xs ys h =
      (s : Str) × (t : Str) × (hash_at xs h ≡ ok s) × (hash_at ys h ≡ ok t) × (str_eq s t ≡ false)

  le-cases : (i h : ℕ) → i ≤ suc h → (i ≤ h) ⊎ (i ≡ suc h)
  le-cases i h le = omega arith

  walk_back_lem :
      (xs ys : List BlockV2) (h c : ℕ)
      → Agree xs ys 0
      → walk_back p xs ys h ≡ ok c
      → (c ≤ h) × Agree xs ys c × ((i : ℕ) → c < i → i ≤ h → Differ xs ys i)
  unfolding walk_back hash_at
  walk_back_lem xs ys zero c base e =
      let (a, ea, e1) = >>=-eq-ok (block_at xs 0) _ e in
      let (b, eb, e2) = >>=-eq-ok (block_at ys 0) _ e1 in
      let (x, ex, e3) = >>=-eq-ok (block_hash p.sha256 a) _ e2 in
      let (y, ey, e4) = >>=-eq-ok (block_hash p.sha256 b) _ e3 in
      let found : 0 ≡ c = cc in
      (omega arith, subst (λ i. Agree xs ys i) found base, λ i lt le. absurd (omega arith))
  walk_back_lem xs ys (suc h) c base e =
      let (a, ea, e1) = >>=-eq-ok (block_at xs (suc h)) _ e in
      let (b, eb, e2) = >>=-eq-ok (block_at ys (suc h)) _ e1 in
      let (x, ex, e3) = >>=-eq-ok (block_hash p.sha256 a) _ e2 in
      let (y, ey, e4) = >>=-eq-ok (block_hash p.sha256 b) _ e3 in
      elim (Bool-cases (str_eq x y)) [
        | inl same ↦
            let found : suc h ≡ c = cc in
            let equal : x ≡ y = eq_of_bytes_eq x y same in
            (
              omega arith,
              subst (λ i. Agree xs ys i) found (x, rw ea ex, rw (eb, equal) ey),
              λ i lt le. absurd (omega arith),
            )
        | inr other ↦
            let (low, agree, above) = walk_back_lem xs ys h c base (rw other at e4) in
            (
              omega arith,
              agree,
              λ i lt le. elim (le-cases i h le) [
                | inl small ↦ above i lt small
                | inr top ↦ subst (λ j. Differ xs ys j) (sym top) (x, y, rw ea ex, rw eb ey, other)
              ],
            )
      ]

  -- The height that the search returns is one where both chains have the same block hash, at most
  -- the tip height of the shorter chain, and at every compared height above it the hashes differ.
  pub find_common_ancestor_lem :
      (current candidate : List BlockV2) (c : ℕ)
      → find_common_ancestor p current candidate ≡ ok c
      → (c ≤ min (length current) (length candidate) - 1)
        × Agree current candidate c
        × ((i : ℕ)
            → c < i
            → i ≤ min (length current) (length candidate) - 1
            → Differ current candidate i)
  unfolding find_common_ancestor hash_at block_at
  find_common_ancestor_lem [] candidate c e = cc
  find_common_ancestor_lem (a ∷ current) [] c e = cc
  find_common_ancestor_lem (a ∷ current) (b ∷ candidate) c e =
      let (x, ex, e1) = >>=-eq-ok (block_hash p.sha256 a) _ e in
      let (y, ey, e2) = >>=-eq-ok (block_hash p.sha256 b) _ e1 in
      elim (Bool-cases (str_eq x y)) [
        | inl same ↦
            let equal : x ≡ y = eq_of_bytes_eq x y same in
            walk_back_lem (a ∷ current) (b ∷ candidate)
              (min (length (a ∷ current)) (length (b ∷ candidate)) - 1) c (x, ex, rw equal ey)
              (rw same at e2)
        | inr other ↦ absurd (ground (arith, rw other at e2))
      ]

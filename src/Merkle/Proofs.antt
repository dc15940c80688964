-- ===== src/Merkle/Proofs.antt =====
-- The proofs that `MerkleTree.get_proof` of chainbreaker/crypto.py makes, at every level of the
-- tree.
use chain_breaker.Base.{
  ℕ, zero, suc, ◌+◌, ◌-◌, ◌/◌, ◌%◌, ◌≤◌, ◌<◌, ◌≡◌, ◌⊎◌, refl, ◌∙◌, true, inl, inr, some, List, [],
  ◌∷◌, ◌++◌, Bytes, bytes_eq_self, length, get_elem?, get_elem?-some, arith, ◌==◌, if◌then◌else◌,
}
use chain_breaker.Merkle.{
  double_sha256, next_level, build_from, levels, top, root, proof_item, proof_from, get_proof,
  climb, verify_proof, prepend,
}

shift_even :
    (a b : Bytes) (l : List Bytes) (i : ℕ)
    → i % 2 ≡ 0
    → proof_item (a ∷ b ∷ l) (suc (suc i)) ≡ proof_item l i
unfolding proof_item
shift_even a b l i even =
    let p : suc (suc i) % 2 ≡ 0 = omega arith in
    let q : suc (suc i) + 1 ≡ suc (suc (i + 1)) = omega arith in rw (p, even, q) (ground arith)

shift_odd :
    (a b : Bytes) (l : List Bytes) (i : ℕ)
    → i % 2 ≡ 1
    → proof_item (a ∷ b ∷ l) (suc (suc i)) ≡ proof_item l i
unfolding proof_item
shift_odd a b l i odd =
    let p : suc (suc i) % 2 ≡ 1 = omega arith in
    let q : suc (suc i) - 1 ≡ suc (suc (i - 1)) = omega arith in rw (p, odd, q) (ground arith)

parity : (i : ℕ) → (i % 2 ≡ 0) ⊎ (i % 2 ≡ 1)
parity i = omega arith

shift :
    (a b : Bytes) (l : List Bytes) (i : ℕ) → proof_item (a ∷ b ∷ l) (suc (suc i)) ≡ proof_item l i
shift a b l i = elim (parity i) [
  | inl even ↦ shift_even a b l i even
  | inr odd ↦ shift_odd a b l i odd
]

module _ (sha256 : Bytes → Bytes) where
  -- The hash of a node and its sibling, in the order that the index gives.
  abbrev pub join : ℕ → Bytes → Bytes → Bytes
  join index a b =
      if index % 2 == 0 then double_sha256 sha256 (a ++ b) else double_sha256 sha256 (b ++ a)

  pub length-next_level-lt :
      (l : List Bytes) → 1 < length l → length (next_level sha256 l) < length l
  unfolding next_level
  length-next_level-lt [] h = absurd (omega arith)
  length-next_level-lt (a ∷ []) h = absurd (omega arith)
  length-next_level-lt (a ∷ b ∷ []) h = omega arith
  length-next_level-lt (a ∷ b ∷ c ∷ []) h = omega arith
  length-next_level-lt (a ∷ b ∷ c ∷ d ∷ l) h =
      omega (arith, length-next_level-lt (c ∷ d ∷ l) (omega arith))

  pub length-next_level-pos : (l : List Bytes) → 0 < length l → 0 < length (next_level sha256 l)
  unfolding next_level
  length-next_level-pos [] h = h
  length-next_level-pos (a ∷ []) h = omega arith
  length-next_level-pos (a ∷ b ∷ l) h = omega arith

  -- One level: the sibling exists, and the parent is the hash of the pair.
  pub proof_item_lem :
      (l : List Bytes) (i : ℕ) (leaf : Bytes)
      → get_elem? l i ≡ some leaf
      → (s : Bytes) × (proof_item l i ≡ some s)
        × (get_elem? (next_level sha256 l) (i / 2) ≡ some (join i leaf s))
  unfolding next_level proof_item
  proof_item_lem [] i leaf h = cc
  proof_item_lem (a ∷ []) zero leaf h = (a, ground arith, ground arith)
  proof_item_lem (a ∷ []) (suc i) leaf h = cc
  proof_item_lem (a ∷ b ∷ l) zero leaf h = (b, ground arith, ground arith)
  proof_item_lem (a ∷ b ∷ l) (suc zero) leaf h = (a, ground arith, ground arith)
  proof_item_lem (a ∷ b ∷ l) (suc (suc i)) leaf h =
      let (s, p, q) = proof_item_lem l i leaf h in
      let half : suc (suc i) / 2 ≡ suc (i / 2) = omega arith in
      let rest : suc (suc i) % 2 ≡ i % 2 = omega arith in (s, shift a b l i ∙ p, rw (half, rest) q)

  pub above :
      (l : List Bytes) (fuel : ℕ) (l' : List Bytes) (i : ℕ)
      → let up = build_from sha256 fuel l' in
        (proof_from i (l ∷ up) ≡ prepend (proof_item l i) (proof_from (i / 2) up))
        × (top (l ∷ up) ≡ top up)
  unfolding build_from proof_from top
  above l zero l' i = (refl, refl)
  above l (suc fuel) l' i = ground arith

  -- With enough fuel the last level is a single node, the root, and the proof leads up to it.
  pub build_from_lem :
      (fuel : ℕ) (l : List Bytes) (i : ℕ) (leaf : Bytes)
      → length l ≤ suc fuel
      → get_elem? l i ≡ some leaf
      → (proof : List Bytes) × (r : Bytes) × (proof_from i (build_from sha256 fuel l) ≡ some proof)
        × (top (build_from sha256 fuel l) ≡ some r)
        × (climb sha256 leaf proof i ≡ r)
  unfolding build_from proof_from top climb
  build_from_lem fuel [] i leaf h e = cc
  build_from_lem zero (a ∷ []) zero leaf h e = ([], a, refl, refl, ground arith)
  build_from_lem (suc fuel) (a ∷ []) zero leaf h e =
      ([], a, ground arith, ground arith, ground arith)
  build_from_lem fuel (a ∷ []) (suc i) leaf h e = cc
  build_from_lem zero (a ∷ b ∷ l) i leaf h e = absurd (omega arith)
  build_from_lem (suc fuel) (a ∷ b ∷ l) i leaf h e =
      let cur = a ∷ b ∷ l in
      let up = next_level sha256 cur in
      let (s, item, parent) = proof_item_lem cur i leaf e in
      let small = length-next_level-lt cur (omega arith) in
      let (rest, r, p, t, c) =
        build_from_lem fuel up (i / 2) (join i leaf s) (omega arith) parent in
      let (q, w) = above cur fuel up i in (s ∷ rest, r, ground arith, ground arith, c)

  -- Every leaf of a tree has a proof, the tree has a root, and `verify_proof` accepts the three.
  pub verify_proof-get_proof :
      (leaves : List Bytes) (i : ℕ)
      → i < length leaves
      → (leaf : Bytes) × (proof : List Bytes) × (r : Bytes) × (get_elem? leaves i ≡ some leaf)
        × (get_proof sha256 leaves i ≡ some proof)
        × (root sha256 leaves ≡ some r)
        × (verify_proof sha256 r leaf proof i ≡ true)
  unfolding get_proof root levels verify_proof
  verify_proof-get_proof [] i h = elim h [ ]
  verify_proof-get_proof (a ∷ l) i h =
      let (leaf, e) = get_elem?-some (a ∷ l) i h in
      let (proof, r, p, t, c) = build_from_lem (length (a ∷ l)) (a ∷ l) i leaf (omega arith) e in
      (leaf, proof, r, e, p, t, rw c (bytes_eq_self r))

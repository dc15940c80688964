-- ===== src/Merkle/Binding.antt =====
-- Accepted proofs of `MerkleTree.verify_proof` of chainbreaker/crypto.py, and collisions of the
-- hash.
use chain_breaker.Base.{
  ℕ, zero, suc, ◌/◌, ◌%◌, ◌≤◌, ◌≡◌, ◌≢◌, ◌⊎◌, sym, ap, ◌∙◌, true, inl, inr, some, List, [], ◌∷◌,
  ◌++◌, Bytes, bytes_eq-cases, eq_of_bytes_eq, length, length-append, take, drop, take_append,
  drop_append, get_elem?, arith, Bool-cases, ◌==◌,
}
use chain_breaker.Merkle.{
  double_sha256, next_level, build_from, levels, top, root, climb, verify_proof,
}
use chain_breaker.Merkle.Proofs.{join, proof_item_lem, length-next_level-lt, above}

append_left_eq : (a b s t : Bytes) → length a ≡ length b → a ++ s ≡ b ++ t → a ≡ b
append_left_eq a b s t h e =
    sym (take_append a s) ∙ ap (take (length a)) e ∙ ap (λ n. take n (b ++ t)) h ∙ take_append b t

append_right_eq : (a b s t : Bytes) → length a ≡ length b → s ++ a ≡ t ++ b → a ≡ b
append_right_eq a b s t h e =
    let n : length s ≡ length t =
      omega (arith, length-append s a, length-append t b, ap length e) in
    sym (drop_append s a) ∙ ap (drop (length s)) e ∙ ap (λ n. drop n (t ++ b)) n ∙ drop_append t b

-- A leaf or node is a digest: 32 bytes.
abbrev pub AreDigests : List Bytes → Type 0
AreDigests [] = Unit
AreDigests (b ∷ l) = (length b ≡ 32) × AreDigests l

AreDigests-get_elem? :
    (l : List Bytes) (i : ℕ) {b : Bytes} → AreDigests l → get_elem? l i ≡ some b → length b ≡ 32
AreDigests-get_elem? [] i h e = cc
AreDigests-get_elem? (a ∷ l) zero h e = ground arith
AreDigests-get_elem? (a ∷ l) (suc i) h e = AreDigests-get_elem? l i h.1 e

module _ (sha256 : Bytes → Bytes) where
  -- Two different inputs with the same double SHA-256.
  abbrev pub Collision : Type 0
  Collision =
      (x : Bytes) × (y : Bytes) × (x ≢ y) × (double_sha256 sha256 x ≡ double_sha256 sha256 y)

  join_eq :
      (i : ℕ) (a b s t : Bytes)
      → length a ≡ length b
      → join sha256 i a s ≡ join sha256 i b t
      → (a ≡ b) ⊎ Collision
  join_eq i a b s t h e = elim (Bool-cases (i % 2 == 0)) [
    | inl even ↦
        let e' : double_sha256 sha256 (a ++ s) ≡ double_sha256 sha256 (b ++ t) = rw even at e in
        elim (bytes_eq-cases (a ++ s) (b ++ t)) [
          | inl same ↦ inl (append_left_eq a b s t h same)
          | inr differ ↦ inr (a ++ s, b ++ t, differ, e')
        ]
    | inr odd ↦
        let e' : double_sha256 sha256 (s ++ a) ≡ double_sha256 sha256 (t ++ b) = rw odd at e in
        elim (bytes_eq-cases (s ++ a) (t ++ b)) [
          | inl same ↦ inl (append_right_eq a b s t h same)
          | inr differ ↦ inr (s ++ a, t ++ b, differ, e')
        ]
  ]

  build_from_nonempty : (fuel : ℕ) (l : List Bytes) → 1 ≤ length (build_from sha256 fuel l)
  unfolding build_from
  build_from_nonempty zero l = omega arith
  build_from_nonempty (suc fuel) l = ground arith

  module _ (digest : (b : Bytes) → length (sha256 b) ≡ 32) where
    length-join : (i : ℕ) (a s : Bytes) → length (join sha256 i a s) ≡ 32
    unfolding double_sha256
    length-join i a s = elim (Bool-cases (i % 2 == 0)) [
      | inl even ↦ rw even (digest _)
      | inr odd ↦ rw odd (digest _)
    ]

    AreDigests-next_level : (l : List Bytes) → AreDigests (next_level sha256 l)
    unfolding next_level double_sha256
    AreDigests-next_level [] = tt
    AreDigests-next_level (a ∷ []) = (digest _, tt)
    AreDigests-next_level (a ∷ b ∷ l) = (digest _, AreDigests-next_level l)

    build_from_binding :
        (fuel : ℕ) (l : List Bytes) (i : ℕ) (leaf leaf' : Bytes) (proof : List Bytes) (r : Bytes)
        → length l ≤ suc fuel
        → AreDigests l
        → length leaf' ≡ 32
        → get_elem? l i ≡ some leaf
        → top (build_from sha256 fuel l) ≡ some r
        → length (build_from sha256 fuel l) ≡ suc (length proof)
        → climb sha256 leaf' proof i ≡ r
        → (leaf' ≡ leaf) ⊎ Collision
    unfolding build_from climb top
    build_from_binding fuel [] i leaf leaf' proof r h d n e t m c = cc
    build_from_binding zero (a ∷ []) zero leaf leaf' [] r h d n e t m c = inl (cc)
    build_from_binding (suc fuel) (a ∷ []) zero leaf leaf' [] r h d n e t m c = inl (ground arith)
    build_from_binding zero (a ∷ []) zero leaf leaf' (s ∷ proof) r h d n e t m c =
        absurd (omega arith)
    build_from_binding (suc fuel) (a ∷ []) zero leaf leaf' (s ∷ proof) r h d n e t m c =
        absurd (ground arith)
    build_from_binding fuel (a ∷ []) (suc i) leaf leaf' proof r h d n e t m c = cc
    build_from_binding zero (a ∷ b ∷ l) i leaf leaf' proof r h d n e t m c = absurd (omega arith)
    build_from_binding (suc fuel) (a ∷ b ∷ l) i leaf leaf' [] r h d n e t m c =
        absurd (ground (arith, build_from_nonempty fuel (next_level sha256 (a ∷ b ∷ l))))
    build_from_binding (suc fuel) (a ∷ b ∷ l) i leaf leaf' (s' ∷ proof) r h d n e t m c =
        let cur = a ∷ b ∷ l in
        let up = next_level sha256 cur in
        let (s, _, parent) = proof_item_lem sha256 cur i leaf e in
        let small = length-next_level-lt sha256 cur (omega arith) in
        let (_, same_top) = above sha256 cur fuel up i in
        let t' : top (build_from sha256 fuel up) ≡ some r = ground arith in
        let m' : length (build_from sha256 fuel up) ≡ suc (length proof) = ground arith in
        elim (build_from_binding fuel up (i / 2) (join sha256 i leaf s) (join sha256 i leaf' s')
          proof r (omega arith) (AreDigests-next_level cur) (length-join i leaf' s') parent t' m'
          c) [
            | inl same ↦ join_eq i leaf' leaf s' s (n ∙ sym (AreDigests-get_elem? cur i d e)) same
            | inr collision ↦ inr collision
          ]

    -- Of 32-byte leaves: a proof as long as the tree is high (the number of levels less one) that
    -- `verify_proof` accepts against the tree's root, at the index of a leaf and for a value of 32
    -- bytes, is a proof of that very leaf, or two different inputs have the same double SHA-256.
    pub verify_proof_binding :
        (leaves : List Bytes) (i : ℕ) (leaf leaf' : Bytes) (proof : List Bytes) (r : Bytes)
        → AreDigests leaves
        → length leaf' ≡ 32
        → get_elem? leaves i ≡ some leaf
        → root sha256 leaves ≡ some r
        → length (levels sha256 leaves) ≡ suc (length proof)
        → verify_proof sha256 r leaf' proof i ≡ true
        → (leaf' ≡ leaf) ⊎ Collision
    unfolding levels root verify_proof
    verify_proof_binding [] i leaf leaf' proof r d n e t m v = cc
    verify_proof_binding (a ∷ l) i leaf leaf' proof r d n e t m v =
        build_from_binding (length (a ∷ l)) (a ∷ l) i leaf leaf' proof r (omega arith) d n e t m
          (eq_of_bytes_eq _ _ v)

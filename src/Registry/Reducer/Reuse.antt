-- ===== src/Registry/Reducer/Reuse.antt =====
-- The keys that the records of chainbreaker/registry_state.py forget.
use chain_breaker.Base.{
  ℕ, ◌≡◌, refl, sym, ap, ◌∙◌, ◌⊎◌, true, false, inl, inr, some, List, [], ◌∷◌, ◌++◌, Str, str_eq,
  bytes_eq_self, eq_of_bytes_eq, Bool-cases, ok, ltb, arith,
}
use chain_breaker.Stdlib.{utf8}
use chain_breaker.Platform.{Platform}
use chain_breaker.Governance.{GovernanceContext, CuratorRotateTx, CuratorRevokeTx}
use chain_breaker.Registry.{
  CuratorRecord, RegistryState, with_defaults, matches, others, latest, latest_of, by_id,
  insert_by_id, sorted_by_id, bytes_lt,
}
use chain_breaker.Registry.Reducer.{
  require_not_registered, keep, retired, rotated, apply_rotate, apply_revoke,
}
use chain_breaker.Registry.Reducer.Accepted.{Rotates, apply_rotate-Rotates, apply_revoke-Revokes}
use chain_breaker.Registry.Reducer.Effects.{rotate_self, revoke_self, require_active_record-id}
use chain_breaker.Registry.Reducer.Keys.{
  AllAgree, AllAgree-append, AllAgree-others, AllAgree-sorted_by_id, KeysOwned,
}
use chain_breaker.Registry.Reducer.Ownership.{require_active_record-agrees}

-- No record of the list has the public key.
abbrev IsForgotten : Str → List CuratorRecord → Type 0
IsForgotten key [] = Unit
IsForgotten key (r ∷ l) = (str_eq r.public_key_hex key ≡ false) × IsForgotten key l

IsForgotten-append :
    (key : Str) (xs ys : List CuratorRecord)
    → IsForgotten key xs
    → IsForgotten key ys
    → IsForgotten key (xs ++ ys)
IsForgotten-append key [] ys h k = k
IsForgotten-append key (x ∷ xs) ys h k = (h.0, IsForgotten-append key xs ys h.1 k)

IsForgotten-insert_by_id :
    (key : Str) (r : CuratorRecord) (l : List CuratorRecord)
    → str_eq r.public_key_hex key ≡ false
    → IsForgotten key l
    → IsForgotten key (insert_by_id r l)
unfolding insert_by_id
IsForgotten-insert_by_id key r [] h k = (h, tt)
IsForgotten-insert_by_id key r (s ∷ l) h k =
    elim (Bool-cases (bytes_lt (utf8 s.curator_id) (utf8 r.curator_id))) [
      | inl t ↦ rw (t, insert_by_id) (k.0, IsForgotten-insert_by_id key r l h k.1)
      | inr t ↦ rw (t, insert_by_id) (h, k)
    ]

IsForgotten-sorted_by_id :
    (key : Str) (l : List CuratorRecord) → IsForgotten key l → IsForgotten key (sorted_by_id l)
unfolding sorted_by_id
IsForgotten-sorted_by_id key [] h = tt
IsForgotten-sorted_by_id key (r ∷ l) h =
    IsForgotten-insert_by_id key r (sorted_by_id l) h.0 (IsForgotten-sorted_by_id key l h.1)

-- A key of one curator is in no record of the others.
others-IsForgotten :
    (id key : Str) (l : List CuratorRecord) → AllAgree id key l → IsForgotten key (others id l)
unfolding others
others-IsForgotten id key [] h = tt
others-IsForgotten id key (r ∷ l) h = elim (Bool-cases (str_eq r.curator_id id)) [
  | inl own ↦ rw (own, others) (others-IsForgotten id key l h.1)
  | inr other ↦ elim (Bool-cases (str_eq r.public_key_hex key)) [
    | inl has ↦
        let same : str_eq r.curator_id id ≡ true = rw (h.0 has) (bytes_eq_self id) in
        absurd (ground (arith, same, other))
    | inr lacks ↦ rw (other, others) (lacks, others-IsForgotten id key l h.1)
  ]
]

-- A forgotten key can be registered by a curator with no record.
IsForgotten-registrable :
    (id key : Str) (l : List CuratorRecord)
    → matches id l ≡ []
    → IsForgotten key l
    → require_not_registered l id key ≡ ok tt
unfolding require_not_registered matches
IsForgotten-registrable id key [] none_here h = refl
IsForgotten-registrable id key (r ∷ l) none_here h = elim (Bool-cases (str_eq r.curator_id id)) [
  | inl own ↦ absurd (ground (arith, own))
  | inr other ↦
      let rest = IsForgotten-registrable id key l (rw (other, matches) at none_here) h.1 in
      ground (arith, other, h.0, rest)
]

latest_of-two : (a b r : CuratorRecord) → latest_of (a ∷ b ∷ []) ≡ some r → (r ≡ a) ⊎ (r ≡ b)
unfolding latest_of latest
latest_of-two a b r e = elim (Bool-cases (ltb a.activation_height b.activation_height)) [
  | inl up ↦ inr (ground (arith, up, e))
  | inr stay ↦ inl (ground (arith, stay, e))
]

module _ (p : Platform) (state : RegistryState) (h h' : ℕ) (txid txid' : Str)
    (context context' : GovernanceContext) where
  -- After a rotation the old key belongs to the curator still.
  rotated-agrees :
      (tx : CuratorRotateTx) (between : RegistryState)
      → KeysOwned state.records
      → apply_rotate p state h txid context tx ≡ ok between
      → AllAgree tx.curator_id tx.public_key_hex between.records
  unfolding keep retired rotated
  rotated-agrees tx between owned e =
      let (old, w) = apply_rotate-Rotates p state h txid context tx e in
      let id = tx.curator_id in
      let key = tx.public_key_hex in
      let (own, _, _) = require_active_record-id state id key old w.current in
      let all = require_active_record-agrees state id key old owned w.current in
      rw (← w.result) (
        AllAgree-sorted_by_id id key _ (
          AllAgree-append id key (others id state.records)
            (retired txid old tx.activation_height ∷ rotated txid old tx ∷ [])
            (AllAgree-others id key id state.records all)
            (λ _. eq_of_bytes_eq old.curator_id id own, (λ _. refl, tt))))

  -- The record of the new key is the curator's latest, if the latest has the new key.
  found_rotated :
      (tx : CuratorRotateTx) (old old' : CuratorRecord) (between : RegistryState)
      → Rotates state h txid tx old between
      → old'.public_key_hex ≡ tx.new_public_key_hex
      → latest_of (matches tx.curator_id between.records) ≡ some old'
      → old' ≡ rotated txid old tx
  unfolding retired
  found_rotated tx old old' between w new_key found =
      let first = retired txid old tx.activation_height in
      let self = ap latest_of (rotate_self p state h txid context tx old w) in
      elim (latest_of-two first (rotated txid old tx) old' (sym self ∙ found)) [
        | inr last ↦ last
        | inl same ↦
            let old_key : old.public_key_hex ≡ tx.new_public_key_hex =
              ap (λ r. r.public_key_hex) (sym same) ∙ new_key in
            let equal : str_eq tx.new_public_key_hex old.public_key_hex ≡ true =
              rw old_key (bytes_eq_self tx.new_public_key_hex) in
            absurd (ground (arith, equal, w.differs))
      ]

  -- Let no `public_key_hex` stand in the records of two curators. After an accepted rotation from one key to another and an
  -- accepted revocation of the curator's new key, the check of a registration lets any curator that
  -- has no record register the old key, though the record of the revoked curator still names it as its
  -- previous key.
  pub apply_revoke-frees_previous_key :
      (tx : CuratorRotateTx) (tx' : CuratorRevokeTx) (between after : RegistryState) (id : Str)
      → KeysOwned state.records
      → apply_rotate p state h txid context tx ≡ ok between
      → apply_revoke p between h' txid' context' tx' ≡ ok after
      → tx'.curator_id ≡ tx.curator_id
      → tx'.public_key_hex ≡ tx.new_public_key_hex
      → matches id after.records ≡ []
      → (require_not_registered after.records id tx.public_key_hex ≡ ok tt)
        × ((r : CuratorRecord) × (by_id after tx.curator_id ≡ some r)
            × (r.previous_key_hex ≡ some tx.public_key_hex))
  unfolding by_id latest_of latest retired rotated with_defaults
  apply_revoke-frees_previous_key tx tx' between after id owned e e' same_id same_key unknown =
      let (old, w) = apply_rotate-Rotates p state h txid context tx e in
      let (old', w') = apply_revoke-Revokes p between h' txid' context' tx' e' in
      let key = tx.public_key_hex in
      let (_, has, found) =
        require_active_record-id between tx'.curator_id tx'.public_key_hex old' w'.current in
      let (_, had, _) = require_active_record-id state tx.curator_id key old w.current in
      let new_key = eq_of_bytes_eq old'.public_key_hex tx'.public_key_hex has ∙ same_key in
      let old_key = eq_of_bytes_eq old.public_key_hex key had in
      let is_new =
        found_rotated tx old old' between w new_key
          (ap (λ c. latest_of (matches c between.records)) (sym same_id) ∙ found) in
      let differs : str_eq old'.public_key_hex key ≡ false = rw (new_key, sym old_key) w.differs in
      let agrees = rotated-agrees tx between owned e in
      (
        IsForgotten-registrable id key after.records unknown (
            rw (← w'.result) (
              IsForgotten-sorted_by_id key _ (
                IsForgotten-append key (others tx'.curator_id between.records)
                  (retired txid' old' tx'.revocation_height ∷ [])
                  (rw same_id (others-IsForgotten tx.curator_id key between.records agrees))
                  (differs, tt)))),
        (
          retired txid' old' tx'.revocation_height,
          ap (λ c. latest_of (matches c after.records)) (sym same_id)
              ∙ ap latest_of (revoke_self p between h' txid' context' tx' old' w'),
          ap (λ r. r.previous_key_hex) is_new ∙ ap some old_key,
        ),
      )

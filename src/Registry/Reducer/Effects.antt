-- ===== src/Registry/Reducer/Effects.antt =====
-- What an accepted governance transaction does to what can be looked up in the registry.
use chain_breaker.Base.{
  ℕ, ◌≡◌, refl, ap, ◌∙◌, true, false, some, inl, inr, List, [], ◌∷◌, ◌++◌, Str, str_eq, append-nil,
  bytes_eq_self, eq_of_bytes_eq, Bool-cases, Option-cases, ok, ltb, arith,
}
use chain_breaker.Platform.{Platform}
use chain_breaker.Governance.{
  GovernanceContext, GovernanceTx, register, rotate, revoke, CuratorRegisterTx, CuratorRotateTx,
  CuratorRevokeTx,
}
use chain_breaker.Registry.{
  CuratorRecord, RegistryState, with_defaults, matches, others, sorted_by_id, latest, latest_of,
  by_id, key_was_valid_at, any_attests,
}
use chain_breaker.Registry.Reducer.{
  require_not_registered, require_active_record, keep, registered, retired, rotated,
  apply_registry_transaction,
}
use chain_breaker.Registry.Reducer.Accepted.{
  Registers, Rotates, Revokes, apply_register-Registers, apply_rotate-Rotates, apply_revoke-Revokes,
}
use chain_breaker.Registry.Reducer.Lookups.{
  matches-sorted_by_id, matches-append, matches-others_self, matches-others_ne,
}

-- The records of a curator, in a list of records that has been rebuilt and sorted.
matches-rebuilt :
    (j : Str) (kept added : List CuratorRecord)
    → matches j (sorted_by_id (kept ++ added)) ≡ matches j kept ++ matches j added
matches-rebuilt j kept added = matches-sorted_by_id j (kept ++ added) ∙ matches-append j kept added

-- The curator that a transaction is about.
abbrev pub subject : GovernanceTx → Str
subject (register tx) = tx.curator_id
subject (rotate tx) = tx.curator_id
subject (revoke tx) = tx.curator_id

latest-id :
    (id : Str) (best : CuratorRecord) (l : List CuratorRecord)
    → str_eq best.curator_id id ≡ true
    → str_eq (latest best (matches id l)).curator_id id ≡ true
unfolding matches latest
latest-id id best [] h = h
latest-id id best (r ∷ l) h = elim (Bool-cases (str_eq r.curator_id id)) [
  | inr other ↦ rw (other, matches) (latest-id id best l h)
  | inl same ↦ elim (Bool-cases (ltb best.activation_height r.activation_height)) [
    | inl up ↦ rw (same, matches, up, latest) (latest-id id r l same)
    | inr stay ↦ rw (same, matches, stay, latest) (latest-id id best l h)
  ]
]

latest_of-id :
    (id : Str) (l : List CuratorRecord) (old : CuratorRecord)
    → latest_of (matches id l) ≡ some old
    → str_eq old.curator_id id ≡ true
unfolding matches latest_of
latest_of-id id [] old e = cc
latest_of-id id (r ∷ l) old e = elim (Bool-cases (str_eq r.curator_id id)) [
  | inr other ↦ latest_of-id id l old (rw (other, matches) at e)
  | inl same ↦
      let found : latest r (matches id l) ≡ old = ground (arith, same) in
      rw (← found) (latest-id id r l same)
]

pub require_active_record-id :
    (state : RegistryState) (id key : Str) (old : CuratorRecord)
    → require_active_record state id key ≡ ok old
    → (str_eq old.curator_id id ≡ true)
      × (str_eq old.public_key_hex key ≡ true)
      × (latest_of (matches id state.records) ≡ some old)
unfolding require_active_record
require_active_record-id state id key old e =
    elim (Option-cases (latest_of (matches id state.records))) [
      | inl missing ↦ absurd (ground arith)
      | inr (r, found) ↦
          let known : str_eq r.public_key_hex key ≡ true = ground arith in
          let same : r ≡ old = ground arith in
          (
            rw (← same) (latest_of-id id state.records r found),
            rw (← same) known,
            found ∙ ap some same,
          )
    ]

-- A record of another curator is not among the records of this one.
matches-one_other :
    (j id : Str) (r : CuratorRecord) (l : List CuratorRecord)
    → str_eq r.curator_id id ≡ true
    → str_eq id j ≡ false
    → matches j (r ∷ l) ≡ matches j l
unfolding matches
matches-one_other j id r l same h =
    let e : r.curator_id ≡ id = eq_of_bytes_eq r.curator_id id same in
    let apart : str_eq r.curator_id j ≡ false = rw e h in rw apart refl

matches-one_self :
    (id : Str) (r : CuratorRecord) (l : List CuratorRecord)
    → str_eq r.curator_id id ≡ true
    → matches id (r ∷ l) ≡ r ∷ matches id l
unfolding matches
matches-one_self id r l same = rw same refl

matches-none : (j : Str) → matches j [] ≡ []
unfolding matches
matches-none j = refl

unregistered :
    (l : List CuratorRecord) (id key : Str)
    → require_not_registered l id key ≡ ok tt
    → matches id l ≡ []
unfolding require_not_registered matches
unregistered [] id key h = refl
unregistered (r ∷ l) id key h = ground (arith, unregistered l id key)

module _ (p : Platform) (state : RegistryState) (block_height : ℕ) (txid : Str)
    (context : GovernanceContext) where
  register-others :
      (tx : CuratorRegisterTx) {state' : RegistryState} (j : Str)
      → Registers state block_height txid tx state'
      → str_eq tx.curator_id j ≡ false
      → matches j state'.records ≡ matches j state.records
  unfolding keep registered
  register-others tx j w h = rw (← w.result) (
      matches-rebuilt j state.records (registered txid tx ∷ [])
      ∙ ap (λ l. matches j state.records ++ l)
          (matches-one_other j tx.curator_id (registered txid tx) [] (bytes_eq_self tx.curator_id) h
            ∙ matches-none j)
      ∙ append-nil (matches j state.records))

  rotate-others :
      (tx : CuratorRotateTx) (old : CuratorRecord) {state' : RegistryState} (j : Str)
      → Rotates state block_height txid tx old state'
      → str_eq tx.curator_id j ≡ false
      → matches j state'.records ≡ matches j state.records
  unfolding keep rotated retired
  rotate-others tx old j w h =
      let id = tx.curator_id in
      let a = retired txid old tx.activation_height in
      let b = rotated txid old tx in
      let (own, _, _) = require_active_record-id state id tx.public_key_hex old w.current in
      rw (← w.result) (
        matches-rebuilt j (others id state.records) (a ∷ b ∷ [])
        ∙ ap (λ l. matches j (others id state.records) ++ l)
            (matches-one_other j id a (b ∷ []) own h
              ∙ matches-one_other j id b [] (bytes_eq_self id) h
              ∙ matches-none j)
        ∙ append-nil (matches j (others id state.records))
        ∙ matches-others_ne j id state.records h)

  revoke-others :
      (tx : CuratorRevokeTx) (old : CuratorRecord) {state' : RegistryState} (j : Str)
      → Revokes state block_height txid tx old state'
      → str_eq tx.curator_id j ≡ false
      → matches j state'.records ≡ matches j state.records
  unfolding with_defaults retired
  revoke-others tx old j w h =
      let id = tx.curator_id in
      let a = retired txid old tx.revocation_height in
      let (own, _, _) = require_active_record-id state id tx.public_key_hex old w.current in
      rw (← w.result) (
        matches-rebuilt j (others id state.records) (a ∷ [])
        ∙ ap (λ l. matches j (others id state.records) ++ l)
            (matches-one_other j id a [] own h ∙ matches-none j)
        ∙ append-nil (matches j (others id state.records))
        ∙ matches-others_ne j id state.records h)

  accepted-others :
      (tx : GovernanceTx) {state' : RegistryState} (j : Str)
      → apply_registry_transaction p state block_height txid context tx ≡ ok state'
      → str_eq (subject tx) j ≡ false
      → matches j state'.records ≡ matches j state.records
  unfolding apply_registry_transaction
  accepted-others (register tx) j e h =
      register-others tx j (apply_register-Registers p state block_height txid context tx e) h
  accepted-others (rotate tx) j e h =
      let (old, w) = apply_rotate-Rotates p state block_height txid context tx e in
      rotate-others tx old j w h
  accepted-others (revoke tx) j e h =
      let (old, w) = apply_revoke-Revokes p state block_height txid context tx e in
      revoke-others tx old j w h

  -- An accepted transaction leaves the records of every curator but its own alone, in content and
  -- order, and so what `by_id` and `key_was_valid_at` answer for them.
  pub apply_registry_transaction-others :
      (tx : GovernanceTx) (state' : RegistryState) (j key : Str) (height : ℕ)
      → apply_registry_transaction p state block_height txid context tx ≡ ok state'
      → str_eq (subject tx) j ≡ false
      → (matches j state'.records ≡ matches j state.records)
        × (by_id state' j ≡ by_id state j)
        × (key_was_valid_at state' j key height ≡ key_was_valid_at state j key height)
  unfolding by_id key_was_valid_at
  apply_registry_transaction-others tx state' j key height e h =
      let same = accepted-others tx j e h in
      (same, ap latest_of same, ap (λ l. any_attests l key height) same)

  -- The records of the curator after each kind of transaction.
  pub rotate_self :
      (tx : CuratorRotateTx) (old : CuratorRecord) {state' : RegistryState}
      → Rotates state block_height txid tx old state'
      → matches tx.curator_id state'.records
        ≡ retired txid old tx.activation_height ∷ rotated txid old tx ∷ []
  unfolding keep rotated retired
  rotate_self tx old w =
      let id = tx.curator_id in
      let a = retired txid old tx.activation_height in
      let b = rotated txid old tx in
      let (own, _, _) = require_active_record-id state id tx.public_key_hex old w.current in
      rw (← w.result) (
        matches-rebuilt id (others id state.records) (a ∷ b ∷ [])
        ∙ ap (λ l. l ++ matches id (a ∷ b ∷ [])) (matches-others_self id state.records)
        ∙ matches-one_self id a (b ∷ []) own
        ∙ ap (◌∷◌ a) (matches-one_self id b [] (bytes_eq_self id) ∙ ap (◌∷◌ b) (matches-none id)))

  pub revoke_self :
      (tx : CuratorRevokeTx) (old : CuratorRecord) {state' : RegistryState}
      → Revokes state block_height txid tx old state'
      → matches tx.curator_id state'.records ≡ retired txid old tx.revocation_height ∷ []
  unfolding with_defaults retired
  revoke_self tx old w =
      let id = tx.curator_id in
      let a = retired txid old tx.revocation_height in
      let (own, _, _) = require_active_record-id state id tx.public_key_hex old w.current in
      rw (← w.result) (
        matches-rebuilt id (others id state.records) (a ∷ [])
        ∙ ap (λ l. l ++ matches id (a ∷ [])) (matches-others_self id state.records)
        ∙ matches-one_self id a [] own
        ∙ ap (◌∷◌ a) (matches-none id))

  pub register_self :
      (tx : CuratorRegisterTx) {state' : RegistryState}
      → Registers state block_height txid tx state'
      → matches tx.curator_id state'.records ≡ registered txid tx ∷ []
  unfolding keep registered
  register_self tx w =
      let id = tx.curator_id in
      let a = registered txid tx in
      rw (← w.result) (
        matches-rebuilt id state.records (a ∷ [])
        ∙ ap (λ l. l ++ matches id (a ∷ []))
            (unregistered state.records id tx.public_key_hex w.fresh)
        ∙ matches-one_self id a [] (bytes_eq_self id)
        ∙ ap (◌∷◌ a) (matches-none id))

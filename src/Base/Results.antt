-- ===== src/Base/Results.antt =====
-- Raising and returning: the outcome of a Python call that may raise an exception.
use mathlib.Core.Path.{◌≡◌, refl}
use mathlib.Core.Bool.{Bool, true, false}
use mathlib.Core.Logic.{◌⊎◌, inl, inr}

-- The exceptions that the modelled code raises, its own classes and Python's.
pub data Exn : Type 0 where
  value_error key_error index_error type_error attribute_error overflow_error struct_error : Exn
  codec_error schema_error governance_error registry_error ledger_error reorg_error : Exn
  identity_error sync_invalid_data sync_storage_error : Exn
  network_validation_error unknown_message_type_error oversized_payload_error : Exn
  payload_hash_mismatch_error transport_state_error transport_closed_error transport_limit_error
        transport_validation_error :
      Exn
  gossip_error rate_limit_error table_full_error : Exn

-- The outcome of a call: an exception, or a value.
pub data Result {ℓ} (A : Type ℓ) : Type ℓ where
  raise : Exn → Result A
  ok : A → Result A

pub Result-cases {ℓ} :
    {A : Type ℓ} (r : Result A) → ((e : Exn) × (r ≡ raise e)) ⊎ ((a : A) × (r ≡ ok a))
Result-cases (ok a) = inr (a, refl)
Result-cases (raise e) = inl (e, refl)

-- `if test: raise e`
abbrev pub raise_if : Bool → Exn → Result (Unit {0})
raise_if false e = ok tt
raise_if true e = raise e

-- What follows a call: an exception passes on.
infixl 5 ◌>>=◌
abbrev pub ◌>>=◌ {ℓ κ} : {A : Type ℓ} {B : Type κ} → Result A → (A → Result B) → Result B
raise e >>= next = raise e
ok value >>= next = next value

pub >>=-eq-ok {ℓ κ} :
    {A : Type ℓ} {B : Type κ} (m : Result A) (next : A → Result B) {b : B}
    → m >>= next ≡ ok b
    → (a : A) × (m ≡ ok a) × (next a ≡ ok b)
>>=-eq-ok (raise e) next h = cc
>>=-eq-ok (ok value) next h = (value, refl, h)

-- A statement of its own, whose outcome is only whether it raises.
infixl 5 ◌>>◌
abbrev pub ◌>>◌ {ℓ} : {B : Type ℓ} → Result (Unit {0}) → Result B → Result B
check >> rest = check >>= λ _. rest

pub ok-inj {ℓ} : {A : Type ℓ} {a b : A} → ok a ≡ ok b → a ≡ b
ok-inj h = cc

pub raise≢ok {ℓ} : {A : Type ℓ} {e : Exn} {a : A} → raise e ≡ ok a → ⊥
raise≢ok h = cc

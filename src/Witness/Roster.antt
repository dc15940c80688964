-- ===== src/Witness/Roster.antt =====
-- chainbreaker/witness.py: `Registry`, the registry of curators of the first protocol. A method that
-- raises returns the registry as it leaves it.
use chain_breaker.Base.{
  ℕ, zero, suc, ◌≡◌, ap, ◌∙◌, refl, Bool, true, false, ◌&&◌, inl, inr, Option, none, some, List, [],
  ◌∷◌, ◌++◌, Str, str_eq, text, min, Result, ok, raise, value_error, key_error, arith, ltb, leb,
  Bool-cases, if◌then◌else◌,
}

-- `Curator`
pub record Curator : Type 0 where
  pub curator_id : Str
  pub public_key_hex : Str
  pub activation_height : ℕ
  pub revocation_height : Option ℕ
  pub previous_key_hex : Option Str

-- the entries of a transaction's body that are read; the names of the first three are required
pub record RosterTx : Type 0 where
  pub action : Str
  pub curator_id : Str
  pub public_key_hex : Str
  pub activation_height : Option ℕ
  pub revocation_height : Option ℕ
  pub previous_key_hex : Option Str

-- `Curator.is_active_at`
unfoldable pub active_at : Curator → ℕ → Bool
active_at c height =
    leb c.activation_height height
    && elim c.revocation_height [ none ↦ true | some stop ↦ ltb height stop ]

-- `Registry.get`
unfoldable pub find_curator : Str → List Curator → Option Curator
find_curator id [] = none
find_curator id (c ∷ cs) = if str_eq c.curator_id id then some c else find_curator id cs

-- `Registry.is_active`
unfoldable pub curator_is_active : List Curator → Str → ℕ → Bool
curator_is_active cs id height = elim (find_curator id cs) [
  | none ↦ false
  | some c ↦ active_at c height
]

-- `Registry.active_keys`
unfoldable pub active_keys : List Curator → ℕ → List (Str × Str)
active_keys [] height = []
active_keys (c ∷ cs) height =
    let rest = active_keys cs height in
    if active_at c height then (c.curator_id, c.public_key_hex) ∷ rest else rest

-- `revocation_height is not None and revocation_height < activation_height`
abbrev pub ends_early : Curator → Bool
ends_early c = elim c.revocation_height [ none ↦ false | some stop ↦ ltb stop c.activation_height ]

-- `Registry.register`
unfoldable pub register : Curator → List Curator → List Curator × Result (Unit {0})
register c cs =
    if str_eq c.curator_id []
    then (cs, raise value_error)
    else elim (find_curator c.curator_id cs) [
      | some known ↦ (cs, raise value_error)
      | none ↦ if ends_early c then (cs, raise value_error) else (cs ++ (c ∷ []), ok tt)
    ]

-- `existing.revocation_height = height`
unfoldable pub revoke_at : Str → ℕ → List Curator → List Curator
revoke_at id height [] = []
revoke_at id height (c ∷ cs) =
    let rest = revoke_at id height cs in
    if str_eq c.curator_id id then record c { revocation_height = some height } ∷ cs else c ∷ rest

-- `existing.revocation_height or height`
abbrev pub or_height : Option ℕ → ℕ → ℕ
or_height none height = height
or_height (some zero) height = height
or_height (some (suc n)) height = suc n

unfoldable pub add_curator : RosterTx → List Curator → List Curator × Result (Unit {0})
add_curator tx cs = elim tx.activation_height [
  | none ↦ (cs, raise key_error)
  | some activation ↦
      register
        (record {
          curator_id = tx.curator_id;
          public_key_hex = tx.public_key_hex;
          activation_height = activation;
          revocation_height = tx.revocation_height;
          previous_key_hex = tx.previous_key_hex;
        })
        cs
]

unfoldable pub revoke_curator : RosterTx → ℕ → List Curator → List Curator × Result (Unit {0})
revoke_curator tx height cs = elim (find_curator tx.curator_id cs) [
  | none ↦ (cs, raise value_error)
  | some c ↦ (revoke_at tx.curator_id (min (or_height c.revocation_height height) height) cs, ok tt)
]

abbrev pub successor : RosterTx → ℕ → Curator → Curator
successor tx height c = record {
  curator_id = tx.curator_id;
  public_key_hex = tx.public_key_hex;
  activation_height = height;
  revocation_height = tx.revocation_height;
  previous_key_hex = some c.public_key_hex;
}

unfoldable pub rotate_curator : RosterTx → ℕ → List Curator → List Curator × Result (Unit {0})
rotate_curator tx height cs = elim (find_curator tx.curator_id cs) [
  | none ↦ (cs, raise value_error)
  | some c ↦ register (successor tx height c) (revoke_at tx.curator_id height cs)
]

-- `Registry.apply_registry_transaction`; an action of another name does nothing
unfoldable pub apply_roster : RosterTx → ℕ → List Curator → List Curator × Result (Unit {0})
apply_roster tx height cs =
    if str_eq tx.action (text "add")
    then add_curator tx cs
    else if str_eq tx.action (text "revoke")
    then revoke_curator tx height cs
    else if str_eq tx.action (text "rotate")
    then rotate_curator tx height cs
    else (cs, ok tt)

find_curator-revoke_at :
    (id : Str) (height : ℕ) (cs : List Curator) (c : Curator)
    → find_curator id cs ≡ some c
    → find_curator id (revoke_at id height cs) ≡ some (record c { revocation_height = some height })
unfolding find_curator revoke_at
find_curator-revoke_at id height [] c e = cc
find_curator-revoke_at id height (d ∷ cs) c e =
    ground (arith, find_curator-revoke_at id height cs c)

register-known :
    (c d : Curator) (cs : List Curator)
    → find_curator c.curator_id cs ≡ some d
    → register c cs ≡ (cs, raise value_error)
unfolding register
register-known c d cs known = elim (Bool-cases (str_eq c.curator_id [])) [
  | inl empty ↦ rw empty refl
  | inr named ↦ rw (named, known, register) refl
]

-- Every rotation of a known curator raises, since the curator's name is registered already, and it
-- leaves the curator revoked from this height on, without a new key.
rotate_curator-known :
    (tx : RosterTx) (height : ℕ) (cs : List Curator) (c : Curator)
    → find_curator tx.curator_id cs ≡ some c
    → (rotate_curator tx height cs ≡ (revoke_at tx.curator_id height cs, raise value_error))
      × (find_curator tx.curator_id (rotate_curator tx height cs).0
          ≡ some (record c { revocation_height = some height }))
unfolding rotate_curator
rotate_curator-known tx height cs c known =
    let found = find_curator-revoke_at tx.curator_id height cs c known in
    let same : rotate_curator tx height cs
        ≡ (revoke_at tx.curator_id height cs, raise value_error) =
      rw (known, rotate_curator)
        (register-known (successor tx height c) (record c { revocation_height = some height })
          (revoke_at tx.curator_id height cs) found) in
    (same, ap (λ r. find_curator tx.curator_id r.0) same ∙ found)

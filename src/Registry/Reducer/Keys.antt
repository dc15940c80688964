-- ===== src/Registry/Reducer/Keys.antt =====
-- Lists of records of chainbreaker/registry_state.py in which keys belong to one curator each.
use chain_breaker.Base.{
  some, ◌≡◌, refl, sym, true, inl, inr, List, [], ◌∷◌, ◌++◌, Str, str_eq, bytes_eq_self,
  eq_of_bytes_eq, Bool-cases, ok, ltb, arith,
}
use chain_breaker.Stdlib.{utf8}
use chain_breaker.Registry.{
  CuratorRecord, others, insert_by_id, sorted_by_id, bytes_lt, matches, latest_of, latest,
}
use chain_breaker.Registry.Reducer.{require_not_registered, require_public_key_unused}

-- The record does not hold the key, as its `public_key_hex`, for another curator.
abbrev pub Agrees : Str → Str → CuratorRecord → Type 0
Agrees id key r = str_eq r.public_key_hex key ≡ true → r.curator_id ≡ id

abbrev pub AllAgree : Str → Str → List CuratorRecord → Type 0
AllAgree id key [] = Unit
AllAgree id key (r ∷ l) = Agrees id key r × AllAgree id key l

-- Every `public_key_hex` of the list belongs to one curator.
abbrev pub KeysOwned : List CuratorRecord → Type 0
KeysOwned [] = Unit
KeysOwned (r ∷ l) = AllAgree r.curator_id r.public_key_hex l × KeysOwned l

pub AllAgree-append :
    (id key : Str) (xs ys : List CuratorRecord)
    → AllAgree id key xs
    → AllAgree id key ys
    → AllAgree id key (xs ++ ys)
AllAgree-append id key [] ys h k = k
AllAgree-append id key (x ∷ xs) ys h k = (h.0, AllAgree-append id key xs ys h.1 k)

pub AllAgree-insert_by_id :
    (id key : Str) (r : CuratorRecord) (l : List CuratorRecord)
    → Agrees id key r
    → AllAgree id key l
    → AllAgree id key (insert_by_id r l)
unfolding insert_by_id
AllAgree-insert_by_id id key r [] h k = (h, tt)
AllAgree-insert_by_id id key r (s ∷ l) h k =
    elim (Bool-cases (bytes_lt (utf8 s.curator_id) (utf8 r.curator_id))) [
      | inl t ↦ rw (t, insert_by_id) (k.0, AllAgree-insert_by_id id key r l h k.1)
      | inr t ↦ rw (t, insert_by_id) (h, k)
    ]

pub AllAgree-sorted_by_id :
    (id key : Str) (l : List CuratorRecord) → AllAgree id key l → AllAgree id key (sorted_by_id l)
unfolding sorted_by_id
AllAgree-sorted_by_id id key [] h = tt
AllAgree-sorted_by_id id key (r ∷ l) h =
    AllAgree-insert_by_id id key r (sorted_by_id l) h.0 (AllAgree-sorted_by_id id key l h.1)

pub AllAgree-others :
    (id key j : Str) (l : List CuratorRecord) → AllAgree id key l → AllAgree id key (others j l)
unfolding others
AllAgree-others id key j [] h = tt
AllAgree-others id key j (r ∷ l) h = elim (Bool-cases (str_eq r.curator_id j)) [
  | inl t ↦ rw (t, others) (AllAgree-others id key j l h.1)
  | inr t ↦ rw (t, others) (h.0, AllAgree-others id key j l h.1)
]

-- Agreement is symmetric.
pub Agrees-symm :
    (r s : CuratorRecord)
    → Agrees r.curator_id r.public_key_hex s
    → Agrees s.curator_id s.public_key_hex r
Agrees-symm r s h e =
    let same : r.public_key_hex ≡ s.public_key_hex = eq_of_bytes_eq _ _ e in
    sym (h (rw same (bytes_eq_self s.public_key_hex)))

pub KeysOwned-insert_by_id :
    (r : CuratorRecord) (l : List CuratorRecord)
    → AllAgree r.curator_id r.public_key_hex l
    → KeysOwned l
    → KeysOwned (insert_by_id r l)
unfolding insert_by_id
KeysOwned-insert_by_id r [] h k = (tt, tt)
KeysOwned-insert_by_id r (s ∷ l) h k =
    elim (Bool-cases (bytes_lt (utf8 s.curator_id) (utf8 r.curator_id))) [
      | inl t ↦
          rw (t, insert_by_id)
            (
              AllAgree-insert_by_id s.curator_id s.public_key_hex r l (Agrees-symm r s h.0) k.0,
              KeysOwned-insert_by_id r l h.1 k.1,
            )
      | inr t ↦ rw (t, insert_by_id) (h, k)
    ]

pub KeysOwned-sorted_by_id : (l : List CuratorRecord) → KeysOwned l → KeysOwned (sorted_by_id l)
unfolding sorted_by_id
KeysOwned-sorted_by_id [] k = tt
KeysOwned-sorted_by_id (r ∷ l) k =
    KeysOwned-insert_by_id r (sorted_by_id l)
      (AllAgree-sorted_by_id r.curator_id r.public_key_hex l k.0) (KeysOwned-sorted_by_id l k.1)

pub KeysOwned-others : (j : Str) (l : List CuratorRecord) → KeysOwned l → KeysOwned (others j l)
unfolding others
KeysOwned-others j [] k = tt
KeysOwned-others j (r ∷ l) k = elim (Bool-cases (str_eq r.curator_id j)) [
  | inl t ↦ rw (t, others) (KeysOwned-others j l k.1)
  | inr t ↦
      rw (t, others)
        (AllAgree-others r.curator_id r.public_key_hex j l k.0, KeysOwned-others j l k.1)
]

-- A record added at the end agrees with all before it.
pub KeysOwned-snoc :
    (l : List CuratorRecord) (r : CuratorRecord)
    → KeysOwned l
    → AllAgree r.curator_id r.public_key_hex l
    → KeysOwned (l ++ (r ∷ []))
KeysOwned-snoc [] r k h = (tt, tt)
KeysOwned-snoc (s ∷ l) r k h = (
  AllAgree-append s.curator_id s.public_key_hex l (r ∷ []) k.0 (Agrees-symm r s h.0, tt),
  KeysOwned-snoc l r k.1 h.1,
)

-- Each record of the first list agrees with all of the second.
abbrev pub EachAgrees : List CuratorRecord → List CuratorRecord → Type 0
EachAgrees [] m = Unit
EachAgrees (r ∷ l) m = AllAgree r.curator_id r.public_key_hex m × EachAgrees l m

pub EachAgrees-cons :
    (r : CuratorRecord) (l m : List CuratorRecord)
    → AllAgree r.curator_id r.public_key_hex l
    → EachAgrees l m
    → EachAgrees l (r ∷ m)
EachAgrees-cons r [] m h k = tt
EachAgrees-cons r (s ∷ l) m h k = ((Agrees-symm r s h.0, k.0), EachAgrees-cons r l m h.1 k.1)

pub EachAgrees-self : (l : List CuratorRecord) → KeysOwned l → EachAgrees l l
EachAgrees-self [] k = tt
EachAgrees-self (r ∷ l) k = ((λ _. refl, k.0), EachAgrees-cons r l l k.0 (EachAgrees-self l k.1))

pub latest-agrees :
    (id : Str) (best : CuratorRecord) (l m : List CuratorRecord)
    → AllAgree best.curator_id best.public_key_hex m
    → EachAgrees l m
    → let found = latest best (matches id l) in AllAgree found.curator_id found.public_key_hex m
unfolding latest matches
latest-agrees id best [] m h k = h
latest-agrees id best (r ∷ l) m h k = elim (Bool-cases (str_eq r.curator_id id)) [
  | inr t ↦ rw (t, matches) (latest-agrees id best l m h k.1)
  | inl t ↦ elim (Bool-cases (ltb best.activation_height r.activation_height)) [
    | inl up ↦ rw (t, matches, up, latest) (latest-agrees id r l m k.0 k.1)
    | inr stay ↦ rw (t, matches, stay, latest) (latest-agrees id best l m h k.1)
  ]
]

pub latest_of-agrees :
    (id : Str) (l m : List CuratorRecord) (old : CuratorRecord)
    → latest_of (matches id l) ≡ some old
    → EachAgrees l m
    → AllAgree old.curator_id old.public_key_hex m
unfolding latest_of matches
latest_of-agrees id [] m old e k = cc
latest_of-agrees id (r ∷ l) m old e k = elim (Bool-cases (str_eq r.curator_id id)) [
  | inr t ↦ latest_of-agrees id l m old (rw (t, matches) at e) k.1
  | inl t ↦
      let found : latest r (matches id l) ≡ old = ground (arith, t) in
      rw (← found) (latest-agrees id r l m k.0 k.1)
]

pub unregistered-agree :
    (l : List CuratorRecord) (id key : Str)
    → require_not_registered l id key ≡ ok tt
    → AllAgree id key l
unfolding require_not_registered
unregistered-agree [] id key e = tt
unregistered-agree (r ∷ l) id key e =
    (λ t. absurd (ground (arith, t)), unregistered-agree l id key (ground arith))

pub unused-agree :
    (l : List CuratorRecord) (key id : Str)
    → require_public_key_unused l key id ≡ ok tt
    → AllAgree id key l
unfolding require_public_key_unused
unused-agree [] key id e = tt
unused-agree (r ∷ l) key id e =
    (λ t. eq_of_bytes_eq r.curator_id id (ground (arith, t)), unused-agree l key id (ground arith))

-- ===== src/Registry/Reducer/Lookups.antt =====
-- What the records of one curator are after sorting, appending and dropping.
use chain_breaker.Base.{
  ◌≡◌, refl, sym, ap, ◌∙◌, true, false, List, [], ◌∷◌, ◌++◌, Bytes, Str, str_eq, bytes_eq_self,
  eq_of_bytes_eq, if◌then◌else◌, arith,
}
use chain_breaker.Stdlib.{utf8}
use chain_breaker.Registry.{CuratorRecord, matches, others, bytes_lt, insert_by_id, sorted_by_id}

bytes_lt_irrefl : (xs : Bytes) → bytes_lt xs xs ≡ false
unfolding bytes_lt
bytes_lt_irrefl [] = refl
bytes_lt_irrefl (x ∷ xs) = ground (arith, bytes_lt_irrefl xs)

-- Two records of one curator are not apart in the order of the identifiers.
same_id :
    (r s : CuratorRecord) (id : Str)
    → str_eq r.curator_id id ≡ true
    → str_eq s.curator_id id ≡ true
    → bytes_lt (utf8 s.curator_id) (utf8 r.curator_id) ≡ false
same_id r s id a b =
    let p = eq_of_bytes_eq r.curator_id id a in
    let q = eq_of_bytes_eq s.curator_id id b in
    let e : utf8 s.curator_id ≡ utf8 r.curator_id = ap utf8 (q ∙ sym p) in
    rw e (bytes_lt_irrefl (utf8 r.curator_id))

matches-insert_by_id :
    (id : Str) (r : CuratorRecord) (l : List CuratorRecord)
    → matches id (insert_by_id r l) ≡ matches id (r ∷ l)
unfolding matches insert_by_id
matches-insert_by_id id r [] = refl
matches-insert_by_id id r (s ∷ l) = ground (arith, same_id r s id, matches-insert_by_id id r l)

-- Sorting is stable: it keeps the records of one curator in their order.
pub matches-sorted_by_id :
    (id : Str) (l : List CuratorRecord) → matches id (sorted_by_id l) ≡ matches id l
unfolding sorted_by_id matches
matches-sorted_by_id id [] = refl
matches-sorted_by_id id (r ∷ l) =
    matches-insert_by_id id r (sorted_by_id l)
    ∙ ap (λ found. if str_eq r.curator_id id then r ∷ found else found) (matches-sorted_by_id id l)

pub matches-append :
    (id : Str) (xs ys : List CuratorRecord) → matches id (xs ++ ys) ≡ matches id xs ++ matches id ys
unfolding matches
matches-append id [] ys = refl
matches-append id (x ∷ xs) ys = ground (arith, matches-append id xs ys)

pub matches-others_self : (id : Str) (l : List CuratorRecord) → matches id (others id l) ≡ []
unfolding matches others
matches-others_self id [] = refl
matches-others_self id (r ∷ l) = ground (arith, matches-others_self id l)

pub matches-others_ne :
    (j id : Str) (l : List CuratorRecord)
    → str_eq id j ≡ false
    → matches j (others id l) ≡ matches j l
unfolding matches others
matches-others_ne j id [] h = refl
matches-others_ne j id (r ∷ l) h = ground (arith, matches-others_ne j id l h, clash)
  where
    clash : str_eq r.curator_id id ≡ true → str_eq r.curator_id j ≡ true → ⊥
    clash a b =
        let p = eq_of_bytes_eq r.curator_id id a in
        let q = eq_of_bytes_eq r.curator_id j b in
        let e : id ≡ j = sym p ∙ q in let t : str_eq id j ≡ true = rw e (bytes_eq_self j) in cc

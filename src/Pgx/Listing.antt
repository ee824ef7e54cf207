-- ===== src/Pgx/Listing.antt =====
-- `List` of internal/metadata/pgxsim/pgxsim.go: the matching records in the order of their keys.
use mathlib.Core.List.{Perm}
use tritontube.Base.{
  str_eq, Str, str_lt, str_lt_irrefl, str_lt_trans, str_lt_connex, ℤ, pos_part, is_pos, true, false,
  ◌&&◌, List, [], ◌∷◌, ◌++◌, append_assoc, append-nil, Map, insert, drop, take-append-drop, length,
  length-take, ltb, if◌then◌else◌, arith, ◌≡◌, ◌≢◌, refl, ap, sym, ◌∙◌, Bool-cases, inl, inr,
}
use tritontube.Base
use tritontube.Base.Sort.{Ascending, IsWeakOrder, sort_by, sort_by-perm, sort_by-Ascending}
use tritontube.Pgx.{has_prefix, Record, Store, Tx, clone_record, key_less, list_loop, cut, list}

-- Lexical order of the keys is an order that a sort can use.
pub key_less-IsWeakOrder : IsWeakOrder key_less
key_less-IsWeakOrder = record {
  asymm = λ a b. str_lt_asymm a.key b.key;
  trans = λ a b c. str_ge_trans a.key b.key c.key;
}
  where
    str_lt_asymm : (s t : Str) → str_lt s t ≡ true → str_lt t s ≡ false
    str_lt_asymm s t h = ground (arith, str_lt_trans s t s, str_lt_irrefl s)

    str_ge_trans : (r s t : Str) → str_lt s r ≡ false → str_lt t s ≡ false → str_lt t r ≡ false
    str_ge_trans r s t p q = ground (arith, str_lt_trans t r s, str_lt_connex r s)

-- `hasPrefix` is `strings.HasPrefix`.
has_prefix_lem : (s p : Str) → has_prefix s p ≡ Base.has_prefix s p
unfolding has_prefix Base.has_prefix str_eq
has_prefix_lem s [] = refl
has_prefix_lem [] (b ∷ p) = ground arith
has_prefix_lem (a ∷ s) (b ∷ p) = by_rest p (has_prefix_lem s p)
  where
    by_rest :
        (p : Str)
        → has_prefix s p ≡ Base.has_prefix s p
        → has_prefix (a ∷ s) (b ∷ p) ≡ Base.has_prefix (a ∷ s) (b ∷ p)
    by_rest [] ih = ground arith
    by_rest (c ∷ p) ih = ground (arith, ih)

-- The matching records of the store.
unfoldable pub matching : Str → Map Record → List Record
matching prefix [] = []
matching prefix ((k, r) ∷ m) =
    let rest = matching prefix m in if Base.has_prefix k prefix then clone_record r ∷ rest else rest

list_loop-matching :
    (prefix : Str) (m : Map Record) (items : List Record) (tx : Tx)
    → (list_loop prefix m items tx).1 ≡ items ++ matching prefix m
unfolding list_loop matching
list_loop-matching prefix [] items tx = sym (append-nil items)
list_loop-matching prefix ((k, r) ∷ m) items tx = elim (Bool-cases (has_prefix k prefix)) [
  | inl p ↦
      rw (p, sym (has_prefix_lem k prefix) ∙ p)
        (list_loop-matching prefix m (items ++ clone_record r ∷ [])
            (record tx { readset = insert k r.version tx.readset })
          ∙ append_assoc items (clone_record r ∷ []) (matching prefix m))
  | inr p ↦ rw (p, sym (has_prefix_lem k prefix) ∙ p) (list_loop-matching prefix m items tx)
]

pub list-sort :
    (prefix : Str) (limit : ℤ) (s : Store) (tx : Tx)
    → (list prefix limit s tx).1 ≡ cut limit (sort_by key_less (matching prefix s.entries))
unfolding list
list-sort prefix limit s tx =
    ap (λ items. cut limit (sort_by key_less items)) (list_loop-matching prefix s.entries [] tx)

cut_rest :
    (limit : ℤ) (items : List Record)
    → (rest : List Record) × (cut limit items ++ rest ≡ items)
      × (rest ≢ [] → length (cut limit items) ≡ pos_part limit)
unfolding cut
cut_rest limit items = elim (Bool-cases (is_pos limit && ltb (pos_part limit) (length items))) [
  | inl short ↦ (
    drop (pos_part limit) items,
    rw short (take-append-drop (pos_part limit) items),
    λ _. rw short (ground (arith, length-take (pos_part limit) items)),
  )
  | inr whole ↦ ([], rw whole (append-nil items), λ ne. absurd (ne refl))
]

-- What `List` leaves out comes after what it returns in the order of the keys, the two together
-- are the matching records, and something is left out only when the limit is reached.
pub list_page :
    (prefix : Str) (limit : ℤ) (s : Store) (tx : Tx)
    → (rest : List Record) × Perm ((list prefix limit s tx).1 ++ rest) (matching prefix s.entries)
      × Ascending key_less ((list prefix limit s tx).1 ++ rest)
      × (rest ≢ [] → length (list prefix limit s tx).1 ≡ pos_part limit)
list_page prefix limit s tx =
    let all = sort_by key_less (matching prefix s.entries) in
    let parts = cut_rest limit all in
    rw (list-sort prefix limit s tx) (
      parts.0,
      rw parts.1 (sort_by-perm key_less (matching prefix s.entries)),
      rw parts.1 (sort_by-Ascending key_less key_less-IsWeakOrder (matching prefix s.entries)),
      parts.2,
    )

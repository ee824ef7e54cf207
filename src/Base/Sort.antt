-- ===== src/Base/Sort.antt =====
-- sort.Slice and sort.Strings: what the program relies on, and a sort that keeps it.
use mathlib.Core.List.{Perm}
use mathlib.Core.List.Perm
use tritontube.Base.{
  Bool, true, false, List, [], ◌∷◌, ◌≡◌, All, All-map, if◌then◌else◌, Bool-cases, inl, inr,
}

-- No element is less than one before it.
abbrev pub Ascending : {A : Type 0} → (A → A → Bool) → List A → Type 0
Ascending less [] = Unit
Ascending less (x ∷ xs) = All (λ y. less y x ≡ false) xs × Ascending less xs

-- `sort.Slice(s, less)`: some ascending rearrangement. It is not stable, so equal elements may
-- come in any order, and the order is a parameter of what uses it.
pub record SliceSort {A : Type 0} (less : A → A → Bool) : Type 0 where
  pub sort : List A → List A
  pub sort-perm : (l : List A) → Perm (sort l) l
  pub sort-Ascending : (l : List A) → Ascending less (sort l)

-- What `sort.Slice` asks of its test: not-less is transitive, and less is asymmetric.
pub record IsWeakOrder {A : Type 0} (less : A → A → Bool) : Type 0 where
  pub asymm : (a b : A) → less a b ≡ true → less b a ≡ false
  pub trans : (a b c : A) → less b a ≡ false → less c b ≡ false → less c a ≡ false

module _ {A : Type 0} (less : A → A → Bool) where
  -- Insertion before the first element that is not less.
  unfoldable pub insert_by : A → List A → List A
  insert_by x [] = x ∷ []
  insert_by x (y ∷ ys) = let rest = insert_by x ys in if less y x then y ∷ rest else x ∷ y ∷ ys

  unfoldable pub sort_by : List A → List A
  unfolding insert_by
  sort_by [] = []
  sort_by (x ∷ xs) = insert_by x (sort_by xs)

module _ {A : Type 0} (less : A → A → Bool) where
  insert_by-perm : (x : A) (l : List A) → Perm (insert_by less x l) (x ∷ l)
  unfolding insert_by
  insert_by-perm x [] = Perm.rfl
  insert_by-perm x (y ∷ ys) = elim (Bool-cases (less y x)) [
    | inl p ↦ rw p (Perm.trans (Perm.cons y (insert_by-perm x ys)) (Perm.swap x y ys))
    | inr p ↦ rw p Perm.rfl
  ]

  pub sort_by-perm : (l : List A) → Perm (sort_by less l) l
  unfolding sort_by
  sort_by-perm [] = Perm.rfl
  sort_by-perm (x ∷ xs) =
      Perm.trans (insert_by-perm x (sort_by less xs)) (Perm.cons x (sort_by-perm xs))

  insert_by-All : (P : A → Type 0) (x : A) (l : List A) → P x → All P l → All P (insert_by less x l)
  unfolding insert_by
  insert_by-All P x [] p h = (p, tt)
  insert_by-All P x (y ∷ ys) p h = elim (Bool-cases (less y x)) [
    | inl q ↦ rw q (h.0, insert_by-All P x ys p h.1)
    | inr q ↦ rw q (p, h)
  ]

  module _ (o : IsWeakOrder less) where
    insert_by-Ascending :
        (x : A) (l : List A) → Ascending less l → Ascending less (insert_by less x l)
    unfolding insert_by
    insert_by-Ascending x [] h = (tt, tt)
    insert_by-Ascending x (y ∷ ys) h = elim (Bool-cases (less y x)) [
      | inl q ↦ rw q (
        insert_by-All (λ z. less z y ≡ false) x ys (o.asymm y x q) h.0,
        insert_by-Ascending x ys h.1,
      )
      | inr q ↦ rw q ((q, All-map ys (λ z r. o.trans x y z q r) h.0), h)
    ]

    pub sort_by-Ascending : (l : List A) → Ascending less (sort_by less l)
    unfolding sort_by
    sort_by-Ascending [] = tt
    sort_by-Ascending (x ∷ xs) = insert_by-Ascending x (sort_by less xs) (sort_by-Ascending xs)

    -- Insertion sort is a sort.
    unfoldable pub insertion_sort : SliceSort less
    insertion_sort = record {
      sort = sort_by less;
      sort-perm = sort_by-perm;
      sort-Ascending = sort_by-Ascending;
    }

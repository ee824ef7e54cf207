-- ===== src/Chash/Preference.antt =====
-- The order in which a key prefers the nodes: what `Lookup` of internal/chash/ring.go promises,
-- with no search, no indices and no set of seen nodes.
use tritontube.Base.{
  zero, lt→ltb, leb→le, ◌∙◌, suc, le→ltb, length, take, ℕ, Str, str_eq, str_eq_iff, Bool, true,
  false, List, [], ◌∷◌, ◌++◌, map, any, filter, ltb, leb, if◌then◌else◌, arith, ◌≡◌, refl, ap,
  Bool-cases, inl, inr,
}
use tritontube.Chash.{Token}

abbrev pub mem : Str → List Str → Bool
mem n = any (λ m. str_eq n m)

-- The elements of the second list that are new, each once, in order of appearance.
unfoldable pub fresh : List Str → List Str → List Str
fresh out [] = []
fresh out (x ∷ xs) =
    let skip = fresh out xs in
    let keep = x ∷ fresh (out ++ x ∷ []) xs in if mem x out then skip else keep

abbrev pub NoDup : List Str → Type 0
NoDup [] = Unit
NoDup (x ∷ xs) = (mem x xs ≡ false) × NoDup xs

abbrev pub nodes : List Token → List Str
nodes = map (λ t. t.node)

-- Clockwise from the hash: the tokens at or after it, then the ones before it.
unfoldable pub clockwise : ℕ → List Token → List Token
clockwise h tokens = filter (λ t. leb h t.hash) tokens ++ filter (λ t. ltb t.hash h) tokens

unfoldable pub preference : ℕ → List Token → List Str
unfolding clockwise fresh
preference h tokens = fresh [] (nodes (clockwise h tokens))

pub mem-append_one :
    (n x : Str) (l : List Str) → mem n (l ++ x ∷ []) ≡ (if str_eq n x then true else mem n l)
mem-append_one n x [] = refl
mem-append_one n x (y ∷ l) = ground (arith, mem-append_one n x l)

pub mem-append : (n : Str) (l r : List Str) → mem n (l ++ r) ≡ (if mem n l then true else mem n r)
mem-append n [] r = refl
mem-append n (y ∷ l) r = ground (arith, mem-append n l r)

-- What is new is in the second list and not in the first.
pub mem-fresh :
    (n : Str) (out xs : List Str) → mem n (fresh out xs) ≡ (if mem n out then false else mem n xs)
unfolding fresh
mem-fresh n out [] = ground arith
mem-fresh n out (x ∷ xs) = ground (
  arith,
  str_eq_iff n x,
  mem-fresh n out xs,
  mem-fresh n (out ++ x ∷ []) xs,
  mem-append_one n x out,
)

pub fresh-NoDup : (out xs : List Str) → NoDup (fresh out xs)
unfolding fresh
fresh-NoDup out [] = tt
fresh-NoDup out (x ∷ xs) = elim (Bool-cases (mem x out)) [
  | inl old ↦ rw old (fresh-NoDup out xs)
  | inr new ↦ rw new (
    ground (arith, str_eq_iff x x, mem-fresh x (out ++ x ∷ []) xs, mem-append_one x x out),
    fresh-NoDup (out ++ x ∷ []) xs,
  )
]

module _ (p : Str → Bool) where
  -- Leaving elements out before or after the duplicates are left out is the same.
  pub fresh-filter :
      (out' out xs : List Str)
      → ((n : Str) → p n ≡ true → mem n out' ≡ mem n out)
      → fresh out' (filter p xs) ≡ filter p (fresh out xs)
  unfolding fresh
  fresh-filter out' out [] h = refl
  fresh-filter out' out (x ∷ xs) h = elim (Bool-cases (p x)) [
    | inl keep ↦ elim (Bool-cases (mem x out)) [
      | inl old ↦ rw (keep, h x keep, old) (fresh-filter out' out xs h)
      | inr new ↦
          rw (keep, h x keep, new, keep)
            (ap (◌∷◌ x) (
              fresh-filter (out' ++ x ∷ []) (out ++ x ∷ []) xs
                (λ n k. ground (arith, h n k, mem-append_one n x out', mem-append_one n x out))))
    ]
    | inr drop ↦ elim (Bool-cases (mem x out)) [
      | inl old ↦ rw (drop, old) (fresh-filter out' out xs h)
      | inr new ↦
          rw (drop, new, drop)
            (fresh-filter out' (out ++ x ∷ []) xs
              (λ n k. ground (arith, h n k, mem-append_one n x out, str_eq_iff n x)))
    ]
  ]

mem-nodes_middle :
    (n : Str) (t : Token) (l r : List Token)
    → mem n (nodes (l ++ t ∷ r)) ≡ (if str_eq n t.node then true else mem n (nodes (l ++ r)))
mem-nodes_middle n t [] r = refl
mem-nodes_middle n t (u ∷ l) r = ground (arith, mem-nodes_middle n t l r)

mem-clockwise : (n : Str) (h : ℕ) (l : List Token) → mem n (nodes (clockwise h l)) ≡ mem n (nodes l)
unfolding clockwise
mem-clockwise n h [] = refl
mem-clockwise n h (t ∷ l) =
    let at_or_after = filter (λ u. leb h u.hash) l in
    let before = filter (λ u. ltb u.hash h) l in
    elim (Bool-cases (leb h t.hash)) [
      | inl p ↦
          rw (p, le→ltb t.hash h (leb→le _ _ p))
            (ap (λ b. if str_eq n t.node then true else b) (mem-clockwise n h l))
      | inr p ↦
          rw (p, lt→ltb t.hash h (ground arith))
            (mem-nodes_middle n t at_or_after before
              ∙ ap (λ b. if str_eq n t.node then true else b) (mem-clockwise n h l))
    ]

-- The preference order has the nodes of the ring.
pub mem-preference : (n : Str) (h : ℕ) (l : List Token) → mem n (preference h l) ≡ mem n (nodes l)
unfolding preference
mem-preference n h l = mem-fresh n [] (nodes (clockwise h l)) ∙ mem-clockwise n h l

pub mem-take : (n : Str) (k : ℕ) (l : List Str) → mem n (take k l) ≡ true → mem n l ≡ true
mem-take n zero l h = cc
mem-take n (suc k) [] h = cc
mem-take n (suc k) (x ∷ l) h = ground (arith, mem-take n k l)

pub take-NoDup : (k : ℕ) (l : List Str) → NoDup l → NoDup (take k l)
take-NoDup zero l h = tt
take-NoDup (suc k) [] h = tt
take-NoDup (suc k) (x ∷ l) h = (ground (arith, mem-take x k l), take-NoDup k l h.1)

pub take_full :
    (n : Str) (k : ℕ) (l : List Str)
    → mem n l ≡ true
    → mem n (take k l) ≡ false
    → length (take k l) ≡ k
take_full n zero l h g = refl
take_full n (suc k) [] h g = cc
take_full n (suc k) (x ∷ l) h g = ground (arith, take_full n k l)

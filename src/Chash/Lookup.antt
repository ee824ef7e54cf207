-- ===== src/Chash/Lookup.antt =====
-- `Lookup` of internal/chash/ring.go returns a prefix of the key's preference order.
use tritontube.Base.{
  lt→ltb, length-take, length-drop, ap₂, str_eq_sym, is_some, take-append_full, drop_all, ℕ, zero,
  suc, ◌+◌, ◌≤◌, ◌<◌, Str, ℤ, pos, negsuc, pos_part, true, false, List, [], ◌∷◌, ◌++◌, append_assoc,
  append-nil, Map, lookup, insert, lookup-insert, length, get_or, take, drop, length-append, ltb,
  leb, arith, ◌≡◌, refl, ap, sym, ◌∙◌, Bool-cases, inl, inr, ◌==◌, All, take_all,
}
use tritontube.Base.Sort.{Ascending}
use tritontube.Chash.{Token, hash_less, no_token, start, walk, lookup_hash}
use tritontube.Chash.Search.{search, search-IsFirst}
use tritontube.Chash.Preference.{
  mem-take, fresh-NoDup, take-NoDup, mem-preference, take_full, NoDup, nodes, mem, fresh, clockwise,
  preference, mem-append_one,
}
use tritontube.Chash.Rotation.{SplitsAt, split_at, get_or-rotate}

-- In an ascending ring a later token has no smaller hash.
head_le :
    (t : Token) (l : List Token) (b : ℕ)
    → All (λ u. hash_less u t ≡ false) l
    → b < length l
    → t.hash ≤ (get_or l b no_token).hash
head_le t [] b h k = absurd (omega arith)
head_le t (u ∷ l) zero h k = ground arith
head_le t (u ∷ l) (suc b) h k = head_le t l b h.1 (omega arith)

Ascending-mono :
    (l : List Token) (a b : ℕ)
    → Ascending hash_less l
    → a ≤ b
    → b < length l
    → (get_or l a no_token).hash ≤ (get_or l b no_token).hash
Ascending-mono [] a b s le lt = absurd (omega arith)
Ascending-mono (t ∷ l) zero zero s le lt = omega arith
Ascending-mono (t ∷ l) zero (suc b) s le lt = head_le t l b s.0 (omega arith)
Ascending-mono (t ∷ l) (suc a) zero s le lt = absurd (omega arith)
Ascending-mono (t ∷ l) (suc a) (suc b) s le lt =
    Ascending-mono l a b s.1 (omega arith) (omega arith)

module _ (h : ℕ) (l : List Token) (s : Ascending hash_less l) where
  search-SplitsAt : SplitsAt h l (search (length l) (λ i. leb h (get_or l i no_token).hash))
  search-SplitsAt =
      search-IsFirst (λ i. leb h (get_or l i no_token).hash) (length l)
        (λ a b le lt p. leb-up a b p (Ascending-mono l a b s le lt))
    where
      leb-up :
          (a b : ℕ)
          → leb h (get_or l a no_token).hash ≡ true
          → (get_or l a no_token).hash ≤ (get_or l b no_token).hash
          → leb h (get_or l b no_token).hash ≡ true
      leb-up a b p q = ground arith

  -- The walk starts where the clockwise order does.
  pub start-clockwise : drop (start h l) l ++ take (start h l) l ≡ clockwise h l
  unfolding start clockwise
  start-clockwise =
      let r = search (length l) (λ i. leb h (get_or l i no_token).hash) in
      let parts = split_at h l r search-SplitsAt in
      elim (Bool-cases (r == length l)) [
        | inl past ↦
            let e : length l ≤ r = ground arith in
            rw (past, parts.0, parts.1, drop_all r l e, take_all r l e, append-nil)
        | inr found ↦ rw (found, parts.0, parts.1)
      ]

  pub start-lt-length : 0 < length l → start h l < length l
  unfolding start
  start-lt-length p = ground (arith, search-SplitsAt.in_range)

-- The nodes that the rounds from `k` on read.
reads : List Token → ℕ → ℕ → List Str
reads rot zero k = []
reads rot (suc rounds) k = (get_or rot k no_token).node ∷ reads rot rounds (k + 1)

Holds : Map (Unit {0}) → List Str → Type 0
Holds seen out = (n : Str) → is_some (lookup n seen) ≡ mem n out

module _ (l : List Token) (i replicas : ℕ) (inside : i < length l) where
  walk-fresh :
      (rounds k : ℕ) (seen : Map (Unit {0})) (out : List Str)
      → k + rounds ≤ length l
      → Holds seen out
      → length out ≤ replicas
      → walk l i replicas rounds k seen out
        ≡ take replicas (out ++ fresh out (reads (drop i l ++ take i l) rounds k))
  unfolding walk fresh reads Holds
  walk-fresh zero k seen out fits held le = sym (rw append-nil (take_all replicas out le))
  walk-fresh (suc rounds) k seen out fits held le =
      let n = (get_or (drop i l ++ take i l) k no_token).node in
      let rest = reads (drop i l ++ take i l) rounds (k + 1) in
      elim (Bool-cases (ltb (length out) replicas)) [
        | inl room ↦ elim (Bool-cases (mem n out)) [
          | inl old ↦
              rw (get_or-rotate i l k inside (omega arith), room, held n, old)
                (walk-fresh rounds (k + 1) seen out (omega arith) held le)
          | inr new ↦
              rw (get_or-rotate i l k inside (omega arith), room, held n, new)
                (walk-fresh rounds (k + 1) (insert n tt seen) (out ++ n ∷ []) (omega arith)
                    (λ m. ground (
                      arith,
                      held m,
                      lookup-insert n m tt seen,
                      mem-append_one m n out,
                      str_eq_sym n m,
                    ))
                    (rw length-append (ground arith))
                  ∙ ap (take replicas) (append_assoc out (n ∷ []) (fresh (out ++ n ∷ []) rest)))
        ]
        | inr full ↦ rw full (sym (take-append_full replicas out _ (ground arith)))
      ]

get_or-append_mid {ℓ} :
    {A : Type ℓ} (d : A) (pre : List A) (x : A) (l : List A)
    → get_or (pre ++ x ∷ l) (length pre) d ≡ x
get_or-append_mid d [] x l = refl
get_or-append_mid d (y ∷ pre) x l = get_or-append_mid d pre x l

reads_from : (pre l : List Token) → reads (pre ++ l) (length l) (length pre) ≡ nodes l
unfolding reads
reads_from pre [] = refl
reads_from pre (t ∷ l) = ap₂ ◌∷◌ (ap (λ u. u.node) (get_or-append_mid no_token pre t l)) (
    ap₂ (λ rot k. reads rot (length l) k) (sym (append_assoc pre (t ∷ []) l))
      (sym (length-append pre (t ∷ [])))
    ∙ reads_from (pre ++ t ∷ []) l)

reads_all : (rot : List Token) → reads rot (length rot) 0 ≡ nodes rot
reads_all = reads_from []

length-rotate : (i : ℕ) (l : List Token) → length (drop i l ++ take i l) ≡ length l
length-rotate i l =
    omega (arith, length-append (drop i l) (take i l), length-drop i l, length-take i l)

reads-clockwise :
    (h : ℕ) (l : List Token)
    → Ascending hash_less l
    → reads (drop (start h l) l ++ take (start h l) l) (length l) 0 ≡ nodes (clockwise h l)
reads-clockwise h l s =
    let rot = drop (start h l) l ++ take (start h l) l in
    ap (λ n. reads rot n 0) (sym (length-rotate (start h l) l))
    ∙ reads_all rot
    ∙ ap nodes (start-clockwise h l s)

walk-preference :
    (h replicas : ℕ) (l : List Token)
    → Ascending hash_less l
    → 0 < length l
    → walk l (start h l) replicas (length l) 0 [] [] ≡ take replicas (preference h l)
unfolding preference
walk-preference h replicas l s p =
    walk-fresh l (start h l) replicas (start-lt-length h l s p) (length l) 0 [] [] (omega arith)
      (unfold lookup Holds in λ n. refl) (omega arith)
    ∙ ap (λ xs. take replicas (fresh [] xs)) (reads-clockwise h l s)

-- On an ascending ring `Lookup` returns the first `replicas` nodes of the preference order, and
-- none where `replicas` is not positive.
pub lookup_hash-preference :
    (h : ℕ) (replicas : ℤ) (l : List Token)
    → Ascending hash_less l
    → lookup_hash h replicas l ≡ take (pos_part replicas) (preference h l)
unfolding lookup_hash
lookup_hash-preference h (negsuc n) l s = refl
lookup_hash-preference h (pos zero) l s = refl
lookup_hash-preference h (pos (suc n)) [] s =
    rw (lt→ltb 0 (suc n) (omega arith)) (unfold preference clockwise fresh in refl)
lookup_hash-preference h (pos (suc n)) (t ∷ ts) s =
    rw (lt→ltb 0 (suc n) (omega arith), lt→ltb 0 (length (t ∷ ts)) (omega arith))
      (walk-preference h (suc n) (t ∷ ts) s (omega arith))

-- On an ascending ring `Lookup` returns no node twice, at most `replicas` of them, and only nodes
-- of the ring.
pub lookup_hash_sound :
    (h : ℕ) (replicas : ℤ) (l : List Token)
    → Ascending hash_less l
    → NoDup (lookup_hash h replicas l)
      × (length (lookup_hash h replicas l) ≤ pos_part replicas)
      × ((n : Str) → mem n (lookup_hash h replicas l) ≡ true → mem n (nodes l) ≡ true)
unfolding preference
lookup_hash_sound h replicas l s =
    let p = preference h l in
    rw (lookup_hash-preference h replicas l s) (
      take-NoDup (pos_part replicas) p (fresh-NoDup [] (nodes (clockwise h l))),
      omega (arith, length-take (pos_part replicas) p),
      λ n m. ground (arith, mem-take n (pos_part replicas) p, mem-preference n h l),
    )

-- On an ascending ring, if `Lookup` leaves out a node of the ring, it has found `replicas` nodes.
pub lookup_hash_complete :
    (h : ℕ) (replicas : ℤ) (l : List Token) (n : Str)
    → Ascending hash_less l
    → mem n (nodes l) ≡ true
    → mem n (lookup_hash h replicas l) ≡ false
    → length (lookup_hash h replicas l) ≡ pos_part replicas
lookup_hash_complete h replicas l n s ring left_out =
    let eq = lookup_hash-preference h replicas l s in
    rw eq (
      take_full n (pos_part replicas) (preference h l) (mem-preference n h l ∙ ring)
        (rw eq at left_out))

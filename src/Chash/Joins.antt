-- ===== src/Chash/Joins.antt =====
-- `AddNode` of internal/chash/ring.go beside `RemoveNode`: what a node that joins moves.
use mathlib.Core.List.{Permᴰ}
use mathlib.Core.List.Permᴰ
use native.Mathlib.Nat.{ℕ_set}
use mathlib.Core.Logic.{∥∥₁_elim}
use tritontube.Base.{
  append-nil, str_eq_refl, ℕ, Str, ℤ, pos_part, Bool, false, List, [], ◌∷◌, ◌++◌, All, filter,
  filter-append, arith, ◌≡◌, ◌≢◌, ◌==◌, refl, ap, sym, ◌∙◌, Bool-cases, inl, inr, suc, zero, ◌+◌,
}
use tritontube.Base.Sort.{Ascending, sort_by, insert_by, SliceSort}
use tritontube.Chash.Preference.{mem}
use tritontube.Chash.Nodes.{
  ring_operations-IsRing, lookup_hash-remove_node, other, filter-Ascending, filter-All, IsRing,
}
use tritontube.Chash.{
  lookup_hash, remove_node, vnode, add_node, append_vnodes, Ring, hash_less, Token,
}

abbrev sorted : List Token → List Token
sorted l = sort_by hash_less l

same_token : (t u : Token) → t.hash ≡ u.hash → t.node ≡ u.node → t ≡ u
same_token t u p q i = record { hash = p i; node = q i }

insert_first :
    (t : Token) (l : List Token)
    → All (λ u. hash_less u t ≡ false) l
    → insert_by hash_less t l ≡ t ∷ l
unfolding insert_by
insert_first t [] h = refl
insert_first t (u ∷ l) h = rw h.0 refl

-- An ascending list is sorted already.
already_sorted : (l : List Token) → Ascending hash_less l → sorted l ≡ l
unfolding sort_by
already_sorted [] h = refl
already_sorted (t ∷ l) h = ap (insert_by hash_less t) (already_sorted l h.1) ∙ insert_first t l h.0

insert_twice :
    (t u : Token) (l : List Token)
    → t.hash ≢ u.hash
    → insert_by hash_less t (insert_by hash_less u l)
      ≡ insert_by hash_less u (insert_by hash_less t l)
unfolding insert_by
insert_twice t u [] h = ground arith
insert_twice t u (v ∷ l) h = ground (arith, insert_twice t u l h)

module _ (p : Token → Bool) where
  filter-Permᴰ : {l r : List Token} → Permᴰ l r → Permᴰ (filter p l) (filter p r)
  filter-Permᴰ Permᴰ.nil = Permᴰ.nil
  filter-Permᴰ (Permᴰ.cons {a} {b} e d) = elim (Bool-cases (p a)) [
    | inl q ↦ rw (q, sym (ap p e) ∙ q) (Permᴰ.cons e (filter-Permᴰ d))
    | inr q ↦ rw (q, sym (ap p e) ∙ q) (filter-Permᴰ d)
  ]
  filter-Permᴰ (Permᴰ.swap {a} {b} {a'} {b'} {l} s t) =
      rw (sym s, sym t)
        (elim (Bool-cases (p a)) [
          | inl q ↦ elim (Bool-cases (p b)) [
            | inl q' ↦ rw (q, q') (Permᴰ.swap refl refl)
            | inr q' ↦ rw (q, q') (Permᴰ.refl (a ∷ filter p l))
          ]
          | inr q ↦ rw q (Permᴰ.refl (filter p (b ∷ l)))
        ])
  filter-Permᴰ (Permᴰ.trans d e) = Permᴰ.trans (filter-Permᴰ d) (filter-Permᴰ e)

module _ (owner : ℕ → Str) where
  -- The hash of a token decides its node.
  abbrev Owned : Token → Type 0
  Owned t = t.node ≡ owner t.hash

  insert-Owned :
      (t u : Token) (l : List Token)
      → Owned t
      → Owned u
      → insert_by hash_less t (insert_by hash_less u l)
        ≡ insert_by hash_less u (insert_by hash_less t l)
  insert-Owned t u l p q = elim (Bool-cases (t.hash == u.hash)) [
    | inl e ↦
        let same_hash : t.hash ≡ u.hash = ground arith in
        rw (same_token t u same_hash (p ∙ ap owner same_hash ∙ sym q)) refl
    | inr n ↦ insert_twice t u l (ground arith)
  ]

  All-Permᴰ : {l r : List Token} → Permᴰ l r → All Owned l → All Owned r
  All-Permᴰ Permᴰ.nil h = h
  All-Permᴰ (Permᴰ.cons e d) h = (rw e at h.0, All-Permᴰ d h.1)
  All-Permᴰ (Permᴰ.swap s t) h = (rw t at h.1.0, (rw s at h.0, h.1.1))
  All-Permᴰ (Permᴰ.trans d e) h = All-Permᴰ e (All-Permᴰ d h)

  sort_by-Permᴰ : {l r : List Token} → Permᴰ l r → All Owned l → sorted l ≡ sorted r
  unfolding sort_by
  sort_by-Permᴰ Permᴰ.nil h = refl
  sort_by-Permᴰ (Permᴰ.cons {a} {b} e d) h = rw e (ap (insert_by hash_less b) (sort_by-Permᴰ d h.1))
  sort_by-Permᴰ (Permᴰ.swap {a} {b} {a'} {b'} {l} s t) h =
      insert-Owned a b (sorted l) h.0 h.1.0 ∙ rw (sym s, sym t) refl
  sort_by-Permᴰ (Permᴰ.trans d e) h = sort_by-Permᴰ d h ∙ sort_by-Permᴰ e (All-Permᴰ d h)

-- Lists of tokens form a set.
tokens_set : (l l' : List Token) (p q : l ≡ l') → p ≡ q
tokens_set = hlevel ℕ_set

append_vnodes-filter :
    (sha1 : Str → List ℕ) (id : Str) (rounds i : ℕ) (l : List Token)
    → filter (other id) (append_vnodes sha1 id rounds i l) ≡ filter (other id) l
unfolding append_vnodes vnode
append_vnodes-filter sha1 id zero i l = refl
append_vnodes-filter sha1 id (suc rounds) i l =
    append_vnodes-filter sha1 id rounds (i + 1) (l ++ vnode sha1 id i ∷ [])
    ∙ filter-append (other id) l (vnode sha1 id i ∷ [])
    ∙ rw (str_eq_refl id) (append-nil (filter (other id) l))

module _ (sha1 : Str → List ℕ) (s : SliceSort hash_less) (id : Str) (r : Ring) where
  -- When a node has been added, the tokens of the others are where they were, if tokens with the
  -- same hash had the same node.
  pub remove_node-add_node :
      (owner : ℕ → Str)
      → IsRing r
      → All (λ t. t.node ≡ owner t.hash) r.tokens
      → (remove_node id (add_node sha1 s id r)).tokens ≡ (remove_node id r).tokens
  unfolding add_node remove_node
  remove_node-add_node owner w owned =
      let appended = append_vnodes sha1 id (pos_part r.vnodes) 0 r.tokens in
      let stays = append_vnodes-filter sha1 id (pos_part r.vnodes) 0 r.tokens in
      let ascending = filter-Ascending (other id) (s.sort appended) (s.sort-Ascending appended) in
      let kept = filter (other id) r.tokens in
      ∥∥₁_elim (s.sort-perm appended) (tokens_set _ _) (λ d.
        let rearranged : Permᴰ (filter (other id) (s.sort appended)) kept =
          rw stays at (filter-Permᴰ (other id) d) in
        sym (already_sorted (filter (other id) (s.sort appended)) ascending)
        ∙ sym (
            sort_by-Permᴰ owner (Permᴰ.symm rearranged)
              (filter-All (Owned owner) (other id) r.tokens owned))
        ∙ already_sorted kept (filter-Ascending (other id) r.tokens w.ascending))

  -- On a well-formed ring whose tokens with the same hash have the same node, a node that joins
  -- leaves the replicas of a key as they were, if it is not among them before or after.
  pub lookup_hash-add_node :
      (owner : ℕ → Str) (h : ℕ) (replicas : ℤ)
      → IsRing r
      → All (λ t. t.node ≡ owner t.hash) r.tokens
      → mem id (lookup_hash h replicas r.tokens) ≡ false
      → mem id (lookup_hash h replicas (add_node sha1 s id r).tokens) ≡ false
      → lookup_hash h replicas (add_node sha1 s id r).tokens ≡ lookup_hash h replicas r.tokens
  lookup_hash-add_node owner h replicas w owned before after =
      sym (
        lookup_hash-remove_node h replicas id (add_node sha1 s id r)
          (ring_operations-IsRing sha1 s id r w).0 after)
      ∙ ap (lookup_hash h replicas) (remove_node-add_node owner w owned)
      ∙ lookup_hash-remove_node h replicas id r w before

-- ===== src/Cluster/Members.antt =====
-- The ring of a manager (internal/storage/manager.go) and the nodes that it has registered.
use mathlib.Core.List.{Perm, Permᴰ}
use mathlib.Core.Logic.{∥∥₁_elim}
use mathlib.Core.Bool.{Bool-set}
use tritontube.Base.{
  ltb, ◌&&◌, pos, negsuc, str_eq_sym, ℕ, zero, suc, ◌+◌, Str, str_eq, str_lt, ℤ, pos_part, is_pos,
  Bool, true, List, [], ◌∷◌, ◌++◌, map, any, is_some, Map, lookup, if◌then◌else◌, arith, ◌≡◌, refl,
  ap, sym, ◌∙◌,
}
use tritontube.Base.Sort.{SliceSort, sort_by-perm}
use tritontube.Chash.{Ring, Token, hash_less, new_ring, add_node, append_vnodes, vnode}
use tritontube.Chash.Preference.{mem, nodes}
use tritontube.Chash.Nodes.{IsRing, ring_operations-IsRing, new_ring-IsRing}
use tritontube.Cluster.{NodeDescriptor, assignment_less, sorted_ids, add_nodes, build_ring}

-- A test of some element does not depend on the order.
any-Perm : {A : Type 0} (p : A → Bool) (l r : List A) → Perm l r → any p l ≡ any p r
any-Perm {A} p l r h = ∥∥₁_elim h (Bool-set _ _) (λ d. by_derivation d)
  where
    by_derivation : {l r : List A} → Permᴰ l r → any p l ≡ any p r
    by_derivation Permᴰ.nil = refl
    by_derivation (Permᴰ.cons {a} {b} e d) = ground (arith, by_derivation d, ap p e)
    by_derivation (Permᴰ.swap s t) = ground (arith, ap p s, ap p t)
    by_derivation (Permᴰ.trans d e) = by_derivation d ∙ by_derivation e

mem-nodes : (n : Str) (l : List Token) → mem n (nodes l) ≡ any (λ t. str_eq n t.node) l
mem-nodes n [] = refl
mem-nodes n (t ∷ l) = ground (arith, mem-nodes n l)

mem-nodes-snoc :
    (n : Str) (t : Token) (l : List Token)
    → mem n (nodes (l ++ t ∷ [])) ≡ (if str_eq n t.node then true else mem n (nodes l))
mem-nodes-snoc n t [] = refl
mem-nodes-snoc n t (u ∷ l) = ground (arith, mem-nodes-snoc n t l)

-- A node with a virtual node at least is in the list that `AddNode` sorts.
mem-append_vnodes :
    (sha1 : Str → List ℕ) (n id : Str) (rounds i : ℕ) (l : List Token)
    → mem n (nodes (append_vnodes sha1 id rounds i l))
      ≡ (if ltb 0 rounds && str_eq n id then true else mem n (nodes l))
unfolding append_vnodes vnode
mem-append_vnodes sha1 n id zero i l = ground arith
mem-append_vnodes sha1 n id (suc rounds) i l =
    mem-append_vnodes sha1 n id rounds (i + 1) (l ++ vnode sha1 id i ∷ [])
    ∙ ground (arith, mem-nodes-snoc n (vnode sha1 id i) l)

mem-keys :
    (n : Str) (m : Map NodeDescriptor) → mem n (map (λ (id, node). id) m) ≡ is_some (lookup n m)
unfolding lookup
mem-keys n [] = refl
mem-keys n ((id, node) ∷ m) = ground (arith, mem-keys n m, str_eq_sym n id)

mem-sorted_ids : (n : Str) (m : Map NodeDescriptor) → mem n (sorted_ids m) ≡ is_some (lookup n m)
unfolding sorted_ids
mem-sorted_ids n m =
    any-Perm (λ j. str_eq n j) (sorted_ids m) (map (λ (id, node). id) m)
      (sort_by-perm str_lt (map (λ (id, node). id) m))
    ∙ mem-keys n m

module _ (sha1 : Str → List ℕ) (by_hash : SliceSort hash_less) where
  mem-add_node :
      (n id : Str) (r : Ring)
      → IsRing r
      → mem n (nodes (add_node sha1 by_hash id r).tokens)
        ≡ (if str_eq n id then true else mem n (nodes r.tokens))
  unfolding add_node
  mem-add_node n id r w =
      let l = append_vnodes sha1 id (pos_part r.vnodes) 0 r.tokens in
      mem-nodes n (by_hash.sort l)
      ∙ any-Perm (λ t. str_eq n t.node) (by_hash.sort l) l (by_hash.sort-perm l)
      ∙ sym (mem-nodes n l)
      ∙ mem-append_vnodes sha1 n id (pos_part r.vnodes) 0 r.tokens
      ∙ rw (some_vnode r.vnodes w.vnodes_pos) refl
    where
      some_vnode : (v : ℤ) → is_pos v ≡ true → ltb 0 (pos_part v) ≡ true
      some_vnode (pos (suc k)) h = ground arith
      some_vnode (pos zero) h = cc
      some_vnode (negsuc k) h = cc

  module _ (by_token : SliceSort assignment_less) where
    add_nodes-IsRing :
        (ids : List Str) (r : Ring) → IsRing r → IsRing (add_nodes sha1 by_hash by_token ids r)
    unfolding add_nodes
    add_nodes-IsRing [] r w = w
    add_nodes-IsRing (id ∷ ids) r w =
        add_nodes-IsRing ids (add_node sha1 by_hash id r)
          (ring_operations-IsRing sha1 by_hash id r w).0

    mem-add_nodes :
        (n : Str) (ids : List Str) (r : Ring)
        → IsRing r
        → mem n (nodes (add_nodes sha1 by_hash by_token ids r).tokens)
          ≡ (if mem n ids then true else mem n (nodes r.tokens))
    unfolding add_nodes
    mem-add_nodes n [] r w = refl
    mem-add_nodes n (id ∷ ids) r w = ground (
      arith,
      mem-add_nodes n ids (add_node sha1 by_hash id r)
          (ring_operations-IsRing sha1 by_hash id r w).0,
      mem-add_node n id r w,
    )

    pub build_ring-IsRing :
        (vnodes : ℤ) (m : Map NodeDescriptor) → IsRing (build_ring sha1 by_hash by_token vnodes m)
    unfolding build_ring
    build_ring-IsRing vnodes m =
        add_nodes-IsRing (sorted_ids m) (new_ring vnodes) (new_ring-IsRing vnodes)

    pub mem-build_ring :
        (n : Str) (vnodes : ℤ) (m : Map NodeDescriptor)
        → mem n (nodes (build_ring sha1 by_hash by_token vnodes m).tokens) ≡ is_some (lookup n m)
    unfolding build_ring new_ring
    mem-build_ring n vnodes m = ground (
      arith,
      mem-add_nodes n (sorted_ids m) (new_ring vnodes) (new_ring-IsRing vnodes),
      mem-sorted_ids n m,
    )

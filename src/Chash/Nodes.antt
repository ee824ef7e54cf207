-- ===== src/Chash/Nodes.antt =====
-- `AddNode` and `RemoveNode` of internal/chash/ring.go: the ring stays ascending, and a node that
-- joins or leaves moves no key between the others.
use tritontube.Base.{
  ℕ, zero, suc, Str, str_eq, str_eq_iff, ℤ, pos, negsuc, pos_part, is_pos, Bool, true, false, not,
  List, [], ◌∷◌, All, filter, filter-append, filter_comm, take, ltb, leb, arith, ◌≡◌, refl, ap, sym,
  ◌∙◌, Bool-cases, inl, inr,
}
use tritontube.Base.Sort.{SliceSort, Ascending}
use tritontube.Chash.{
  Token, Ring, hash_less, new_ring, remove_node, append_vnodes, add_node, lookup_hash,
}
use tritontube.Chash.Preference.{nodes, mem, fresh, fresh-filter, clockwise, preference}
use tritontube.Chash.Lookup.{lookup_hash-preference}

-- The ring of the source: at least one virtual node for each node, tokens by ascending hash.
pub record IsRing (r : Ring) : Type 0 where
  pub vnodes_pos : is_pos r.vnodes ≡ true
  pub ascending : Ascending hash_less r.tokens

abbrev pub other : Str → Token → Bool
other id t = not (str_eq t.node id)

pub filter-All :
    (P : Token → Type 0) (p : Token → Bool) (l : List Token) → All P l → All P (filter p l)
filter-All P p [] h = tt
filter-All P p (t ∷ l) h = elim (Bool-cases (p t)) [
  | inl q ↦ rw q (h.0, filter-All P p l h.1)
  | inr q ↦ rw q (filter-All P p l h.1)
]

pub filter-Ascending :
    (p : Token → Bool) (l : List Token) → Ascending hash_less l → Ascending hash_less (filter p l)
filter-Ascending p [] h = tt
filter-Ascending p (t ∷ l) h = elim (Bool-cases (p t)) [
  | inl q ↦ rw q (filter-All (λ u. hash_less u t ≡ false) p l h.0, filter-Ascending p l h.1)
  | inr q ↦ rw q (filter-Ascending p l h.1)
]

-- Adding and removing nodes keeps the ring well formed, whatever order the sort gives to equal
-- hashes; removing needs no new sort.
pub ring_operations-IsRing :
    (sha1 : Str → List ℕ) (s : SliceSort hash_less) (id : Str) (r : Ring)
    → IsRing r
    → IsRing (add_node sha1 s id r) × IsRing (remove_node id r)
unfolding add_node remove_node
ring_operations-IsRing sha1 s id r h = (
  record {
    vnodes_pos = h.vnodes_pos;
    ascending = s.sort-Ascending (append_vnodes sha1 id (pos_part r.vnodes) 0 r.tokens);
  },
  record {
    vnodes_pos = h.vnodes_pos;
    ascending = filter-Ascending (other id) r.tokens h.ascending;
  },
)

pub new_ring-IsRing : (vnodes : ℤ) → IsRing (new_ring vnodes)
unfolding new_ring
new_ring-IsRing (pos zero) = record { vnodes_pos = ground arith; ascending = tt }
new_ring-IsRing (pos (suc n)) = record { vnodes_pos = ground arith; ascending = tt }
new_ring-IsRing (negsuc n) = record { vnodes_pos = ground arith; ascending = tt }

nodes-filter :
    (id : Str) (l : List Token)
    → nodes (filter (other id) l) ≡ filter (λ n. not (str_eq n id)) (nodes l)
nodes-filter id [] = refl
nodes-filter id (t ∷ l) = ground (arith, nodes-filter id l)

clockwise-filter :
    (p : Token → Bool) (h : ℕ) (l : List Token)
    → clockwise h (filter p l) ≡ filter p (clockwise h l)
unfolding clockwise
clockwise-filter p h l =
    rw (filter_comm (λ t. leb h t.hash) p l, filter_comm (λ t. ltb t.hash h) p l)
      (sym (filter-append p (filter (λ t. leb h t.hash) l) (filter (λ t. ltb t.hash h) l)))

-- Without a node, every key prefers the other nodes in the order as before.
pub preference-remove :
    (h : ℕ) (id : Str) (l : List Token)
    → preference h (filter (other id) l) ≡ filter (λ n. not (str_eq n id)) (preference h l)
unfolding preference
preference-remove h id l =
    ap (λ ts. fresh [] (nodes ts)) (clockwise-filter (other id) h l)
    ∙ ap (fresh []) (nodes-filter id (clockwise h l))
    ∙ fresh-filter (λ n. not (str_eq n id)) [] [] (nodes (clockwise h l)) (λ n p. refl)

take-filter_absent :
    (id : Str) (k : ℕ) (l : List Str)
    → mem id (take k l) ≡ false
    → take k (filter (λ n. not (str_eq n id)) l) ≡ take k l
take-filter_absent id zero l h = refl
take-filter_absent id (suc k) [] h = refl
take-filter_absent id (suc k) (x ∷ l) h =
    ground (arith, take-filter_absent id k l, str_eq_iff x id, str_eq_iff id x)

-- On a well-formed ring, removing a node that is not among the replicas of a key leaves the
-- replicas of that key as they are.
pub lookup_hash-remove_node :
    (h : ℕ) (replicas : ℤ) (id : Str) (r : Ring)
    → IsRing r
    → mem id (lookup_hash h replicas r.tokens) ≡ false
    → lookup_hash h replicas (remove_node id r).tokens ≡ lookup_hash h replicas r.tokens
unfolding remove_node
lookup_hash-remove_node h replicas id r w absent =
    let before = lookup_hash-preference h replicas r.tokens w.ascending in
    lookup_hash-preference h replicas (filter (other id) r.tokens)
      (filter-Ascending (other id) r.tokens w.ascending)
    ∙ ap (take (pos_part replicas)) (preference-remove h id r.tokens)
    ∙ take-filter_absent id (pos_part replicas) (preference h r.tokens) (rw before at absent)
    ∙ sym before

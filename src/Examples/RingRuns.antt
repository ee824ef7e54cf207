-- ===== src/Examples/RingRuns.antt =====
-- The ring of internal/chash/ring.go with three nodes and four tokens.
use tritontube.Base.{
  itoa, ◌==◌, if◌then◌else◌, ℕ, Str, lit, List, [], ◌∷◌, ◌≡◌, refl, arith, pos, take, str_eq,
  lookup, insert,
}
use tritontube.Base.Sort.{Ascending, IsWeakOrder, SliceSort, insertion_sort, sort_by}
use tritontube.Chash.{
  big_endian, hash, vnode, append_vnodes, add_node, Token, Ring, hash_less, lookup_hash, walk,
  start, remove_node,
}
use tritontube.Chash.Search.{search}
use tritontube.Chash.Preference.{preference}
use tritontube.Chash.Lookup.{lookup_hash-preference}
use tritontube.Chash.Nodes.{IsRing, lookup_hash-remove_node}
use tritontube.Chash.Joins.{lookup_hash-add_node}

abbrev token : ℕ → Str → Token
token h n = record { hash = h; node = n }

abbrev four : List Token
four = token 10 (lit "a") ∷ token 20 (lit "b") ∷ token 30 (lit "a") ∷ token 40 (lit "c") ∷ []

abbrev ring : Ring
ring = record { vnodes = pos 2; tokens = four }

four-Ascending : Ascending hash_less four
four-Ascending = ground arith

ring-IsRing : IsRing ring
ring-IsRing = record { vnodes_pos = refl; ascending = four-Ascending }

lookup_runs : lookup_hash 25 (pos 2) four ≡ lit "a" ∷ lit "c" ∷ []
unfolding lookup_hash walk start search lookup insert str_eq
lookup_runs = refl

wraps : lookup_hash 41 (pos 5) four ≡ lit "a" ∷ lit "b" ∷ lit "c" ∷ []
unfolding lookup_hash walk start search lookup insert str_eq
wraps = refl

lookup_hash-preference_example : lookup_hash 25 (pos 2) four ≡ take 2 (preference 25 four)
lookup_hash-preference_example = lookup_hash-preference 25 (pos 2) four four-Ascending

lookup_hash-remove_node_example :
    lookup_hash 25 (pos 2) (remove_node (lit "b") ring).tokens ≡ lookup_hash 25 (pos 2) four
unfolding lookup_hash walk start search lookup insert str_eq
lookup_hash-remove_node_example = lookup_hash-remove_node 25 (pos 2) (lit "b") ring ring-IsRing refl

-- A stand-in for SHA-1, and a sort.
abbrev digest : Str → List ℕ
digest s = s

pub hash_less-IsWeakOrder : IsWeakOrder hash_less
hash_less-IsWeakOrder = record { asymm = λ a b h. ground arith; trans = λ a b c p q. ground arith }

abbrev by_hash : SliceSort hash_less
by_hash = insertion_sort hash_less hash_less-IsWeakOrder

abbrev owner : ℕ → Str
owner h = if h == 20 then lit "b" else (if h == 40 then lit "c" else lit "a")

lookup_hash-add_node_example :
    lookup_hash 5 (pos 2) (add_node digest by_hash (lit "d") ring).tokens
    ≡ lookup_hash 5 (pos 2) four
unfolding lookup_hash walk start search lookup insert str_eq add_node append_vnodes vnode hash
    big_endian itoa insertion_sort sort_by
lookup_hash-add_node_example =
    lookup_hash-add_node digest by_hash (lit "d") ring owner 5 (pos 2) ring-IsRing
      (refl, (refl, (refl, (refl, tt)))) refl refl

-- ===== src/Chash.antt =====
-- internal/chash/ring.go: the consistent hash ring. SHA-1 and the order in which `sort.Slice`
-- leaves equal hashes are parameters.
pub mod Search
pub mod Lookup
pub mod Nodes
pub mod Joins
pub mod Rotation
pub mod Preference
use tritontube.Base.{
  is_some, ℕ, zero, suc, ◌+◌, ◌-◌, ◌*◌, ◌%◌, Str, lit, itoa, str_eq, ℤ, pos, negsuc, pos_part,
  is_pos, Bool, true, false, not, ◌&&◌, List, [], ◌∷◌, ◌++◌, Option, none, some, Map, lookup,
  insert, ltb, leb, length, get_or, take, filter, if◌then◌else◌, ◌==◌,
}
use tritontube.Base.Sort.{SliceSort}
use Search.{search}

-- A virtual node: `Hash` is a uint64.
pub record Token : Type 0 where
  pub hash : ℕ
  pub node : Str

pub record Ring : Type 0 where
  pub vnodes : ℤ
  pub tokens : List Token

-- `r.tokens[i].Hash < r.tokens[j].Hash`
abbrev pub hash_less : Token → Token → Bool
hash_less s t = ltb s.hash t.hash

unfoldable pub new_ring : ℤ → Ring
new_ring vnodes = record { vnodes = if is_pos vnodes then vnodes else pos 100; tokens = [] }

-- binary.BigEndian.Uint64: the first byte is the highest.
unfoldable pub big_endian : ℕ → List ℕ → ℕ
big_endian acc [] = acc
big_endian acc (b ∷ bs) = big_endian (acc * 256 + b) bs

-- `RemoveNode`: the tokens of other nodes, in their order.
unfoldable pub remove_node : Str → Ring → Ring
remove_node id r = record r { tokens = filter (λ t. not (str_eq t.node id)) r.tokens }

-- `Tokens` copies the slice.
unfoldable pub tokens_copy : Ring → List Token
tokens_copy r = r.tokens

-- An element out of range: `lookup` reads at an index modulo the length, which is in range.
abbrev pub no_token : Token
no_token = record { hash = 0; node = [] }

-- The loop of `Lookup`, with the rounds left until `k` is the number of tokens.
unfoldable pub walk : List Token → ℕ → ℕ → ℕ → ℕ → Map (Unit {0}) → List Str → List Str
walk tokens i replicas zero k seen out = out
walk tokens i replicas (suc rounds) k seen out =
    let n = (get_or tokens ((i + k) % length tokens) no_token).node in
    let next = walk tokens i replicas rounds (k + 1) seen out in
    let taken = walk tokens i replicas rounds (k + 1) (insert n tt seen) (out ++ n ∷ []) in
    if ltb (length out) replicas then (if is_some (lookup n seen) then next else taken) else out

-- The position where `Lookup` starts: the first token at or after the hash, or the first token.
unfoldable pub start : ℕ → List Token → ℕ
start h tokens =
    let i = search (length tokens) (λ i. leb h (get_or tokens i no_token).hash) in
    if i == length tokens then 0 else i

-- The body of `Lookup` after the hash of the key is known.
unfoldable pub lookup_hash : ℕ → ℤ → List Token → List Str
lookup_hash h replicas tokens =
    if is_pos replicas && ltb 0 (length tokens)
    then walk tokens (start h tokens) (pos_part replicas) (length tokens) 0 [] []
    else []

module _ (sha1 : Str → List ℕ) where
  -- The first eight bytes of the SHA-1 digest.
  unfoldable pub hash : Str → ℕ
  unfolding big_endian
  hash b = big_endian 0 (take 8 (sha1 b))

  -- The virtual node number `i` of a node.
  unfoldable pub vnode : Str → ℕ → Token
  unfolding hash
  vnode id i = record { hash = hash (id ++ (lit "#" ++ itoa i)); node = id }

  -- The loop of `AddNode`, with the rounds left until `i` is `vnodes`.
  unfoldable pub append_vnodes : Str → ℕ → ℕ → List Token → List Token
  unfolding vnode
  append_vnodes id zero i tokens = tokens
  append_vnodes id (suc rounds) i tokens =
      append_vnodes id rounds (i + 1) (tokens ++ vnode id i ∷ [])

  unfoldable pub add_node : SliceSort hash_less → Str → Ring → Ring
  unfolding append_vnodes
  add_node s id r = record r { tokens = s.sort (append_vnodes id (pos_part r.vnodes) 0 r.tokens) }

  unfoldable pub lookup_key : Str → ℤ → Ring → List Str
  unfolding lookup_hash
  lookup_key key replicas r = lookup_hash (hash key) replicas r.tokens

-- ===== src/Cluster.antt =====
-- internal/storage/manager.go: the ring manager, which keeps the consistent hash ring in etcd.
-- JSON, the clock, SHA-1 and the order of equal elements after `sort.Slice` are parameters.
pub mod Watch
pub mod Sync
pub mod Follow
pub mod Members
pub mod Built
pub mod Race
use tritontube.Base.{
  ℕ, ◌+◌, Str, lit, itoa, str_eq, str_lt, Int64, ℤ, pos, inc64, is_pos, Bool, true, false, List, [],
  ◌∷◌, ◌++◌, map, Option, none, some, is_some, Map, lookup, insert, delete, ltb, length,
  if◌then◌else◌, ◌==◌,
}
use tritontube.Base.Sort.{SliceSort, sort_by}
use tritontube.Chash.{Token, Ring, hash_less, new_ring, add_node, tokens_copy, lookup_key}
use tritontube.Etcd
use tritontube.Etcd.{
  Client, EtcdError, Result, ok, err, TxnResponse, KeyValue, WatchEvent, WatchResponse, EventType,
  put_event, delete_event,
}

pub record NodeDescriptor : Type 0 where
  pub id : Str
  pub address : Str
  pub capacity_bytes : Int64
  pub available_bytes : Int64
  pub updated_at : Str

pub record VirtualNodeAssignment : Type 0 where
  pub id : Str
  pub token : ℕ
  pub node_id : Str

-- A nil map of nodes and an empty one are the empty map: the code reads both alike.
pub record RingState : Type 0 where
  pub version : Int64
  pub nodes : Map NodeDescriptor
  pub tokens : List VirtualNodeAssignment

-- The etcd client is shared with others, so the operations take and return its state.
pub record RingManager : Type 0 where
  pub ring : Ring
  pub state : RingState
  pub prefix : Str
  pub vnodes : ℤ
  pub last_revision : Int64

pub data ManagerError : Type 0 where
  etcd_required node_id_required decode_failed encode_failed : ManagerError
  from_etcd : EtcdError → ManagerError

pub data Answer {ℓ} (A : Type ℓ) : Type ℓ where
  done : A → Answer A
  failed : ManagerError → Answer A

pub record RingManagerConfig : Type 0 where
  pub etcd : Option Client
  pub prefix : Str
  pub virtual_nodes : ℤ

pub record RingEvent : Type 0 where
  pub version : Int64
  pub assignments : List VirtualNodeAssignment

-- The test of the second `sort.Slice` of `rebuildLocked`
abbrev pub assignment_less : VirtualNodeAssignment → VirtualNodeAssignment → Bool
assignment_less a b = if a.token == b.token then str_lt a.id b.id else ltb a.token b.token

unfoldable pub ring_key : Str → Str
ring_key prefix = prefix ++ lit "/ring"

-- `counter[node]`, 0 if it is missing
abbrev pub count_of : Str → Map ℕ → ℕ
count_of node counter = elim (lookup node counter) [ none ↦ 0 | some n ↦ n ]

-- The loop over the tokens: each node's tokens are numbered in the order of the ring.
unfoldable pub number_tokens : List Token → Map ℕ → List VirtualNodeAssignment
number_tokens [] counter = []
number_tokens (tok ∷ toks) counter =
    let idx = count_of tok.node counter in
    record { id = tok.node ++ (lit "#" ++ itoa idx); token = tok.hash; node_id = tok.node }
    ∷ number_tokens toks (insert tok.node (idx + 1) counter)

-- `sort.Strings` of the keys of a map
unfoldable pub sorted_ids : Map NodeDescriptor → List Str
unfolding sort_by
sorted_ids nodes = sort_by str_lt (map (λ (id, node). id) nodes)

-- The defaults of `NewRingManager`
unfoldable pub configured_prefix : Str → Str
configured_prefix prefix = if ltb 0 (length prefix) then prefix else lit "/storage/cluster"

unfoldable pub configured_vnodes : ℤ → ℤ
configured_vnodes vnodes = if is_pos vnodes then vnodes else pos 128

-- A manager before `bootstrap`
abbrev pub empty_manager : Str → ℤ → RingManager
empty_manager prefix vnodes = record {
  ring = record { vnodes = vnodes; tokens = [] };
  state = record { version = pos 0; nodes = []; tokens = [] };
  prefix = prefix;
  vnodes = vnodes;
  last_revision = pos 0;
}

-- `Assignments`: a copy
unfoldable pub assignments : RingManager → List VirtualNodeAssignment × Int64
assignments m = (m.state.tokens, m.state.version)

abbrev pub node_id_less : NodeDescriptor → NodeDescriptor → Bool
node_id_less a b = str_lt a.id b.id

-- `Nodes`
unfoldable pub nodes : SliceSort node_id_less → RingManager → List NodeDescriptor
nodes s m = s.sort (map (λ (id, node). node) m.state.nodes)

abbrev pub bump : RingManager → RingManager
bump m = record m { state = record m.state { version = inc64 m.state.version } }

-- The end of `persistLocked`: what etcd answered
unfoldable pub persisted :
    RingManager → Client × Result TxnResponse → (RingManager × Client) × Answer Int64
persisted m (c, err e) = ((m, c), failed (from_etcd e))
persisted m (c, ok resp) = ((record m { last_revision = resp.revision }, c), done m.state.version)

-- `Lookup`
unfoldable pub replicas_of : (Str → List ℕ) → Str → ℤ → RingManager → List Str
unfolding lookup_key
replicas_of sha1 key replicas m = lookup_key sha1 key replicas m.ring

module _ (sha1 : Str → List ℕ) (by_hash : SliceSort hash_less)
    (by_token : SliceSort assignment_less) where
  -- The loop that adds the nodes to the new ring
  unfoldable pub add_nodes : List Str → Ring → Ring
  unfolding add_node
  add_nodes [] r = r
  add_nodes (id ∷ ids) r = add_nodes ids (add_node sha1 by_hash id r)

  unfoldable pub build_ring : ℤ → Map NodeDescriptor → Ring
  unfolding add_nodes new_ring sorted_ids
  build_ring vnodes nodes = add_nodes (sorted_ids nodes) (new_ring vnodes)

  -- `rebuildLocked`
  unfoldable pub rebuild : RingManager → RingManager
  unfolding build_ring tokens_copy number_tokens
  rebuild m =
      let ring = build_ring m.vnodes m.state.nodes in
      record m {
        ring = ring;
        state = record m.state { tokens = by_token.sort (number_tokens (tokens_copy ring) []) };
      }

  -- `applyState`
  unfoldable pub apply_state : RingState → RingManager → RingManager
  unfolding rebuild
  apply_state state m = rebuild (record m { state = state })

  -- `json.Marshal` and `json.Unmarshal` of the state, `none` where they fail
  module _ (encode : RingState → Option Str) (decode : Str → Option RingState) where
    -- `bootstrap` once the state is decoded
    unfoldable pub bootstrap_state : Option RingState → Int64 → RingManager → Answer RingManager
    unfolding rebuild
    bootstrap_state none revision m = failed decode_failed
    bootstrap_state (some state) revision m =
        done (rebuild (record m { state = state; last_revision = revision }))

    -- The rest of `bootstrap` at the key-value pairs that etcd returned
    unfoldable pub bootstrap_from : List KeyValue → RingManager → Answer RingManager
    unfolding bootstrap_state new_ring
    bootstrap_from [] m = done (record m { ring = new_ring m.vnodes })
    bootstrap_from (kv ∷ kvs) m = bootstrap_state (decode kv.value) kv.mod_revision m

    unfoldable pub bootstrap : RingManager → Client → Answer RingManager
    unfolding bootstrap_from ring_key Etcd.get
    bootstrap m c = bootstrap_from (Etcd.get c (ring_key m.prefix) false).kvs m

    unfoldable pub new_ring_manager : RingManagerConfig → Answer RingManager
    unfolding bootstrap configured_prefix configured_vnodes
    new_ring_manager cfg = elim cfg.etcd [
      | none ↦ failed etcd_required
      | some c ↦
          bootstrap
            (empty_manager (configured_prefix cfg.prefix) (configured_vnodes cfg.virtual_nodes)) c
    ]

    -- `persistLocked` once the state is encoded
    unfoldable pub persist_text :
        Option Str → RingManager → Client → (RingManager × Client) × Answer Int64
    unfolding persisted ring_key Etcd.put
    persist_text none m c = ((m, c), failed encode_failed)
    persist_text (some text) m c = persisted m (Etcd.put (ring_key m.prefix) text c)

    -- `persistLocked`, with the version that its callers return after it
    unfoldable pub persist : RingManager → Client → (RingManager × Client) × Answer Int64
    unfolding persist_text
    persist m c = persist_text (encode (bump m).state) (bump m) c

    -- `UpsertNode` at the time `now`
    unfoldable pub upsert_node :
        Str → NodeDescriptor → RingManager → Client → (RingManager × Client) × Answer Int64
    unfolding persist rebuild insert
    upsert_node now node m c =
        let stamped = record node { updated_at = now } in
        let state = record m.state { nodes = insert node.id stamped m.state.nodes } in
        if ltb 0 (length node.id)
        then persist (rebuild (record m { state = state })) c
        else ((m, c), failed node_id_required)

    -- `RemoveNode`
    unfoldable pub remove_node : Str → RingManager → Client → (RingManager × Client) × Answer Int64
    unfolding persist rebuild delete
    remove_node id m c =
        let state = record m.state { nodes = delete id m.state.nodes } in
        if ltb 0 (length id)
        then (if is_some (lookup id m.state.nodes)
            then persist (rebuild (record m { state = state })) c
            else ((m, c), done m.state.version))
        else ((m, c), failed node_id_required)

-- ===== src/Cluster/Sync.antt =====
-- Managers that share one etcd (internal/storage/manager.go): what one of them writes, another
-- reads when it starts and when it watches.
use tritontube.Base.{
  lookup, is_some, insert, delete, ℤ, ap₂, ◌∙◌, arith, length, ap, ltb, ◌∷◌, is_pos, [], ◌≢◌, some,
  Option, false, [], ℕ, inc64, true, List, Str, refl, ◌≡◌,
}
use tritontube.Etcd
use tritontube.Etcd.{event_of_put, Client, ok}
use tritontube.Etcd.Reads.{get-put}
use tritontube.Cluster.{
  upsert_node, remove_node, NodeDescriptor, configured_vnodes, configured_prefix, empty_manager,
  bootstrap_state, persist_text, bootstrap_from, done, ring_key, persisted, bootstrap, persist,
  new_ring_manager, rebuild, hash_less, SliceSort, RingManager, RingState, bump, assignment_less,
}

given_prefix : (s : Str) → s ≢ [] → configured_prefix s ≡ s
unfolding configured_prefix
given_prefix [] h = absurd (h refl)
given_prefix (a ∷ s) h = ground arith

given_vnodes : (n : ℤ) → is_pos n ≡ true → configured_vnodes n ≡ n
unfolding configured_vnodes
given_vnodes n h = rw h refl

pub length_pos : (s : Str) → s ≢ [] → ltb 0 (length s) ≡ true
length_pos [] h = absurd (h refl)
length_pos (a ∷ s) h = ground arith

abbrev pub with_node : Str → NodeDescriptor → RingManager → RingManager
with_node now node m = record m {
  state = record m.state {
    nodes = insert node.id (record node { updated_at = now }) m.state.nodes;
  };
}

abbrev pub without_node : Str → RingManager → RingManager
without_node id m = record m { state = record m.state { nodes = delete id m.state.nodes } }

module _ (sha1 : Str → List ℕ) (by_hash : SliceSort hash_less)
    (by_token : SliceSort assignment_less) where
  -- The manager after a change of the nodes that etcd took.
  abbrev pub written : RingManager → Client → RingManager
  written m c = record (bump (rebuild sha1 by_hash by_token m)) { last_revision = inc64 c.revision }

  module _ (encode : RingState → Option Str) (decode : Str → Option RingState) where
    pub persist_lem :
        (m : RingManager) (c : Client) (text : Str)
        → encode (bump m).state ≡ some text
        → persist sha1 by_hash by_token encode decode m c ≡ (
          (
            record (bump m) { last_revision = inc64 c.revision },
            (Etcd.put (ring_key m.prefix) text c).0,
          ),
          done (inc64 m.state.version),
        )
    unfolding persist persist_text persisted Etcd.put Etcd.commit
    persist_lem m c text e =
        ap (λ o. persist_text sha1 by_hash by_token encode decode o (bump m) c) e

    start_lem :
        (m : RingManager) (c : Client) (text : Str)
        → m.prefix ≢ []
        → is_pos m.vnodes ≡ true
        → decode text ≡ some (written m c).state
        → new_ring_manager sha1 by_hash by_token encode decode (record {
          etcd = some (Etcd.put (ring_key m.prefix) text c).0;
          prefix = m.prefix;
          virtual_nodes = m.vnodes;
        })
          ≡ done (written m c)
    unfolding new_ring_manager bootstrap bootstrap_from bootstrap_state rebuild
    start_lem m c text p v d =
        ap₂
          (λ x y.
            bootstrap sha1 by_hash by_token encode decode (empty_manager x y)
              (Etcd.put (ring_key m.prefix) text c).0)
          (given_prefix m.prefix p) (given_vnodes m.vnodes v)
        ∙ (ap
            (λ kvs.
              bootstrap_from sha1 by_hash by_token encode decode kvs
                (empty_manager m.prefix m.vnodes))
            (get-put (ring_key m.prefix) text c).1)
        ∙ ap
            (λ o.
              bootstrap_state sha1 by_hash by_token encode decode o (inc64 c.revision)
                (empty_manager m.prefix m.vnodes))
            d

    -- A node that joins, or reports again, with an id, at a manager with a prefix and a positive
    -- number of virtual nodes: the manager moves to the next version, and one that starts on that
    -- etcd with the same configuration is in the same state, ring and revision included. JSON must
    -- encode this state and decode it again.
    pub upsert_node-new_ring_manager :
        (now : Str) (node : NodeDescriptor) (m : RingManager) (c : Client) (text : Str)
        → node.id ≢ []
        → m.prefix ≢ []
        → is_pos m.vnodes ≡ true
        → let m' : RingManager = written (with_node now node m) c in
          encode (bump (rebuild sha1 by_hash by_token (with_node now node m))).state ≡ some text
          → decode text ≡ some m'.state
          → let r = upsert_node sha1 by_hash by_token encode decode now node m c in
            (r.1 ≡ done (inc64 m.state.version))
            × (r.0.0 ≡ m')
            × (new_ring_manager sha1 by_hash by_token encode decode
                  (record { etcd = some r.0.1; prefix = m.prefix; virtual_nodes = m.vnodes })
                ≡ done m')
    unfolding upsert_node rebuild
    upsert_node-new_ring_manager now node m c text n p v e d =
        rw
          (
            length_pos node.id n,
            persist_lem (rebuild sha1 by_hash by_token (with_node now node m)) c text e,
          )
          (refl, refl, start_lem (with_node now node m) c text p v d)

    -- A node that is removed by its id, at a manager with a prefix and a positive number of
    -- virtual nodes: if it is not there, nothing changes; else the manager moves to the next
    -- version, and one that starts on that etcd with the same configuration is in the same state.
    -- JSON must encode this state and decode it again.
    pub remove_node-new_ring_manager :
        (id : Str) (m : RingManager) (c : Client) (text : Str)
        → id ≢ []
        → m.prefix ≢ []
        → is_pos m.vnodes ≡ true
        → let m' : RingManager = written (without_node id m) c in
          encode (bump (rebuild sha1 by_hash by_token (without_node id m))).state ≡ some text
          → decode text ≡ some m'.state
          → let r = remove_node sha1 by_hash by_token encode decode id m c in
            (is_some (lookup id m.state.nodes) ≡ false → r ≡ ((m, c), done m.state.version))
            × (is_some (lookup id m.state.nodes) ≡ true
                → (r.1 ≡ done (inc64 m.state.version))
                  × (r.0.0 ≡ m')
                  × (new_ring_manager sha1 by_hash by_token encode decode
                        (record { etcd = some r.0.1; prefix = m.prefix; virtual_nodes = m.vnodes })
                      ≡ done m'))
    unfolding remove_node rebuild
    remove_node-new_ring_manager id m c text n p v e d = (
      λ h. rw (length_pos id n, h) refl,
      λ h.
          rw
            (
              length_pos id n,
              h,
              persist_lem (rebuild sha1 by_hash by_token (without_node id m)) c text e,
            )
            (refl, refl, start_lem (without_node id m) c text p v d),
    )

-- ===== src/Cluster/Follow.antt =====
-- A ring manager that watches another one's ring in etcd (internal/storage/manager.go).
use tritontube.Base.{
  ◌++◌, lit, has_prefix-append, ◌∙◌, ap, str_eq_refl, ◌∷◌, [], ◌≢◌, some, Option, [], ℕ, inc64,
  has_prefix, true, List, Int64, Str, refl, ◌≡◌,
}
use tritontube.Etcd
use tritontube.Etcd.{event_of_put, Client, ok}
use tritontube.Cluster.{
  apply_state, WatchResponse, RingEvent, upsert_node, NodeDescriptor, ring_key, rebuild, hash_less,
  SliceSort, RingManager, RingState, bump, assignment_less,
}
use tritontube.Cluster.Watch.{take_state, handle_event, handle_events, watch_run}
use tritontube.Cluster.Sync.{written, with_node, length_pos, persist_lem}

abbrev put_response : Str → Str → Client → WatchResponse
put_response key value c = record {
  events = event_of_put key value c ∷ [];
  revision = inc64 c.revision;
}

-- The loops of `Watch` around one event.
abbrev single : RingManager × List RingEvent → RingManager × List RingEvent
single (m, sent) = (m, (sent ++ []) ++ [])

-- A subscriber that has read everything finds exactly the event of the put.
delivered :
    (key value prefix : Str) (id : Int64) (c : Client)
    → has_prefix key prefix ≡ true
    → c.watchers ≡ (id, record { prefix = prefix; ch = [] }) ∷ []
    → (Etcd.put key value c).0.watchers
      ≡ (
        id,
        record {
          prefix = prefix;
          ch = record { events = event_of_put key value c ∷ []; revision = inc64 c.revision } ∷ [];
        },
      )
        ∷ []
unfolding Etcd.put Etcd.commit
delivered key value prefix id c p e = rw (e, p) refl

module _ (sha1 : Str → List ℕ) (by_hash : SliceSort hash_less)
    (by_token : SliceSort assignment_less) (encode : RingState → Option Str)
    (decode : Str → Option RingState) where
  handled :
      (m f : RingManager) (c : Client) (text : Str)
      → f.prefix ≡ m.prefix
      → handle_event sha1 by_hash by_token encode decode (event_of_put (ring_key m.prefix) text c) f
        ≡ take_state sha1 by_hash by_token encode decode (decode text) f
  unfolding handle_event
  handled m f c text p = rw (p, str_eq_refl (ring_key m.prefix)) refl

  follow_lem :
      (m f : RingManager) (c : Client) (text : Str)
      → f.prefix ≡ m.prefix
      → f.vnodes ≡ m.vnodes
      → decode text ≡ some (written sha1 by_hash by_token m c).state
      → watch_run sha1 by_hash by_token encode decode
          (put_response (ring_key m.prefix) text c ∷ [])
          f
        ≡ (
          record f {
            ring = (written sha1 by_hash by_token m c).ring;
            state = (written sha1 by_hash by_token m c).state;
          },
          record {
            version = inc64 m.state.version;
            assignments = (written sha1 by_hash by_token m c).state.tokens;
          }
              ∷ [],
        )
  unfolding watch_run handle_events take_state apply_state rebuild
  follow_lem m f c text p v d =
      ap single (handled m f c text p)
      ∙ ap (λ o. single (take_state sha1 by_hash by_token encode decode o f)) d
      ∙ rw v refl

  -- A manager that alone watches the prefix of another, has as many virtual nodes, and has read
  -- all events: the responses in its channel after the upsert of a node with an id bring it to
  -- the same state and the same ring, and it sends one ring event with the new version. JSON
  -- must encode this state and decode it again.
  pub watch_run-upsert_node :
      (now : Str) (node : NodeDescriptor) (m f : RingManager) (c : Client) (text : Str)
      → node.id ≢ []
      → f.prefix ≡ m.prefix
      → f.vnodes ≡ m.vnodes
      → (id : Int64) → c.watchers ≡ (id, record { prefix = m.prefix; ch = [] }) ∷ []
      → let m' : RingManager = written sha1 by_hash by_token (with_node now node m) c in
        encode (bump (rebuild sha1 by_hash by_token (with_node now node m))).state ≡ some text
        → decode text ≡ some m'.state
        → let c' : Client = (upsert_node sha1 by_hash by_token encode decode now node m c).0.1 in
          (ch : List WatchResponse) × (c'.watchers
            ≡ (id, record { prefix = m.prefix; ch = ch }) ∷ [])
          × (watch_run sha1 by_hash by_token encode decode ch f ≡ (
            record f { ring = m'.ring; state = m'.state },
            record { version = inc64 m.state.version; assignments = m'.state.tokens } ∷ [],
          ))
  unfolding upsert_node rebuild
  watch_run-upsert_node now node m f c text n fp fv id w e d =
      rw
        (
          length_pos node.id n,
          persist_lem sha1 by_hash by_token encode decode
              (rebuild sha1 by_hash by_token (with_node now node m)) c text e,
        )
        (
          put_response (ring_key m.prefix) text c ∷ [],
          delivered (ring_key m.prefix) text m.prefix id c
              (has_prefix-append m.prefix (lit "/ring")) w,
          follow_lem (with_node now node m) f c text fp fv d,
        )

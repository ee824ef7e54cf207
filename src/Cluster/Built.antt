-- ===== src/Cluster/Built.antt =====
-- What a manager (internal/storage/manager.go) goes through, and that its ring is always the one
-- that its registered nodes make.
use mathlib.Core.Path.{subst}
use tritontube.Base.{
  Int64, Bool-cases, inl, inr, ltb, ℕ, ◌≤◌, Str, str_eq, ℤ, pos_part, Bool, true, false, List, [],
  ◌∷◌, Option, none, some, is_some, lookup, if◌then◌else◌, ◌≡◌, refl, sym, ◌∙◌, length,
}
use tritontube.Base.Sort.{SliceSort}
use tritontube.Chash.{hash, lookup_key, hash_less}
use tritontube.Chash.Preference.{mem, nodes, NoDup}
use tritontube.Chash.Lookup.{lookup_hash_sound, lookup_hash_complete}
use tritontube.Etcd.{
  Client, WatchResponse, WatchEvent, Result, ok, err, TxnResponse, EventType, put_event,
  delete_event, KeyValue,
}
use tritontube.Etcd
use tritontube.Cluster.{
  RingEvent, configured_vnodes, empty_manager, configured_prefix, bootstrap_state, bootstrap_from,
  bootstrap, apply_state, persist, persisted, persist_text, bump, ring_key, NodeDescriptor,
  RingManager, RingState, RingManagerConfig, assignment_less, sorted_ids, add_nodes, build_ring,
  rebuild, new_ring_manager, upsert_node, remove_node, replicas_of, done,
}
use tritontube.Cluster.Sync.{with_node, without_node}
use tritontube.Cluster.Watch.{take_state, handle_event, handle_events, watch_run}
use tritontube.Cluster.Members.{build_ring-IsRing, mem-build_ring}

done-injective : {a b : RingManager} → done a ≡ done b → a ≡ b
done-injective e = cc

module _ (sha1 : Str → List ℕ) (by_hash : SliceSort hash_less)
    (by_token : SliceSort assignment_less) where
  -- The ring is the one that the registered nodes make.
  abbrev pub IsBuilt : RingManager → Type 0
  IsBuilt m = m.ring ≡ build_ring sha1 by_hash by_token m.vnodes m.state.nodes

  module _ (encode : RingState → Option Str) (decode : Str → Option RingState) where
    -- What may happen to a manager: a node joins or reports, a node leaves, or `Watch` reads
    -- responses. Etcd may be in any state, so others may write to it at any time.
    pub data Step : RingManager → RingManager → Type 0 where
      upsert :
          {m : RingManager} (now : Str) (node : NodeDescriptor) (c : Client)
          → Step m (upsert_node sha1 by_hash by_token encode decode now node m c).0.0
      remove :
          {m : RingManager} (id : Str) (c : Client)
          → Step m (remove_node sha1 by_hash by_token encode decode id m c).0.0
      watch :
          {m : RingManager} (resps : List WatchResponse)
          → Step m (watch_run sha1 by_hash by_token encode decode resps m).0

    pub data Reach : RingManager → Type 0 where
      start :
          {m : RingManager} (cfg : RingManagerConfig)
          → new_ring_manager sha1 by_hash by_token encode decode cfg ≡ done m
          → Reach m
      later : {m m' : RingManager} → Reach m → Step m m' → Reach m'

    persisted-IsBuilt :
        (m : RingManager) (p : Client × Result TxnResponse)
        → IsBuilt m
        → IsBuilt (persisted m p).0.0
    unfolding persisted
    persisted-IsBuilt m (c, ok resp) h = h
    persisted-IsBuilt m (c, err e) h = h

    persist-IsBuilt :
        (m : RingManager) (c : Client)
        → IsBuilt m
        → IsBuilt (persist sha1 by_hash by_token encode decode m c).0.0
    unfolding persist persist_text
    persist-IsBuilt m c h = by_text (encode (bump m).state)
      where
        by_text :
            (o : Option Str)
            → IsBuilt (persist_text sha1 by_hash by_token encode decode o (bump m) c).0.0
        by_text none = h
        by_text (some text) = persisted-IsBuilt (bump m) (Etcd.put (ring_key m.prefix) text c) h

    upsert_node-IsBuilt :
        (now : Str) (node : NodeDescriptor) (m : RingManager) (c : Client)
        → IsBuilt m
        → IsBuilt (upsert_node sha1 by_hash by_token encode decode now node m c).0.0
    unfolding upsert_node rebuild
    upsert_node-IsBuilt now node m c h = elim (Bool-cases (ltb 0 (length node.id))) [
      | inl given ↦
          rw given (persist-IsBuilt (rebuild sha1 by_hash by_token (with_node now node m)) c refl)
      | inr empty ↦ rw empty h
    ]

    remove_node-IsBuilt :
        (id : Str) (m : RingManager) (c : Client)
        → IsBuilt m
        → IsBuilt (remove_node sha1 by_hash by_token encode decode id m c).0.0
    unfolding remove_node rebuild
    remove_node-IsBuilt id m c h = elim (Bool-cases (ltb 0 (length id))) [
      | inl given ↦ elim (Bool-cases (is_some (lookup id m.state.nodes))) [
        | inl there ↦
            rw (given, there)
              (persist-IsBuilt (rebuild sha1 by_hash by_token (without_node id m)) c refl)
        | inr missing ↦ rw (given, missing) h
      ]
      | inr empty ↦ rw empty h
    ]

    take_state-IsBuilt :
        (o : Option RingState) (m : RingManager)
        → IsBuilt m
        → IsBuilt (take_state sha1 by_hash by_token encode decode o m).0
    unfolding take_state rebuild apply_state
    take_state-IsBuilt none m h = h
    take_state-IsBuilt (some state) m h = refl

    handle_event-IsBuilt :
        (evt : WatchEvent) (m : RingManager)
        → IsBuilt m
        → IsBuilt (handle_event sha1 by_hash by_token encode decode evt m).0
    unfolding handle_event
    handle_event-IsBuilt evt m h = chosen (str_eq evt.key (ring_key m.prefix)) _ (by_type evt.type)
      where
        by_type :
            (t : EventType)
            → IsBuilt
                (elim t as (λ _. RingManager × List RingEvent) [
                  | put_event ↦ take_state sha1 by_hash by_token encode decode (decode evt.value) m
                  | delete_event ↦ (m, [])
                ]).0
        by_type put_event = take_state-IsBuilt (decode evt.value) m h
        by_type delete_event = h

        chosen :
            (b : Bool) (p : RingManager × List RingEvent)
            → IsBuilt p.0
            → IsBuilt (if b then p else (m, [])).0
        chosen true p built = built
        chosen false p built = h

    handle_events-IsBuilt :
        (evts : List WatchEvent) (m : RingManager)
        → IsBuilt m
        → IsBuilt (handle_events sha1 by_hash by_token encode decode evts m).0
    unfolding handle_events
    handle_events-IsBuilt [] m h = h
    handle_events-IsBuilt (evt ∷ evts) m h =
        handle_events-IsBuilt evts (handle_event sha1 by_hash by_token encode decode evt m).0
          (handle_event-IsBuilt evt m h)

    watch_run-IsBuilt :
        (resps : List WatchResponse) (m : RingManager)
        → IsBuilt m
        → IsBuilt (watch_run sha1 by_hash by_token encode decode resps m).0
    unfolding watch_run
    watch_run-IsBuilt [] m h = h
    watch_run-IsBuilt (resp ∷ resps) m h =
        watch_run-IsBuilt resps (handle_events sha1 by_hash by_token encode decode resp.events m).0
          (handle_events-IsBuilt resp.events m h)

    bootstrap_state-IsBuilt :
        (o : Option RingState) (revision : Int64) (m m' : RingManager)
        → bootstrap_state sha1 by_hash by_token encode decode o revision m ≡ done m'
        → IsBuilt m'
    unfolding bootstrap_state rebuild
    bootstrap_state-IsBuilt none revision m m' e = cc
    bootstrap_state-IsBuilt (some state) revision m m' e = subst IsBuilt (done-injective e) refl

    bootstrap_from-IsBuilt :
        (kvs : List KeyValue) (prefix : Str) (vnodes : ℤ) (m' : RingManager)
        → bootstrap_from sha1 by_hash by_token encode decode kvs (empty_manager prefix vnodes)
          ≡ done m'
        → IsBuilt m'
    unfolding bootstrap_from build_ring sorted_ids add_nodes
    bootstrap_from-IsBuilt [] prefix vnodes m' e = subst IsBuilt (done-injective e) refl
    bootstrap_from-IsBuilt (kv ∷ kvs) prefix vnodes m' e =
        bootstrap_state-IsBuilt (decode kv.value) kv.mod_revision (empty_manager prefix vnodes) m' e

    start_over-IsBuilt :
        (etcd : Option Client) (prefix : Str) (vnodes : ℤ) (m : RingManager)
        → new_ring_manager sha1 by_hash by_token encode decode
            (record { etcd = etcd; prefix = prefix; virtual_nodes = vnodes })
          ≡ done m
        → IsBuilt m
    unfolding new_ring_manager bootstrap
    start_over-IsBuilt none prefix vnodes m e = cc
    start_over-IsBuilt (some c) prefix vnodes m e =
        bootstrap_from-IsBuilt (Etcd.get c (ring_key (configured_prefix prefix)) false).kvs
          (configured_prefix prefix) (configured_vnodes vnodes) m e

    Step-IsBuilt : {m m' : RingManager} → Step m m' → IsBuilt m → IsBuilt m'
    Step-IsBuilt {m} (upsert now node c) h = upsert_node-IsBuilt now node m c h
    Step-IsBuilt {m} (remove id c) h = remove_node-IsBuilt id m c h
    Step-IsBuilt {m} (watch resps) h = watch_run-IsBuilt resps m h

    Reach-IsBuilt : {m : RingManager} → Reach m → IsBuilt m
    Reach-IsBuilt {m} (start cfg e) = start_over-IsBuilt cfg.etcd cfg.prefix cfg.virtual_nodes m e
    Reach-IsBuilt (later r step) = Step-IsBuilt step (Reach-IsBuilt r)

    -- Over the nodes of a manager, however it was started and whatever it has done since, with any
    -- other writers in etcd: `Lookup` of a key names no node twice, no more nodes than asked for,
    -- and only registered ones; and it leaves a registered node out only if it has named as many
    -- nodes as asked for.
    pub Reach-replicas_of :
        (key : Str) (replicas : ℤ) (m : RingManager)
        → Reach m
        → let found = replicas_of sha1 key replicas m in
          NoDup found
          × (length found ≤ pos_part replicas)
          × ((n : Str) → mem n found ≡ true → is_some (lookup n m.state.nodes) ≡ true)
          × ((n : Str)
              → is_some (lookup n m.state.nodes) ≡ true
              → mem n found ≡ false
              → length found ≡ pos_part replicas)
    unfolding replicas_of lookup_key
    Reach-replicas_of key replicas m r =
        let ring = build_ring sha1 by_hash by_token m.vnodes m.state.nodes in
        let ascending =
          (build_ring-IsRing sha1 by_hash by_token m.vnodes m.state.nodes).ascending in
        let sound = lookup_hash_sound (hash sha1 key) replicas ring.tokens ascending in
        let registered : (n : Str) → mem n (nodes ring.tokens) ≡ is_some (lookup n m.state.nodes) =
          λ n. mem-build_ring sha1 by_hash by_token n m.vnodes m.state.nodes in
        rw (Reach-IsBuilt r) (
          sound.0,
          sound.1,
          (λ n found. sym (registered n) ∙ sound.2 n found),
          (λ n there.
              lookup_hash_complete (hash sha1 key) replicas ring.tokens n ascending
                (registered n ∙ there)),
        )

-- ===== src/Cluster/Race.antt =====
-- Two managers of internal/storage/manager.go that change the ring at once: `persistLocked` puts the
-- whole state with no condition on its revision.
use tritontube.Base.{
  ℕ, Str, str_eq, Int64, inc64, is_pos, true, false, List, [], Option, some, lookup, lookup-insert,
  ◌≡◌, ◌≢◌, refl, ◌∙◌, str_eq_refl,
}
use tritontube.Base.Sort.{SliceSort}
use tritontube.Chash.{hash_less}
use tritontube.Etcd.{Client}
use tritontube.Cluster.{
  NodeDescriptor, RingManager, RingState, assignment_less, upsert_node, new_ring_manager, rebuild,
  bump, done, Answer,
}
use tritontube.Cluster.Sync.{with_node, written, upsert_node-new_ring_manager}

module _ (sha1 : Str → List ℕ) (by_hash : SliceSort hash_less)
    (by_token : SliceSort assignment_less) (encode : RingState → Option Str)
    (decode : Str → Option RingState) where
  -- The states of two managers that were the same and have each let one node join, on one etcd.
  abbrev pub joins :
      Str
      → NodeDescriptor
      → NodeDescriptor
      → RingManager
      → Client
      → ((RingManager × Client) × Answer Int64) × ((RingManager × Client) × Answer Int64)
  joins now a b m c =
      let first = upsert_node sha1 by_hash by_token encode decode now a m c in
      (first, upsert_node sha1 by_hash by_token encode decode now b m first.0.1)

  -- For two managers in one state, with a prefix and a positive number of virtual nodes, at which two
  -- nodes with different ids join, one at each and at one time of the clock, before either manager has
  -- seen what the other wrote: both are told that the join succeeded, with the same version. A manager
  -- that starts on that etcd knows the second node; the first is known only as it was before, so if it
  -- was new, it is lost. JSON must encode the two states and decode both texts.
  pub joins_lost :
      (now : Str) (a b : NodeDescriptor) (m : RingManager) (c : Client) (text text' : Str)
      → a.id ≢ []
      → b.id ≢ []
      → str_eq b.id a.id ≡ false
      → m.prefix ≢ []
      → is_pos m.vnodes ≡ true
      → encode (bump (rebuild sha1 by_hash by_token (with_node now a m))).state ≡ some text
      → encode (bump (rebuild sha1 by_hash by_token (with_node now b m))).state ≡ some text'
      → decode text ≡ some (written sha1 by_hash by_token (with_node now a m) c).state
      → decode text' ≡ some (written sha1 by_hash by_token (with_node now b m) c).state
      → let r = joins now a b m c in
        (r.0.1 ≡ done (inc64 m.state.version))
        × (r.1.1 ≡ done (inc64 m.state.version))
        × ((later : RingManager) × (new_ring_manager sha1 by_hash by_token encode decode
                (record { etcd = some r.1.0.1; prefix = m.prefix; virtual_nodes = m.vnodes })
              ≡ done later)
            × (lookup b.id later.state.nodes ≡ some (record b { updated_at = now }))
            × (lookup a.id later.state.nodes ≡ lookup a.id m.state.nodes))
  unfolding rebuild
  joins_lost now a b m c text text' ga gb differ p v ea eb da db =
      let first =
        upsert_node-new_ring_manager sha1 by_hash by_token encode decode now a m c text ga p v ea
          da in
      let c' = (upsert_node sha1 by_hash by_token encode decode now a m c).0.1 in
      let second =
        upsert_node-new_ring_manager sha1 by_hash by_token encode decode now b m c' text' gb p v eb
          db in
      (
        first.0,
        second.0,
        (
          written sha1 by_hash by_token (with_node now b m) c',
          second.2,
          lookup-insert b.id b.id (record b { updated_at = now }) m.state.nodes
              ∙ rw (str_eq_refl b.id) refl,
          lookup-insert b.id a.id (record b { updated_at = now }) m.state.nodes ∙ rw differ refl,
        ),
      )

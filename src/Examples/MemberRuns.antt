-- ===== src/Examples/MemberRuns.antt =====
-- A manager of internal/storage/manager.go through its life, and two that change the ring at once.
use tritontube.Base.{
  if◌then◌else◌, ◌≤◌, Str, lit, Option, none, some, pos, inc64, true, false, is_some, lookup,
  insert, length, ◌≡◌, refl, str_eq,
}
use tritontube.Etcd.{new_client}
use tritontube.Chash.Preference.{mem, NoDup}
use tritontube.Cluster.{
  rebuild, RingState, NodeDescriptor, RingManager, upsert_node, rebuild, remove_node,
  new_ring_manager, replicas_of, done,
}
use tritontube.Cluster.Sync.{with_node, written}
use tritontube.Cluster.Built.{Reach, start, later, upsert, remove, Reach-replicas_of}
use tritontube.Cluster.Race.{joins, joins_lost}
use tritontube.Examples.ClusterRuns.{digest, by_hash, by_token, manager, node, now}

abbrev other : NodeDescriptor
other = record node { id = lit "b"; address = lit "h:2" }

-- A stand-in for JSON at the states that are written: the text is the node that has joined.
abbrev encode : RingState → Option Str
encode s = some (if is_some (lookup (lit "a") s.nodes) then lit "a" else lit "b")

abbrev decode : Str → Option RingState
decode s =
    some
      (written digest by_hash by_token
        (with_node now (if str_eq s (lit "a") then node else other) manager) new_client).state

-- One node has joined, and one that was never there was removed.
abbrev grown : RingManager
grown = (upsert_node digest by_hash by_token encode decode now node manager new_client).0.0

abbrev settled : RingManager
settled = (remove_node digest by_hash by_token encode decode (lit "b") grown new_client).0.0

settled-Reach : Reach digest by_hash by_token encode decode settled
unfolding new_ring_manager lookup
settled-Reach =
    later
      (later
        (start (record { etcd = some new_client; prefix = lit "/c"; virtual_nodes = pos 1 }) refl)
        (upsert now node new_client))
      (remove (lit "b") new_client)

Reach-replicas_of_example :
    let found = replicas_of digest (lit "k") (pos 2) settled in
    NoDup found
    × (length found ≤ 2)
    × ((n : Str) → mem n found ≡ true → is_some (lookup n settled.state.nodes) ≡ true)
    × ((n : Str)
        → is_some (lookup n settled.state.nodes) ≡ true
        → mem n found ≡ false
        → length found ≡ 2)
Reach-replicas_of_example =
    Reach-replicas_of digest by_hash by_token encode decode (lit "k") (pos 2) settled settled-Reach

joins_lost_example :
    let r = joins digest by_hash by_token encode decode now node other manager new_client in
    (r.0.1 ≡ done (pos 1))
    × (r.1.1 ≡ done (pos 1))
    × ((later : RingManager) × (new_ring_manager digest by_hash by_token encode decode
            (record { etcd = some r.1.0.1; prefix = lit "/c"; virtual_nodes = pos 1 })
          ≡ done later)
        × (lookup (lit "b") later.state.nodes ≡ some (record other { updated_at = now }))
        × (lookup (lit "a") later.state.nodes ≡ none))
unfolding inc64 lookup insert str_eq rebuild
joins_lost_example =
    joins_lost digest by_hash by_token encode decode now node other manager new_client (lit "a")
      (lit "b") (λ e. cc) (λ e. cc) refl (λ e. cc) refl refl refl refl refl

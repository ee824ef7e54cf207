-- ===== src/Examples/ClusterRuns.antt =====
-- Two ring managers of internal/storage/manager.go on one etcd, with one virtual node each.
use tritontube.Base.{
  map, ◌++◌, int_text, none, refl, ◌≡◌, ◌≡◌, arith, inc64, Str, lit, ℕ, List, [], ◌∷◌, Option, some,
  pos,
}
use tritontube.Base.Sort.{SliceSort, IsWeakOrder, insertion_sort}
use tritontube.Chash.{hash_less}
use tritontube.Etcd.{Client, new_client, WatchResponse}
use tritontube.Pgx.{Record}
use tritontube.Pgx.Listing.{key_less-IsWeakOrder}
use tritontube.Examples.RingRuns.{hash_less-IsWeakOrder}
use tritontube.Cluster.{
  RingEvent, new_ring_manager, done, upsert_node, empty_manager, assignment_less,
  VirtualNodeAssignment, RingState, NodeDescriptor, RingManager,
}
use tritontube.Storage.Types.{RebalancePlan}
use tritontube.Storage.Rebalancer.{
  MigrationExecutor, Rebalancer, Outcome, executor_of, run, run-Outcome, run-upsert_node,
}
use tritontube.Cluster.Watch.{watch_run}
use tritontube.Cluster.Follow.{watch_run-upsert_node}
use tritontube.Cluster.Sync.{upsert_node-new_ring_manager, with_node, written}

abbrev pub digest : Str → List ℕ
digest s = s

abbrev named : VirtualNodeAssignment → Record
named a = record { key = a.id; value = []; attributes = []; version = pos 0 }

pub assignment_less-IsWeakOrder : IsWeakOrder assignment_less
assignment_less-IsWeakOrder = record {
  asymm = λ a b h. ground (arith, key_less-IsWeakOrder.asymm (named a) (named b));
  trans = λ a b c p q. ground (arith, key_less-IsWeakOrder.trans (named a) (named b) (named c));
}

abbrev pub by_hash : SliceSort hash_less
by_hash = insertion_sort hash_less hash_less-IsWeakOrder

abbrev pub by_token : SliceSort assignment_less
by_token = insertion_sort assignment_less assignment_less-IsWeakOrder

abbrev pub manager : RingManager
manager = empty_manager (lit "/c") (pos 1)

abbrev pub node : NodeDescriptor
node = record {
  id = lit "a";
  address = lit "h:1";
  capacity_bytes = pos 9;
  available_bytes = pos 5;
  updated_at = [];
}

abbrev pub now : Str
now = lit "t1"

-- A stand-in for JSON at the one state that is written.
abbrev pub encode : RingState → Option Str
encode s = some (lit "{}")

abbrev pub joined : RingManager
joined = written digest by_hash by_token (with_node now node manager) new_client

abbrev pub decode : Str → Option RingState
decode s = some joined.state

upsert_node-new_ring_manager_example :
    let r = upsert_node digest by_hash by_token encode decode now node manager new_client in
    (r.1 ≡ done (pos 1))
    × (r.0.0 ≡ joined)
    × (new_ring_manager digest by_hash by_token encode decode
          (record { etcd = some r.0.1; prefix = lit "/c"; virtual_nodes = pos 1 })
        ≡ done joined)
unfolding inc64
upsert_node-new_ring_manager_example =
    upsert_node-new_ring_manager digest by_hash by_token encode decode now node manager new_client
      (lit "{}") (λ e. cc) (λ e. cc) refl refl refl

abbrev watched : Client
watched = record new_client { watchers = (pos 1, record { prefix = lit "/c"; ch = [] }) ∷ [] }

watch_run-upsert_node_example :
    let c' : Client =
      (upsert_node digest by_hash by_token encode decode now node manager watched).0.1 in
    (ch : List WatchResponse) × (c'.watchers ≡ (pos 1, record { prefix = lit "/c"; ch = ch }) ∷ [])
    × (watch_run digest by_hash by_token encode decode ch manager ≡ (
      record manager { ring = joined.ring; state = joined.state },
      record { version = pos 1; assignments = joined.state.tokens } ∷ [],
    ))
unfolding inc64
watch_run-upsert_node_example =
    watch_run-upsert_node digest by_hash by_token encode decode now node manager manager watched
      (lit "{}") (λ e. cc) refl refl (pos 1) refl refl refl

-- An executor that keeps the plans, and fails from the second on.
abbrev keep : MigrationExecutor (List RebalancePlan)
keep deadline plan [] = (plan ∷ [], none)
keep deadline plan (p ∷ ps) = (plan ∷ p ∷ ps, some (lit "full"))

abbrev rebalancer : Rebalancer (List RebalancePlan)
rebalancer = record { manager = some manager; executor = some keep; deadline = pos 0 }

abbrev ring_event : ℕ → RingEvent
ring_event n = record { version = pos n; assignments = [] }

abbrev three_events : RingManager → List RingEvent
three_events m = ring_event 1 ∷ ring_event 2 ∷ ring_event 3 ∷ []

run-Outcome_example :
    Outcome
      (executor_of rebalancer)
      (three_events manager)
      []
      (run (some rebalancer) three_events [])
run-Outcome_example = run-Outcome rebalancer manager three_events [] refl

run-upsert_node_example :
    let c' : Client =
      (upsert_node digest by_hash by_token encode decode now node manager watched).0.1 in
    (ch : List WatchResponse) × (c'.watchers ≡ (pos 1, record { prefix = lit "/c"; ch = ch }) ∷ [])
    × (run (some rebalancer) (λ g. (watch_run digest by_hash by_token encode decode ch g).1) []
        ≡ executor_of rebalancer
            (record {
              plan_id = lit "rebalance-" ++ int_text (inc64 (pos 0));
              ring_version = inc64 (pos 0);
              assignments =
                  map
                    (λ (a : VirtualNodeAssignment). record {
                      id = a.id;
                      token = a.token;
                      owner_node_id = a.node_id;
                    })
                    joined.state.tokens;
            })
            [])
unfolding inc64
run-upsert_node_example =
    run-upsert_node digest by_hash by_token encode decode now node manager manager watched
      (lit "{}") rebalancer [] refl (λ e. cc) refl refl (pos 1) refl refl refl

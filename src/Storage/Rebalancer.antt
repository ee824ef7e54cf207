-- ===== src/Storage/Rebalancer.antt =====
-- internal/storage/rebalance.go: the loop that makes a plan of each ring event. The channel of
-- events is the list of what it gives before it is closed or the context is cancelled; an executor
-- changes a state of its own.
use tritontube.Base.{
  map, Str, lit, int_text, Int64, ℤ, pos, is_pos, List, [], ◌∷◌, ◌++◌, Option, none, some, ℕ, inc64,
  if◌then◌else◌, ◌≡◌, ◌≢◌, refl, ap, ◌∙◌, ◌⊎◌, inl, inr,
}
use tritontube.Base.Sort.{SliceSort}
use tritontube.Chash.{hash_less}
use tritontube.Etcd.{Client, WatchResponse}
use tritontube.Cluster.{
  VirtualNodeAssignment, RingManager, RingState, RingEvent, NodeDescriptor, upsert_node,
  assignment_less, bump, rebuild,
}
use tritontube.Cluster.Sync.{written, with_node}
use tritontube.Cluster.Watch.{watch_run}
use tritontube.Cluster.Follow.{watch_run-upsert_node}
use tritontube.Storage.Types.{RebalancePlan}
use tritontube.Storage.Nodes.{plan_of}

-- An executor is given its deadline in nanoseconds.
abbrev pub MigrationExecutor : Type 0 → Type 0
MigrationExecutor X = ℤ → RebalancePlan → X → X × Option Str

-- `MigrationFunc.ExecutePlan`, of a function that may be nil
unfoldable pub execute_plan :
    {X : Type 0} → Option (MigrationExecutor X) → ℤ → RebalancePlan → X → X × Option Str
execute_plan none deadline plan x = (x, none)
execute_plan (some f) deadline plan x = f deadline plan x

pub record Rebalancer (X : Type 0) : Type 0 where
  pub manager : Option RingManager
  pub executor : Option (MigrationExecutor X)
  pub deadline : ℤ

-- The plan of an event
abbrev pub plan_of_event : RingEvent → RebalancePlan
plan_of_event evt = plan_of (lit "rebalance-" ++ int_text evt.version) evt.version evt.assignments

-- The deadline, five seconds if none is given
unfoldable pub deadline_of : ℤ → ℤ
deadline_of d = if is_pos d then d else pos 5000000000

module _ {X : Type 0} where
  -- The outcome of an event; `rest` is what follows.
  unfoldable pub after_plan : X × Option Str → (X → X × Option Str) → X × Option Str
  after_plan (x, some e) rest = (x, some e)
  after_plan (x, none) rest = rest x

  -- The loop of `Run`
  unfoldable pub run_events :
      (RebalancePlan → X → X × Option Str) → List RingEvent → X → X × Option Str
  unfolding after_plan
  run_events execute [] x = (x, none)
  run_events execute (evt ∷ evts) x =
      after_plan (execute (plan_of_event evt) x) (run_events execute evts)

  abbrev pub executor_of : Rebalancer X → RebalancePlan → X → X × Option Str
  executor_of r plan x = execute_plan r.executor (deadline_of r.deadline) plan x

  -- `Run`; a nil rebalancer is `none`.
  unfoldable pub run : Option (Rebalancer X) → (RingManager → List RingEvent) → X → X × Option Str
  unfolding run_events execute_plan deadline_of
  run none watch x = (x, some (lit "storage: rebalancer requires a ring manager"))
  run (some r) watch x = elim r.manager [
    | none ↦ (x, some (lit "storage: rebalancer requires a ring manager"))
    | some m ↦ run_events (executor_of r) (watch m) x
  ]

  -- The plans of the events are executed in order, each without an error, from a state to a state.
  pub data Executed (execute : RebalancePlan → X → X × Option Str)
      : List RingEvent → X → X → Type 0 where
    nothing : {x : X} → Executed execute [] x x
    next :
        {evt : RingEvent} {evts : List RingEvent} {x y z : X}
        → execute (plan_of_event evt) x ≡ (y, none)
        → Executed execute evts y z
        → Executed execute (evt ∷ evts) x z

  -- The run over all events succeeded, or it ended at the first plan that failed.
  abbrev pub Outcome :
      (RebalancePlan → X → X × Option Str) → List RingEvent → X → X × Option Str → Type 0
  Outcome execute events x r =
      (r.1 ≡ none) × Executed execute events x r.0
      ⊎ (done : List RingEvent) × (evt : RingEvent) × (later : List RingEvent) × (y : X) × (e : Str)
        × (events ≡ done ++ evt ∷ later)
        × Executed execute done x y
        × (execute (plan_of_event evt) y ≡ (r.0, some e))
        × (r.1 ≡ some e)

  after_plan-Outcome :
      (execute : RebalancePlan → X → X × Option Str) (evt : RingEvent) (evts : List RingEvent)
      (x : X) (step : X × Option Str)
      → execute (plan_of_event evt) x ≡ step
      → ((y : X) → Outcome execute evts y (run_events execute evts y))
      → Outcome execute (evt ∷ evts) x (after_plan step (run_events execute evts))
  unfolding after_plan
  after_plan-Outcome execute evt evts x (y, some e) h rest =
      inr ([], evt, evts, x, e, refl, nothing, h, refl)
  after_plan-Outcome execute evt evts x (y, none) h rest = elim (rest y) [
    | inl (good, all) ↦ inl (good, next h all)
    | inr (done, failed, later, z, e, split, before, fails, answer) ↦
        inr (evt ∷ done, failed, later, z, e, ap (λ l. evt ∷ l) split, next h before, fails, answer)
  ]

  run_events-Outcome :
      (execute : RebalancePlan → X → X × Option Str) (events : List RingEvent) (x : X)
      → Outcome execute events x (run_events execute events x)
  unfolding run_events
  run_events-Outcome execute [] x = inl (refl, nothing)
  run_events-Outcome execute (evt ∷ evts) x =
      after_plan-Outcome execute evt evts x (execute (plan_of_event evt) x) refl
        (run_events-Outcome execute evts)

  -- A rebalancer with a manager executes the plans of the ring events in their order, each once, and
  -- either succeeds when there are no more events, or ends with the error of the first plan that
  -- fails and executes none of the later ones.
  pub run-Outcome :
      (r : Rebalancer X) (m : RingManager) (watch : RingManager → List RingEvent) (x : X)
      → r.manager ≡ some m
      → Outcome (executor_of r) (watch m) x (run (some r) watch x)
  unfolding run
  run-Outcome r m watch x h = rw h (run_events-Outcome (executor_of r) (watch m) x)

  after_plan_done : (p : X × Option Str) → after_plan p (λ x. (x, none)) ≡ p
  unfolding after_plan
  after_plan_done (x, none) = refl
  after_plan_done (x, some e) = refl

  run_events_one :
      (execute : RebalancePlan → X → X × Option Str) (evt : RingEvent) (x : X)
      → run_events execute (evt ∷ []) x ≡ execute (plan_of_event evt) x
  unfolding run_events
  run_events_one execute evt x = after_plan_done (execute (plan_of_event evt) x)

module _ {X : Type 0} (sha1 : Str → List ℕ) (by_hash : SliceSort hash_less)
    (by_token : SliceSort assignment_less) (encode : RingState → Option Str)
    (decode : Str → Option RingState) where
  -- A rebalancer whose manager alone watches the prefix of another manager, has as many virtual
  -- nodes and has read all events: once the other manager upserts a node with an id, it executes
  -- exactly one plan. It bears the new version and, for each virtual node of the new ring in turn, its
  -- id, its token and the node that owns it. JSON must encode this ring and decode it again.
  pub run-upsert_node :
      (now : Str) (node : NodeDescriptor) (m f : RingManager) (c : Client) (text : Str)
      (r : Rebalancer X) (x : X)
      → r.manager ≡ some f
      → node.id ≢ []
      → f.prefix ≡ m.prefix
      → f.vnodes ≡ m.vnodes
      → (id : Int64) → c.watchers ≡ (id, record { prefix = m.prefix; ch = [] }) ∷ []
      → let m' : RingManager = written sha1 by_hash by_token (with_node now node m) c in
        encode (bump (rebuild sha1 by_hash by_token (with_node now node m))).state ≡ some text
        → decode text ≡ some m'.state
        → let c' : Client = (upsert_node sha1 by_hash by_token encode decode now node m c).0.1 in
          (ch : List WatchResponse) × (c'.watchers
            ≡ (id, record { prefix = m.prefix; ch = ch }) ∷ [])
          × (run (some r) (λ g. (watch_run sha1 by_hash by_token encode decode ch g).1) x
              ≡ executor_of r
                  (record {
                    plan_id = lit "rebalance-" ++ int_text (inc64 m.state.version);
                    ring_version = inc64 m.state.version;
                    assignments =
                        map
                          (λ (a : VirtualNodeAssignment). record {
                            id = a.id;
                            token = a.token;
                            owner_node_id = a.node_id;
                          })
                          m'.state.tokens;
                  })
                  x)
  unfolding run
  run-upsert_node now node m f c text r x h n fp fv id w e d =
      let follow =
        watch_run-upsert_node sha1 by_hash by_token encode decode now node m f c text n fp fv id w e
          d in
      (
        follow.0,
        follow.1,
        rw h (
            ap (λ p. run_events (executor_of r) p.1 x) follow.2
            ∙ run_events_one (executor_of r) _ x),
      )

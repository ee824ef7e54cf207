-- ===== src/AdminCommand.antt =====
-- cmd/storage-admin/main.go: a ring manager on an etcd of its own, which may start from a state file,
-- and a rebalancer that prints its plans. Flags and signals are left out.
use tritontube.Base.{
  ℕ, Str, lit, length, ltb, inc64, pos, ℤ, List, [], ◌∷◌, ◌++◌, Option, none, some, if◌then◌else◌,
  ◌≡◌, ap, ◌∙◌,
}
use tritontube.Base.Sort.{SliceSort}
use tritontube.Chash.{hash_less}
use tritontube.Etcd
use tritontube.Etcd.{Client, KeyValue, new_client}
use tritontube.Etcd.Reads.{get-put}
use tritontube.Cluster.{
  RingManager, RingState, RingEvent, Answer, done, failed, assignment_less, new_ring_manager,
  empty_manager, configured_prefix, configured_vnodes, ring_key, rebuild, bootstrap, bootstrap_from,
  bootstrap_state,
}
use tritontube.Storage.Types.{RebalancePlan}
use tritontube.Storage.Rebalancer.{MigrationExecutor, run}

unfoldable pub manager_ring_key : Str → Str
manager_ring_key prefix =
    (if ltb 0 (length prefix) then prefix else lit "/storage/cluster") ++ lit "/ring"

-- The etcd, with the text of the state file if there is one
unfoldable pub preload : Str → Option Str → Client
unfolding manager_ring_key Etcd.put
preload prefix none = new_client
preload prefix (some text) = (Etcd.put (manager_ring_key prefix) text new_client).0

-- The executor that prints: the plans so far, and the error of the print
abbrev pub printer : (RebalancePlan → Option Str) → MigrationExecutor (List RebalancePlan)
printer print_error deadline plan printed = (printed ++ plan ∷ [], print_error plan)

module _ (sha1 : Str → List ℕ) (by_hash : SliceSort hash_less)
    (by_token : SliceSort assignment_less) (encode : RingState → Option Str)
    (decode : Str → Option RingState) where
  -- The manager of the command
  unfoldable pub start_manager : Str → Option Str → Answer RingManager
  unfolding new_ring_manager preload
  start_manager prefix state_file =
      new_ring_manager sha1 by_hash by_token encode decode
        (record { etcd = some (preload prefix state_file); prefix = prefix; virtual_nodes = pos 0 })

  -- The plans that the command prints, or the error with which it ends
  unfoldable pub command_of :
      Answer RingManager
      → ℤ
      → (RebalancePlan → Option Str)
      → (RingManager → List RingEvent)
      → Answer (List RebalancePlan × Option Str)
  unfolding run
  command_of (failed e) deadline print_error watch = failed e
  command_of (done m) deadline print_error watch = done (
      run
        (some
          (record { manager = some m; executor = some (printer print_error); deadline = deadline }))
        watch [])

  -- With a state file, whose text decodes to a state, the manager starts on that state, whatever the
  -- prefix: the key that the command writes is the one that the manager reads.
  pub start_manager_lem :
      (prefix text : Str) (state : RingState)
      → decode text ≡ some state
      → start_manager prefix (some text)
        ≡ done (
            rebuild sha1 by_hash by_token
              (record (empty_manager (configured_prefix prefix) (pos 128)) {
                state = state;
                last_revision = inc64 (pos 0);
              }))
  unfolding start_manager new_ring_manager bootstrap bootstrap_from bootstrap_state preload
      manager_ring_key ring_key configured_prefix configured_vnodes
  start_manager_lem prefix text state h =
      let m = empty_manager (configured_prefix prefix) (pos 128) in
      ap (λ kvs. bootstrap_from sha1 by_hash by_token encode decode kvs m)
        (get-put (manager_ring_key prefix) text new_client).1
      ∙ ap (λ o. bootstrap_state sha1 by_hash by_token encode decode o (inc64 (pos 0)) m) h

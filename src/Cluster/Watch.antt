-- ===== src/Cluster/Watch.antt =====
-- `Watch` of internal/storage/manager.go: the goroutine that follows the ring in etcd.
use tritontube.Base.{Str, List, [], ◌∷◌, ◌++◌, Option, none, some, ℕ, str_eq, if◌then◌else◌}
use tritontube.Base.Sort.{SliceSort}
use tritontube.Chash.{hash_less}
use tritontube.Etcd.{WatchEvent, WatchResponse, put_event, delete_event}
use tritontube.Cluster.{RingManager, RingState, RingEvent, ring_key, apply_state, assignment_less}

module _ (sha1 : Str → List ℕ) (by_hash : SliceSort hash_less)
    (by_token : SliceSort assignment_less) (encode : RingState → Option Str)
    (decode : Str → Option RingState) where
  -- What the goroutine of `Watch` does with a decoded state: the manager after it, and the event
  -- it sends, if any.
  unfoldable pub take_state : Option RingState → RingManager → RingManager × List RingEvent
  unfolding apply_state
  take_state none m = (m, [])
  take_state (some state) m = (
    apply_state sha1 by_hash by_token state m,
    record { version = state.version; assignments = state.tokens } ∷ [],
  )

  -- The body of its loop over the events of a response
  unfoldable pub handle_event : WatchEvent → RingManager → RingManager × List RingEvent
  unfolding take_state ring_key
  handle_event evt m =
      let by_type : RingManager × List RingEvent = elim evt.type [
        | put_event ↦ take_state (decode evt.value) m
        | delete_event ↦ (m, [])
      ] in
      if str_eq evt.key (ring_key m.prefix) then by_type else (m, [])

  -- The loop over the events of one response
  unfoldable pub handle_events : List WatchEvent → RingManager → RingManager × List RingEvent
  unfolding handle_event
  handle_events [] m = (m, [])
  handle_events (evt ∷ evts) m =
      let (after, sent) = handle_event evt m in
      let (final, rest) = handle_events evts after in (final, sent ++ rest)

  -- The loop over the responses, on a channel that holds them, until it is closed
  unfoldable pub watch_run : List WatchResponse → RingManager → RingManager × List RingEvent
  unfolding handle_events
  watch_run [] m = (m, [])
  watch_run (resp ∷ resps) m =
      let (after, sent) = handle_events resp.events m in
      let (final, rest) = watch_run resps after in (final, sent ++ rest)

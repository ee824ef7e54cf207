-- ===== src/Etcd/Delivery.antt =====
-- `notifyWatchersLocked` of internal/metadata/etcdsim/etcdsim.go: what each subscription receives.
use tritontube.Base.{
  ℕ, ◌≤◌, Str, has_prefix, Int64, List, [], ◌∷◌, ◌++◌, append_assoc, append-nil, map, filter, take,
  take_all, take-append_full, length, length-append, ltb, arith, ◌≡◌, refl, ap, ap₂, sym, ◌∙◌,
  Bool-cases, inl, inr,
}
use tritontube.Etcd.{
  WatchEvent, WatchResponse, WatchSubscription, Client, channel_size, deliver, notify_watchers,
}

abbrev pub response : Int64 → WatchEvent → WatchResponse
response revision e = record { events = e ∷ []; revision = revision }

-- The events under a prefix, each in a response of its own.
abbrev pub responses : Int64 → Str → List WatchEvent → List WatchResponse
responses revision prefix events =
    map (response revision) (filter (λ e. has_prefix e.key prefix) events)

-- The subscription after the events: as many of them as the channel has room for.
unfoldable pub receive : Int64 → List WatchEvent → WatchSubscription → WatchSubscription
receive revision events w = record w {
  ch = take channel_size (w.ch ++ responses revision w.prefix events);
}

abbrev pub FitsChannel : WatchSubscription → Type 0
FitsChannel w = length w.ch ≤ channel_size

pub deliver-FitsChannel :
    (revision : Int64) (e : WatchEvent) (w : WatchSubscription)
    → FitsChannel w
    → FitsChannel (deliver revision e w)
unfolding deliver
deliver-FitsChannel revision e w h = ground (arith, length-append w.ch (response revision e ∷ []))

take-append_cut {ℓ} :
    {A : Type ℓ} (n : ℕ) (xs ys zs : List A) → length xs ≡ n → take n (xs ++ ys) ≡ take n (xs ++ zs)
take-append_cut n xs ys zs e = take-append_full n xs ys e ∙ sym (take-append_full n xs zs e)

-- One event and then the rest is all the events.
receive-deliver :
    (revision : Int64) (e : WatchEvent) (es : List WatchEvent) (w : WatchSubscription)
    → FitsChannel w
    → receive revision es (deliver revision e w) ≡ receive revision (e ∷ es) w
unfolding receive deliver
receive-deliver revision e es w h = elim (Bool-cases (has_prefix e.key w.prefix)) [
  | inl match ↦ elim (Bool-cases (ltb (length w.ch) channel_size)) [
    | inl room ↦
        rw (match, room)
          (ap (λ ch. record w { ch = take channel_size ch })
            (append_assoc w.ch (response revision e ∷ []) (responses revision w.prefix es)))
    | inr full ↦
        rw (match, full)
          (ap (λ ch. record w { ch = ch }) (take-append_cut channel_size w.ch _ _ (ground arith)))
  ]
  | inr other ↦ rw other
]

abbrev pub AllFit : List (Int64 × WatchSubscription) → Type 0
AllFit [] = Unit
AllFit ((id, w) ∷ ws) = FitsChannel w × AllFit ws

abbrev pub each_watcher :
    (WatchSubscription → WatchSubscription)
    → List (Int64 × WatchSubscription)
    → List (Int64 × WatchSubscription)
each_watcher f = map (λ (id, w). (id, f w))

pub AllFit-deliver :
    (revision : Int64) (e : WatchEvent) (ws : List (Int64 × WatchSubscription))
    → AllFit ws
    → AllFit (each_watcher (deliver revision e) ws)
AllFit-deliver revision e [] h = tt
AllFit-deliver revision e ((id, w) ∷ ws) h =
    (deliver-FitsChannel revision e w h.0, AllFit-deliver revision e ws h.1)

each-receive-deliver :
    (revision : Int64) (e : WatchEvent) (es : List WatchEvent)
    (ws : List (Int64 × WatchSubscription))
    → AllFit ws
    → each_watcher (receive revision es) (each_watcher (deliver revision e) ws)
      ≡ each_watcher (receive revision (e ∷ es)) ws
each-receive-deliver revision e es [] h = refl
each-receive-deliver revision e es ((id, w) ∷ ws) h =
    ap₂ (λ v vs. (id, v) ∷ vs) (receive-deliver revision e es w h.0)
      (each-receive-deliver revision e es ws h.1)

each-receive-none :
    (revision : Int64) (ws : List (Int64 × WatchSubscription))
    → AllFit ws
    → each_watcher (receive revision []) ws ≡ ws
unfolding receive
each-receive-none revision [] h = refl
each-receive-none revision ((id, w) ∷ ws) h =
    ap₂ (λ v vs. (id, v) ∷ vs)
      (ap (λ ch. record w { ch = ch })
        (ap (take channel_size) (append-nil w.ch) ∙ take_all channel_size w.ch h.0))
      (each-receive-none revision ws h.1)

-- If no channel holds more than its buffer, each subscription receives the events under its
-- prefix, in order, one to a response, up to the room in its channel; what does not fit is
-- dropped.
pub watchers-notify_watchers :
    (events : List WatchEvent) (c : Client)
    → AllFit c.watchers
    → (notify_watchers events c).watchers ≡ each_watcher (receive c.revision events) c.watchers
unfolding notify_watchers
watchers-notify_watchers [] c h = sym (each-receive-none c.revision c.watchers h)
watchers-notify_watchers (e ∷ es) c h =
    watchers-notify_watchers es _ (AllFit-deliver c.revision e c.watchers h)
    ∙ each-receive-deliver c.revision e es c.watchers h

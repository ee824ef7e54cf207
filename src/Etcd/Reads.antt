-- ===== src/Etcd/Reads.antt =====
-- `Get`, `Watch` and the channels of internal/metadata/etcdsim/etcdsim.go.
use tritontube.Base.{
  refl, str_eq_refl, lookup-insert, Str, str_eq, str_eq_iff, has_prefix, Int64, inc64, int_eq, Bool,
  true, false, not, List, [], ◌∷◌, none, some, Map, lookup, filter, map, any, if◌then◌else◌,
  is_some, arith, ◌≡◌, ap, Bool-cases, inl, inr,
}
use tritontube.Etcd.{
  put, KvPair, WatchEvent, WatchSubscription, Client, Txn, Result, ok, err, KeyValue, key_value,
  get, watch, remove_watcher, set_watcher, run_ops, finish, notify_watchers, commit_ops, commit,
  eval_compares,
}
use tritontube.Etcd.Replay.{run_ops_frame}
use tritontube.Etcd.Delivery.{AllFit, FitsChannel, AllFit-deliver}

AllFit-set_watcher :
    (id : Int64) (w : WatchSubscription) (ws : List (Int64 × WatchSubscription))
    → FitsChannel w
    → AllFit ws
    → AllFit (set_watcher id w ws)
unfolding set_watcher
AllFit-set_watcher id w [] fits h = (fits, tt)
AllFit-set_watcher id w ((j, v) ∷ ws) fits h = elim (Bool-cases (int_eq j id)) [
  | inl p ↦ rw p (fits, h.1)
  | inr p ↦ rw p (h.0, AllFit-set_watcher id w ws fits h.1)
]

AllFit-without :
    (id : Int64) (ws : List (Int64 × WatchSubscription))
    → AllFit ws
    → AllFit (filter (λ (j, w). not (int_eq j id)) ws)
AllFit-without id [] h = tt
AllFit-without id ((j, v) ∷ ws) h = elim (Bool-cases (int_eq j id)) [
  | inl p ↦ rw p (AllFit-without id ws h.1)
  | inr p ↦ rw p (h.0, AllFit-without id ws h.1)
]

AllFit-notify_watchers :
    (events : List WatchEvent) (c : Client)
    → AllFit c.watchers
    → AllFit (notify_watchers events c).watchers
unfolding notify_watchers
AllFit-notify_watchers [] c h = h
AllFit-notify_watchers (e ∷ es) c h =
    AllFit-notify_watchers es _ (AllFit-deliver c.revision e c.watchers h)

AllFit-finish :
    (success : Bool) (p : Client × Result (List WatchEvent))
    → AllFit p.0.watchers
    → AllFit (finish success p).0.watchers
unfolding finish
AllFit-finish success (c, err e) h = h
AllFit-finish success (c, ok events) h = AllFit-notify_watchers events c h

AllFit-commit_ops :
    (t : Txn) (v : Result Bool) (c : Client)
    → AllFit c.watchers
    → AllFit (commit_ops t v c).0.watchers
unfolding commit_ops
AllFit-commit_ops t (err e) c h = h
AllFit-commit_ops t (ok success) c h =
    let ops = if success then t.on_success else t.on_failure in
    AllFit-finish success (run_ops ops [] c)
      (rw (ap (λ (d : Client). d.watchers) (run_ops_frame ops [] c)) h)

-- If no channel holds more than its buffer, none does after a transaction, whatever its outcome,
-- nor after a watch begins or ends.
pub operations-AllFit :
    (t : Txn) (prefix : Str) (id : Int64) (c : Client)
    → AllFit c.watchers
    → AllFit (commit t c).0.watchers
      × AllFit (watch prefix c).0.watchers
      × AllFit (remove_watcher id c).watchers
unfolding commit watch remove_watcher
operations-AllFit t prefix id c h = (
  AllFit-commit_ops t (eval_compares c.kv t.compares) c h,
  AllFit-set_watcher (inc64 c.next_id) (record { prefix = prefix; ch = [] }) c.watchers
      (omega arith) h,
  AllFit-without id c.watchers h,
)

abbrev pub find_key : Str → List KeyValue → Bool
find_key k = any (λ kv. str_eq kv.key k)

lookup-filter :
    (k prefix : Str) (kv : Map KvPair)
    → find_key k (map key_value (filter (λ (j, v). has_prefix j prefix) kv))
      ≡ (if has_prefix k prefix then is_some (lookup k kv) else false)
unfolding lookup
lookup-filter k prefix [] = ground arith
lookup-filter k prefix ((j, v) ∷ kv) = ground (arith, str_eq_iff j k, lookup-filter k prefix kv)

-- `Get` with the prefix option answers with exactly the keys under the prefix; without it, with
-- the key itself and what it holds, or with nothing where it is missing.
pub get_lem :
    (c : Client) (key k : Str)
    → (find_key k (get c key true).kvs
        ≡ (if has_prefix k key then is_some (lookup k c.kv) else false))
      × ((v : KvPair) → lookup key c.kv ≡ some v → (get c key false).kvs ≡ key_value (key, v) ∷ [])
      × (lookup key c.kv ≡ none → (get c key false).kvs ≡ [])
unfolding get
get_lem c key k = (lookup-filter k key c.kv, λ v e. ground arith, λ e. ground arith)

-- A put into etcd: its answer, and what a read finds then.
pub get-put :
    (key value : Str) (c : Client)
    → ((put key value c).1 ≡ ok (record { succeeded = true; revision = inc64 c.revision }))
      × ((get (put key value c).0 key false).kvs
          ≡ record { key = key; value = value; mod_revision = inc64 c.revision } ∷ [])
unfolding put commit get
get-put key value c = (refl, rw (lookup-insert, str_eq_refl) refl)

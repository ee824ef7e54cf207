-- ===== src/Examples/EtcdRuns.antt =====
-- The store of internal/metadata/etcdsim/etcdsim.go with one key and one watcher.
use tritontube.Base.{
  lit, [], ◌∷◌, ◌≡◌, refl, arith, pos, pos_part, inc64, true, false, ◌≤◌, lookup, insert, str_eq,
  has_prefix, delete, str_eq_iff,
}
use tritontube.Etcd.{
  KvPair, Client, WatchSubscription, WatchEvent, put_event, Txn, ok, commit, watch, remove_watcher,
  new_txn, txn_then, put_op, delete_op, notify_watchers, current,
}
use tritontube.Etcd.Replay.{Told, commit-Told}
use tritontube.Etcd.Dated.{IsDated, commit-IsDated}
use tritontube.Etcd.Revision.{put_if, commit-put_if_twice}
use tritontube.Etcd.Delivery.{AllFit, receive, each_watcher, watchers-notify_watchers}
use tritontube.Etcd.Reads.{operations-AllFit}

abbrev entry : KvPair
entry = record { value = lit "x"; mod_revision = pos 3 }

abbrev watcher : WatchSubscription
watcher = record { prefix = lit "k"; ch = [] }

abbrev client : Client
client = record {
  revision = pos 3;
  kv = (lit "k1", entry) ∷ [];
  watchers = (pos 1, watcher) ∷ [];
  next_id = pos 1;
}

abbrev writes : Txn
writes = txn_then new_txn (put_op (lit "k2") (lit "y") ∷ delete_op (lit "k1") ∷ [])

writes_run : (commit writes client).1 ≡ ok (record { succeeded = true; revision = pos 5 })
unfolding commit notify_watchers lookup insert delete str_eq has_prefix inc64
writes_run = refl

commit-Told_example : Told client (commit writes client).0
commit-Told_example =
    commit-Told writes client (record { succeeded = true; revision = pos 5 }) writes_run

client-IsDated : IsDated client
unfolding lookup
client-IsDated = record {
  counts = refl;
  past = λ k e found. ground arith;
  unique = λ j k d e fd fe same. ground (arith, str_eq_iff (lit "k1") j, str_eq_iff (lit "k1") k);
}

commit-IsDated_example :
    IsDated (commit writes client).0 × (3 ≤ pos_part (commit writes client).0.revision)
commit-IsDated_example = commit-IsDated writes client client-IsDated (omega arith) (omega arith)

commit-put_if_twice_example :
    let c' : Client = (commit (put_if (lit "k1") (pos 3) (lit "y")) client).0 in
    commit (put_if (lit "k1") (pos 3) (lit "z")) c'
    ≡ (c', ok (record { succeeded = false; revision = c'.revision }))
unfolding current lookup str_eq
commit-put_if_twice_example =
    commit-put_if_twice (lit "k1") (pos 3) (lit "y") (lit "z") client client-IsDated (omega arith)
      refl

abbrev event : WatchEvent
event = record { type = put_event; key = lit "k2"; value = lit "y"; mod_revision = pos 3 }

watchers-notify_watchers_example :
    (notify_watchers (event ∷ event ∷ []) client).watchers
    ≡ each_watcher (receive (pos 3) (event ∷ event ∷ [])) client.watchers
watchers-notify_watchers_example =
    watchers-notify_watchers (event ∷ event ∷ []) client (omega arith)

operations-AllFit_example :
    AllFit (commit writes client).0.watchers
    × AllFit (watch (lit "k") client).0.watchers
    × AllFit (remove_watcher (pos 1) client).watchers
operations-AllFit_example = operations-AllFit writes (lit "k") (pos 1) client (omega arith)

-- ===== src/Etcd.antt =====
-- internal/metadata/etcdsim/etcdsim.go: the revisioned key-value store with transactions and
-- watches. Each method holds the client's mutex, so it is one step from state to state.
pub mod Replay
pub mod Dated
pub mod Revision
pub mod Delivery
pub mod Reads
use tritontube.Base.{
  ℕ, ◌+◌, Str, lit, str_eq, has_prefix, Int64, pos, inc64, int_eq, Bool, true, false, List, [], ◌∷◌,
  ◌++◌, map, filter, not, Option, none, some, Map, lookup, insert, delete, ltb, length,
  if◌then◌else◌, ◌==◌, is_some,
}

pub record KvPair : Type 0 where
  pub value : Str
  pub mod_revision : Int64

pub data EventType : Type 0 where
  put_event delete_event : EventType

pub record WatchEvent : Type 0 where
  pub type : EventType
  pub key : Str
  pub value : Str
  pub mod_revision : Int64

pub record WatchResponse : Type 0 where
  pub events : List WatchEvent
  pub revision : Int64

-- `ch` is what the buffered channel holds, the oldest first.
pub record WatchSubscription : Type 0 where
  pub prefix : Str
  pub ch : List WatchResponse

pub record Client : Type 0 where
  pub revision : Int64
  pub kv : Map KvPair
  pub watchers : List (Int64 × WatchSubscription)
  pub next_id : Int64

abbrev pub new_client : Client
new_client = record { revision = pos 0; kv = []; watchers = []; next_id = pos 0 }

-- `CompareTarget` and `opType` are Go integers, `CompareOp` is a string: a value that the
-- constants do not name reaches the error branches of `Commit`.
abbrev pub compare_mod_revision : ℕ
compare_mod_revision = 1

abbrev pub compare_op_equal : Str
compare_op_equal = lit "="

pub record Cmp : Type 0 where
  pub key : Str
  pub target : ℕ
  pub op : Str
  pub value : Int64

abbrev pub compare_mod : Str → Str → Int64 → Cmp
compare_mod key op value = record {
  key = key;
  target = compare_mod_revision;
  op = op;
  value = value;
}

abbrev pub op_put : ℕ
op_put = 1

abbrev pub op_delete : ℕ
op_delete = 2

pub record Op : Type 0 where
  pub typ : ℕ
  pub key : Str
  pub value : Str

abbrev pub put_op : Str → Str → Op
put_op key value = record { typ = op_put; key = key; value = value }

abbrev pub delete_op : Str → Op
delete_op key = record { typ = op_delete; key = key; value = [] }

pub data EtcdError : Type 0 where
  unsupported_compare_op unsupported_compare_target unsupported_op : EtcdError

pub data Result {ℓ} (A : Type ℓ) : Type ℓ where
  ok : A → Result A
  err : EtcdError → Result A

pub record TxnResponse : Type 0 where
  pub succeeded : Bool
  pub revision : Int64

pub record Txn : Type 0 where
  pub compares : List Cmp
  pub on_success : List Op
  pub on_failure : List Op

-- `c.Txn(ctx)` with the builder methods `If`, `Then` and `Else`.
abbrev pub new_txn : Txn
new_txn = record { compares = []; on_success = []; on_failure = [] }

abbrev pub txn_if : Txn → List Cmp → Txn
txn_if t cmps = record t { compares = t.compares ++ cmps }

abbrev pub txn_then : Txn → List Op → Txn
txn_then t ops = record t { on_success = t.on_success ++ ops }

abbrev pub txn_else : Txn → List Op → Txn
txn_else t ops = record t { on_failure = t.on_failure ++ ops }

-- The mod revision of a key, 0 if it is missing.
unfoldable pub current : Map KvPair → Str → Int64
current kv key = elim (lookup key kv) [ none ↦ pos 0 | some entry ↦ entry.mod_revision ]

-- The loop over the comparisons: it stops at the first that fails.
unfoldable pub eval_compares : Map KvPair → List Cmp → Result Bool
unfolding current
eval_compares kv [] = ok true
eval_compares kv (c ∷ cs) =
    if c.target == compare_mod_revision
    then (if str_eq c.op compare_op_equal
        then (if int_eq (current kv c.key) c.value then eval_compares kv cs else ok false)
        else err unsupported_compare_op)
    else err unsupported_compare_target

-- `case opPut`
unfoldable pub apply_put : Str → Str → Client → Client
apply_put key value c = record c {
  revision = inc64 c.revision;
  kv = insert key (record { value = value; mod_revision = inc64 c.revision }) c.kv;
}

abbrev pub event_of_put : Str → Str → Client → WatchEvent
event_of_put key value c = record {
  type = put_event;
  key = key;
  value = value;
  mod_revision = inc64 c.revision;
}

-- `case opDelete`, at a key that is there
unfoldable pub apply_delete : Str → Client → Client
apply_delete key c = record c { revision = inc64 c.revision; kv = delete key c.kv }

abbrev pub event_of_delete : Str → Client → WatchEvent
event_of_delete key c = record {
  type = delete_event;
  key = key;
  value = [];
  mod_revision = inc64 c.revision;
}

-- The loop over the operations, with the events so far. At an unknown operation it stops, and
-- what was applied before stays.
unfoldable pub run_ops : List Op → List WatchEvent → Client → Client × Result (List WatchEvent)
unfolding apply_put apply_delete
run_ops [] events c = (c, ok events)
run_ops (o ∷ ops) events c =
    let after_put =
      run_ops ops (events ++ event_of_put o.key o.value c ∷ []) (apply_put o.key o.value c) in
    let after_delete =
      run_ops ops (events ++ event_of_delete o.key c ∷ []) (apply_delete o.key c) in
    let missing = run_ops ops events c in
    if o.typ == op_put
    then after_put
    else if o.typ == op_delete
    then (if is_some (lookup o.key c.kv) then after_delete else missing)
    else (c, err unsupported_op)

abbrev pub channel_size : ℕ
channel_size = 8

-- The body of the inner loop of `notifyWatchersLocked`: a full channel drops the event.
unfoldable pub deliver : Int64 → WatchEvent → WatchSubscription → WatchSubscription
deliver revision evt w =
    if has_prefix evt.key w.prefix
    then (if ltb (length w.ch) channel_size
        then record w { ch = w.ch ++ record { events = evt ∷ []; revision = revision } ∷ [] }
        else w)
    else w

unfoldable pub notify_watchers : List WatchEvent → Client → Client
unfolding deliver
notify_watchers [] c = c
notify_watchers (evt ∷ events) c =
    notify_watchers events
      (record c { watchers = map (λ (id, w). (id, deliver c.revision evt w)) c.watchers })

-- What `Commit` does after the operations. Its early return at no operations and its test for no
-- events are the empty lists here, which change nothing.
unfoldable pub finish : Bool → Client × Result (List WatchEvent) → Client × Result TxnResponse
unfolding notify_watchers
finish success (c, err e) = (c, err e)
finish success (c, ok events) =
    (notify_watchers events c, ok (record { succeeded = success; revision = c.revision }))

-- `Commit` once the comparisons have a result.
unfoldable pub commit_ops : Txn → Result Bool → Client → Client × Result TxnResponse
unfolding finish run_ops
commit_ops t (err e) c = (c, err e)
commit_ops t (ok success) c =
    finish success (run_ops (if success then t.on_success else t.on_failure) [] c)

unfoldable pub commit : Txn → Client → Client × Result TxnResponse
unfolding eval_compares commit_ops
commit t c = commit_ops t (eval_compares c.kv t.compares) c

pub record KeyValue : Type 0 where
  pub key : Str
  pub value : Str
  pub mod_revision : Int64

pub record GetResponse : Type 0 where
  pub kvs : List KeyValue
  pub revision : Int64

abbrev pub key_value : Str × KvPair → KeyValue
key_value (k, v) = record { key = k; value = v.value; mod_revision = v.mod_revision }

-- `Get`; `prefix` is the option `WithPrefix`. Go walks the map in any order, the model in the
-- order of the list.
unfoldable pub get : Client → Str → Bool → GetResponse
get c key prefix = record {
  kvs =
      if prefix
      then map key_value (filter (λ (k, v). has_prefix k key) c.kv)
      else elim (lookup key c.kv) [ none ↦ [] | some v ↦ key_value (key, v) ∷ [] ];
  revision = c.revision;
}

-- The options of `Get`
pub record GetOptions : Type 0 where
  pub prefix : Bool

abbrev pub with_prefix : GetOptions → GetOptions
with_prefix o = record o { prefix = true }

unfoldable pub apply_options : List (GetOptions → GetOptions) → GetOptions → GetOptions
apply_options [] o = o
apply_options (option ∷ options) o = apply_options options (option o)

-- `Get` with its options
unfoldable pub get_with : Client → Str → List (GetOptions → GetOptions) → GetResponse
unfolding get apply_options
get_with c key options = get c key (apply_options options (record { prefix = false })).prefix

-- `Put` and `Delete` are transactions of one operation.
unfoldable pub put : Str → Str → Client → Client × Result TxnResponse
unfolding commit
put key value c = commit (txn_then new_txn (put_op key value ∷ [])) c

unfoldable pub delete_key : Str → Client → Client × Result TxnResponse
unfolding commit
delete_key key c = commit (txn_then new_txn (delete_op key ∷ [])) c

-- `c.watchers[id] = …`
unfoldable pub set_watcher :
    Int64 → WatchSubscription → List (Int64 × WatchSubscription) → List (Int64 × WatchSubscription)
set_watcher id w [] = (id, w) ∷ []
set_watcher id w ((j, v) ∷ ws) = if int_eq j id then (j, w) ∷ ws else (j, v) ∷ set_watcher id w ws

-- `Watch`: a subscription under the next id, which is returned beside the state.
unfoldable pub watch : Str → Client → Client × Int64
unfolding set_watcher
watch prefix c =
    let id = inc64 c.next_id in
    (
      record c {
        next_id = id;
        watchers = set_watcher id (record { prefix = prefix; ch = [] }) c.watchers;
      },
      id,
    )

-- `removeWatcher`, once the context of the watch is done. The channel is closed then.
unfoldable pub remove_watcher : Int64 → Client → Client
remove_watcher id c = record c { watchers = filter (λ (j, w). not (int_eq j id)) c.watchers }

-- ===== src/Pgx.antt =====
-- internal/metadata/pgxsim/pgxsim.go: the simulated Postgres, a store of records with optimistic
-- transactions. The store is shared and stands beside the transaction in each step.
pub mod Isolation
pub mod Commits
pub mod Listing
pub mod Phantom
use tritontube.Base.{
  ◌++◌, ℕ, Str, str_lt, Int64, ℤ, pos, int_eq, is_pos, pos_part, Bool, true, false, ◌||◌, ◌&&◌,
  List, [], ◌∷◌, map, filter, Option, none, some, Map, lookup, insert, delete, str_eq, ltb, length,
  take, if◌then◌else◌, ◌==◌, is_some,
}
use tritontube.Base.Sort.{sort_by}

-- `IsolationLevel` and `TxAccessMode` are Go integers.
abbrev pub iso_level_serializable : ℕ
iso_level_serializable = 1

abbrev pub read_only : ℕ
read_only = 1

abbrev pub read_write : ℕ
read_write = 2

pub record TxOptions : Type 0 where
  pub iso_level : ℕ
  pub access_mode : ℕ

-- ErrSerialization, ErrReadOnly and the two errors without a name
pub data PgError : Type 0 where
  err_serialization err_read_only err_closed err_isolation : PgError

pub data Result {ℓ} (A : Type ℓ) : Type ℓ where
  ok : A → Result A
  err : PgError → Result A

pub record Record : Type 0 where
  pub key : Str
  pub value : Str
  pub attributes : Map Str
  pub version : Int64

pub record Store : Type 0 where
  pub entries : Map Record

abbrev pub new_store : Store
new_store = record { entries = [] }

pub record Tx : Type 0 where
  pub opts : TxOptions
  pub writes : Map Record
  pub deletes : Map (Unit {0})
  pub readset : Map Int64
  pub committed : Bool
  pub rolled : Bool

-- `cloneRecord`: an empty map of attributes becomes nil, another is copied. Maps are values here.
unfoldable pub clone_record : Record → Record
clone_record r = record r { attributes = if ltb 0 (length r.attributes) then r.attributes else [] }

abbrev pub clone_found : Option Record → Option Record
clone_found none = none
clone_found (some r) = some (clone_record r)

unfoldable pub begin_tx : TxOptions → Result Tx
begin_tx opts =
    if opts.iso_level == iso_level_serializable
    then ok (record {
      opts = opts;
      writes = [];
      deletes = [];
      readset = [];
      committed = false;
      rolled = false;
    })
    else err err_isolation

-- `ensureWritable` fails.
abbrev pub is_read_only : Tx → Bool
is_read_only tx = tx.opts.access_mode == read_only

-- `Get` in the store, noting the version that was read; 0 stands for a missing key.
unfoldable pub read_store : Str → Option Record → Tx → Tx × Option Record
unfolding clone_record
read_store key none tx = (record tx { readset = insert key (pos 0) tx.readset }, none)
read_store key (some r) tx =
    (record tx { readset = insert key r.version tx.readset }, some (clone_record r))

-- `Get`: the transaction's own writes and deletes come first.
unfoldable pub get : Str → Store → Tx → Tx × Option Record
unfolding read_store
get key s tx =
    if is_some (lookup key tx.writes)
    then (tx, clone_found (lookup key tx.writes))
    else if is_some (lookup key tx.deletes)
    then (tx, none)
    else read_store key (lookup key s.entries) tx

unfoldable pub put : Record → Tx → Tx × Result (Unit {0})
unfolding clone_record
put r tx = if is_read_only tx then (tx, err err_read_only) else (
  record tx { writes = insert r.key (clone_record r) tx.writes; deletes = delete r.key tx.deletes },
  ok tt,
)

unfoldable pub delete_key : Str → Tx → Tx × Result (Unit {0})
delete_key key tx =
    if is_read_only tx
    then (tx, err err_read_only)
    else (record tx { writes = delete key tx.writes; deletes = insert key tt tx.deletes }, ok tt)

abbrev pub key_less : Record → Record → Bool
key_less a b = str_lt a.key b.key

-- `hasPrefix`
unfoldable pub has_prefix : Str → Str → Bool
has_prefix s prefix =
    if length prefix == 0
    then true
    else if ltb (length s) (length prefix)
    then false
    else str_eq (take (length prefix) s) prefix

-- The loop of `List` over the store.
unfoldable pub list_loop : Str → Map Record → List Record → Tx → Tx × List Record
unfolding clone_record has_prefix
list_loop prefix [] items tx = (tx, items)
list_loop prefix ((k, r) ∷ m) items tx =
    let found =
      list_loop prefix m (items ++ clone_record r ∷ [])
        (record tx { readset = insert k r.version tx.readset }) in
    let skipped = list_loop prefix m items tx in if has_prefix k prefix then found else skipped

-- `items[:limit]` where the limit is positive and cuts something off
unfoldable pub cut : ℤ → List Record → List Record
cut limit items =
    if is_pos limit && ltb (pos_part limit) (length items)
    then take (pos_part limit) items
    else items

-- `List`. The keys of a map differ, so the sort has one outcome.
unfoldable pub list : Str → ℤ → Store → Tx → Tx × List Record
unfolding list_loop cut
list prefix limit s tx =
    let (tx', items) = list_loop prefix s.entries [] tx in (tx', cut limit (sort_by key_less items))

-- The version that was read is the version in the store.
unfoldable pub read_valid : Option Record → Int64 → Bool
read_valid none expected = int_eq expected (pos 0)
read_valid (some current) expected = int_eq current.version expected

-- The first loop of `Commit`, over the read set.
unfoldable pub validate : Map Record → Map Int64 → Bool
unfolding read_valid
validate entries [] = true
validate entries ((key, expected) ∷ rs) =
    if read_valid (lookup key entries) expected then validate entries rs else false

-- The other two loops, which may take the keys in any order.
unfoldable pub apply_deletes : Map (Unit {0}) → Map Record → Map Record
apply_deletes [] m = m
apply_deletes ((key, _) ∷ ds) m = delete key (apply_deletes ds m)

unfoldable pub apply_writes : Map Record → Map Record → Map Record
unfolding clone_record
apply_writes [] m = m
apply_writes ((key, r) ∷ ws) m = insert key (clone_record r) (apply_writes ws m)

unfoldable pub commit : Store → Tx → (Store × Tx) × Result (Unit {0})
unfolding validate apply_deletes apply_writes
commit s tx =
    if tx.committed || tx.rolled
    then ((s, tx), err err_closed)
    else if validate s.entries tx.readset
    then (
      (
        record { entries = apply_writes tx.writes (apply_deletes tx.deletes s.entries) },
        record tx { committed = true },
      ),
      ok tt,
    )
    else ((s, record tx { rolled = true }), err err_serialization)

unfoldable pub rollback : Tx → Tx
rollback tx = if tx.committed || tx.rolled then tx else record tx { rolled = true }

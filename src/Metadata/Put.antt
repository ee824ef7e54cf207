-- ===== src/Metadata/Put.antt =====
-- `PutMetadata` of internal/metadata/service.go. The JSON encoding of an item is a parameter; it
-- cannot fail, since an item holds strings and a number.
use tritontube.Base.{
  ℕ, Str, str_eq, Int64, pos, inc64, int_eq, is_pos, [], Option, none, some, if◌then◌else◌,
}
use tritontube.Etcd
use tritontube.Etcd.{
  Client, Txn, TxnResponse, new_txn, txn_if, txn_then, compare_mod, compare_op_equal, put_op,
  delete_op,
}
use tritontube.Pgx
use tritontube.Pgx.{
  Store, Tx, TxOptions, Record, err_serialization, iso_level_serializable, read_only, read_write,
}
use tritontube.Metadata.Types.{
  MetadataItem, PutMetadataRequest, PutMetadataResponse, item_required, key_required, missing_key,
  version_mismatch, from_pg, Result, ok, err, clone_map, clone,
}
use tritontube.Metadata.Service.{
  State, Service, Others, write_options, retry, write_and_commit, guarded, etcd_outcome,
  finish_on_etcd, etcd_key,
}

-- The check of the expected version in `PutMetadata`.
unfoldable pub check_put : Int64 → Str → Option Record → Result (Unit {0})
check_put expected key none = if is_pos expected then err (missing_key key) else ok tt
check_put expected key (some existing) =
    if is_pos expected
    then (if int_eq existing.version expected then ok tt else err (version_mismatch key))
    else ok tt

unfoldable pub next_version : Option Record → Int64
next_version none = pos 1
next_version (some existing) = inc64 existing.version

unfoldable pub new_record : MetadataItem → Option Record → Record
unfolding next_version clone_map
new_record item found = record {
  key = item.key;
  value = item.value;
  attributes = clone_map item.attributes;
  version = next_version found;
}

-- An attempt of `PutMetadata` after its check.
unfoldable pub put_checked :
    (Store → Store)
    → MetadataItem
    → Store
    → Tx
    → Option Record
    → Result (Unit {0})
    → Store × Result Record
unfolding new_record write_and_commit
put_checked during item s tx found (ok u) =
    write_and_commit during (new_record item found) s (Pgx.put (new_record item found) tx)
put_checked during item s tx found (err e) = (s, err e)

unfoldable pub put_read :
    (Store → Store) → Int64 → MetadataItem → Store → Tx × Option Record → Store × Result Record
unfolding check_put put_checked
put_read during expected item s (tx, found) =
    put_checked during item s tx found (check_put expected item.key found)

unfoldable pub put_begun :
    (Store → Store) → Int64 → MetadataItem → Store → Pgx.Result Tx → Store × Result Record
unfolding put_read
put_begun during expected item s (Pgx.ok tx) =
    put_read during expected item s (Pgx.get item.key s tx)
put_begun during expected item s (Pgx.err e) = (s, err (from_pg e))

unfoldable pub put_attempt : Others → Int64 → MetadataItem → ℕ → Store → Store × Result Record
unfolding put_begun
put_attempt others expected item n s =
    put_begun (others.during n) expected item (others.before n s) (Pgx.begin_tx write_options)

module _ (encode : MetadataItem → Str) (others : Others) (svc : Service) where
  -- The second half of `PutMetadata`.
  unfoldable pub put_on_etcd :
      PutMetadataRequest
      → MetadataItem
      → State
      → Store × Result Record
      → State × Result PutMetadataResponse
  unfolding finish_on_etcd etcd_outcome guarded etcd_key
  put_on_etcd req item st (s, err e) = (record st { store = s }, err e)
  put_on_etcd req item st (s, ok rec) =
      let item' = record item { version = rec.version } in
      finish_on_etcd st s (
        etcd_outcome item.key (λ revision. record { item = item'; etcd_revision = revision })
          (Etcd.commit
            (guarded (etcd_key svc item.key) req.expected_etcd_revision
              (put_op (etcd_key svc item.key) (encode item')))
            (others.on_etcd st.etcd)))

  unfoldable pub put_item :
      PutMetadataRequest → Option MetadataItem → State → State × Result PutMetadataResponse
  unfolding put_on_etcd put_attempt retry clone
  put_item req none st = (st, err item_required)
  put_item req (some it) st =
      let item = clone it in
      if str_eq item.key []
      then (st, err key_required)
      else put_on_etcd req item st
          (retry svc (put_attempt others req.expected_version item) st.store)

  unfoldable pub put_metadata :
      Option PutMetadataRequest → State → State × Result PutMetadataResponse
  unfolding put_item
  put_metadata none st = (st, err item_required)
  put_metadata (some req) st = put_item req req.item st

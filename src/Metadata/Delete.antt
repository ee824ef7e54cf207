-- ===== src/Metadata/Delete.antt =====
-- `DeleteMetadata` of internal/metadata/service.go.
use tritontube.Base.{
  ℕ, Str, str_eq, Int64, int_eq, is_pos, Bool, true, [], Option, none, some, if◌then◌else◌,
}
use tritontube.Etcd
use tritontube.Etcd.{
  Client, Txn, TxnResponse, new_txn, txn_if, txn_then, compare_mod, compare_op_equal, put_op,
  delete_op,
}
use tritontube.Pgx
use tritontube.Pgx.{
  Store, Tx, TxOptions, Record, err_serialization, iso_level_serializable, read_only, read_write,
}
use tritontube.Metadata.Types.{
  DeleteMetadataRequest, DeleteMetadataResponse, key_required, version_mismatch, not_found,
  delete_lost, from_pg, Result, ok, err,
}
use tritontube.Metadata.Service.{
  State, Service, Others, write_options, retry, write_and_commit, guarded, etcd_outcome,
  finish_on_etcd, etcd_key,
}

-- The check of `DeleteMetadata`.
unfoldable pub check_delete : Int64 → Str → Option Record → Result (Unit {0})
check_delete expected key none = err (not_found key)
check_delete expected key (some rec) =
    if is_pos expected
    then (if int_eq rec.version expected then ok tt else err (version_mismatch key))
    else ok tt

-- An attempt of `DeleteMetadata`; its result is what the attempt sets `deleted` to.
unfoldable pub delete_checked :
    (Store → Store) → Str → Store → Tx → Result (Unit {0}) → Store × Result Bool
unfolding write_and_commit
delete_checked during key s tx (ok u) = write_and_commit during true s (Pgx.delete_key key tx)
delete_checked during key s tx (err e) = (s, err e)

unfoldable pub delete_read :
    (Store → Store) → Int64 → Str → Store → Tx × Option Record → Store × Result Bool
unfolding check_delete delete_checked
delete_read during expected key s (tx, found) =
    delete_checked during key s tx (check_delete expected key found)

unfoldable pub delete_begun :
    (Store → Store) → Int64 → Str → Store → Pgx.Result Tx → Store × Result Bool
unfolding delete_read
delete_begun during expected key s (Pgx.ok tx) =
    delete_read during expected key s (Pgx.get key s tx)
delete_begun during expected key s (Pgx.err e) = (s, err (from_pg e))

unfoldable pub delete_attempt : Others → Int64 → Str → ℕ → Store → Store × Result Bool
unfolding delete_begun
delete_attempt others expected key n s =
    delete_begun (others.during n) expected key (others.before n s) (Pgx.begin_tx write_options)

module _ (others : Others) (svc : Service) where
  -- The second half of `DeleteMetadata`.
  unfoldable pub delete_on_etcd :
      DeleteMetadataRequest → State → Store × Result Bool → State × Result DeleteMetadataResponse
  unfolding finish_on_etcd etcd_outcome guarded etcd_key
  delete_on_etcd req st (s, err e) = (record st { store = s }, err e)
  delete_on_etcd req st (s, ok deleted) =
      if deleted
      then finish_on_etcd st s (
          etcd_outcome req.key (λ revision. record { etcd_revision = revision })
            (Etcd.commit
              (guarded (etcd_key svc req.key) req.expected_etcd_revision
                (delete_op (etcd_key svc req.key)))
              (others.on_etcd st.etcd)))
      else (record st { store = s }, err (delete_lost req.key))

  unfoldable pub delete_metadata :
      Option DeleteMetadataRequest → State → State × Result DeleteMetadataResponse
  unfolding delete_on_etcd delete_attempt retry
  delete_metadata none st = (st, err key_required)
  delete_metadata (some req) st =
      if str_eq req.key []
      then (st, err key_required)
      else delete_on_etcd req st
          (retry svc (delete_attempt others req.expected_version req.key) st.store)

-- ===== src/Metadata/Service.antt =====
-- internal/metadata/service.go: the service, its stores, the retry loop and the steps that its
-- methods share. What other clients do in between is a parameter.
use tritontube.Base.{
  ℕ, zero, suc, ◌+◌, Str, str_eq, lit, Int64, ℤ, pos, is_pos, is_nonneg, pos_part, Bool, true,
  false, [], ◌∷◌, ◌++◌, Option, none, some, if◌then◌else◌,
}
use tritontube.Etcd
use tritontube.Etcd.{
  Client, Txn, TxnResponse, new_txn, txn_if, txn_then, compare_mod, compare_op_equal, put_op,
  delete_op,
}
use tritontube.Pgx
use tritontube.Pgx.{
  Store, Tx, TxOptions, Record, err_serialization, iso_level_serializable, read_only, read_write,
}
use tritontube.Metadata.Types.{
  ServiceError, write_pool_required, etcd_required, revision_conflict, retries_exceeded, from_pg,
  from_etcd, Result, ok, err,
}

-- What the service reads and writes. `replica` is the store of the read pool where it is another
-- one than the write pool's.
pub record State : Type 0 where
  pub store : Store
  pub replica : Option Store
  pub etcd : Client

pub record Service : Type 0 where
  pub max_retries : ℤ
  pub key_prefix : Str

-- `ReadPool` nil, or the write pool itself, is `none`.
pub record ServiceConfig : Type 0 where
  pub write_pool : Option Store
  pub read_pool : Option Store
  pub etcd : Option Client
  pub key_prefix : Str
  pub max_retries : ℤ

unfoldable pub service_over :
    ServiceConfig → Option Store → Option Client → Result (Service × State)
service_over cfg none _ = err write_pool_required
service_over cfg (some store) none = err etcd_required
service_over cfg (some store) (some etcd) = ok (
  record {
    max_retries = if is_pos cfg.max_retries then cfg.max_retries else pos 5;
    key_prefix = if str_eq cfg.key_prefix [] then lit "metadata/" else cfg.key_prefix;
  },
  record { store = store; replica = cfg.read_pool; etcd = etcd },
)

unfoldable pub new_service : ServiceConfig → Result (Service × State)
unfolding service_over
new_service cfg = service_over cfg cfg.write_pool cfg.etcd

-- The moves of other clients: on the record store before attempt `n` and between its read and its
-- commit, and on etcd before the transaction there.
pub record Others : Type 0 where
  pub before : ℕ → Store → Store
  pub during : ℕ → Store → Store
  pub on_etcd : Client → Client

abbrev pub nobody : Others
nobody = record { before = λ n s. s; during = λ n s. s; on_etcd = λ c. c }

abbrev pub write_options : TxOptions
write_options = record { iso_level = iso_level_serializable; access_mode = read_write }

abbrev pub read_options : TxOptions
read_options = record { iso_level = iso_level_serializable; access_mode = read_only }

-- `errors.Is(err, pgxsim.ErrSerialization)`
abbrev pub is_serialization : ServiceError → Bool
is_serialization (from_pg err_serialization) = true
is_serialization _ = false

module _ {A : Type 0} where
  -- What `retry` does with the outcome of an attempt; `again` is the rest of the loop.
  unfoldable pub after_attempt :
      (Option ServiceError → Store → Store × Result A) → Store × Result A → Store × Result A
  after_attempt again (s, ok a) = (s, ok a)
  after_attempt again (s, err e) = if is_serialization e then again (some e) s else (s, err e)

  -- The loop of `retry`, with the rounds left, the number of the attempt and the last error.
  unfoldable pub retry_loop :
      ℤ → (ℕ → Store → Store × Result A) → ℕ → ℕ → Option ServiceError → Store → Store × Result A
  unfolding after_attempt
  retry_loop max attempt zero n none s = (s, err (retries_exceeded max))
  retry_loop max attempt zero n (some e) s = (s, err e)
  retry_loop max attempt (suc rounds) n last s =
      after_attempt (retry_loop max attempt rounds (n + 1)) (attempt n s)

  unfoldable pub retry : Service → (ℕ → Store → Store × Result A) → Store → Store × Result A
  unfolding retry_loop
  retry svc attempt s = retry_loop svc.max_retries attempt (pos_part svc.max_retries) 0 none s

module _ {A : Type 0} where
  unfoldable pub commit_outcome : A → (Store × Tx) × Pgx.Result (Unit {0}) → Store × Result A
  commit_outcome a ((s, tx), Pgx.ok u) = (s, ok a)
  commit_outcome a ((s, tx), Pgx.err e) = (s, err (from_pg e))

  -- The end of an attempt, in the store that the others have left: the commit, if the write before
  -- it was accepted. The deferred rollback only marks the transaction, which is dropped.
  unfoldable pub write_and_commit :
      (Store → Store) → A → Store → Tx × Pgx.Result (Unit {0}) → Store × Result A
  unfolding commit_outcome
  write_and_commit during a s (tx, Pgx.ok u) = commit_outcome a (Pgx.commit (during s) tx)
  write_and_commit during a s (tx, Pgx.err e) = (s, err (from_pg e))

-- `if expected >= 0 { txn = txn.If(…) }`, with what follows in `Then`
unfoldable pub guarded : Str → Int64 → Etcd.Op → Txn
guarded key expected op =
    let txn =
      if is_nonneg expected
      then txn_if new_txn (compare_mod key compare_op_equal expected ∷ [])
      else new_txn in
    txn_then txn (op ∷ [])

-- How the service reads the answer of the etcd transaction.
unfoldable pub etcd_outcome {ℓ} :
    {A : Type ℓ} → Str → (Int64 → A) → Client × Etcd.Result TxnResponse → Client × Result A
etcd_outcome key reply (c, Etcd.err e) = (c, err (from_etcd e))
etcd_outcome key reply (c, Etcd.ok r) =
    (c, if r.succeeded then ok (reply r.revision) else err (revision_conflict key))

-- `PutMetadata` and `DeleteMetadata` after the record store: the state goes on from both steps.
unfoldable pub finish_on_etcd : {A : Type 0} → State → Store → Client × Result A → State × Result A
finish_on_etcd st s (c, r) = (record st { store = s; etcd = c }, r)

unfoldable pub etcd_key : Service → Str → Str
etcd_key svc key = svc.key_prefix ++ key

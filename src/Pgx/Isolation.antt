-- ===== src/Pgx/Isolation.antt =====
-- Transactions of internal/metadata/pgxsim/pgxsim.go before their commit: they see their own
-- writes, a read-only one writes nothing, and a closed one stays closed.
use tritontube.Base.{
  Str, str_eq, ℤ, true, false, List, [], ◌∷◌, Option, none, some, Map, lookup, lookup-insert,
  lookup-delete, if◌then◌else◌, is_some, arith, ◌≡◌, ◌∙◌, Bool-cases, inl, inr,
}
use tritontube.Pgx.{
  has_prefix, Record, Store, Tx, err, err_closed, is_read_only, clone_record, read_store, get, put,
  delete_key, list_loop, list, commit, apply_writes, apply_deletes, rollback,
}
use tritontube.Pgx.Commits.{seen, get-seen, clone_record_id}

-- A transaction that may write sees what it puts, sees nothing where it deletes, and sees the
-- other keys as before.
pub get-after_write :
    (k : Str) (r : Record) (key : Str) (s : Store) (tx : Tx)
    → is_read_only tx ≡ false
    → ((get k s (put r tx).0).1 ≡ (if str_eq r.key k then some r else (get k s tx).1))
      × ((get k s (delete_key key tx).0).1 ≡ (if str_eq key k then none else (get k s tx).1))
unfolding put delete_key seen
get-after_write k r key s tx w = (
  get-seen k s (put r tx).0
      ∙ ground (
        arith,
        get-seen k s tx,
        lookup-insert r.key k (clone_record r) tx.writes,
        lookup-delete r.key k tx.deletes,
        clone_record_id r,
      ),
  get-seen k s (delete_key key tx).0
      ∙ ground (
        arith,
        get-seen k s tx,
        lookup-delete key k tx.writes,
        lookup-insert key k tt tx.deletes,
      ),
)

-- A read-only transaction has nothing to write.
pub record IsClean (tx : Tx) : Type 0 where
  pub no_writes : is_read_only tx ≡ true → tx.writes ≡ []
  pub no_deletes : is_read_only tx ≡ true → tx.deletes ≡ []

read_store-IsClean :
    (key : Str) (o : Option Record) (tx : Tx) → IsClean tx → IsClean (read_store key o tx).0
unfolding read_store
read_store-IsClean key none tx c = record { no_writes = c.no_writes; no_deletes = c.no_deletes }
read_store-IsClean key (some r) tx c = record { no_writes = c.no_writes; no_deletes = c.no_deletes }

get-IsClean : (key : Str) (s : Store) (tx : Tx) → IsClean tx → IsClean (get key s tx).0
unfolding get
get-IsClean key s tx c = elim (Bool-cases (is_some (lookup key tx.writes))) [
  | inl p ↦ rw p c
  | inr p ↦ elim (Bool-cases (is_some (lookup key tx.deletes))) [
    | inl q ↦ rw (p, q) c
    | inr q ↦ rw (p, q) (read_store-IsClean key (lookup key s.entries) tx c)
  ]
]

list_loop-IsClean :
    (prefix : Str) (m : Map Record) (items : List Record) (tx : Tx)
    → IsClean tx
    → IsClean (list_loop prefix m items tx).0
unfolding list_loop
list_loop-IsClean prefix [] items tx c = c
list_loop-IsClean prefix ((k, r) ∷ m) items tx c = elim (Bool-cases (has_prefix k prefix)) [
  | inl p ↦ rw p (
      list_loop-IsClean prefix m _ _
        (record { no_writes = c.no_writes; no_deletes = c.no_deletes }))
  | inr p ↦ rw p (list_loop-IsClean prefix m items tx c)
]

put-IsClean : (r : Record) (tx : Tx) → IsClean tx → IsClean (put r tx).0
unfolding put
put-IsClean r tx c = elim (Bool-cases (is_read_only tx)) [
  | inl ro ↦ rw ro c
  | inr rw_tx ↦ rw rw_tx (record { no_writes = λ ro. cc; no_deletes = λ ro. cc })
]

delete_key-IsClean : (key : Str) (tx : Tx) → IsClean tx → IsClean (delete_key key tx).0
unfolding delete_key
delete_key-IsClean key tx c = elim (Bool-cases (is_read_only tx)) [
  | inl ro ↦ rw ro c
  | inr rw_tx ↦ rw rw_tx (record { no_writes = λ ro. cc; no_deletes = λ ro. cc })
]

-- Every operation of a transaction keeps a read-only one without writes and deletes.
pub operations-IsClean :
    (key prefix : Str) (limit : ℤ) (r : Record) (s : Store) (tx : Tx)
    → IsClean tx
    → IsClean (get key s tx).0
      × IsClean (list prefix limit s tx).0
      × IsClean (put r tx).0
      × IsClean (delete_key key tx).0
unfolding list
operations-IsClean key prefix limit r s tx c = (
  get-IsClean key s tx c,
  list_loop-IsClean prefix s.entries [] tx c,
  put-IsClean r tx c,
  delete_key-IsClean key tx c,
)

-- The commit of a read-only transaction without writes and deletes, as all operations keep it,
-- leaves the store as it is, whether it succeeds or not.
pub commit-read_only :
    (s : Store) (tx : Tx) → IsClean tx → is_read_only tx ≡ true → (commit s tx).0.0 ≡ s
unfolding commit apply_writes apply_deletes
commit-read_only s tx c ro = ground (arith, c.no_writes ro, c.no_deletes ro)

-- After a rollback nothing can be committed: the commit reports a closed transaction and the store
-- stays. So it is after a commit, whether it succeeded or failed.
pub commit_once :
    (s s' : Store) (tx : Tx)
    → (commit s (rollback tx) ≡ ((s, rollback tx), err err_closed))
      × (commit s' (commit s tx).0.1 ≡ ((s', (commit s tx).0.1), err err_closed))
unfolding commit rollback
commit_once s s' tx = (ground arith, ground arith)

-- ===== src/Pgx/Commits.antt =====
-- `Commit` of internal/metadata/pgxsim/pgxsim.go: what it writes, and when it refuses.
use tritontube.Base.{
  int_eq_iff, sym, pos, Str, str_eq_iff, Int64, int_eq_ne, true, false, ◌||◌, [], ◌∷◌, Option, none,
  some, Map, lookup, lookup-insert, lookup-delete, length, ltb, if◌then◌else◌, is_some, arith, ◌≡◌,
  ◌≢◌, refl, ap, ◌∙◌,
}
use tritontube.Pgx.{
  clone_found, Record, Store, Tx, ok, err, err_serialization, clone_record, read_store, get,
  read_valid, validate, apply_deletes, apply_writes, commit,
}

-- Maps are values, so a copy is the record.
pub clone_record_id : (r : Record) → clone_record r ≡ r
unfolding clone_record
clone_record_id r = by_attributes r.attributes
  where
    by_attributes :
        (m : Map Str)
        → record r { attributes = if ltb 0 (length m) then m else [] } ≡ record r { attributes = m }
    by_attributes [] = refl
    by_attributes (x ∷ m) = ground arith

lookup-apply_deletes :
    (k : Str) (ds : Map (Unit {0})) (m : Map Record)
    → lookup k (apply_deletes ds m) ≡ (if is_some (lookup k ds) then none else lookup k m)
unfolding apply_deletes lookup
lookup-apply_deletes k [] m = refl
lookup-apply_deletes k ((j, u) ∷ ds) m =
    lookup-delete j k (apply_deletes ds m) ∙ ground (arith, lookup-apply_deletes k ds m)

lookup-apply_writes :
    (k : Str) (ws m : Map Record)
    → lookup k (apply_writes ws m) ≡ (if is_some (lookup k ws) then lookup k ws else lookup k m)
unfolding apply_writes lookup
lookup-apply_writes k [] m = refl
lookup-apply_writes k ((j, r) ∷ ws) m =
    lookup-insert j k (clone_record r) (apply_writes ws m)
    ∙ ground (arith, lookup-apply_writes k ws m, clone_record_id r)

-- What a transaction sees of a key: its own write, its own delete, or the store.
unfoldable pub seen : Str → Store → Tx → Option Record
seen k s tx =
    if is_some (lookup k tx.writes)
    then lookup k tx.writes
    else if is_some (lookup k tx.deletes)
    then none
    else lookup k s.entries

clone_found_id : (o : Option Record) → clone_found o ≡ o
clone_found_id none = refl
clone_found_id (some r) = ap some (clone_record_id r)

read_store_found : (k : Str) (o : Option Record) (tx : Tx) → (read_store k o tx).1 ≡ o
unfolding read_store
read_store_found k none tx = refl
read_store_found k (some r) tx = ap some (clone_record_id r)

pub get-seen : (k : Str) (s : Store) (tx : Tx) → (get k s tx).1 ≡ seen k s tx
unfolding seen get
get-seen k s tx =
    ground (arith, clone_found_id (lookup k tx.writes), read_store_found k (lookup k s.entries) tx)

lookup-applied :
    (k : Str) (s : Store) (tx : Tx)
    → lookup k (apply_writes tx.writes (apply_deletes tx.deletes s.entries)) ≡ (get k s tx).1
unfolding seen
lookup-applied k s tx =
    lookup-apply_writes k tx.writes (apply_deletes tx.deletes s.entries)
    ∙ ground (arith, lookup-apply_deletes k tx.deletes s.entries, get-seen k s tx)

commit_ok :
    (s s' : Store) (tx tx' : Tx)
    → commit s tx ≡ ((s', tx'), ok tt)
    → (s' ≡ record { entries = apply_writes tx.writes (apply_deletes tx.deletes s.entries) })
      × ((tx.committed || tx.rolled) ≡ false)
      × (validate s.entries tx.readset ≡ true)
      × (tx'.committed ≡ true)
unfolding commit
commit_ok s s' tx tx' h = ground arith

-- The version that a read notes: 0 where there is no record.
abbrev pub version_of : Option Record → Int64
version_of none = pos 0
version_of (some r) = r.version

pub read_valid_current : (v : Int64) (p : Option Record) → read_valid p v ≡ true → version_of p ≡ v
unfolding read_valid
read_valid_current v none h = sym ((int_eq_iff v (pos 0)).0 h)
read_valid_current v (some r) h = (int_eq_iff r.version v).0 h

read_valid-of_validate :
    (k : Str) (v : Int64) (entries : Map Record) (rs : Map Int64)
    → lookup k rs ≡ some v
    → validate entries rs ≡ true
    → read_valid (lookup k entries) v ≡ true
unfolding validate lookup
read_valid-of_validate k v entries [] found h = cc
read_valid-of_validate k v entries ((j, w) ∷ rs) found h =
    ground (arith, str_eq_iff j k, read_valid-of_validate k v entries rs)

-- A commit that succeeds leaves the store with exactly what the transaction saw, key by key; it
-- succeeds only if the transaction is open and each key that it read still has the version that it
-- noted, which is 0 for a missing key, and it closes the transaction.
pub commit_succeeds :
    (s s' : Store) (tx tx' : Tx)
    → commit s tx ≡ ((s', tx'), ok tt)
    → ((k : Str) → lookup k s'.entries ≡ (get k s tx).1)
      × ((tx.committed || tx.rolled) ≡ false)
      × ((k : Str) (v : Int64) → lookup k tx.readset ≡ some v → version_of (lookup k s.entries) ≡ v)
      × (tx'.committed ≡ true)
commit_succeeds s s' tx tx' h =
    let parts = commit_ok s s' tx tx' h in
    (
      λ k. ap (λ (t : Store). lookup k t.entries) parts.0 ∙ lookup-applied k s tx,
      parts.1,
      λ k v noted.
          read_valid_current v (lookup k s.entries)
            (read_valid-of_validate k v s.entries tx.readset noted parts.2),
      parts.3,
    )

-- Whoever read a version that is no longer current does not get through: the commit reports a
-- serialization failure, the store is as it was, and the transaction is closed.
pub commit_conflict :
    (k : Str) (v : Int64) (s : Store) (tx : Tx)
    → (tx.committed || tx.rolled) ≡ false
    → lookup k tx.readset ≡ some v
    → read_valid (lookup k s.entries) v ≡ false
    → commit s tx ≡ ((s, record tx { rolled = true }), err err_serialization)
unfolding commit
commit_conflict k v s tx open_tx read stale =
    ground (arith, read_valid-of_validate k v s.entries tx.readset)

-- First committer wins: after a transaction has committed a record of a key, an open transaction
-- that had read another version of the key fails to commit, and the store keeps the record of the
-- first.
pub commit_first_wins :
    (k : Str) (v : Int64) (r : Record) (s s' : Store) (first first' second : Tx)
    → commit s first ≡ ((s', first'), ok tt)
    → lookup k first.writes ≡ some r
    → r.version ≢ v
    → (second.committed || second.rolled) ≡ false
    → lookup k second.readset ≡ some v
    → (commit s' second ≡ ((s', record second { rolled = true }), err err_serialization))
      × (lookup k s'.entries ≡ some r)
unfolding seen read_valid
commit_first_wins k v r s s' first first' second done wrote newer open_tx read =
    let there : lookup k s'.entries ≡ some r =
      (commit_succeeds s s' first first' done).0 k ∙ get-seen k s first ∙ ground arith in
    (commit_conflict k v s' second open_tx read (rw there (int_eq_ne r.version v newer)), there)

-- ===== src/Pgx/Phantom.antt =====
-- `List` and `Commit` of internal/metadata/pgxsim/pgxsim.go: a transaction notes the versions of the
-- records that `List` finds, and no record that it does not find.
use tritontube.Base.{
  delete, Str, str_eq, str_eq_iff, Int64, ℤ, int_eq_iff, true, false, List, [], ◌∷◌, ◌++◌, none,
  some, Map, lookup, insert, lookup-insert, All, ◌≡◌, refl, ap, sym, ◌∙◌, Bool-cases, inl, inr,
  false≢true, is_some,
}
use tritontube.Pgx.Commits.{clone_record_id}
use tritontube.Pgx.{
  iso_level_serializable, read_write, apply_writes, apply_deletes, Record, Store, Tx, ok,
  has_prefix, clone_record, list_loop, list, put, read_valid, validate, commit,
}

-- The entries are a map: each key is found with its record.
abbrev pub IsMap : Map Record → Map Record → Type 0
IsMap entries part = All (λ (k, r). lookup k entries ≡ some r) part

-- Each noted version is the one of the record in the store.
abbrev Current : Map Record → Map Int64 → Type 0
Current entries rs = All (λ (k, v). (r : Record) × (lookup k entries ≡ some r) × (r.version ≡ v)) rs

insert-Current :
    (entries : Map Record) (k : Str) (r : Record) (rs : Map Int64)
    → lookup k entries ≡ some r
    → Current entries rs
    → Current entries (insert k r.version rs)
unfolding insert
insert-Current entries k r [] found h = ((r, found, refl), tt)
insert-Current entries k r ((j, v) ∷ rs) found h = elim (Bool-cases (str_eq j k)) [
  | inl e ↦ rw e ((r, ap (λ i. lookup i entries) ((str_eq_iff j k).0 e) ∙ found, refl), h.1)
  | inr e ↦ rw e (h.0, insert-Current entries k r rs found h.1)
]

list_loop-Current :
    (entries : Map Record) (prefix : Str) (m : Map Record) (items : List Record) (tx : Tx)
    → IsMap entries m
    → Current entries tx.readset
    → Current entries (list_loop prefix m items tx).0.readset
unfolding list_loop
list_loop-Current entries prefix [] items tx w h = h
list_loop-Current entries prefix ((k, r) ∷ m) items tx w h =
    elim (Bool-cases (has_prefix k prefix)) [
      | inl p ↦ rw p (
          list_loop-Current entries prefix m (items ++ clone_record r ∷ [])
            (record tx { readset = insert k r.version tx.readset }) w.1
            (insert-Current entries k r tx.readset w.0 h))
      | inr p ↦ rw p (list_loop-Current entries prefix m items tx w.1 h)
    ]

-- The loop of `List` changes only the read set.
list_loop-readset :
    (prefix : Str) (m : Map Record) (items : List Record) (tx : Tx)
    → (list_loop prefix m items tx).0
      ≡ record tx { readset = (list_loop prefix m items tx).0.readset }
unfolding list_loop
list_loop-readset prefix [] items tx = refl
list_loop-readset prefix ((k, r) ∷ m) items tx = elim (Bool-cases (has_prefix k prefix)) [
  | inl p ↦ rw p (
      list_loop-readset prefix m (items ++ clone_record r ∷ [])
        (record tx { readset = insert k r.version tx.readset }))
  | inr p ↦ rw p (list_loop-readset prefix m items tx)
]

still_found :
    (entries : Map Record) (q r : Record) (k : Str)
    → lookup q.key entries ≡ none
    → lookup k entries ≡ some r
    → lookup k (insert q.key q entries) ≡ some r
still_found entries q r k new found = elim (Bool-cases (str_eq q.key k)) [
  | inl e ↦
      let same = ap (λ j. lookup j entries) ((str_eq_iff q.key k).0 e) in
      absurd (false≢true (ap is_some (sym new ∙ same ∙ found)))
  | inr e ↦ lookup-insert q.key k q entries ∙ rw e found
]

-- A new key invalidates nothing.
validate-insert :
    (entries : Map Record) (q : Record) (rs : Map Int64)
    → lookup q.key entries ≡ none
    → Current entries rs
    → validate (insert q.key q entries) rs ≡ true
unfolding validate read_valid
validate-insert entries q [] new h = refl
validate-insert entries q ((k, v) ∷ rs) new h =
    let (r, found, version) = h.0 in
    let there : read_valid (lookup k (insert q.key q entries)) v ≡ true =
      ap (λ o. read_valid o v) (still_found entries q r k new found)
      ∙ (int_eq_iff r.version v).1 version in
    rw there (validate-insert entries q rs new h.1)

validate-same :
    (entries : Map Record) (rs : Map Int64) → Current entries rs → validate entries rs ≡ true
unfolding validate read_valid
validate-same entries [] h = refl
validate-same entries ((k, v) ∷ rs) h =
    let (r, found, version) = h.0 in
    let there : read_valid (lookup k entries) v ≡ true =
      ap (λ o. read_valid o v) found ∙ (int_eq_iff r.version v).1 version in
    rw there (validate-same entries rs h.1)

-- A transaction of `BeginTx` that may write
abbrev pub begun : Tx
begun = record {
  opts = record { iso_level = iso_level_serializable; access_mode = read_write };
  writes = [];
  deletes = [];
  readset = [];
  committed = false;
  rolled = false;
}

-- It lists a prefix and puts a record.
abbrev pub list_and_put : Str → ℤ → Record → Store → Tx
list_and_put prefix limit r s = (put r (list prefix limit s begun).0).0

commit-put :
    (r : Record) (rs : Map Int64) (s : Store)
    → validate s.entries rs ≡ true
    → let tx = (put r (record begun { readset = rs })).0 in
      ((commit s tx).0.0 ≡ record { entries = insert r.key r s.entries })
      × ((commit s tx).1 ≡ ok tt)
unfolding commit put apply_writes apply_deletes insert delete
commit-put r rs s h = rw h (
  ap (λ q. record { entries = insert r.key q s.entries })
      (clone_record_id (clone_record r) ∙ clone_record_id r),
  refl,
)

listed :
    (prefix : Str) (limit : ℤ) (r : Record) (s : Store)
    → list_and_put prefix limit r s
      ≡ (put r (record begun { readset = (list_loop prefix s.entries [] begun).0.readset })).0
unfolding list
listed prefix limit r s = ap (λ tx. (put r tx).0) (list_loop-readset prefix s.entries [] begun)

-- Two transactions begin on one store, whose entries are a map; each lists a prefix there and puts a
-- record, the first under a key that the store does not have. Both commit, one after the other, so
-- the second commits although its list has not seen what the first has written.
pub commit-list_and_put :
    (prefix : Str) (limit : ℤ) (q r : Record) (s : Store)
    → IsMap s.entries s.entries
    → lookup q.key s.entries ≡ none
    → let first = commit s (list_and_put prefix limit q s) in
      let second = commit first.0.0 (list_and_put prefix limit r s) in
      (first.1 ≡ ok tt)
      × (second.1 ≡ ok tt)
      × (second.0.0.entries ≡ insert r.key r (insert q.key q s.entries))
commit-list_and_put prefix limit q r s w new =
    let rs = (list_loop prefix s.entries [] begun).0.readset in
    let current = list_loop-Current s.entries prefix s.entries [] begun w tt in
    let first = commit-put q rs s (validate-same s.entries rs current) in
    let second =
      commit-put r rs (record { entries = insert q.key q s.entries })
        (validate-insert s.entries q rs new current) in
    rw (listed prefix limit q s, listed prefix limit r s, first.0)
      (first.1, second.1, ap (λ (t : Store). t.entries) second.0)

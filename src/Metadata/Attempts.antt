-- ===== src/Metadata/Attempts.antt =====
-- One attempt of `PutMetadata` or `DeleteMetadata` (internal/metadata/service.go) is atomic at the
-- moment of its commit, whatever other clients did since its read.
use tritontube.Base.{
  int_eq, is_pos, ◌↔◌, Bool, ℕ, Str, Int64, pos, negsuc, inc64, int_eq_iff, true, false, [], ◌∷◌,
  Option, none, some, lookup, insert, delete, if◌then◌else◌, arith, ◌≡◌, refl, ap, sym, ◌∙◌,
  Bool-cases, inl, inr,
}
use tritontube.Pgx
use tritontube.Pgx.{
  Store, Tx, Record, err_serialization, read_valid, validate, apply_writes, apply_deletes,
  clone_record, read_store,
}
use tritontube.Pgx.Commits.{read_valid_current, version_of, clone_record_id}
use tritontube.Metadata.Answers.{clone_map_id}
use tritontube.Metadata.Types.{MetadataItem, from_pg, Result, ok, err}
use tritontube.Metadata.Service.{Others, write_options, write_and_commit}
use tritontube.Metadata.Put.{
  check_put, next_version, new_record, put_checked, put_read, put_begun, put_attempt,
}

-- A transaction that has just begun.
abbrev pub fresh : Tx
fresh = record {
  opts = write_options;
  writes = [];
  deletes = [];
  readset = [];
  committed = false;
  rolled = false;
}

pub begin_fresh : Pgx.begin_tx write_options ≡ Pgx.ok fresh
unfolding Pgx.begin_tx
begin_fresh = refl

-- The version that the caller expects is the key's, or the caller expects none.
abbrev pub version_holds : Int64 → Option Record → Bool
version_holds expected o = if is_pos expected then int_eq (version_of o) expected else true

-- The record of an item after what is there: one version on.
abbrev pub next_record : MetadataItem → Option Record → Record
next_record item o = record {
  key = item.key;
  value = item.value;
  attributes = item.attributes;
  version = inc64 (version_of o);
}

-- The transaction after the read of a key.
abbrev pub after_read : Str → Option Record → Tx
after_read key o = record fresh { readset = (key, version_of o) ∷ [] }

read_fresh : (key : Str) (o : Option Record) → read_store key o fresh ≡ (after_read key o, o)
unfolding read_store insert
read_fresh key none = refl
read_fresh key (some r) = ap (λ c. (after_read key (some r), some c)) (clone_record_id r)

pub get-fresh :
    (key : Str) (s : Store)
    → Pgx.get key s fresh ≡ (after_read key (lookup key s.entries), lookup key s.entries)
unfolding Pgx.get lookup
get-fresh key s = read_fresh key (lookup key s.entries)

-- The outcome of an upsert in the store `s` by a client who has read `o`.
unfoldable pub upsert : MetadataItem → Option Record → Store → Store × Result Record
upsert item o s =
    if read_valid (lookup item.key s.entries) (version_of o)
    then (
      record { entries = insert item.key (new_record item o) s.entries },
      ok (new_record item o),
    )
    else (s, err (from_pg err_serialization))

-- The key of the record is the item's.
key-new_record : (item : MetadataItem) (o : Option Record) → (new_record item o).key ≡ item.key
unfolding new_record
key-new_record item o = refl

clone_twice : (r : Record) → clone_record (clone_record r) ≡ r
clone_twice r = clone_record_id (clone_record r) ∙ clone_record_id r

-- A put and its commit, for any record under its own key.
write_record :
    (during : Store → Store) (r : Record) (o : Option Record) (s : Store)
    → write_and_commit during r s (Pgx.put r (after_read r.key o)) ≡ (
        if read_valid (lookup r.key (during s).entries) (version_of o)
        then (record { entries = insert r.key r (during s).entries }, ok r)
        else (during s, err (from_pg err_serialization)))
unfolding write_and_commit Pgx.put Pgx.commit insert delete
write_record during r o s =
    elim (Bool-cases (read_valid (lookup r.key (during s).entries) (version_of o))) [
      | inl valid ↦
          let stored : Record → Store =
            λ c. record { entries = insert r.key c (during s).entries } in
          rw valid (ap (λ c. (stored c, ok r)) (clone_twice r))
      | inr stale ↦ rw stale
    ]

-- Once the expected version is checked, an attempt of `PutMetadata` is an upsert.
unfoldable pub checked_upsert :
    (Store → Store)
    → MetadataItem
    → Option Record
    → Store
    → Result (Unit {0})
    → Store × Result Record
checked_upsert during item o s (ok u) = upsert item o (during s)
checked_upsert during item o s (err e) = (s, err e)

pub put_attempt-upsert :
    (others : Others) (expected : Int64) (item : MetadataItem) (n : ℕ) (s : Store)
    → let s0 : Store = others.before n s in
      let o : Option Record = lookup item.key s0.entries in
      put_attempt others expected item n s
      ≡ checked_upsert (others.during n) item o s0 (check_put expected item.key o)
unfolding put_attempt put_begun put_read
put_attempt-upsert others expected item n s =
    let s0 = others.before n s in
    let o = lookup item.key s0.entries in
    ap (put_begun (others.during n) expected item s0) begin_fresh
    ∙ ap (put_read (others.during n) expected item s0) (get-fresh item.key s0)
    ∙ by_check (others.during n) s0 o (check_put expected item.key o)
  where
    by_check :
        (during : Store → Store) (s0 : Store) (o : Option Record) (c : Result (Unit {0}))
        → put_checked during item s0 (after_read item.key o) o c ≡ checked_upsert during item o s0 c
    by_check during s0 o (ok u) =
        unfold put_checked checked_upsert upsert in write_record during (new_record item o) o s0
    by_check during s0 o (err e) = unfold put_checked checked_upsert in refl

next_version_lem : (o : Option Record) → next_version o ≡ inc64 (version_of o)
unfolding next_version inc64
next_version_lem none = ground arith
next_version_lem (some r) = refl

-- The record to write and the check depend on what was read by its version alone.
new_record-version :
    (item : MetadataItem) (o p : Option Record)
    → version_of p ≡ version_of o
    → new_record item o ≡ new_record item p
unfolding new_record
new_record-version item o p e = ground (arith, next_version_lem o, next_version_lem p)

check_put-version :
    (expected : Int64) (key : Str) (o p : Option Record)
    → version_of p ≡ version_of o
    → check_put expected key o ≡ ok tt
    → check_put expected key p ≡ ok tt
unfolding check_put
check_put-version (negsuc n) key o none e h = refl
check_put-version (negsuc n) key o (some r) e h = refl
check_put-version (pos n) key none none e h = h
check_put-version (pos n) key none (some r) e h = ground arith
check_put-version (pos n) key (some q) none e h = ground (arith, int_eq_iff q.version (pos n))
check_put-version (pos n) key (some q) (some r) e h =
    ground (arith, int_eq_iff q.version (pos n), int_eq_iff r.version (pos n))

upsert_ok :
    (item : MetadataItem) (o : Option Record) (s s' : Store) (r : Record) (expected : Int64)
    → check_put expected item.key o ≡ ok tt
    → upsert item o s ≡ (s', ok r)
    → (check_put expected item.key (lookup item.key s.entries) ≡ ok tt)
      × (r ≡ new_record item (lookup item.key s.entries))
      × (s' ≡ record { entries = insert item.key r s.entries })
unfolding upsert
upsert_ok item o s s' r expected checked h =
    let p = lookup item.key s.entries in
    elim (Bool-cases (read_valid p (version_of o))) [
      | inl valid ↦
          let same = read_valid_current (version_of o) p valid in
          let wrote : new_record item o ≡ r = ground arith in
          (
            check_put-version expected item.key o p same checked,
            sym wrote ∙ new_record-version item o p same,
            ground (arith, wrote),
          )
      | inr stale ↦ ground arith
    ]

pub check_put-version_holds :
    (expected : Int64) (key : Str) (o : Option Record)
    → (check_put expected key o ≡ ok tt) ↔ (version_holds expected o ≡ true)
unfolding check_put
check_put-version_holds (pos n) key none = (λ h. ground arith, λ h. ground arith)
check_put-version_holds (negsuc n) key none = (λ h. refl, λ h. refl)
check_put-version_holds expected key (some r) = (λ h. ground arith, λ h. ground arith)

pub new_record_lem :
    (item : MetadataItem) (o : Option Record) → new_record item o ≡ next_record item o
unfolding new_record
new_record_lem item o =
    ap (λ m. record (next_record item o) { attributes = m; version = next_version o })
      (clone_map_id item.attributes)
    ∙ ap (λ v. record (next_record item o) { version = v }) (next_version_lem o)

put_attempt_checked :
    (others : Others) (expected : Int64) (item : MetadataItem) (n : ℕ) (s s' : Store) (r : Record)
    → put_attempt others expected item n s ≡ (s', ok r)
    → let s1 : Store = others.during n (others.before n s) in
      (check_put expected item.key (lookup item.key s1.entries) ≡ ok tt)
      × (r ≡ new_record item (lookup item.key s1.entries))
      × (s' ≡ record { entries = insert item.key r s1.entries })
put_attempt_checked others expected item n s s' r h =
    let s0 = others.before n s in
    let o = lookup item.key s0.entries in
    by_check o (others.during n) s0 (check_put expected item.key o) refl
      (sym (put_attempt-upsert others expected item n s) ∙ h)
  where
    by_check :
        (o : Option Record) (during : Store → Store) (s0 : Store) (c : Result (Unit {0}))
        → check_put expected item.key o ≡ c
        → checked_upsert during item o s0 c ≡ (s', ok r)
        → (check_put expected item.key (lookup item.key (during s0).entries) ≡ ok tt)
          × (r ≡ new_record item (lookup item.key (during s0).entries))
          × (s' ≡ record { entries = insert item.key r (during s0).entries })
    by_check o during s0 (err e) ec eq = unfold checked_upsert in cc
    by_check o during s0 (ok u) ec eq =
        unfold checked_upsert in upsert_ok item o (during s0) s' r expected ec eq

-- An attempt that succeeds is a conditional upsert in the store as it is at the commit: there the
-- version is the expected one, if that is positive; the new record has the key, the value and the
-- attributes of the item and the version after the one there, and only its key changes.
pub put_attempt_atomic :
    (others : Others) (expected : Int64) (item : MetadataItem) (n : ℕ) (s s' : Store) (r : Record)
    → put_attempt others expected item n s ≡ (s', ok r)
    → let s1 : Store = others.during n (others.before n s) in
      let there : Option Record = lookup item.key s1.entries in
      (version_holds expected there ≡ true)
      × (r ≡ next_record item there)
      × (s' ≡ record { entries = insert item.key r s1.entries })
put_attempt_atomic others expected item n s s' r h =
    let there = lookup item.key (others.during n (others.before n s)).entries in
    let (checked, made, after) = put_attempt_checked others expected item n s s' r h in
    (
      (check_put-version_holds expected item.key there).0 checked,
      made ∙ new_record_lem item there,
      after,
    )

-- ===== src/Examples/PgxRuns.antt =====
-- Two transactions of internal/metadata/pgxsim/pgxsim.go on a store with one record.
use tritontube.Base.{
  Int64, ℕ, Str, lit, [], ◌∷◌, ◌≡◌, ◌≢◌, refl, arith, pos, true, false, ◌||◌, some, lookup, insert,
  str_eq, Bool,
}
use tritontube.Pgx.{Record, Store, Tx, ok, err, err_serialization, get, commit}
use tritontube.Pgx.Commits.{version_of, commit_succeeds, commit_first_wins}
use tritontube.Pgx.Phantom.{list_and_put, commit-list_and_put}

abbrev row : Str → ℕ → Record
row value version = record { key = lit "k"; value = value; attributes = []; version = pos version }

abbrev store : Store
store = record { entries = (lit "k", row (lit "x") 1) ∷ [] }

-- A transaction that has read the record and writes its next version.
abbrev writer : Str → Tx
writer value = record {
  opts = record { iso_level = 1; access_mode = 2 };
  writes = (lit "k", row value 2) ∷ [];
  deletes = [];
  readset = (lit "k", pos 1) ∷ [];
  committed = false;
  rolled = false;
}

abbrev written_store : Store
written_store = record { entries = (lit "k", row (lit "y") 2) ∷ [] }

first_commits :
    commit store (writer (lit "y"))
    ≡ ((written_store, record (writer (lit "y")) { committed = true }), ok tt)
unfolding commit lookup insert str_eq
first_commits = refl

commit_succeeds_example :
    ((k : Str) → lookup k written_store.entries ≡ (get k store (writer (lit "y"))).1)
    × ((false || false) ≡ false)
    × ((k : Str) (v : Int64)
        → lookup k ((lit "k", pos 1) ∷ []) ≡ some v
        → version_of (lookup k store.entries) ≡ v)
    × (◌≡◌ {A = Bool} true true)
commit_succeeds_example =
    commit_succeeds store written_store (writer (lit "y"))
      (record (writer (lit "y")) { committed = true }) first_commits

commit_first_wins_example :
    (commit written_store (writer (lit "z"))
      ≡ ((written_store, record (writer (lit "z")) { rolled = true }), err err_serialization))
    × (lookup (lit "k") written_store.entries ≡ some (row (lit "y") 2))
unfolding lookup str_eq
commit_first_wins_example =
    commit_first_wins (lit "k") (pos 1) (row (lit "y") 2) store written_store (writer (lit "y"))
      (record (writer (lit "y")) { committed = true }) (writer (lit "z")) first_commits refl
      two_ne_one refl refl
  where
    two_ne_one : pos 2 ≢ pos 1
    two_ne_one = ground arith

abbrev reader : Tx
reader = record {
  opts = record { iso_level = 1; access_mode = 1 };
  writes = [];
  deletes = [];
  readset = (lit "k", pos 1) ∷ [];
  committed = false;
  rolled = false;
}

abbrev other : Str → Record
other key = record { key = key; value = lit "n"; attributes = []; version = pos 1 }

commit-list_and_put_example :
    let first = commit store (list_and_put [] (pos 0) (other (lit "a")) store) in
    let second = commit first.0.0 (list_and_put [] (pos 0) (other (lit "b")) store) in
    (first.1 ≡ ok tt)
    × (second.1 ≡ ok tt)
    × (second.0.0.entries
        ≡ insert (lit "b") (other (lit "b")) (insert (lit "a") (other (lit "a")) store.entries))
unfolding lookup str_eq
commit-list_and_put_example =
    commit-list_and_put [] (pos 0) (other (lit "a")) (other (lit "b")) store (refl, tt) refl

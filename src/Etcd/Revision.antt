-- ===== src/Etcd/Revision.antt =====
-- Comparing a key's mod revision in a transaction of internal/metadata/etcdsim/etcdsim.go is a
-- compare-and-swap.
use tritontube.Etcd.Dated.{IsDated, next_revision, written}
use tritontube.Base.{
  int_eq_ne, ◌≤◌, ◌<◌, Str, str_eq, str_eq_refl, Int64, pos_part, inc64, max_int64, int_eq,
  int_eq_iff, true, false, [], ◌∷◌, some, Map, lookup, lookup-insert, if◌then◌else◌, arith, ◌≡◌,
  ◌≢◌, refl, ap, Option-cases, inl, inr,
}
use tritontube.Etcd.{
  KvPair, Client, Txn, ok, new_txn, txn_if, txn_then, compare_mod, compare_op_equal, put_op,
  current, eval_compares, commit_ops, commit,
}

-- `If(ModRevision(key) = expected).Then(Put(key, value))`
abbrev pub put_if : Str → Int64 → Str → Txn
put_if key expected value =
    txn_then (txn_if new_txn (compare_mod key compare_op_equal expected ∷ []))
      (put_op key value ∷ [])

pub eval_put_if :
    (kv : Map KvPair) (key : Str) (expected : Int64)
    → eval_compares kv (compare_mod key compare_op_equal expected ∷ [])
      ≡ ok (int_eq (current kv key) expected)
unfolding eval_compares
eval_put_if kv key expected = rw (str_eq_refl compare_op_equal) (ground arith)

-- What remains of `put_if` once its comparison has a result.
swap_verdict :
    (key : Str) (expected : Int64) (value : Str) (c : Client)
    → commit (put_if key expected value) c
      ≡ commit_ops (put_if key expected value) (ok (int_eq (current c.kv key) expected)) c
swap_verdict key expected value c =
    unfold commit in
    ap (λ v. commit_ops (put_if key expected value) v c) (eval_put_if c.kv key expected)

-- Compare-and-swap: where the key has another mod revision than expected nothing changes; with the
-- expected one the value is written under the next revision, and every other key stays.
pub commit-put_if :
    (key : Str) (expected : Int64) (value : Str) (c : Client)
    → (current c.kv key ≢ expected
        → commit (put_if key expected value) c
          ≡ (c, ok (record { succeeded = false; revision = c.revision })))
      × (current c.kv key ≡ expected
          → ((commit (put_if key expected value) c).1
              ≡ ok (record { succeeded = true; revision = inc64 c.revision }))
            × ((k : Str)
                → lookup k (commit (put_if key expected value) c).0.kv
                  ≡ (if str_eq key k then some (written value c) else lookup k c.kv)))
unfolding commit_ops
commit-put_if key expected value c = (
  λ differs. rw (swap_verdict, int_eq_ne (current c.kv key) expected differs),
  λ same.
      rw (swap_verdict key expected value c, (int_eq_iff (current c.kv key) expected).1 same)
        (refl, λ k. lookup-insert key k (written value c) c.kv),
)

current-le :
    (key : Str) (c : Client) → IsDated c → pos_part (current c.kv key) ≤ pos_part c.revision
unfolding current
current-le key c d = elim (Option-cases (lookup key c.kv)) [
  | inl e ↦ rw (e, pos_part) (omega arith)
  | inr (entry, e) ↦ rw (e, pos_part) (d.past key entry e).2
]

current-swapped :
    (key : Str) (expected : Int64) (value : Str) (c : Client)
    → current c.kv key ≡ expected
    → current (commit (put_if key expected value) c).0.kv key ≡ inc64 c.revision
unfolding current
current-swapped key expected value c same =
    ground (arith, ((commit-put_if key expected value c).1 same).1 key, str_eq_refl key)

-- Two writers that saw the same mod revision of a key cannot both succeed: in a store whose keys
-- have past revisions, below the largest int64, after the first swap the second fails and changes
-- nothing.
pub commit-put_if_twice :
    (key : Str) (expected : Int64) (v w : Str) (c : Client)
    → IsDated c
    → pos_part c.revision < max_int64
    → current c.kv key ≡ expected
    → let c' : Client = (commit (put_if key expected v) c).0 in
      commit (put_if key expected w) c'
      ≡ (c', ok (record { succeeded = false; revision = c'.revision }))
commit-put_if_twice key expected v w c d h same =
    (commit-put_if key expected w (commit (put_if key expected v) c).0).0 (λ again. absurd (
      omega (
        arith,
        current-le key c d,
        ap pos_part same,
        ap pos_part again,
        ap pos_part (current-swapped key expected v c same),
        ap pos_part (next_revision c d h),
      )))

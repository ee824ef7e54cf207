-- ===== src/Metadata/Guard.antt =====
-- The etcd half of `PutMetadata` and `DeleteMetadata` (internal/metadata/service.go): the compare
-- on the mod revision is made only if the expected revision is not negative.
use tritontube.Base.{
  false≢true, is_some, lookup-delete, Bool-cases, Option-cases, inl, inr, none, false, sym,
  str_eq_iff, [], ◌∷◌, inr, str_eq_iff, sym, Option-cases, inl, Bool-cases, none, is_some, Str,
  str_eq, Int64, pos, negsuc, inc64, int_eq, is_nonneg, Bool, true, false, some, Map, lookup,
  lookup-insert, if◌then◌else◌, ◌≡◌, refl, ap, ◌∙◌,
}
use tritontube.Etcd.{
  Result, TxnResponse, finish, run_ops, delete_op, delete_op, Client, KvPair, Op, ok, current,
  eval_compares, commit_ops, commit, put_op,
}
use tritontube.Etcd.Dated.{written}
use tritontube.Etcd.Revision.{eval_put_if}
use tritontube.Metadata.Service.{guarded}

-- The revision that the caller expects is the key's, or the caller expects none.
unfoldable pub guard_holds : Map KvPair → Str → Int64 → Bool
guard_holds kv key expected = if is_nonneg expected then int_eq (current kv key) expected else true

guarded_verdict :
    (key : Str) (expected : Int64) (op : Op) (c : Client)
    → commit (guarded key expected op) c
      ≡ commit_ops (guarded key expected op) (ok (guard_holds c.kv key expected)) c
unfolding commit guarded guard_holds
guarded_verdict key (pos n) op c =
    ap (λ v. commit_ops (guarded key (pos n) op) v c) (eval_put_if c.kv key (pos n))
guarded_verdict key (negsuc n) op c = unfold eval_compares in refl

-- With another revision the transaction fails and changes nothing, for a put and a delete alike.
pub guarded_conflict :
    (key : Str) (expected : Int64) (op : Op) (c : Client)
    → guard_holds c.kv key expected ≡ false
    → commit (guarded key expected op) c
      ≡ (c, ok (record { succeeded = false; revision = c.revision }))
guarded_conflict key expected op c h =
    guarded_verdict key expected op c ∙ fails expected (guard_holds c.kv key expected) h
  where
    fails :
        (e : Int64) (b : Bool)
        → b ≡ false
        → commit_ops (guarded key e op) (ok b) c
          ≡ (c, ok (record { succeeded = false; revision = c.revision }))
    fails (pos n) b g = unfold commit_ops guarded in rw g
    fails (negsuc n) b g = unfold commit_ops guarded in rw g

pub guarded_put :
    (key : Str) (expected : Int64) (value : Str) (c : Client)
    → guard_holds c.kv key expected ≡ true
    → ((commit (guarded key expected (put_op key value)) c).1
        ≡ ok (record { succeeded = true; revision = inc64 c.revision }))
      × ((k : Str)
          → lookup k (commit (guarded key expected (put_op key value)) c).0.kv
            ≡ (if str_eq key k then some (written value c) else lookup k c.kv))
guarded_put key expected value c h =
    rw (guarded_verdict key expected (put_op key value) c, h) (writes expected)
  where
    writes :
        (e : Int64)
        → ((commit_ops (guarded key e (put_op key value)) (ok true) c).1
            ≡ ok (record { succeeded = true; revision = inc64 c.revision }))
          × ((k : Str)
              → lookup k (commit_ops (guarded key e (put_op key value)) (ok true) c).0.kv
                ≡ (if str_eq key k then some (written value c) else lookup k c.kv))
    writes (pos n) =
        unfold commit_ops guarded in (refl, λ k. lookup-insert key k (written value c) c.kv)
    writes (negsuc n) =
        unfold commit_ops guarded in (refl, λ k. lookup-insert key k (written value c) c.kv)

-- What a delete of a key does to a client that lets it through.
abbrev pub Deletes : Str → Client → Client × Result TxnResponse → Type 0
Deletes key c (c', r) =
    (r ≡ ok (record { succeeded = true; revision = c'.revision }))
    × ((k : Str) → lookup k c'.kv ≡ (if str_eq key k then none else lookup k c.kv))

lookup-absent :
    (key k : Str) (kv : Map KvPair)
    → is_some (lookup key kv) ≡ false
    → lookup k kv ≡ (if str_eq key k then none else lookup k kv)
lookup-absent key k kv h = elim (Bool-cases (str_eq key k)) [
  | inl same ↦ rw same (elim (Option-cases (lookup key kv)) [
    | inl e ↦ ap (λ j. lookup j kv) (sym ((str_eq_iff key k).0 same)) ∙ e
    | inr (v, e) ↦ absurd (false≢true (sym h ∙ ap is_some e))
  ])
  | inr other ↦ rw other refl
]

delete_ops :
    (key : Str) (c : Client) → Deletes key c (finish true (run_ops (delete_op key ∷ []) [] c))
unfolding finish run_ops
delete_ops key c = elim (Bool-cases (is_some (lookup key c.kv))) [
  | inl there ↦ rw there (refl, λ k. lookup-delete key k c.kv)
  | inr missing ↦ rw missing (refl, λ k. lookup-absent key k c.kv missing)
]

pub guarded_delete :
    (key : Str) (expected : Int64) (c : Client)
    → guard_holds c.kv key expected ≡ true
    → Deletes key c (commit (guarded key expected (delete_op key)) c)
guarded_delete key expected c h =
    rw (guarded_verdict key expected (delete_op key) c, h) (removes expected)
  where
    removes : (e : Int64) → Deletes key c (commit_ops (guarded key e (delete_op key)) (ok true) c)
    removes (pos n) = unfold commit_ops guarded in delete_ops key c
    removes (negsuc n) = unfold commit_ops guarded in delete_ops key c

-- ===== src/Storage/Writes.antt =====
-- What a write of internal/storage/fs.go leaves behind.
use tritontube.Storage.Files.{
  remove_tmp, FsCalls, PutResult, put_failed, tmp_of, put_renamed, put_flushed, put_copied,
  put_created, put,
}
use tritontube.Base.{
  str_eq_refl, ◌⊎◌, sym, inr, inl, ℕ, suc, ◌+◌, Str, lit, str_eq_iff, str_eq_ne, [], ◌∷◌, ◌++◌,
  Option, none, some, Map, lookup, insert, delete, lookup-insert, lookup-delete, length, take,
  arith, ◌≡◌, ◌≢◌, refl, ap,
}

tmp_ne : (path rest : Str) (a : ℕ) → path ++ (a ∷ rest) ≢ path
tmp_ne path rest a h = omega (arith, longer path, ap length h)
  where
    longer : (s : Str) → length (s ++ (a ∷ rest)) ≡ suc (length s + length rest)
    longer [] = omega arith
    longer (x ∷ xs) = omega (arith, longer xs)

-- Every name but the temporary one holds in the second map what it holds in the first.
abbrev Kept : Str → Map Str → Map Str → Type 0
Kept path files after = (k : Str) → k ≢ tmp_of path → lookup k after ≡ lookup k files

Kept-delete :
    (path : Str) (files after : Map Str)
    → Kept path files after
    → Kept path files (delete (tmp_of path) after)
Kept-delete path files after h k n =
    ground (arith, lookup-delete (tmp_of path) k after, str_eq_iff (tmp_of path) k, h k n)

Kept-remove_tmp :
    (remove : Option Str) (path : Str) (files after : Map Str)
    → Kept path files after
    → Kept path files (remove_tmp remove path after)
unfolding remove_tmp
Kept-remove_tmp none path files after h = Kept-delete path files after h
Kept-remove_tmp (some e) path files after h = h

Kept-insert :
    (path v : Str) (files after : Map Str)
    → Kept path files after
    → Kept path files (insert (tmp_of path) v after)
Kept-insert path v files after h k n =
    ground (arith, lookup-insert (tmp_of path) k v after, str_eq_iff (tmp_of path) k, h k n)

module _ (hex_sha256 : Str → Str) where
  -- What `Put` promises of its answer.
  abbrev Atomic : Str → Str → Map Str → Map Str × PutResult → Type 0
  Atomic path content files (after, answer) =
      ((lookup path after ≡ some content)
          × (answer ≡ record { size = length content; checksum = hex_sha256 content; error = none })
        ⊎ (lookup path after ≡ lookup path files) × (answer.size ≡ 0) × (answer.checksum ≡ []))
      × ((k : Str) → k ≢ path → k ≢ tmp_of path → lookup k after ≡ lookup k files)

  undone :
      (path content : Str) (files after : Map Str) (e : Option Str)
      → Kept path files after
      → Atomic path content files (after, put_failed e)
  undone path content files after e h =
      (inr (h path (λ q. tmp_ne path (lit "tmp") 46 (sym q)), refl, refl), λ k n m. h k m)

  renamed-Atomic :
      (rename : Option Str) (calls : FsCalls) (path content : Str) (files after : Map Str)
      → Kept path files after
      → Atomic path content files (put_renamed hex_sha256 rename calls path content after)
  unfolding put_renamed
  renamed-Atomic (some e) calls path content files after h =
      undone path content files (remove_tmp calls.remove path after) (some e)
        (Kept-remove_tmp calls.remove path files after h)
  renamed-Atomic none calls path content files after h = (
    inl (rw (lookup-insert, str_eq_refl) refl, refl),
    λ k n m.
        rw (lookup-insert, str_eq_ne path k (λ q. n (sym q))) (Kept-delete path files after h k m),
  )

  flushed-Atomic :
      (sync close : Option Str) (calls : FsCalls) (path content : Str) (files after : Map Str)
      → Kept path files after
      → Atomic path content files (put_flushed hex_sha256 sync close calls path content after)
  unfolding put_flushed
  flushed-Atomic (some e) close calls path content files after h =
      undone path content files (remove_tmp calls.remove path after) (some e)
        (Kept-remove_tmp calls.remove path files after h)
  flushed-Atomic none (some e) calls path content files after h =
      undone path content files (remove_tmp calls.remove path after) (some e)
        (Kept-remove_tmp calls.remove path files after h)
  flushed-Atomic none none calls path content files after h =
      renamed-Atomic calls.rename calls path content files after h

  copied-Atomic :
      (copy : Option ℕ) (calls : FsCalls) (path content : Str) (files after : Map Str)
      → Kept path files after
      → Atomic path content files (put_copied hex_sha256 copy calls path content after)
  unfolding put_copied
  copied-Atomic (some n) calls path content files after h =
      undone path content files
        (remove_tmp calls.remove path (insert (tmp_of path) (take n content) after)) none
        (Kept-remove_tmp calls.remove path files (insert (tmp_of path) (take n content) after)
          (Kept-insert path (take n content) files after h))
  copied-Atomic none calls path content files after h =
      flushed-Atomic calls.sync calls.close calls path content files
        (insert (tmp_of path) content after) (Kept-insert path content files after h)

  created-Atomic :
      (mkdir_all create : Option Str) (calls : FsCalls) (path content : Str) (files : Map Str)
      → Atomic path content files (put_created hex_sha256 mkdir_all create calls path content files)
  unfolding put_created
  created-Atomic (some e) create calls path content files =
      undone path content files files (some e) (λ k n. refl)
  created-Atomic none (some e) calls path content files =
      undone path content files files (some e) (λ k n. refl)
  created-Atomic none none calls path content files =
      copied-Atomic calls.copy calls path content files (insert (tmp_of path) [] files)
        (Kept-insert path [] files files (λ k n. refl))

  -- `Put` is all or nothing, whichever calls fail. Either the file holds the content, the answer
  -- has its length and checksum and no error; or the file is as it was, and size and checksum are
  -- 0 and "". Every name but the file's and the temporary one keeps its contents.
  pub put-atomic :
      (calls : FsCalls) (path content : Str) (files : Map Str)
      → let r : Map Str × PutResult = put hex_sha256 calls path content files in
        ((lookup path r.0 ≡ some content)
            × (r.1 ≡ record { size = length content; checksum = hex_sha256 content; error = none })
          ⊎ (lookup path r.0 ≡ lookup path files) × (r.1.size ≡ 0) × (r.1.checksum ≡ []))
        × ((k : Str) → k ≢ path → k ≢ tmp_of path → lookup k r.0 ≡ lookup k files)
  unfolding put
  put-atomic calls path content files =
      created-Atomic calls.mkdir_all calls.create calls path content files

  -- Without a failed copy, an answer without an error means that the file holds the content.
  renamed_ok :
      (rename : Option Str) (calls : FsCalls) (path content : Str) (after : Map Str)
      → let r : Map Str × PutResult = put_renamed hex_sha256 rename calls path content after in
        r.1.error ≡ none → lookup path r.0 ≡ some content
  unfolding put_renamed
  renamed_ok (some e) calls path content after h = cc
  renamed_ok none calls path content after h = rw (lookup-insert, str_eq_refl) refl

  flushed_ok :
      (sync close : Option Str) (calls : FsCalls) (path content : Str) (after : Map Str)
      → let r : Map Str × PutResult = put_flushed hex_sha256 sync close calls path content after in
        r.1.error ≡ none → lookup path r.0 ≡ some content
  unfolding put_flushed
  flushed_ok (some e) close calls path content after h = cc
  flushed_ok none (some e) calls path content after h = cc
  flushed_ok none none calls path content after h =
      renamed_ok calls.rename calls path content after h

  copied_ok :
      (copy : Option ℕ) (calls : FsCalls) (path content : Str) (after : Map Str)
      → copy ≡ none
      → let r : Map Str × PutResult = put_copied hex_sha256 copy calls path content after in
        r.1.error ≡ none → lookup path r.0 ≡ some content
  unfolding put_copied
  copied_ok (some n) calls path content after c h = cc
  copied_ok none calls path content after c h =
      flushed_ok calls.sync calls.close calls path content (insert (tmp_of path) content after) h

  created_ok :
      (mkdir_all create : Option Str) (calls : FsCalls) (path content : Str) (files : Map Str)
      → calls.copy ≡ none
      → let r : Map Str × PutResult =
          put_created hex_sha256 mkdir_all create calls path content files in
        r.1.error ≡ none → lookup path r.0 ≡ some content
  unfolding put_created
  created_ok (some e) create calls path content files c h = cc
  created_ok none (some e) calls path content files c h = cc
  created_ok none none calls path content files c h =
      copied_ok calls.copy calls path content (insert (tmp_of path) [] files) c h

  pub put_ok :
      (calls : FsCalls) (path content : Str) (files : Map Str)
      → calls.copy ≡ none
      → (put hex_sha256 calls path content files).1.error ≡ none
      → lookup path (put hex_sha256 calls path content files).0 ≡ some content
  unfolding put
  put_ok calls path content files = created_ok calls.mkdir_all calls.create calls path content files

  -- An answer with an error means that the file is as it was.
  pub put_undone :
      (calls : FsCalls) (path content : Str) (files : Map Str)
      → (put hex_sha256 calls path content files).1.error ≢ none
      → lookup path (put hex_sha256 calls path content files).0 ≡ lookup path files
  put_undone calls path content files h = elim ((put-atomic calls path content files).0) [
    | inl (there, answer) ↦ absurd (h (ap (λ (a : PutResult). a.error) answer))
    | inr (same, _, _) ↦ same
  ]

  -- A copy that fails, after the directory and the temporary file were made, is answered without
  -- an error: the caller sees a success of size 0, with the empty checksum, and the file as it
  -- was.
  pub put-copy_failed :
      (calls : FsCalls) (path content : Str) (files : Map Str) (n : ℕ)
      → calls.mkdir_all ≡ none
      → calls.create ≡ none
      → calls.copy ≡ some n
      → let r : Map Str × PutResult = put hex_sha256 calls path content files in
        (r.1 ≡ record { size = 0; checksum = []; error = none })
        × (lookup path r.0 ≡ lookup path files)
  unfolding put put_created put_copied
  put-copy_failed calls path content files n d c h =
      let started : Map Str = insert (tmp_of path) [] files in
      rw (d, c, h)
        (
          refl,
          Kept-remove_tmp calls.remove path files (insert (tmp_of path) (take n content) started)
              (Kept-insert path (take n content) files started
                (Kept-insert path [] files files (λ k m. refl)))
              path (λ q. tmp_ne path (lit "tmp") 46 (sym q)),
        )

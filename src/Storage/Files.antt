-- ===== src/Storage/Files.antt =====
-- internal/storage/fs.go: `Put`, which writes a temporary file and renames it. The file system is
-- the map of its files; which of the calls of `os` fail, and how, is a parameter.
use tritontube.Base.{
  List, ◌∷◌, ℕ, Str, lit, [], ◌++◌, Option, none, some, Map, lookup, insert, delete, length, take,
}

-- `FS`
pub record Fs : Type 0 where
  pub root : Str

unfoldable pub new_fs : Str → Fs
new_fs root = record { root = root }

-- `fullPath`, over `filepath.Join`
unfoldable pub full_path : (List Str → Str) → Fs → Str → Str → Str
full_path join fs bucket object = join (fs.root ∷ bucket ∷ object ∷ [])

-- The error of each call, `none` where it succeeds. `io.Copy` that fails has written some bytes.
pub record FsCalls : Type 0 where
  pub mkdir_all : Option Str
  pub create : Option Str
  pub copy : Option ℕ
  pub sync : Option Str
  pub close : Option Str
  pub rename : Option Str
  pub remove : Option Str

-- The three results of `Put`
pub record PutResult : Type 0 where
  pub size : ℕ
  pub checksum : Str
  pub error : Option Str

abbrev pub put_failed : Option Str → PutResult
put_failed e = record { size = 0; checksum = []; error = e }

abbrev pub tmp_of : Str → Str
tmp_of path = path ++ lit ".tmp"

-- `_ = os.Remove(tmp)`: its error is dropped.
unfoldable pub remove_tmp : Option Str → Str → Map Str → Map Str
remove_tmp none path files = delete (tmp_of path) files
remove_tmp (some e) path files = files

module _ (hex_sha256 : Str → Str) where
  -- `os.Rename`, and the answer
  unfoldable pub put_renamed : Option Str → FsCalls → Str → Str → Map Str → Map Str × PutResult
  unfolding remove_tmp
  put_renamed (some e) calls path content files =
      (remove_tmp calls.remove path files, put_failed (some e))
  put_renamed none calls path content files = (
    insert path content (delete (tmp_of path) files),
    record { size = length content; checksum = hex_sha256 content; error = none },
  )

  -- `fp.Sync` and `fp.Close`, one after the other
  unfoldable pub put_flushed :
      Option Str → Option Str → FsCalls → Str → Str → Map Str → Map Str × PutResult
  unfolding put_renamed
  put_flushed (some e) close calls path content files =
      (remove_tmp calls.remove path files, put_failed (some e))
  put_flushed none (some e) calls path content files =
      (remove_tmp calls.remove path files, put_failed (some e))
  put_flushed none none calls path content files = put_renamed calls.rename calls path content files

  -- `io.Copy`: where it fails, `Put` returns the error of `os.Create`, which is nil here.
  unfoldable pub put_copied : Option ℕ → FsCalls → Str → Str → Map Str → Map Str × PutResult
  unfolding put_flushed
  put_copied (some n) calls path content files =
      (remove_tmp calls.remove path (insert (tmp_of path) (take n content) files), put_failed none)
  put_copied none calls path content files =
      put_flushed calls.sync calls.close calls path content (insert (tmp_of path) content files)

  -- `os.MkdirAll` and `os.Create`
  unfoldable pub put_created :
      Option Str → Option Str → FsCalls → Str → Str → Map Str → Map Str × PutResult
  unfolding put_copied
  put_created (some e) create calls path content files = (files, put_failed (some e))
  put_created none (some e) calls path content files = (files, put_failed (some e))
  put_created none none calls path content files =
      put_copied calls.copy calls path content (insert (tmp_of path) [] files)

  unfoldable pub put : FsCalls → Str → Str → Map Str → Map Str × PutResult
  unfolding put_created
  put calls path content files = put_created calls.mkdir_all calls.create calls path content files

-- `Get`: the content of the file, `none` where it cannot be opened
unfoldable pub get : Str → Map Str → Option Str
unfolding lookup
get path files = lookup path files

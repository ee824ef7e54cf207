-- ===== src/MetadataServer/Requests.antt =====
-- The requests about a segment, and their checks in cmd/metadata/main.go.
use tritontube.Base.{
  cut_at, has_prefix, trim_prefix, ◌-◌, Str, lit, str_eq, str_eq_refl, ℤ, true, false, [], ◌∷◌,
  ◌++◌, Option, some, lookup, arith, ◌≡◌, refl, ap, ◌∙◌, length, drop, Lacks, cut_at-append,
  has_suffix, length-append, le→leb,
}
use tritontube.Http.{Request}
use tritontube.MetadataServer.{with_index, path_id, with_path, SegmentQuery, parsed, parse_segment}

drop_all : (x p : Str) → drop (length x) (x ++ p) ≡ p
drop_all [] p = refl
drop_all (c ∷ x) p = drop_all x p

pub has_suffix-append : (x p : Str) → has_suffix (x ++ p) p ≡ true
unfolding has_suffix
has_suffix-append x p =
    let shift : length (x ++ p) - length p ≡ length x = omega (arith, length-append x p) in
    rw (le→leb (length p) (length (x ++ p)) (omega (arith, length-append x p)), shift, drop_all x p)
      (str_eq_refl p)

-- A request about a segment; `tail` is the end of its path.
abbrev pub segment_request : Str → Str → Str → Str → Str → Request
segment_request method tail id rend idx_text = record {
  method = method;
  path = lit "/videos/" ++ (id ++ (lit "/" ++ tail));
  query = (lit "rend", rend) ∷ (lit "idx", idx_text) ∷ [];
  body = [];
}

-- The names that a segment's request can carry.
pub record IsNamed (scan_int : Str → Option ℤ) (q : SegmentQuery) : Type 0 where
  pub one_part : Lacks 47 q.id
  pub id_given : str_eq q.id [] ≡ false
  pub rend_given : str_eq q.rend [] ≡ false
  pub idx_given : str_eq q.idx_text [] ≡ false
  pub number : scan_int q.idx_text ≡ some q.idx

-- The checks of a request about a named segment pass.
parse_path :
    (scan_int : Str → Option ℤ) (method tail : Str) (q : SegmentQuery)
    → let req : Request = segment_request method tail q.id q.rend q.idx_text in
      parse_segment scan_int tail req
      ≡ with_path scan_int (path_id (cut_at 47 (q.id ++ 47 ∷ tail)) tail) req
unfolding parse_segment trim_prefix has_prefix
parse_path scan_int method tail q = refl

path_id_lem : (id tail : Str) → str_eq id [] ≡ false → path_id (some (id, tail)) tail ≡ some id
unfolding path_id
path_id_lem id tail h = rw (h, str_eq_refl tail) refl

with_path_lem :
    (scan_int : Str → Option ℤ) (method tail : Str) (q : SegmentQuery)
    → IsNamed scan_int q
    → with_path scan_int (some q.id) (segment_request method tail q.id q.rend q.idx_text) ≡ parsed q
unfolding with_path with_index lookup str_eq
with_path_lem scan_int method tail q h =
    rw (h.id_given, h.rend_given, h.idx_given)
      (ap (λ o. with_index o q.id q.rend q.idx_text) h.number)

pub parse_segment_request :
    (scan_int : Str → Option ℤ) (method tail : Str) (q : SegmentQuery)
    → IsNamed scan_int q
    → parse_segment scan_int tail (segment_request method tail q.id q.rend q.idx_text) ≡ parsed q
parse_segment_request scan_int method tail q h =
    let req : Request = segment_request method tail q.id q.rend q.idx_text in
    parse_path scan_int method tail q
    ∙ ap (λ o. with_path scan_int (path_id o tail) req) (cut_at-append 47 q.id tail h.one_part)
    ∙ ap (λ o. with_path scan_int o req) (path_id_lem q.id tail h.id_given)
    ∙ with_path_lem scan_int method tail q h

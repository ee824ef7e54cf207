-- ===== src/Base/Cut.antt =====
-- The functions of Go's `strings` that the servers apply to paths and lists, byte by byte.
use Prim.Native.Nat.{ℕ, suc, ◌-◌}
use mathlib.Core.Path.{◌≡◌, refl}
use mathlib.Core.Bool.{◌&&◌, Bool, false}
use mathlib.Core.Option.{Option, none, some}
use mathlib.Core.List.{List, [], ◌∷◌, ◌++◌}
use native.Mathlib.Omega.{arith}
use tritontube.Base.Tests.{leb, ◌==◌, if◌then◌else◌}
use tritontube.Base.Lists.{length, drop}
use tritontube.Base.Int.{ℤ, pos, negsuc}
use tritontube.Base.Text.{Str, lit, str_eq, has_prefix, itoa}

-- strings.TrimPrefix
unfoldable pub trim_prefix : Str → Str → Str
trim_prefix s p = if has_prefix s p then drop (length p) s else s

-- strings.HasSuffix
unfoldable pub has_suffix : Str → Str → Bool
has_suffix s p =
    if leb (length p) (length s) then str_eq (drop (length s - length p) s) p else false

abbrev pub push_byte : ℕ → Option (Str × Str) → Option (Str × Str)
push_byte c none = none
push_byte c (some (a, b)) = some (c ∷ a, b)

-- strings.SplitN(s, sep, 2) with a separator of one byte: the two parts, or `none` where the
-- separator does not occur and there is one part.
unfoldable pub cut_at : ℕ → Str → Option (Str × Str)
cut_at sep [] = none
cut_at sep (c ∷ s) =
    let rest = push_byte c (cut_at sep s) in if c == sep then some ([], s) else rest

-- `%d`
unfoldable pub int_text : ℤ → Str
int_text (pos n) = itoa n
int_text (negsuc n) = lit "-" ++ itoa (suc n)

-- No byte of the text is the separator.
abbrev pub Lacks : ℕ → Str → Type 0
Lacks sep [] = Unit
Lacks sep (c ∷ s) = ((c == sep) ≡ false) × Lacks sep s

pub cut_at-append : (sep : ℕ) (a b : Str) → Lacks sep a → cut_at sep (a ++ sep ∷ b) ≡ some (a, b)
unfolding cut_at
cut_at-append sep [] b h = ground arith
cut_at-append sep (c ∷ a) b h = rw (h.0, cut_at-append sep a b h.1) refl

abbrev pub push_first : ℕ → List Str → List Str
push_first c [] = (c ∷ []) ∷ []
push_first c (s ∷ parts) = (c ∷ s) ∷ parts

-- strings.Split with a separator of one byte
unfoldable pub split_on : ℕ → Str → List Str
split_on sep [] = [] ∷ []
split_on sep (c ∷ s) =
    let rest = split_on sep s in if c == sep then [] ∷ rest else push_first c rest

pub split_on-append :
    (sep : ℕ) (a b : Str) → Lacks sep a → split_on sep (a ++ sep ∷ b) ≡ a ∷ split_on sep b
unfolding split_on
split_on-append sep [] b h = ground arith
split_on-append sep (c ∷ a) b h = rw (h.0, split_on-append sep a b h.1) refl

pub split_on_lem : (sep : ℕ) (a : Str) → Lacks sep a → split_on sep a ≡ a ∷ []
unfolding split_on
split_on_lem sep [] h = refl
split_on_lem sep (c ∷ a) h = rw (h.0, split_on_lem sep a h.1) refl

-- strings.TrimRight with a cutset of one byte
unfoldable pub trim_right : ℕ → Str → Str
trim_right sep [] = []
trim_right sep (c ∷ s) =
    let rest = trim_right sep s in if c == sep && str_eq rest [] then [] else c ∷ rest

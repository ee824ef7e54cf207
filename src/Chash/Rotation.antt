-- ===== src/Chash/Rotation.antt =====
-- The indices `(i+k)%len(r.tokens)` of `Lookup` (internal/chash/ring.go) read the tokens from
-- position `i` on and then those before it, and a search over ascending hashes splits there.
use Prim.Native.Nat.add
use native.Mathlib.Nat.{mod-eq_of_lt, mod-eq-sub-mod}
use tritontube.Base.{
  ℕ, zero, suc, ◌+◌, ◌-◌, ◌%◌, ◌≤◌, ◌<◌, List, [], ◌∷◌, ◌++◌, filter, length, get_or, take, drop,
  length-drop, ltb, leb, if◌then◌else◌, arith, ◌≡◌, refl, ◌∙◌, Bool-cases, inl, inr, ltb→lt,
}
use tritontube.Chash.{Token, no_token}
use tritontube.Chash.Search.{IsFirst}

module _ {ℓ} {A : Type ℓ} (d : A) where
  get_or-append :
      (a b : List A) (k : ℕ)
      → get_or (a ++ b) k d ≡ (if ltb k (length a) then get_or a k d else get_or b (k - length a) d)
  get_or-append [] b k = ground arith
  get_or-append (x ∷ a) b zero = ground arith
  get_or-append (x ∷ a) b (suc k) = ground (arith, get_or-append a b k)

  get_or-drop : (i : ℕ) (l : List A) (k : ℕ) → get_or (drop i l) k d ≡ get_or l (i + k) d
  get_or-drop zero l k = rw add.zero
  get_or-drop (suc i) [] k = refl
  get_or-drop (suc i) (x ∷ l) k = rw add.suc (get_or-drop i l k)

  get_or-take : (i : ℕ) (l : List A) (k : ℕ) → k < i → get_or (take i l) k d ≡ get_or l k d
  get_or-take zero l k h = absurd (omega arith)
  get_or-take (suc i) [] k h = refl
  get_or-take (suc i) (x ∷ l) zero h = refl
  get_or-take (suc i) (x ∷ l) (suc k) h = get_or-take i l k (omega arith)

abbrev pub SplitsAt : ℕ → List Token → ℕ → Type 0
SplitsAt h l r = IsFirst (λ i. leb h (get_or l i no_token).hash) (length l) r

-- Ascending hashes, with all below `h` before position `r` and none from there on.
pub split_at :
    (h : ℕ) (l : List Token) (r : ℕ)
    → SplitsAt h l r
    → (filter (λ t. leb h t.hash) l ≡ drop r l) × (filter (λ t. ltb t.hash h) l ≡ take r l)
split_at h [] zero s = (refl, refl)
split_at h [] (suc r) s = (refl, refl)
split_at h (t ∷ l) zero s =
    let later : SplitsAt h l zero = record {
      in_range = omega arith;
      before = λ a k. absurd (omega arith);
      from = λ a k m. s.from (suc a) (omega arith) (omega arith);
    } in
    ground (arith, split_at h l zero later, s.from 0 (omega arith) (omega arith))
split_at h (t ∷ l) (suc r) s =
    let later : SplitsAt h l r = record {
      in_range = omega (arith, s.in_range);
      before = λ a k. s.before (suc a) (omega arith);
      from = λ a k m. s.from (suc a) (omega arith) (omega arith);
    } in
    ground (arith, split_at h l r later, s.before 0 (omega arith))

wrap_near : (a n : ℕ) → a < n → a % n ≡ a
wrap_near a n h = mod-eq_of_lt h

wrap_far : (a n : ℕ) → n ≤ a → a < n + n → a % n ≡ a - n
wrap_far a n h k = mod-eq-sub-mod h ∙ mod-eq_of_lt (omega arith)

-- The index read by round `k` is element `k` of the rotated list.
pub get_or-rotate :
    (i : ℕ) (l : List Token) (k : ℕ)
    → i < length l
    → k < length l
    → get_or l ((i + k) % length l) no_token ≡ get_or (drop i l ++ take i l) k no_token
get_or-rotate i l k hi hk = elim (Bool-cases (ltb (i + k) (length l))) [
  | inl near ↦ rw (wrap_near (i + k) (length l) (ltb→lt _ _ near)) (
      ground (
        arith,
        get_or-append no_token (drop i l) (take i l) k,
        get_or-drop no_token i l k,
        length-drop i l,
      ))
  | inr far ↦ rw (wrap_far (i + k) (length l) (ground arith) (omega arith)) (
      ground (
        arith,
        get_or-append no_token (drop i l) (take i l) k,
        length-drop i l,
        get_or-take no_token i l (k - length (drop i l)),
      ))
]

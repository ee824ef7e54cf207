-- ===== src/Chash/Search.antt =====
-- sort.Search, the binary search of Go's standard library that `Lookup` calls.
use tritontube.Base.{
  ℕ, zero, suc, ◌+◌, ◌/◌, ◌<◌, ◌≤◌, Bool, true, false, ◌≡◌, ltb, if◌then◌else◌, arith, Bool-cases,
  inl, inr, ltb→lt, sym, ◌∙◌, false≢true,
}

-- `for i < j`, with at most `fuel` rounds.
search_loop : ℕ → (ℕ → Bool) → ℕ → ℕ → ℕ
search_loop zero f i j = i
search_loop (suc fuel) f i j =
    let h = (i + j) / 2 in
    let upper = search_loop fuel f (h + 1) j in
    let lower = search_loop fuel f i h in if ltb i j then (if f h then lower else upper) else i

-- The interval halves, so `n` rounds are more than enough.
unfoldable pub search : ℕ → (ℕ → Bool) → ℕ
unfolding search_loop
search n f = search_loop n f 0 n

-- All positions before `r` fail the test, and all from `r` on, below `n`, pass it.
pub record IsFirst (f : ℕ → Bool) (n r : ℕ) : Type 0 where
  pub in_range : r ≤ n
  pub before : (a : ℕ) → a < r → f a ≡ false
  pub from : (a : ℕ) → r ≤ a → a < n → f a ≡ true

module _ (f : ℕ → Bool) (n : ℕ) (mono : (a b : ℕ) → a ≤ b → b < n → f a ≡ true → f b ≡ true) where
  -- What comes before a position that fails the test fails it too.
  before_fails : (b a : ℕ) → a ≤ b → b < n → f b ≡ false → f a ≡ false
  before_fails b a le top h = elim (Bool-cases (f a)) [
    | inl p ↦ absurd (false≢true (sym h ∙ mono a b le top p))
    | inr p ↦ p
  ]

  search_loop-IsFirst :
      (fuel i j : ℕ)
      → j ≤ i + fuel
      → i ≤ j
      → j ≤ n
      → ((a : ℕ) → a < i → f a ≡ false)
      → ((a : ℕ) → j ≤ a → a < n → f a ≡ true)
      → IsFirst f n (search_loop fuel f i j)
  unfolding search_loop
  search_loop-IsFirst zero i j enough le top lo hi = record {
    in_range = omega arith;
    before = lo;
    from = λ a h k. hi a (omega arith) k;
  }
  search_loop-IsFirst (suc fuel) i j enough le top lo hi = elim (Bool-cases (ltb i j)) [
    | inl more ↦
        let within : i < j = ltb→lt i j more in
        elim (Bool-cases (f ((i + j) / 2))) [
          | inl up ↦
              rw (more, up)
                (search_loop-IsFirst fuel i ((i + j) / 2) (omega arith) (omega arith) (omega arith)
                  lo (λ a h k. mono ((i + j) / 2) a h k up))
          | inr down ↦
              rw (more, down)
                (search_loop-IsFirst fuel ((i + j) / 2 + 1) j (omega arith) (omega arith) top
                  (λ a h. before_fails ((i + j) / 2) a (omega arith) (omega arith) down) hi)
        ]
    | inr done ↦
        rw done
          (record { in_range = omega arith; before = lo; from = λ a h k. hi a (ground arith) k })
  ]

  -- With a test that stays true once it is true, the search ends at the first position that passes.
  pub search-IsFirst : IsFirst f n (search n f)
  unfolding search
  search-IsFirst =
      search_loop-IsFirst n 0 n (omega arith) (omega arith) (omega arith)
        (λ a h. absurd (omega arith)) (λ a h k. absurd (omega arith))

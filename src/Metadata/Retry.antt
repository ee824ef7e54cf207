-- ===== src/Metadata/Retry.antt =====
-- The retry loop of internal/metadata/service.go.
use tritontube.Base.{
  ℕ, zero, suc, ◌+◌, ◌<◌, ℤ, pos, negsuc, is_pos, pos_part, true, false, Option, none, some, arith,
  ◌≡◌, refl, ◌∙◌, Bool-cases, inl, inr,
}
use tritontube.Pgx.{Store, err_serialization}
use tritontube.Metadata.Types.{ServiceError, from_pg, Result, ok, err}
use tritontube.Metadata.Service.{Service, is_serialization, after_attempt, retry_loop, retry}

-- An attempt that ended with `a`, and where it began.
pub record Attempted {A : Type 0} (attempt : ℕ → Store → Store × Result A) (bound : ℕ) (s' : Store)
    (a : A) : Type 0 where
  pub number : ℕ
  pub store : Store
  pub bounded : number < bound
  pub ended : attempt number store ≡ (s', ok a)

is_serialization_lem :
    (e : ServiceError) → is_serialization e ≡ true → e ≡ from_pg err_serialization
is_serialization_lem e h = ground arith

module _ {A : Type 0} (attempt : ℕ → Store → Store × Result A) where
  step_ok :
      (n rounds : ℕ) (s s' : Store) (a : A) (again : Option ServiceError → Store → Store × Result A)
      (p : Store × Result A)
      → ((last : Option ServiceError) (t : Store)
          → again last t ≡ (s', ok a)
          → Attempted attempt (n + 1 + rounds) s' a)
      → attempt n s ≡ p
      → after_attempt again p ≡ (s', ok a)
      → Attempted attempt (n + suc rounds) s' a
  unfolding after_attempt
  step_ok n rounds s s' a again (t, ok b) ih e h = record {
    number = n;
    store = s;
    bounded = omega arith;
    ended = e ∙ h;
  }
  step_ok n rounds s s' a again (t, err x) ih e h = elim (Bool-cases (is_serialization x)) [
    | inl retried ↦
        let later = ih (some x) t (rw retried at h) in
        record {
          number = later.number;
          store = later.store;
          bounded = omega (arith, later.bounded);
          ended = later.ended;
        }
    | inr final ↦ cc (rw final at h)
  ]

  retry_loop_ok :
      (max : ℤ) (rounds n : ℕ) (last : Option ServiceError) (s s' : Store) (a : A)
      → retry_loop max attempt rounds n last s ≡ (s', ok a)
      → Attempted attempt (n + rounds) s' a
  unfolding retry_loop
  retry_loop_ok max zero n none s s' a h = cc
  retry_loop_ok max zero n (some e) s s' a h = cc
  retry_loop_ok max (suc rounds) n last s s' a h =
      step_ok n rounds s s' a (retry_loop max attempt rounds (n + 1)) (attempt n s)
        (λ l t. retry_loop_ok max rounds (n + 1) l t s' a) refl h

  -- If `retry` succeeds, its result is that of one of at most `max_retries` attempts.
  pub retry_ok :
      (svc : Service) (s s' : Store) (a : A)
      → retry svc attempt s ≡ (s', ok a)
      → Attempted attempt (pos_part svc.max_retries) s' a
  unfolding retry
  retry_ok svc s s' a h =
      let found = retry_loop_ok svc.max_retries (pos_part svc.max_retries) 0 none s s' a h in
      record {
        number = found.number;
        store = found.store;
        bounded = omega (arith, found.bounded);
        ended = found.ended;
      }

  -- An attempt that does not fail by serialization ends the loop.
  pub retry_first :
      (svc : Service) (s : Store)
      → is_pos svc.max_retries ≡ true
      → ((e : ServiceError) → (attempt 0 s).1 ≡ err e → is_serialization e ≡ false)
      → retry svc attempt s ≡ attempt 0 s
  unfolding retry
  retry_first svc s positive final = by_rounds svc.max_retries positive
    where
      by_outcome :
          (again : Option ServiceError → Store → Store × Result A) (p : Store × Result A)
          → ((e : ServiceError) → p.1 ≡ err e → is_serialization e ≡ false)
          → after_attempt again p ≡ p
      by_outcome again (t, ok a) f = unfold after_attempt in refl
      by_outcome again (t, err e) f = unfold after_attempt in rw (f e refl) refl

      by_rounds :
          (max : ℤ)
          → is_pos max ≡ true
          → retry_loop max attempt (pos_part max) 0 none s ≡ attempt 0 s
      by_rounds (negsuc n) p = cc
      by_rounds (pos zero) p = absurd (ground arith)
      by_rounds (pos (suc n)) p =
          unfold retry_loop in
          by_outcome (retry_loop (pos (suc n)) attempt n (0 + 1)) (attempt 0 s) final

  -- The store after a number of failed attempts, the first of them number `n`.
  unfoldable pub failed_attempts : ℕ → ℕ → Store → Store
  failed_attempts zero n s = s
  failed_attempts (suc k) n s = failed_attempts k (n + 1) (attempt n s).0

  module _ (fails : (n : ℕ) (s : Store) → (attempt n s).1 ≡ err (from_pg err_serialization)) where
    step_fails :
        (again : Option ServiceError → Store → Store × Result A) (p : Store × Result A)
        → p.1 ≡ err (from_pg err_serialization)
        → after_attempt again p ≡ again (some (from_pg err_serialization)) p.0
    unfolding after_attempt
    step_fails again (t, ok a) h = cc
    step_fails again (t, err e) h = let same : e ≡ from_pg err_serialization = cc in rw same refl

    retry_loop_exhausted :
        (max : ℤ) (rounds n : ℕ) (s : Store)
        → retry_loop max attempt rounds n (some (from_pg err_serialization)) s
          ≡ (failed_attempts rounds n s, err (from_pg err_serialization))
    unfolding retry_loop failed_attempts
    retry_loop_exhausted max zero n s = refl
    retry_loop_exhausted max (suc rounds) n s =
        step_fails (retry_loop max attempt rounds (n + 1)) (attempt n s) (fails n s)
        ∙ retry_loop_exhausted max rounds (n + 1) (attempt n s).0

    -- If every attempt fails by serialization and `max_retries` is positive, `retry` gives up
    -- after exactly `max_retries` attempts with that error.
    pub retry_exhausted :
        (svc : Service) (s : Store)
        → is_pos svc.max_retries ≡ true
        → retry svc attempt s
          ≡ (failed_attempts (pos_part svc.max_retries) 0 s, err (from_pg err_serialization))
    unfolding retry
    retry_exhausted svc s positive = by_rounds svc.max_retries positive
      where
        by_rounds :
            (max : ℤ)
            → is_pos max ≡ true
            → retry_loop max attempt (pos_part max) 0 none s
              ≡ (failed_attempts (pos_part max) 0 s, err (from_pg err_serialization))
        by_rounds (negsuc n) p = cc
        by_rounds (pos zero) p = absurd (ground arith)
        by_rounds (pos (suc n)) p =
            unfold retry_loop failed_attempts in
            step_fails (retry_loop (pos (suc n)) attempt n (0 + 1)) (attempt 0 s) (fails 0 s)
            ∙ retry_loop_exhausted (pos (suc n)) n (0 + 1) (attempt 0 s).0

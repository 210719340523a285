-- ===== src/Executor/Retry.antt =====
-- How often a tool is tried.
use runtime_assistant_agent.Base.{
  ℕ, zero, suc, ◌+◌, ◌≤◌, ◌<◌, true, false, ◌≡◌, refl, subst, some, arith, Bool-cases, inl, inr,
  ◌⊎◌,
}
use runtime_assistant_agent.Executor.{
  ToolResult, RetryPolicy, is_retryable, should_retry, run_with_retry,
}

le_cases : (n j : ℕ) → n ≤ j → (n ≡ j) ⊎ (suc n ≤ j)
le_cases n j h = omega arith

module _ (p : RetryPolicy) (attempts : ℕ → ToolResult) where
  -- an attempt that failed with an error that may be retried
  abbrev pub MayRetry : ℕ → Type 0
  MayRetry j = ((attempts j).success ≡ false) × (is_retryable p (attempts j).error_code ≡ true)

  -- The loop, entered after n failed attempts, ends with attempt k.
  pub record EndsAt (n k : ℕ) : Type 0 where
    pub later : n ≤ k
    pub bounded : k ≤ p.max_retries
    pub tried : (j : ℕ) → n ≤ j → j < k → MayRetry j
    pub final :
        ((attempts k).success ≡ true)
        ⊎ ((is_retryable p (attempts k).error_code ≡ false) ⊎ (k ≡ p.max_retries))

  ends_here :
      (n : ℕ)
      → n ≤ p.max_retries
      → ((attempts n).success ≡ true)
        ⊎ ((is_retryable p (attempts n).error_code ≡ false) ⊎ (n ≡ p.max_retries))
      → EndsAt n n
  ends_here n h f = record {
    later = omega arith;
    bounded = h;
    tried = λ j a b. absurd (omega arith);
    final = f;
  }

  ends_later : (n k : ℕ) → MayRetry n → EndsAt (suc n) k → EndsAt n k
  ends_later n k m e = record {
    later = omega (arith, e.later);
    bounded = e.bounded;
    tried = λ j a b. elim (le_cases n j a) [
      | inl same ↦ subst MayRetry same m
      | inr more ↦ e.tried j more b
    ];
    final = e.final;
  }

  refused :
      (n : ℕ)
      → n ≤ p.max_retries
      → should_retry p (attempts n).error_code (suc n) ≡ false
      → (is_retryable p (attempts n).error_code ≡ false) ⊎ (n ≡ p.max_retries)
  refused n h stop = elim (Bool-cases (is_retryable p (attempts n).error_code)) [
    | inl may ↦ inr (ground arith)
    | inr never ↦ inl never
  ]

  run_with_retry-EndsAt :
      (fuel n : ℕ)
      → n ≤ p.max_retries
      → p.max_retries < n + fuel
      → (k : ℕ) × (run_with_retry fuel p attempts n n ≡ some (attempts k, k)) × EndsAt n k
  unfolding run_with_retry
  run_with_retry-EndsAt zero n h f = absurd (omega arith)
  run_with_retry-EndsAt (suc fuel) n h f = elim (Bool-cases (attempts n).success) [
    | inl good ↦ (n, rw good refl, ends_here n h (inl good))
    | inr bad ↦ elim (Bool-cases (should_retry p (attempts n).error_code (suc n))) [
      | inl again ↦
          let (k, e, r) = run_with_retry-EndsAt fuel (suc n) (ground arith) (omega arith) in
          (k, rw (run_with_retry, bad, again) e, ends_later n k (bad, ground arith) r)
      | inr stop ↦ (n, rw (run_with_retry, bad, stop) refl, ends_here n h (inr (refused n h stop)))
    ]
  ]

  -- The loop of retries always ends, and fuel of one more than the retries allowed is enough. It ends
  -- with the result of attempt k, where k is the retry count and at most the retries allowed; each
  -- attempt before it failed with an error that may be retried; and attempt k itself succeeded, or its
  -- error may not be retried, or the retries are used up.
  pub retry_loop_ends :
      (k : ℕ) × (run_with_retry (suc p.max_retries) p attempts 0 0 ≡ some (attempts k, k))
      × EndsAt 0 k
  retry_loop_ends = run_with_retry-EndsAt (suc p.max_retries) 0 (omega arith) (omega arith)

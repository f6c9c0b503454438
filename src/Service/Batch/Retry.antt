-- ===== src/Service/Batch/Retry.antt =====
-- `retryOperation` of internal/service/batch_writer.go. The operation is a call of the MySQL repository:
-- `Attempts` says which of its calls succeed, and at which waits the context is cancelled first.
use flybeeper_com_map_fanet.Prelude.{
  subst, ℕ, zero, suc, ◌+◌, ◌<◌, ◌≡◌, Bool, true, false, ◌&&◌, arith, ltb, inl, inr, Bool-cases,
}

pub record Attempts : Type 0 where
  pub succeeds : ℕ → Bool
  pub interrupted : ℕ → Bool

-- nil, the error after all retries, and the context's error; with the number of calls that were made.
pub data Retried : Type 0 where
  saved exhausted cancelled : ℕ → Retried

-- The loop from an attempt on, with the number of attempts left.
unfoldable pub retry_from : Attempts → ℕ → ℕ → Retried
retry_from env attempt zero = exhausted attempt
retry_from env attempt (suc left) = elim (ltb 0 attempt && env.interrupted attempt) [
  | true ↦ cancelled attempt
  | false ↦ elim (env.succeeds attempt) [
    | true ↦ saved (attempt + 1)
    | false ↦ retry_from env (suc attempt) left
  ]
]

-- `for attempt := 0; attempt <= bw.config.MaxRetries; attempt++`
unfoldable pub retry_operation : Attempts → ℕ → Retried
retry_operation env max_retries = retry_from env 0 (max_retries + 1)

-- An attempt that is made, as no cancellation comes before it.
abbrev pub Made : Attempts → ℕ → Type 0
Made env n = (ltb 0 n && env.interrupted n) ≡ false

-- `k` attempts from `a` on are made and fail.
abbrev pub AllFail : Attempts → ℕ → ℕ → Type 0
AllFail env a zero = Unit
AllFail env a (suc k) = Made env a × (env.succeeds a ≡ false) × AllFail env (suc a) k

-- What each answer means, for the `left` attempts from `a` on.
abbrev pub Means : Attempts → ℕ → ℕ → Retried → Type 0
Means env a left (saved n) =
    (k : ℕ) × (a + k + 1 ≡ n)
    × (k < left)
    × AllFail env a k
    × Made env (a + k)
    × (env.succeeds (a + k) ≡ true)
Means env a left (exhausted n) = (a + left ≡ n) × AllFail env a left
Means env a left (cancelled n) =
    (k : ℕ) × (a + k ≡ n) × (k < left) × AllFail env a k × (0 < n) × (env.interrupted n ≡ true)

shift : (a k : ℕ) → suc a + k ≡ a + suc k
shift a k = omega arith

-- One attempt that fails, before the others.
Means-suc :
    (env : Attempts) (a left : ℕ) (r : Retried)
    → Made env a
    → env.succeeds a ≡ false
    → Means env (suc a) left r
    → Means env a (suc left) r
Means-suc env a left (saved n) made bad (k, e, lt, fails, goes, good) = (
  suc k,
  omega arith,
  omega arith,
  (made, bad, fails),
  subst (Made env) (shift a k) goes,
  subst (λ n. env.succeeds n ≡ true) (shift a k) good,
)
Means-suc env a left (exhausted n) made bad (e, fails) = (omega arith, (made, bad, fails))
Means-suc env a left (cancelled n) made bad (k, e, lt, fails, pos, stop) =
    (suc k, omega arith, omega arith, (made, bad, fails), pos, stop)

zero_more : (a : ℕ) → a ≡ a + 0
zero_more a = omega arith

retry_from-Means :
    (env : Attempts) (attempt left : ℕ) → Means env attempt left (retry_from env attempt left)
unfolding retry_from
retry_from-Means env attempt zero = (omega arith, tt)
retry_from-Means env attempt (suc left) =
    elim (Bool-cases (ltb 0 attempt && env.interrupted attempt)) [
      | inl stop ↦
          rw (stop, retry_from) (0, omega arith, omega arith, tt, ground arith, ground arith)
      | inr made ↦
          rw (made, retry_from)
            (elim (Bool-cases (env.succeeds attempt)) [
              | inl good ↦ rw good (
                0,
                omega arith,
                omega arith,
                tt,
                subst (Made env) (zero_more attempt) made,
                subst (λ n. env.succeeds n ≡ true) (zero_more attempt) good,
              )
              | inr bad ↦ rw bad (
                  Means-suc env attempt left (retry_from env (suc attempt) left) made bad
                    (retry_from-Means env (suc attempt) left))
            ])
    ]

-- `retryOperation` makes at most one call more than `MaxRetries`. It answers nil only after a call
-- that succeeds, where all calls before it failed; the error after the retries only when all
-- `MaxRetries + 1` calls failed; and the context's error only at a wait before a further call, when
-- all calls before failed.
pub retry_operation-Means :
    (env : Attempts) (max_retries : ℕ)
    → Means env 0 (max_retries + 1) (retry_operation env max_retries)
unfolding retry_operation
retry_operation-Means env max_retries = retry_from-Means env 0 (max_retries + 1)

-- ===== src/RateLimit/WebhookLimiter.antt =====
-- src/features/github-webhook/rate-limit.ts: the limit on the deliveries of a repository. A time is
-- in milliseconds; the clock reading of a call is its argument.
use ido_bata_server_bot.Prelude.{
  ℕ, ◌+◌, ◌-◌, ◌≤◌, Bool, true, false, not, ◌&&◌, String, Option, none, some, List, [], ◌∷◌,
  if◌then◌else◌, ltb, ◌≡◌, str_eq, eq_iff, length, get, put, delete, get-put, get-delete, arith,
}

pub data RateLimitDecision : Type 0 where
  allowed : RateLimitDecision
  throttled : ℕ → RateLimitDecision

-- The constructor refuses a negative window: `window_ms` is a natural number.
pub record GitHubWebhookRateLimiter : Type 0 where
  pub window_ms : ℕ
  pub last_seen_at : List (String × ℕ)

unfoldable pub create_webhook_rate_limiter : ℕ → GitHubWebhookRateLimiter
create_webhook_rate_limiter window_ms = record { window_ms = window_ms; last_seen_at = [] }

-- The two tests of `check`; `elapsed < windowMs` is written without the difference.
abbrev within_window : ℕ → ℕ → Option ℕ → Bool
within_window window now none = false
within_window window now (some previous) = ltb now (previous + window)

-- `windowMs - elapsed`, with `elapsed = now - previous`
abbrev retry_after : ℕ → ℕ → Option ℕ → ℕ
retry_after window now none = 0
retry_after window now (some previous) = (previous + window) - now

unfoldable pub check :
    String → ℕ → GitHubWebhookRateLimiter → RateLimitDecision × GitHubWebhookRateLimiter
check repo now limiter =
    let previous = get repo limiter.last_seen_at in
    if within_window limiter.window_ms now previous
    then (throttled (retry_after limiter.window_ms now previous), limiter)
    else (allowed, record limiter { last_seen_at = put repo now limiter.last_seen_at })

unfoldable pub tracked : GitHubWebhookRateLimiter → ℕ
tracked limiter = length limiter.last_seen_at

unfoldable pub forget : String → GitHubWebhookRateLimiter → GitHubWebhookRateLimiter
forget repo limiter = record limiter { last_seen_at = delete repo limiter.last_seen_at }

abbrev pub is_allowed : RateLimitDecision → Bool
is_allowed allowed = true
is_allowed (throttled _) = false

-- The times of the deliveries of `repo` that a series of calls, each a repository and a time, lets
-- through.
unfoldable pub accepted : String → List (String × ℕ) → GitHubWebhookRateLimiter → List ℕ
accepted repo [] limiter = []
accepted repo ((r, now) ∷ calls) limiter =
    let (decision, next) = check r now limiter in
    let rest = accepted repo calls next in
    if str_eq r repo && is_allowed decision then now ∷ rest else rest

-- The first time is a window or more after `previous`, and each other one after the one before.
abbrev pub Spaced : ℕ → Option ℕ → List ℕ → Type 0
Spaced window previous [] = Unit
Spaced window none (t ∷ ts) = Spaced window (some t) ts
Spaced window (some previous) (t ∷ ts) = (previous + window ≤ t) × Spaced window (some t) ts

accepted-Spaced_from :
    (repo : String) (calls : List (String × ℕ)) (limiter : GitHubWebhookRateLimiter)
    → Spaced limiter.window_ms (get repo limiter.last_seen_at) (accepted repo calls limiter)
unfolding accepted check
accepted-Spaced_from repo [] limiter = tt
accepted-Spaced_from repo ((r, now) ∷ calls) limiter = ground (
  arith,
  accepted-Spaced_from repo calls (check r now limiter).1,
  get-put r repo now limiter.last_seen_at,
  eq_iff r repo,
)

-- Whatever the calls and the clock, two deliveries of a repository that are let through one after
-- the other are a whole window apart.
pub accepted-Spaced :
    (repo : String) (calls : List (String × ℕ)) (window : ℕ)
    → Spaced window none (accepted repo calls (create_webhook_rate_limiter window))
unfolding create_webhook_rate_limiter
accepted-Spaced repo calls window =
    accepted-Spaced_from repo calls (create_webhook_rate_limiter window)

-- A throttled call at `now` says exactly when to come back: the same call at a time `later`, not
-- before `now`, is throttled before `now + retry` and let through from then on.
pub check-retry :
    (repo : String) (now later retry : ℕ) (limiter : GitHubWebhookRateLimiter)
    → (check repo now limiter).0 ≡ throttled retry
    → now ≤ later
    → is_allowed (check repo later (check repo now limiter).1).0 ≡ not (ltb later (now + retry))
unfolding check
check-retry repo now later retry limiter h late = ground arith

-- A repository that was forgotten is let through at once; the others keep their answer.
pub check-forget :
    (repo other : String) (now : ℕ) (limiter : GitHubWebhookRateLimiter)
    → (check repo now (forget other limiter)).0
      ≡ (if str_eq other repo then allowed else (check repo now limiter).0)
unfolding check forget
check-forget repo other now limiter = ground (arith, get-delete other repo limiter.last_seen_at)

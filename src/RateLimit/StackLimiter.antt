-- ===== src/RateLimit/StackLimiter.antt =====
-- src/features/error-forwarder/rate-limit.ts: the sliding window of forwarded stacks. A time is in
-- milliseconds; the clock reading of a call is its argument.
pub mod Window
use ido_bata_server_bot.Prelude.{
  ℕ, ◌+◌, Bool, true, false, String, Option, none, some, List, [], ◌∷◌, ◌++◌, if◌then◌else◌, ltb,
  leb, map, length, keep, get, put,
}

-- A date made of `undefined` is invalid: `none`.
pub record RateLimitDecision : Type 0 where
  pub allowed : Bool
  pub seen_in_window : ℕ
  pub resets_at : Option ℕ

-- `buckets` maps a key to the `hits` of its `BucketState`.
pub record StackRateLimiter : Type 0 where
  pub max_per_window : ℕ
  pub window_ms : ℕ
  pub buckets : List (String × List ℕ)

unfoldable pub create_stack_rate_limiter : ℕ → ℕ → StackRateLimiter
create_stack_rate_limiter max_per_window window_ms = record {
  max_per_window = max_per_window;
  window_ms = window_ms;
  buckets = [];
}

-- `(buckets.get(key) ?? { hits: [] }).hits`
unfoldable pub hits_of : String → StackRateLimiter → List ℕ
hits_of key limiter = elim (get key limiter.buckets) [ none ↦ [] | some hits ↦ hits ]

-- `hit > now - windowMs`, written without the difference.
abbrev pub in_window : ℕ → ℕ → ℕ → Bool
in_window window now hit = ltb now (hit + window)

unfoldable pub fresh_hits : String → ℕ → StackRateLimiter → List ℕ
unfolding hits_of
fresh_hits key now limiter = keep (in_window limiter.window_ms now) (hits_of key limiter)

-- `new Date(fresh[0] + windowMs)`
abbrev pub first_reset : ℕ → List ℕ → Option ℕ
first_reset window [] = none
first_reset window (hit ∷ _) = some (hit + window)

unfoldable pub hit : String → ℕ → StackRateLimiter → RateLimitDecision × StackRateLimiter
unfolding fresh_hits
hit key now limiter =
    let fresh = fresh_hits key now limiter in
    if leb limiter.max_per_window (length fresh)
    then (
      record {
        allowed = false;
        seen_in_window = length fresh;
        resets_at = first_reset limiter.window_ms fresh;
      },
      record limiter { buckets = put key fresh limiter.buckets },
    )
    else (
      record {
        allowed = true;
        seen_in_window = length (fresh ++ now ∷ []);
        resets_at = some (now + limiter.window_ms);
      },
      record limiter { buckets = put key (fresh ++ now ∷ []) limiter.buckets },
    )

unfoldable pub size : StackRateLimiter → ℕ
size limiter = length limiter.buckets

unfoldable pub reset : StackRateLimiter → StackRateLimiter
reset limiter = record limiter { buckets = [] }

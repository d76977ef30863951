-- ===== src/RateLimit/StackLimiter/Window.antt =====
-- The hits that src/features/error-forwarder/rate-limit.ts lets through.
use ido_bata_server_bot.Prelude.{
  ℕ, ◌+◌, ◌≤◌, ◌<◌, true, false, ◌&&◌, String, some, List, [], ◌∷◌, ◌++◌, if◌then◌else◌, ◌≡◌, refl,
  str_eq, str_eq_refl, eq_iff, length, keep, count, get-put, count-append, count-le-length,
  length-append, length-keep-le, arith,
}
use ido_bata_server_bot.RateLimit.StackLimiter.{
  StackRateLimiter, create_stack_rate_limiter, first_reset, hits_of, fresh_hits, in_window, hit,
}

-- The times of the hits on `key` that a series of calls, each a key and a time, lets through.
unfoldable pub accepted : String → List (String × ℕ) → StackRateLimiter → List ℕ
accepted key [] limiter = []
accepted key ((k, now) ∷ calls) limiter =
    let (decision, next) = hit k now limiter in
    let rest = accepted key calls next in
    if str_eq k key then if decision.allowed then now ∷ rest else rest else rest

-- The clock does not go back: the times rise from `start` to `end`.
abbrev pub Rising : ℕ → List (String × ℕ) → ℕ → Type 0
Rising start [] end = start ≤ end
Rising start ((_, now) ∷ calls) end = (start ≤ now) × Rising now calls end

Rising-le : (start : ℕ) (calls : List (String × ℕ)) (end : ℕ) → Rising start calls end → start ≤ end
Rising-le start [] end h = h
Rising-le start ((k, now) ∷ calls) end h = ground (arith, h, Rising-le now calls end h.1)

count_in_window-keep :
    (window now later : ℕ) (hits : List ℕ)
    → now ≤ later
    → count (in_window window later) (keep (in_window window now) hits)
      ≡ count (in_window window later) hits
count_in_window-keep window now later [] h = refl
count_in_window-keep window now later (x ∷ hits) h =
    ground (arith, count_in_window-keep window now later hits h)

pub hit-limits :
    (k : String) (now : ℕ) (limiter : StackRateLimiter)
    → ((hit k now limiter).1.max_per_window ≡ limiter.max_per_window)
      × ((hit k now limiter).1.window_ms ≡ limiter.window_ms)
unfolding hit
hit-limits k now limiter = ground arith

-- A hit changes the record of its own key alone.
pub hits_of-hit :
    (key k : String) (now : ℕ) (limiter : StackRateLimiter)
    → hits_of key (hit k now limiter).1 ≡ (
        if str_eq k key
        then if (hit k now limiter).0.allowed
          then fresh_hits k now limiter ++ now ∷ []
          else fresh_hits k now limiter
        else hits_of key limiter)
unfolding hit hits_of fresh_hits
hits_of-hit key k now limiter = ground (
  arith,
  get-put k key (fresh_hits k now limiter) limiter.buckets,
  get-put k key (fresh_hits k now limiter ++ now ∷ []) limiter.buckets,
  eq_iff k key,
)

-- One if the call is a hit on `key` that is let through and is in the window at `t`.
abbrev counted : String → String → ℕ → ℕ → StackRateLimiter → ℕ
counted key k now t limiter =
    if str_eq k key && ((hit k now limiter).0.allowed && in_window limiter.window_ms t now)
    then 1
    else 0

count-hit :
    (key k : String) (now t window : ℕ) (limiter : StackRateLimiter)
    → limiter.window_ms ≡ window
    → now ≤ t
    → count (in_window window t) (hits_of key (hit k now limiter).1)
      ≡ count (in_window window t) (hits_of key limiter) + counted key k now t limiter
unfolding fresh_hits
count-hit key k now t window limiter w h = ground (
  arith,
  hits_of-hit key k now limiter,
  eq_iff k key,
  count_in_window-keep window now t (hits_of key limiter) h,
  count-append (in_window window t) (fresh_hits key now limiter) (now ∷ []),
)

pub length-hit :
    (key k : String) (now : ℕ) (limiter : StackRateLimiter)
    → length (hits_of key limiter) ≤ limiter.max_per_window
    → length (hits_of key (hit k now limiter).1) ≤ limiter.max_per_window
unfolding hit fresh_hits
length-hit key k now limiter h = ground (
  arith,
  hits_of-hit key k now limiter,
  eq_iff k key,
  length-keep-le (in_window limiter.window_ms now) (hits_of key limiter),
  length-append (fresh_hits key now limiter) (now ∷ []),
)

-- `before t` counts the hits let through earlier that are in the window at `t`.
record IsCounted (key : String) (max window start : ℕ) (before : ℕ → ℕ) (limiter : StackRateLimiter)
    : Type 0 where
  maximum : limiter.max_per_window ≡ max
  width : limiter.window_ms ≡ window
  short : length (hits_of key limiter) ≤ max
  known : (t : ℕ) → start ≤ t → before t ≤ count (in_window window t) (hits_of key limiter)

hit-IsCounted :
    (key k : String) (max window start now : ℕ) (before : ℕ → ℕ) (limiter : StackRateLimiter)
    → start ≤ now
    → IsCounted key max window start before limiter
    → IsCounted key max window now
        (λ t. before t + counted key k now t limiter)
        (hit k now limiter).1
hit-IsCounted key k max window start now before limiter r h = record {
  maximum = ground (arith, hit-limits k now limiter, h.maximum);
  width = ground (arith, hit-limits k now limiter, h.width);
  short = ground (arith, length-hit key k now limiter, h.maximum, h.short);
  known = λ t late.
      omega (arith, h.known t (omega arith), count-hit key k now t window limiter h.width late);
}

accepted-bound :
    (key : String) (calls : List (String × ℕ)) (max window : ℕ) (before : ℕ → ℕ) (start end : ℕ)
    (limiter : StackRateLimiter)
    → Rising start calls end
    → IsCounted key max window start before limiter
    → before end + count (in_window window end) (accepted key calls limiter) ≤ max
unfolding accepted
accepted-bound key [] max window before start end limiter r h =
    omega
      (arith, h.known end r, h.short, count-le-length (in_window window end) (hits_of key limiter))
accepted-bound key ((k, now) ∷ calls) max window before start end limiter r h = ground (
  arith,
  h.width,
  accepted-bound key calls max window (λ t. before t + counted key k now t limiter) now end
      (hit k now limiter).1 r.1 (hit-IsCounted key k max window start now before limiter r.0 h),
)

-- Over any series of calls on a clock that does not go back, and whatever other keys are hit in
-- between: of the hits on a key that the limiter lets through, at most `max_per_window` lie in the
-- window that ends at a later time.
pub accepted-le :
    (key : String) (calls : List (String × ℕ)) (max window end : ℕ)
    → Rising 0 calls end
    → count (in_window window end) (accepted key calls (create_stack_rate_limiter max window)) ≤ max
unfolding create_stack_rate_limiter hits_of
accepted-le key calls max window end r = omega (
  arith,
  accepted-bound key calls max window (λ _. 0) 0 end (create_stack_rate_limiter max window) r
      (record { maximum = refl; width = refl; short = omega arith; known = λ t _. omega arith }),
)

length-keep-at_reset :
    (window at : ℕ) (fresh : List ℕ)
    → first_reset window fresh ≡ some at
    → length (keep (in_window window at) fresh) < length fresh
length-keep-at_reset window at [] h = cc
length-keep-at_reset window at (x ∷ fresh) h =
    ground (arith, h, length-keep-le (in_window window at) fresh)

-- A denied hit says when to come back: if the limiter holds at most `max_per_window` hits of the
-- key, as it always does, the next hit on it at `resets_at` is let through.
pub hit_after_reset :
    (key : String) (now at : ℕ) (limiter : StackRateLimiter)
    → length (hits_of key limiter) ≤ limiter.max_per_window
    → (hit key now limiter).0.allowed ≡ false
    → (hit key now limiter).0.resets_at ≡ some at
    → (hit key at (hit key now limiter).1).0.allowed ≡ true
unfolding hit fresh_hits
hit_after_reset key now at limiter short denied resets = ground (
  arith,
  hits_of-hit key key now limiter,
  str_eq_refl key,
  hit-limits key now limiter,
  length-keep-le (in_window limiter.window_ms now) (hits_of key limiter),
  length-keep-at_reset limiter.window_ms at (fresh_hits key now limiter),
)

-- A hit on one key leaves the answer to the next hit on any other key as it was.
pub hit-other_key :
    (key other : String) (now later : ℕ) (limiter : StackRateLimiter)
    → str_eq other key ≡ false
    → (hit key later (hit other now limiter).1).0 ≡ (hit key later limiter).0
unfolding hit fresh_hits
hit-other_key key other now later limiter distinct =
    ground (arith, hits_of-hit key other now limiter, hit-limits other now limiter)

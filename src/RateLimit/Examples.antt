-- ===== src/RateLimit/Examples.antt =====
-- Runs of the rate limiters on concrete calls.
use ido_bata_server_bot.Prelude.{ℕ, ◌≤◌, ◌≡◌, refl, String, none, List, [], ◌∷◌, count, arith}
use ido_bata_server_bot.RateLimit.StackLimiter.{create_stack_rate_limiter, in_window, hit, hits_of}
use ido_bata_server_bot.RateLimit.StackLimiter.Window.{accepted, accepted-le}
use ido_bata_server_bot.RateLimit.WebhookLimiter.{
  allowed, throttled, is_allowed, create_webhook_rate_limiter, check, forget, Spaced, check-retry,
  check-forget, accepted-Spaced, GitHubWebhookRateLimiter,
}
use ido_bata_server_bot.RateLimit.WebhookLimiter

abbrev calls : List (String × ℕ)
calls = ("a", 10) ∷ ("b", 11) ∷ ("a", 12) ∷ ("a", 13) ∷ ("a", 111) ∷ ("a", 112) ∷ []

accepted-calls : accepted "a" calls (create_stack_rate_limiter 2 100) ≡ 10 ∷ 12 ∷ 111 ∷ 112 ∷ []
unfolding accepted create_stack_rate_limiter hit hits_of
accepted-calls = refl

accepted-le_example :
    count (in_window 100 112) (accepted "a" calls (create_stack_rate_limiter 2 100)) ≤ 2
accepted-le_example = accepted-le "a" calls 2 100 112 (ground arith)

accepted-Spaced_example :
    Spaced 100 none (WebhookLimiter.accepted "a" calls (create_webhook_rate_limiter 100))
accepted-Spaced_example = accepted-Spaced "a" calls 100

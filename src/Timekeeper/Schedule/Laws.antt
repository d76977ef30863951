-- ===== src/Timekeeper/Schedule/Laws.antt =====
-- The next session's start and the time that an announcement may take.
use ido_bata_server_bot.Prelude.{
  ℕ, ◌+◌, ◌-◌, ◌*◌, ◌%◌, ◌≤◌, ◌<◌, ◌≡◌, ◌⊎◌, inl, inr, ◌&&◌, some, List, arith, ltb, leb, max, pos,
  if-intro,
}
use ido_bata_server_bot.Timekeeper.Schedule.{
  TimekeeperPhase, day_ms, minute_ms, jst_offset_ms, get_next_daily_start_at, get_daily_start_at,
  total_duration_minutes, get_current_or_next_daily_start_at, timeouts_within,
  resolve_playback_timeouts,
}

-- `at` is at the time of the day in Japan.
abbrev pub IsAt : ℕ → ℕ → ℕ → Type 0
IsAt at hour minute = (at + jst_offset_ms) % day_ms ≡ (hour * 60 + minute) * minute_ms

-- The next start is after now, at most a day away, and at the configured time.
pub get_next_daily_start_at_lem :
    (now hour minute : ℕ)
    → hour < 24
    → minute < 60
    → (now < get_next_daily_start_at now hour minute)
      × ((get_next_daily_start_at now hour minute ≤ now + day_ms)
          × IsAt (get_next_daily_start_at now hour minute) hour minute)
unfolding get_next_daily_start_at
get_next_daily_start_at_lem now hour minute h m = ground arith

get_daily_start_at_lem :
    (now hour minute : ℕ)
    → hour < 24
    → minute < 60
    → day_ms ≤ now
    → IsAt (get_daily_start_at now hour minute) hour minute
unfolding get_daily_start_at
get_daily_start_at_lem now hour minute h m e = omega arith

-- The scheduled start is that of a session which is going on, or the next one, which is after now
-- and at most a day away; it is at the configured time if now is a day or more after the epoch.
pub get_current_or_next_daily_start_at_lem :
    (now hour minute : ℕ) (phases : List TimekeeperPhase)
    → hour < 24
    → minute < 60
    → day_ms ≤ now
    → let start = get_current_or_next_daily_start_at now hour minute phases in
      IsAt start hour minute
      × (((start ≤ now) × (now < start + total_duration_minutes phases * minute_ms))
          ⊎ ((now < start) × (start ≤ now + day_ms)))
unfolding get_current_or_next_daily_start_at get_daily_start_at
get_current_or_next_daily_start_at_lem now hour minute phases h m e =
    if-intro
      (λ start.
        IsAt start hour minute
        × (((start ≤ now) × (now < start + total_duration_minutes phases * minute_ms))
            ⊎ ((now < start) × (start ≤ now + day_ms))))
      (leb (get_daily_start_at now hour minute) now
        && ltb now (get_daily_start_at now hour minute + total_duration_minutes phases * minute_ms))
      (λ on. (get_daily_start_at_lem now hour minute h m e, inl (ground arith)))
      (λ _.
        let (after, (near, at)) = get_next_daily_start_at_lem now hour minute h m in
        (at, inr (after, near)))

-- An announcement with `n` milliseconds before the next event is given no more than what the guard
-- leaves of them, or the two minimal timeouts, and never more than the two usual ones.
pub resolve_playback_timeouts-le :
    (n : ℕ)
    → let t = resolve_playback_timeouts (some (pos n)) in
      (t.start_timeout_ms + t.finish_timeout_ms ≤ max (n - 2000) 500)
      × ((t.start_timeout_ms ≤ 8000) × (t.finish_timeout_ms ≤ 20000))
unfolding resolve_playback_timeouts timeouts_within
resolve_playback_timeouts-le n = ground arith

-- ===== src/Timekeeper/Session/Schedules.antt =====
-- src/features/timekeeper/service.ts: the timer of the next session, and the session that runs at
-- once. A time is in milliseconds.
use ido_bata_server_bot.Prelude.{
  ℕ, ◌+◌, ◌-◌, ◌*◌, ◌≤◌, ◌<◌, ◌≡◌, ap, sym, ◌∙◌, Bool, true, ◌&&◌, Option, none, some, List, arith,
  if◌then◌else◌, ltb, leb,
}
use ido_bata_server_bot.Timekeeper.Schedule.{
  TimekeeperPhase, minute_ms, day_ms, total_duration_minutes, get_daily_start_at,
  get_current_or_next_daily_start_at, get_timekeeper_preparation_start_at, get_next_daily_start_at,
}
use ido_bata_server_bot.Timekeeper.Session.{Runtime}

-- The configuration; `is_configured` is false while it holds its placeholders.
pub record Config : Type 0 where
  pub is_configured : Bool
  pub start_hour_jst : ℕ
  pub start_minute_jst : ℕ
  pub phases : List TimekeeperPhase

abbrev pub next_start : Config → ℕ → ℕ
next_start config now =
    get_current_or_next_daily_start_at now config.start_hour_jst config.start_minute_jst
      config.phases

-- The timer that is set, its delay and the start of its session, if any.
unfoldable pub schedule_next_session : Config → ℕ → Runtime → Option (ℕ × ℕ) × Runtime
schedule_next_session config now r =
    let next_start_at = next_start config now in
    let delay_ms = get_timekeeper_preparation_start_at next_start_at - now in
    if config.is_configured
    then (
      some (delay_ms, next_start_at),
      record r { pending_scheduled_start_at = some next_start_at },
    )
    else (none, record r { pending_scheduled_start_at = none })

unfoldable pub is_within_session_window : ℕ → ℕ → Config → Bool
is_within_session_window now start_at config =
    leb start_at now && ltb now (start_at + total_duration_minutes config.phases * minute_ms)

-- The start of the session that runs when the client is ready.
unfoldable pub immediate_start_at : Config → ℕ → ℕ
immediate_start_at config now =
    let session_start_at = next_start config now in
    if is_within_session_window now session_start_at config then session_start_at else now

same_day_start :
    (now later hour minute : ℕ) (phases : List TimekeeperPhase)
    → day_ms ≤ now
    → hour * 60 + minute + total_duration_minutes phases < 24 * 60
    → get_daily_start_at now hour minute ≤ later
    → later < get_daily_start_at now hour minute + total_duration_minutes phases * minute_ms
    → get_daily_start_at later hour minute ≡ get_daily_start_at now hour minute
unfolding get_daily_start_at
same_day_start now later hour minute phases e short from to = omega arith

current_start :
    (now hour minute : ℕ) (phases : List TimekeeperPhase)
    → get_daily_start_at now hour minute ≤ now
    → now < get_daily_start_at now hour minute + total_duration_minutes phases * minute_ms
    → get_current_or_next_daily_start_at now hour minute phases ≡ get_daily_start_at now hour minute
unfolding get_current_or_next_daily_start_at
current_start now hour minute phases from to = ground arith

get_next_daily_start_at-lt : (now hour minute : ℕ) → now < get_next_daily_start_at now hour minute
unfolding get_next_daily_start_at
get_next_daily_start_at-lt now hour minute = ground arith

-- A start that is not ahead is today's.
started_today :
    (now hour minute : ℕ) (phases : List TimekeeperPhase)
    → get_current_or_next_daily_start_at now hour minute phases ≤ now
    → get_current_or_next_daily_start_at now hour minute phases ≡ get_daily_start_at now hour minute
unfolding get_current_or_next_daily_start_at
started_today now hour minute phases h = ground (arith, get_next_daily_start_at-lt now hour minute)

no_delay :
    (config : Config) (now start : ℕ) (r : Runtime)
    → config.is_configured ≡ true
    → next_start config now ≡ start
    → start ≤ now
    → (schedule_next_session config now r).0 ≡ some (0, start)
unfolding schedule_next_session get_timekeeper_preparation_start_at
no_delay config now start r c same h = rw c (rw same (ap (λ d. some (d, start)) (omega arith)))

-- A session that ends or fails within its window is scheduled again at once, with the same start,
-- if the window ends before midnight in Japan and now is a day or more after the epoch.
pub schedule_next_session_again :
    (config : Config) (now later : ℕ) (r : Runtime)
    → config.is_configured ≡ true
    → day_ms ≤ now
    → config.start_hour_jst * 60 + config.start_minute_jst + total_duration_minutes config.phases
      < 24 * 60
    → next_start config now ≤ now
    → now ≤ later
    → later < next_start config now + total_duration_minutes config.phases * minute_ms
    → (schedule_next_session config later r).0 ≡ some (0, next_start config now)
schedule_next_session_again config now later r c e short started after to =
    let hour = config.start_hour_jst in
    let minute = config.start_minute_jst in
    let today = started_today now hour minute config.phases started in
    let same : get_daily_start_at later hour minute ≡ get_daily_start_at now hour minute =
      same_day_start now later hour minute config.phases e short (omega arith) (omega arith) in
    no_delay config later (next_start config now) r c
      (current_start later hour minute config.phases (omega arith) (omega arith) ∙ same ∙ sym today)
      (omega arith)

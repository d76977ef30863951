-- ===== src/Timekeeper/Schedule.antt =====
-- src/features/timekeeper/schedule.ts, config.ts and playback-budget.ts. A time is a number of
-- milliseconds since 1970; the days of Japan are days of UTC shifted by nine hours.
pub mod Laws
use ido_bata_server_bot.Prelude.{
  ℕ, ◌+◌, ◌-◌, ◌*◌, ◌/◌, Bool, true, false, ◌&&◌, String, Option, none, some, List, [], ◌∷◌,
  if◌then◌else◌, ltb, leb, min, ℤ, pos, negsuc,
}

abbrev pub minute_ms : ℕ
minute_ms = 60000

abbrev pub day_ms : ℕ
day_ms = 86400000

abbrev pub jst_offset_ms : ℕ
jst_offset_ms = 32400000

pub record TimekeeperPhase : Type 0 where
  pub duration_minutes : ℕ
  pub label : String

-- The instant of a time of the day on the day of `now_jst`, both shifted to Japan.
abbrev at_time_of_day : ℕ → ℕ → ℕ → ℕ
at_time_of_day now_jst hour minute = now_jst / day_ms * day_ms + (hour * 60 + minute) * minute_ms

unfoldable pub get_next_daily_start_at : ℕ → ℕ → ℕ → ℕ
get_next_daily_start_at now hour minute =
    let now_jst = now + jst_offset_ms in
    let candidate_jst = at_time_of_day now_jst hour minute in
    (if leb candidate_jst now_jst then candidate_jst + day_ms else candidate_jst) - jst_offset_ms

unfoldable pub get_daily_start_at : ℕ → ℕ → ℕ → ℕ
get_daily_start_at now hour minute =
    at_time_of_day (now + jst_offset_ms) hour minute - jst_offset_ms

abbrev pub total_duration_minutes : List TimekeeperPhase → ℕ
total_duration_minutes [] = 0
total_duration_minutes (phase ∷ phases) = phase.duration_minutes + total_duration_minutes phases

unfoldable pub get_current_or_next_daily_start_at : ℕ → ℕ → ℕ → List TimekeeperPhase → ℕ
unfolding get_next_daily_start_at get_daily_start_at
get_current_or_next_daily_start_at now hour minute phases =
    let today_start_at = get_daily_start_at now hour minute in
    let today_session_end_at = today_start_at + total_duration_minutes phases * minute_ms in
    if leb today_start_at now && ltb now today_session_end_at
    then today_start_at
    else get_next_daily_start_at now hour minute

-- The announcement's minute and two minutes for the connection.
unfoldable pub get_timekeeper_preparation_start_at : ℕ → ℕ
get_timekeeper_preparation_start_at start_at = start_at - minute_ms - 2 * minute_ms

abbrev pub playback_start_timeout_ms : ℕ
playback_start_timeout_ms = 8000

abbrev pub playback_finish_timeout_ms : ℕ
playback_finish_timeout_ms = 20000

abbrev pub playback_guard_ms : ℕ
playback_guard_ms = 2000

abbrev pub min_timeout_ms : ℕ
min_timeout_ms = 250

pub record PlaybackTimeouts : Type 0 where
  pub start_timeout_ms : ℕ
  pub finish_timeout_ms : ℕ

abbrev least_timeouts : PlaybackTimeouts
least_timeouts = record { start_timeout_ms = min_timeout_ms; finish_timeout_ms = min_timeout_ms }

-- With `n` whole milliseconds left: a budget below two minimal timeouts is no budget.
unfoldable pub timeouts_within : ℕ → PlaybackTimeouts
timeouts_within n =
    let budget_ms = n - playback_guard_ms in
    let start_ms = min playback_start_timeout_ms (budget_ms / 3) in
    if ltb n (playback_guard_ms + 2 * min_timeout_ms) then least_timeouts else record {
      start_timeout_ms = start_ms;
      finish_timeout_ms = min playback_finish_timeout_ms (budget_ms - start_ms);
    }

unfoldable pub resolve_playback_timeouts : Option ℤ → PlaybackTimeouts
unfolding timeouts_within
resolve_playback_timeouts none = record {
  start_timeout_ms = playback_start_timeout_ms;
  finish_timeout_ms = playback_finish_timeout_ms;
}
resolve_playback_timeouts (some (negsuc _)) = least_timeouts
resolve_playback_timeouts (some (pos n)) = timeouts_within n

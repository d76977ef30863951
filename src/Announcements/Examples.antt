-- ===== src/Announcements/Examples.antt =====
-- Two announcements for the same minute and one for the day after: once the first is made, the
-- one that is armed is that of the day after.
use ido_bata_server_bot.Prelude.{
  ◌≡◌, refl, ◌+◌, ◌*◌, true, false, ℕ, List, String, some, none, [], ◌∷◌,
}
use ido_bata_server_bot.Announcements.Schedule.{
  ScheduledAnnouncementEntry, get_next_fire_time, get_next_weekly_fire_time, jst_wall_clock_to_utc,
  day_of, collect_fires, pick_next_fires,
}
use ido_bata_server_bot.Announcements.Service.{
  AnnouncementsService, send_with_retry, fire, after_send, arm_first, schedule_next, on_timer,
  send_refused,
}
use ido_bata_server_bot.Announcements.Service.Laws.{run_timers, fired}

-- Mondays at 9:30 in Japan, which is 0:30 of UTC
abbrev monday : String → ScheduledAnnouncementEntry
monday id = record {
  id = id;
  channel_id = "c";
  message = "hello";
  weekday = some 1;
  hour = 9;
  minute = 30;
  one_shot_date = none;
  enabled = true;
}

abbrev tuesday : ScheduledAnnouncementEntry
tuesday = record {
  id = "d";
  channel_id = "c";
  message = "hello";
  weekday = some 2;
  hour = 9;
  minute = 0;
  one_shot_date = none;
  enabled = true;
}

-- Monday, January 5, 1970
abbrev due : ℕ
due = 4 * 86400000 + 30 * 60000

abbrev service : AnnouncementsService
service = record {
  entries = monday "a" ∷ monday "b" ∷ tuesday ∷ [];
  written = [];
  messages = [];
  attempts = send_refused ∷ [];
  stopped = false;
}

due_run : get_next_fire_time (monday "a") 0 ≡ some due
unfolding get_next_fire_time get_next_weekly_fire_time jst_wall_clock_to_utc
due_run = refl

day_run : day_of 2026 5 27 ≡ 20600
unfolding day_of
day_run = refl

-- The callbacks of four waits of a day and of two announcements.
abbrev readings : List ℕ
readings = 86400000 ∷ 172800000 ∷ 259200000 ∷ 345600000 ∷ due ∷ (due + 84600000) ∷ []

run_timers_run : run_timers readings service (schedule_next service 0) ≡ due ∷ (due + 84600000) ∷ []
unfolding run_timers fired on_timer schedule_next arm_first pick_next_fires collect_fires
    get_next_fire_time get_next_weekly_fire_time jst_wall_clock_to_utc fire after_send
    send_with_retry
run_timers_run = refl

-- ===== src/Timekeeper/SessionExamples.antt =====
-- Concrete sessions: their times, their timeline and the steps of their loop.

use ido_bata_server_bot.Prelude.{
  ℕ, ◌+◌, ◌*◌, ◌≤◌, ◌≡◌, refl, true, not, ◌&&◌, String, Option, some, List, [], ◌∷◌, keep, arith,
  if◌then◌else◌, ok,
}
use ido_bata_server_bot.Timekeeper.Engagement.{Session}
use ido_bata_server_bot.Timekeeper.Schedule.{
  TimekeeperPhase, get_current_or_next_daily_start_at, get_daily_start_at,
}
use ido_bata_server_bot.Timekeeper.Timeline.{
  TimelineEvent, break_start, build_timekeeper_timeline, event_calls, create_events,
  create_timeline_event,
}
use ido_bata_server_bot.Timekeeper.Timeline.Laws.{IsTimeline, build_timekeeper_timeline-IsTimeline}
use ido_bata_server_bot.Timekeeper.Connect.{
  joined, timed_out, Voice, connected, connect_for_playback, reconnect, join_and_prepare, prepare,
  safe_destroy,
}
use ido_bata_server_bot.Timekeeper.Connect.Laws.{
  is_connected, is_expected, held, connect_for_playback_lem,
}
use ido_bata_server_bot.Timekeeper.Session.{
  request_timekeeper_skip, is_timekeeper_session_active, await_interruptible_delay,
}
use ido_bata_server_bot.Timekeeper.Session.Loop.{
  System, waiting, due, initial_system, wake, skip, run_command, start_session, begin_wait,
  handle_event, Reaches, here, more, started, waited, announced, commanded,
}
use ido_bata_server_bot.Timekeeper.Session.Loop.Laws.{is_kept, Reaches-announced}
use ido_bata_server_bot.Timekeeper.Session.Loop.Skips.{run_command-begin_wait}
use ido_bata_server_bot.Timekeeper.Session.Schedules.{Config}

-- The phases of the configuration.
abbrev phases : List TimekeeperPhase
phases =
    record { duration_minutes = 15; label = "work 1" }
    ∷ record { duration_minutes = 5; label = "break" }
    ∷ record { duration_minutes = 30; label = "work 2" }
    ∷ record { duration_minutes = 5; label = "break" }
    ∷ record { duration_minutes = 45; label = "work 3" }
    ∷ []

-- Ten days after the epoch at 12:30 UTC, which is 21:30 in Japan, half an hour into the session.
abbrev now : ℕ
now = 10 * 86400000 + 45000000

abbrev start : ℕ
start = 10 * 86400000 + 43200000

current_run : get_current_or_next_daily_start_at now 21 0 phases ≡ start
unfolding get_current_or_next_daily_start_at get_daily_start_at
current_run = refl

abbrev audio_files : ℕ → Option String
audio_files n = some "audio"

abbrev timeline : List TimelineEvent
timeline = elim (build_timekeeper_timeline audio_files start phases) [ ok es ↦ es | _ ↦ [] ]

build_timekeeper_timeline-IsTimeline_example : IsTimeline start phases timeline
unfolding build_timekeeper_timeline event_calls create_events create_timeline_event
build_timekeeper_timeline-IsTimeline_example =
    build_timekeeper_timeline-IsTimeline audio_files start phases timeline (omega arith)
      (omega arith, (omega arith, (omega arith, (omega arith, (omega arith, tt))))) refl

abbrev config : Config
config = record { is_configured = true; start_hour_jst = 21; start_minute_jst = 0; phases = phases }

-- The first call succeeds, the reconnection only at its second attempt.
abbrev voice : Voice
voice = record { open_connections = []; calls = 0; joins = joined ∷ timed_out ∷ joined ∷ [] }

connected_run :
    connect_for_playback true voice
    ≡ (connected 2, record { open_connections = 2 ∷ []; calls = 3; joins = [] })
unfolding connect_for_playback reconnect join_and_prepare prepare safe_destroy
connected_run = refl

connect_for_playback_lem_example :
    let r = connect_for_playback true voice in
    (is_expected r.0 ≡ true)
    × ((is_connected r.0 ≡ true) × ((r.1.open_connections ≡ held r.0) × (r.1.calls ≤ 4)))
connect_for_playback_lem_example = connect_for_playback_lem true voice refl

abbrev session : Session
session = record { attendance_dates_by_user_id = []; check_ins_by_user_id = []; id = "s1" }

abbrev event : TimelineEvent
event = record {
  at = start;
  audio_path = "audio";
  duration_minutes = 5;
  end_at = some (start + 300000);
  kind = break_start;
  label = "break";
  order = 4;
  send_text = true;
  step_index = 2;
  total_steps = 5;
}

abbrev begun : System
begun = start_session session (event ∷ []) (event ∷ []) initial_system

abbrev waits : System
waits = begin_wait true (event ∷ []) begun

abbrev skipped : System
skipped = run_command skip waits

abbrev done : System
done = handle_event event [] skipped

-- A session of one event, whose wait is skipped.
path : Reaches initial_system done
unfolding start_session begin_wait await_interruptible_delay run_command request_timekeeper_skip
path =
    more initial_system skipped done
      (more initial_system waits skipped
        (more initial_system begun waits
          (more initial_system initial_system begun (here initial_system)
            (started session (event ∷ []) (event ∷ []) initial_system refl))
          (waited true event [] begun refl))
        (commanded skip waits))
      (announced event [] skipped refl)

Reaches-announced_example :
    (done.handled ≡ done.planned) × (keep is_kept done.announced ≡ keep is_kept done.planned)
unfolding handle_event
Reaches-announced_example = Reaches-announced done path refl

run_command-begin_wait_example :
    let t = run_command skip waits in
    let u = begin_wait true [] t in
    ((request_timekeeper_skip waits.runtime).answer ≡ true)
    × ((t.loop ≡ (if waits.runtime.active_skip_resolver then wake waits.loop else waits.loop))
        × ((u.loop ≡ (
              if waits.runtime.active_skip_resolver && not waits.runtime.skip_flag
              then waiting []
              else due []))
            × ((begin_wait true (event ∷ []) u).loop ≡ waiting (event ∷ []))))
unfolding start_session begin_wait await_interruptible_delay is_timekeeper_session_active
run_command-begin_wait_example = run_command-begin_wait waits [] (event ∷ []) refl

-- ===== src/Timekeeper/Session/Loop/Skips.antt =====
-- What a skip shortens, and what a failed session leaves behind.
use ido_bata_server_bot.Prelude.{◌≡◌, refl, true, false, not, ◌&&◌, List, arith, if◌then◌else◌}
use ido_bata_server_bot.Timekeeper.Engagement.{Session}
use ido_bata_server_bot.Timekeeper.Timeline.{TimelineEvent}
use ido_bata_server_bot.Timekeeper.Session.{
  is_timekeeper_session_active, is_timekeeper_session_paused, request_timekeeper_skip,
  await_interruptible_delay,
}
use ido_bata_server_bot.Timekeeper.Session.Loop.{
  System, waiting, due, wake, skip, run_command, begin_wait, start_session, finish_session,
  fail_session,
}

-- A skip of an active session is accepted and ends one wait: the present one, if it has a
-- resolver, and otherwise the next one; the wait after that lasts.
pub run_command-begin_wait :
    (s : System) (events later : List TimelineEvent)
    → is_timekeeper_session_active s.runtime ≡ true
    → let t = run_command skip s in
      let u = begin_wait true events t in
      ((request_timekeeper_skip s.runtime).answer ≡ true)
      × ((t.loop ≡ (if s.runtime.active_skip_resolver then wake s.loop else s.loop))
          × ((u.loop ≡ (
                if s.runtime.active_skip_resolver && not s.runtime.skip_flag
                then waiting events
                else due events))
              × ((begin_wait true later u).loop ≡ waiting later)))
unfolding run_command begin_wait request_timekeeper_skip await_interruptible_delay
    is_timekeeper_session_active
run_command-begin_wait s events later h = ground arith

-- A session that starts after one that came to its end is not paused; one that starts after a
-- failure is paused if the failed one was.
pub start_session-paused :
    (s : System) (session : Session) (timeline events : List TimelineEvent)
    → let after_end = start_session session timeline events (finish_session s) in
      let after_failure = start_session session timeline events (fail_session s) in
      (is_timekeeper_session_paused after_end.runtime ≡ false)
      × (is_timekeeper_session_paused after_failure.runtime ≡ s.runtime.active_paused)
unfolding start_session finish_session fail_session is_timekeeper_session_paused
start_session-paused s session timeline events = (refl, ground arith)

-- ===== src/Timekeeper/Session/Loop.antt =====
-- src/features/timekeeper/service.ts: the loop of `runSession` over the events of a timeline, and
-- what may happen between its steps. An announcement is one step; which events are announced is
-- kept.
pub mod Laws
pub mod Skips
use ido_bata_server_bot.Prelude.{
  ℕ, Bool, true, false, not, ◌&&◌, String, Option, none, some, List, [], ◌∷◌, ◌++◌, ◌≡◌,
  if◌then◌else◌, is_none,
}
use ido_bata_server_bot.Timekeeper.Engagement.{Session}
use ido_bata_server_bot.Timekeeper.Timeline.{
  TimelineEvent, TimekeeperEventKind, break_start, phase_ending_soon, phase_start, session_end,
  work_start_soon,
}
use ido_bata_server_bot.Timekeeper.Session.{
  Runtime, initial_runtime, is_timekeeper_session_paused, pause_timekeeper_session,
  resume_timekeeper_session, request_timekeeper_skip, await_interruptible_delay, ended,
}

-- Where the loop is: there is none; before the wait for the first of these events; in its wait;
-- behind it.
pub data Loop : Type 0 where
  idle : Loop
  before waiting due : List TimelineEvent → Loop

pub record System : Type 0 where
  pub runtime : Runtime
  pub loop : Loop
  -- the events that the session started with
  pub planned : List TimelineEvent
  -- the events that the loop has dealt with, and those of them that were announced
  pub handled : List TimelineEvent
  pub announced : List TimelineEvent

abbrev pub initial_system : System
initial_system = record {
  runtime = initial_runtime;
  loop = idle;
  planned = [];
  handled = [];
  announced = [];
}

-- The end of a wait.
abbrev pub wake : Loop → Loop
wake idle = idle
wake (before events) = before events
wake (waiting events) = due events
wake (due events) = due events

pub data Command : Type 0 where
  pause resume skip : Command

unfoldable pub run_command : Command → System → System
run_command pause s = record s { runtime = (pause_timekeeper_session s.runtime).1 }
run_command resume s = record s { runtime = (resume_timekeeper_session s.runtime).1 }
run_command skip s =
    let skipped = request_timekeeper_skip s.runtime in
    record s { runtime = skipped.runtime; loop = if skipped.resolved then wake s.loop else s.loop }

-- The part of `runSession` before its loop, with the events from the start index on.
unfoldable pub start_session : Session → List TimelineEvent → List TimelineEvent → System → System
start_session session timeline events s = record {
  runtime = record s.runtime { active_session = some session; active_timeline = timeline };
  loop = before events;
  planned = events;
  handled = [];
  announced = [];
}

-- The wait for the next event, if it is still ahead.
unfoldable pub begin_wait : Bool → List TimelineEvent → System → System
begin_wait ahead events s =
    let (resolved, r) = await_interruptible_delay s.runtime in
    if ahead
    then record s { runtime = r; loop = if resolved then due events else waiting events }
    else record s { loop = due events }

-- The callback of the timer.
unfoldable pub fire_timer : System → System
fire_timer s = record s {
  runtime = record s.runtime { active_skip_resolver = false };
  loop = wake s.loop;
}

abbrev pub is_ending_soon : TimekeeperEventKind → Bool
is_ending_soon phase_ending_soon = true
is_ending_soon _ = false

-- The part of an iteration behind the wait.
unfoldable pub handle_event : TimelineEvent → List TimelineEvent → System → System
handle_event event rest s = record s {
  loop = before rest;
  handled = s.handled ++ event ∷ [];
  announced =
      if is_timekeeper_session_paused s.runtime && is_ending_soon event.kind
      then s.announced
      else s.announced ++ event ∷ [];
}

-- The end of `runSession`.
unfoldable pub finish_session : System → System
finish_session s = record s { runtime = ended s.runtime; loop = idle }

-- A throw in `runSession`: nothing is reset.
unfoldable pub fail_session : System → System
fail_session s = record s { loop = idle }

-- A wait does not throw.
abbrev pub can_throw : Loop → Bool
can_throw (before events) = true
can_throw (due events) = true
can_throw _ = false

-- A cancellation that could write the session down; it does not reach the loop.
unfoldable pub cancel_session : System → System
cancel_session s = record s {
  runtime = record (ended s.runtime) { pending_scheduled_start_at = none };
}

-- One step of the loop or from outside.
pub data Step : System → System → Type 0 where
  commanded : (c : Command) (s : System) → Step s (run_command c s)
  started :
      (session : Session) (timeline events : List TimelineEvent) (s : System)
      → s.loop ≡ idle
      → Step s (start_session session timeline events s)
  waited :
      (ahead : Bool) (event : TimelineEvent) (rest : List TimelineEvent) (s : System)
      → s.loop ≡ before (event ∷ rest)
      → Step s (begin_wait ahead (event ∷ rest) s)
  timed :
      (events : List TimelineEvent) (s : System) → s.loop ≡ waiting events → Step s (fire_timer s)
  announced :
      (event : TimelineEvent) (rest : List TimelineEvent) (s : System)
      → s.loop ≡ due (event ∷ rest)
      → Step s (handle_event event rest s)
  finished : (s : System) → s.loop ≡ before [] → Step s (finish_session s)
  failed : (s : System) → can_throw s.loop ≡ true → Step s (fail_session s)
  cancelled : (s : System) → Step s (cancel_session s)

pub data Reaches : System → System → Type 0 where
  here : (s : System) → Reaches s s
  more : (s t u : System) → Reaches s t → Step t u → Reaches s u

-- ===== src/Timekeeper/Session.antt =====
-- src/features/timekeeper/service.ts: the variables of the module and the commands on a session.
-- `waiting`, in Timekeeper/Session/Loop, is the loop's side of the resolver that a skip calls.
pub mod Loop
pub mod Schedules
use ido_bata_server_bot.Prelude.{
  ℕ, ◌-◌, ◌*◌, ◌+◌, Bool, true, false, not, ◌&&◌, String, Option, none, some, List, [], ◌∷◌,
  if◌then◌else◌, ◌==◌, ltb, leb, str_eq, is_none, find, Outcome, Done, ok, threw,
}
use ido_bata_server_bot.Storage.PlainFile.{PlainWrite}
use ido_bata_server_bot.Timekeeper.Engagement.{
  Session, Gate, record_check_in, get_session_check_in_count,
}
use ido_bata_server_bot.Timekeeper.Engagement.SessionLog.{
  Files, SessionStatus, mark_session_interrupted,
}
use ido_bata_server_bot.Timekeeper.Timeline.{
  TimelineEvent, Progress, build_progress, clamp_time_to_event,
}

pub record Runtime : Type 0 where
  pub active_session : Option Session
  pub active_timeline : List TimelineEvent
  pub active_paused : Bool
  -- is there a resolver of the current wait?
  pub active_skip_resolver : Bool
  pub pending_scheduled_start_at : Option ℕ
  pub skip_flag : Bool

-- The values of the variables at the start of the process, and of the reset for tests.
abbrev pub initial_runtime : Runtime
initial_runtime = record {
  active_session = none;
  active_timeline = [];
  active_paused = false;
  active_skip_resolver = false;
  pending_scheduled_start_at = none;
  skip_flag = false;
}

unfoldable pub is_timekeeper_session_active : Runtime → Bool
is_timekeeper_session_active r = not (is_none r.active_session)

unfoldable pub is_timekeeper_session_paused : Runtime → Bool
is_timekeeper_session_paused r = r.active_paused && not (is_none r.active_session)

unfoldable pub get_active_timekeeper_session_count : Runtime → ℕ
get_active_timekeeper_session_count r = elim r.active_session [ none ↦ 0 | some _ ↦ 1 ]

-- `TimekeeperSessionSnapshot`
pub record SessionSnapshot : Type 0 where
  pub active_session_id : Option String
  pub pending_start_at : Option ℕ
  pub paused : Bool

unfoldable pub get_timekeeper_session_snapshot : Runtime → SessionSnapshot
get_timekeeper_session_snapshot r = record {
  active_session_id = elim r.active_session [ none ↦ none | some s ↦ some s.id ];
  pending_start_at = r.pending_scheduled_start_at;
  paused = r.active_paused;
}

unfoldable pub pause_timekeeper_session : Runtime → Bool × Runtime
pause_timekeeper_session r = elim r.active_session [
  | none ↦ (false, r)
  | some _ ↦ (true, record r { active_paused = true })
]

unfoldable pub resume_timekeeper_session : Runtime → Bool × Runtime
resume_timekeeper_session r = elim r.active_session [
  | none ↦ (false, r)
  | some _ ↦ if r.active_paused then (true, record r { active_paused = false }) else (false, r)
]

-- The answer, whether the resolver was called, and the variables.
pub record Skipped : Type 0 where
  pub answer : Bool
  pub resolved : Bool
  pub runtime : Runtime

unfoldable pub request_timekeeper_skip : Runtime → Skipped
request_timekeeper_skip r = elim r.active_session [
  | none ↦ record { answer = false; resolved = false; runtime = r }
  | some _ ↦
      if r.active_skip_resolver
      then record {
        answer = true;
        resolved = true;
        runtime = record r { active_skip_resolver = false };
      }
      else record { answer = true; resolved = false; runtime = record r { skip_flag = true } }
]

-- The start of a wait: does it resolve at once, or is the timer set?
unfoldable pub await_interruptible_delay : Runtime → Bool × Runtime
await_interruptible_delay r =
    if r.skip_flag
    then (true, record r { skip_flag = false })
    else (false, record r { active_skip_resolver = true })

-- The reset at the end of a session.
abbrev pub ended : Runtime → Runtime
ended r = record {
  active_session = none;
  active_timeline = [];
  active_paused = false;
  active_skip_resolver = false;
  pending_scheduled_start_at = r.pending_scheduled_start_at;
  skip_flag = false;
}

-- What `cancelActiveSession` does once the session is written down, or could not be.
unfoldable pub after_mark : Done × (Session × Files) → Runtime → Outcome Bool × (Runtime × Files)
after_mark (ok _, (session, files)) r =
    (ok true, (record (ended r) { pending_scheduled_start_at = none }, files))
after_mark (threw e, (session, files)) r =
    (threw e, (record r { active_session = some session }, files))

-- `reason` and `status` with the defaults of the caller put in; `now` is the time of the entry.
module _ (sort : List String → List String) (date_of : String → String) where
  unfoldable pub cancel_active_session :
      Gate
      → PlainWrite
      → PlainWrite
      → String
      → SessionStatus
      → String
      → Runtime
      → Files
      → Outcome Bool × (Runtime × Files)
  unfolding after_mark
  cancel_active_session gate write log_write reason status now r files = elim r.active_session [
    | none ↦ (ok false, (r, files))
    | some session ↦
        after_mark
          (mark_session_interrupted sort date_of gate write log_write (some reason) (some status)
            now session files)
          r
  ]

-- The answer to a press of a button: none, the message with new numbers, or one of two notes.
pub data Reply : Type 0 where
  ignored accepted repeated : Reply
  updated : Progress → Reply

-- The reply once the press has been recorded.
unfoldable pub check_in_reply : Bool → ℕ → Option ℕ → List TimelineEvent → Reply
check_in_reply recorded order timeline_now timeline =
    let note = if recorded then accepted else repeated in
    elim timeline_now [
      | none ↦ note
      | some now ↦ elim (find (λ e. e.order == order) timeline) [
        | none ↦ note
        | some event ↦ elim (build_progress event (clamp_time_to_event event now)) [
          | none ↦ note
          | some progress ↦ updated progress
        ]
      ]
    ]

-- The handler of `InteractionCreate`. The button's session and order are those of its custom id,
-- if it is one of a check-in; `timeline_now` is the time of the active clock, if there is one.
unfoldable pub on_button : Option (String × ℕ) → String → Option ℕ → Runtime → Reply × Runtime
unfolding check_in_reply
on_button none user timeline_now r = (ignored, r)
on_button (some (session_id, order)) user timeline_now r = elim r.active_session [
  | none ↦ (ignored, r)
  | some session ↦
      let (recorded, next) = record_check_in user order session in
      if str_eq session_id session.id
      then (
        check_in_reply recorded order timeline_now r.active_timeline,
        record r { active_session = some next },
      )
      else (ignored, r)
]

-- ===== src/Timekeeper/Timeline.antt =====
-- src/features/timekeeper/timeline.ts, and the search of session-clock.ts. `audio_files` are the
-- files by their number; a time is in milliseconds.
pub mod Laws
use ido_bata_server_bot.Prelude.{
  ℕ, ◌+◌, ◌-◌, ◌*◌, ◌/◌, Bool, true, false, not, ◌||◌, String, Option, none, some, List, [], ◌∷◌,
  if◌then◌else◌, ◌==◌, ltb, min, max, get_elem?, suc, length, find_index, Outcome, ok, threw,
  refused,
}
use ido_bata_server_bot.Timekeeper.Schedule.{TimekeeperPhase, minute_ms}

pub data TimekeeperEventKind : Type 0 where
  break_start phase_ending_soon phase_start session_end work_start_soon : TimekeeperEventKind

pub record TimelineEvent : Type 0 where
  pub at : ℕ
  pub audio_path : String
  pub duration_minutes : ℕ
  pub end_at : Option ℕ
  pub kind : TimekeeperEventKind
  pub label : String
  pub order : ℕ
  pub send_text : Bool
  pub step_index : ℕ
  pub total_steps : ℕ

-- `addMinutes`; taking a minute off is `- minute_ms`.
abbrev pub add_minutes : ℕ → ℕ → ℕ
add_minutes at minutes = at + minutes * minute_ms

abbrev pub starts_phase : TimekeeperEventKind → Bool
starts_phase phase_start = true
starts_phase break_start = true
starts_phase _ = false

-- The arguments of a call of `createTimelineEvent`.
pub record EventCall : Type 0 where
  pub order : ℕ
  pub kind : TimekeeperEventKind
  pub phase : Option TimekeeperPhase
  pub at : ℕ
  pub step_index : ℕ
  pub total_steps : ℕ

abbrev pub new_event : EventCall → TimekeeperPhase → String → TimelineEvent
new_event call phase audio_path = record {
  at = call.at;
  audio_path = audio_path;
  duration_minutes = phase.duration_minutes;
  end_at =
      if starts_phase call.kind then some (add_minutes call.at phase.duration_minutes) else none;
  kind = call.kind;
  label = phase.label;
  order = call.order;
  send_text = starts_phase call.kind;
  step_index = call.step_index;
  total_steps = call.total_steps;
}

unfoldable pub create_timeline_event : (ℕ → Option String) → EventCall → Outcome TimelineEvent
create_timeline_event audio_files call = elim call.phase [
  | none ↦ threw refused
  | some phase ↦ elim (audio_files call.order) [
    | none ↦ threw refused
    | some audio_path ↦ ok (new_event call phase audio_path)
  ]
]

abbrev cons_event :
    Outcome TimelineEvent → Outcome (List TimelineEvent) → Outcome (List TimelineEvent)
cons_event (threw e) rest = threw e
cons_event (ok event) (threw e) = threw e
cons_event (ok event) (ok events) = ok (event ∷ events)

-- The elements of the array literal, whose first throw ends it.
unfoldable pub create_events : (ℕ → Option String) → List EventCall → Outcome (List TimelineEvent)
create_events audio_files [] = ok []
create_events audio_files (call ∷ calls) =
    cons_event (create_timeline_event audio_files call) (create_events audio_files calls)

abbrev pub duration_of : Option TimekeeperPhase → ℕ
duration_of none = 0
duration_of (some phase) = phase.duration_minutes

abbrev event_call : (ℕ → Option TimekeeperPhase) → ℕ → ℕ → TimekeeperEventKind → ℕ → ℕ → EventCall
event_call phase total_steps order kind index at = record {
  order = order;
  kind = kind;
  phase = phase index;
  at = at;
  step_index = suc index;
  total_steps = total_steps;
}

-- The twelve calls, with the phases at the five places.
unfoldable pub event_calls : ℕ → (ℕ → Option TimekeeperPhase) → ℕ → List EventCall
event_calls start_at phase total_steps =
    let call = event_call phase total_steps in
    let work1_start = start_at in
    let break1_start = add_minutes work1_start (duration_of (phase 0)) in
    let work2_start = add_minutes break1_start (duration_of (phase 1)) in
    let break2_start = add_minutes work2_start (duration_of (phase 2)) in
    let work3_start = add_minutes break2_start (duration_of (phase 3)) in
    let session_end_at = add_minutes work3_start (duration_of (phase 4)) in
    call 1 work_start_soon 0 (work1_start - minute_ms)
    ∷ call 2 phase_start 0 work1_start
    ∷ call 3 phase_ending_soon 0 (break1_start - minute_ms)
    ∷ call 4 break_start 1 break1_start
    ∷ call 5 work_start_soon 2 (work2_start - minute_ms)
    ∷ call 6 phase_start 2 work2_start
    ∷ call 7 phase_ending_soon 2 (break2_start - minute_ms)
    ∷ call 8 break_start 3 break2_start
    ∷ call 9 work_start_soon 4 (work3_start - minute_ms)
    ∷ call 10 phase_start 4 work3_start
    ∷ call 11 phase_ending_soon 4 (session_end_at - minute_ms)
    ∷ call 12 session_end 4 session_end_at
    ∷ []

unfoldable pub build_timekeeper_timeline :
    (ℕ → Option String) → ℕ → List TimekeeperPhase → Outcome (List TimelineEvent)
unfolding event_calls create_events
build_timekeeper_timeline audio_files start_at phases =
    if not (length phases == 5)
    then threw refused
    else create_events audio_files (event_calls start_at (get_elem? phases) (length phases))

unfoldable pub get_elapsed_minutes : TimelineEvent → ℕ → ℕ
get_elapsed_minutes event now = elim event.end_at [
  | none ↦ 0
  | some _ ↦
      if event.duration_minutes == 0
      then 0
      else min event.duration_minutes ((now - event.at) / minute_ms)
]

abbrev pub bar_width : ℕ
bar_width = 12

-- `buildProgressBar`: how many of the places are filled.
unfoldable pub filled_places : ℕ → ℕ → ℕ
filled_places elapsed_minutes total_minutes =
    if total_minutes == 0 then 0 else min bar_width (elapsed_minutes * bar_width / total_minutes)

-- The numbers of a progress message; its texts are left out.
pub record Progress : Type 0 where
  pub elapsed_minutes : ℕ
  pub remaining_minutes : ℕ
  pub filled : ℕ

unfoldable pub build_progress : TimelineEvent → ℕ → Option Progress
unfolding get_elapsed_minutes filled_places
build_progress event now =
    let elapsed = get_elapsed_minutes event now in
    if event.send_text
    then some (record {
      elapsed_minutes = elapsed;
      remaining_minutes = event.duration_minutes - elapsed;
      filled = filled_places elapsed event.duration_minutes;
    })
    else none

-- The end of an event, a minute after it where it starts no phase.
unfoldable pub event_end : TimelineEvent → ℕ
event_end event = elim event.end_at [ none ↦ event.at + minute_ms | some t ↦ t ]

unfoldable pub find_timeline_start_index : List TimelineEvent → ℕ → Option ℕ
unfolding event_end
find_timeline_start_index timeline now = find_index (λ event. ltb now (event_end event)) timeline

unfoldable pub clamp_time_to_event : TimelineEvent → ℕ → ℕ
clamp_time_to_event event time = elim event.end_at [
  | none ↦ event.at
  | some end_at ↦ if ltb time event.at then event.at else if ltb end_at time then end_at else time
]

-- ===== src/Timekeeper/Timeline/Laws.antt =====
-- When a timeline is built, and what its events are.
use mathlib.Core.Option
use ido_bata_server_bot.Prelude.{
  ℕ, ◌+◌, ◌*◌, ◌≤◌, ◌≡◌, refl, sym, ◌∙◌, ap, Bool, true, false, not, inl, inr, String, Option, none,
  some, List, [], ◌∷◌, map, arith, ◌==◌, length, is_none, get_elem?, ok, threw, All, subst, refused,
  Bool-cases, succeeded, all, and-true, ◌&&◌,
}
use ido_bata_server_bot.Timekeeper.Schedule.{TimekeeperPhase, minute_ms, total_duration_minutes}
use ido_bata_server_bot.Timekeeper.Timeline.{
  TimelineEvent, EventCall, new_event, create_events, create_timeline_event, event_calls,
  build_timekeeper_timeline,
}

-- Each number is at most the next.
abbrev pub Increasing : List ℕ → Type 0
Increasing [] = Unit
Increasing (x ∷ []) = Unit
Increasing (x ∷ (y ∷ ys)) = (x ≤ y) × Increasing (y ∷ ys)

abbrev path_of : Option String → String
path_of none = ""
path_of (some path) = path

abbrev phase_of : Option TimekeeperPhase → TimekeeperPhase
phase_of none = record { duration_minutes = 0; label = "" }
phase_of (some phase) = phase

module _ (audio_files : ℕ → Option String) where
  -- The event of a call whose phase and audio file are there.
  abbrev event_of : EventCall → TimelineEvent
  event_of call = new_event call (phase_of call.phase) (path_of (audio_files call.order))

  abbrev CanCreate : EventCall → Type 0
  CanCreate call = (is_none (audio_files call.order) ≡ false) × (is_none call.phase ≡ false)

  create-event_of :
      (call : EventCall)
      → CanCreate call
      → create_timeline_event audio_files call ≡ ok (event_of call)
  unfolding create_timeline_event
  create-event_of call h = ground arith

  create_events-event_of :
      (calls : List EventCall)
      → All CanCreate calls
      → create_events audio_files calls ≡ ok (map event_of calls)
  unfolding create_events
  create_events-event_of [] h = refl
  create_events-event_of (call ∷ calls) h =
      rw (create-event_of call h.0) (rw (create_events-event_of calls h.1) refl)

abbrev one_to_twelve : List ℕ
one_to_twelve = 1 ∷ 2 ∷ 3 ∷ 4 ∷ 5 ∷ 6 ∷ 7 ∷ 8 ∷ 9 ∷ 10 ∷ 11 ∷ 12 ∷ []

-- What a session relies on in the timeline that starts at `start_at`.
pub record IsTimeline (start_at : ℕ) (phases : List TimekeeperPhase) (events : List TimelineEvent)
    : Type 0 where
  pub numbered : map (λ e. e.order) events ≡ one_to_twelve
  pub in_order : Increasing (map (λ e. e.at) events)
  pub ends :
      Option.map (λ e. e.at) (get_elem? events 11)
      ≡ some (start_at + total_duration_minutes phases * minute_ms)

five_phases :
    (start_at : ℕ) (p0 p1 p2 p3 p4 : TimekeeperPhase)
    → minute_ms ≤ start_at
    → All (λ (p : TimekeeperPhase). 1 ≤ p.duration_minutes) (p0 ∷ p1 ∷ p2 ∷ p3 ∷ p4 ∷ [])
    → (audio_files : ℕ → Option String)
    → let phases = p0 ∷ p1 ∷ p2 ∷ p3 ∷ p4 ∷ [] in
      IsTimeline start_at phases
        (map (event_of audio_files) (event_calls start_at (get_elem? phases) 5))
unfolding event_calls
five_phases start_at p0 p1 p2 p3 p4 e h audio_files = record {
  numbered = refl;
  in_order = ground arith;
  ends = ap some (omega arith);
}

can_create : (ℕ → Option String) → EventCall → Bool
can_create audio_files call = not (is_none call.phase) && not (is_none (audio_files call.order))

succeeded-create_events :
    (audio_files : ℕ → Option String) (calls : List EventCall)
    → succeeded (create_events audio_files calls) ≡ all (can_create audio_files) calls
unfolding create_events create_timeline_event can_create
succeeded-create_events audio_files [] = refl
succeeded-create_events audio_files (call ∷ calls) =
    ground (arith, succeeded-create_events audio_files calls)

all-CanCreate :
    (audio_files : ℕ → Option String) (calls : List EventCall)
    → all (can_create audio_files) calls ≡ true
    → All (CanCreate audio_files) calls
unfolding can_create
all-CanCreate audio_files [] h = tt
all-CanCreate audio_files (call ∷ calls) h =
    let (c, rest) = and-true (can_create audio_files call) _ h in
    ((ground arith, ground arith), all-CanCreate audio_files calls rest)

abbrev FiveOf : List TimekeeperPhase → Type 0
FiveOf phases =
    (p0 : TimekeeperPhase) × ((p1 : TimekeeperPhase) × ((p2 : TimekeeperPhase)
        × ((p3 : TimekeeperPhase) × ((p4 : TimekeeperPhase) × (phases
                ≡ p0 ∷ p1 ∷ p2 ∷ p3 ∷ p4 ∷ [])))))

five_of : (phases : List TimekeeperPhase) → length phases ≡ 5 → FiveOf phases
five_of [] h = absurd (omega arith)
five_of (p0 ∷ []) h = absurd (omega arith)
five_of (p0 ∷ (p1 ∷ [])) h = absurd (omega arith)
five_of (p0 ∷ (p1 ∷ (p2 ∷ []))) h = absurd (omega arith)
five_of (p0 ∷ (p1 ∷ (p2 ∷ (p3 ∷ [])))) h = absurd (omega arith)
five_of (p0 ∷ (p1 ∷ (p2 ∷ (p3 ∷ (p4 ∷ []))))) h = (p0, (p1, (p2, (p3, (p4, refl)))))
five_of (p0 ∷ (p1 ∷ (p2 ∷ (p3 ∷ (p4 ∷ (p5 ∷ ps)))))) h = absurd (omega arith)

abbrev calls_of : ℕ → List TimekeeperPhase → List EventCall
calls_of start_at phases = event_calls start_at (get_elem? phases) 5

build_five :
    (audio_files : ℕ → Option String) (start_at : ℕ) (phases : List TimekeeperPhase)
    → length phases ≡ 5
    → build_timekeeper_timeline audio_files start_at phases
      ≡ create_events audio_files (calls_of start_at phases)
unfolding build_timekeeper_timeline
build_five audio_files start_at phases five = rw five refl

build_other :
    (audio_files : ℕ → Option String) (start_at : ℕ) (phases : List TimekeeperPhase)
    → (length phases == 5) ≡ false
    → build_timekeeper_timeline audio_files start_at phases ≡ threw refused
unfolding build_timekeeper_timeline
build_other audio_files start_at phases other = rw other refl

all-calls_of :
    (audio_files : ℕ → Option String) (start_at : ℕ) (phases : List TimekeeperPhase)
    → length phases ≡ 5
    → all (can_create audio_files) (calls_of start_at phases)
      ≡ all (λ n. not (is_none (audio_files n))) one_to_twelve
unfolding can_create event_calls
all-calls_of audio_files start_at phases five =
    let (p0, (p1, (p2, (p3, (p4, same))))) = five_of phases five in rw same refl

-- A timeline is built exactly if there are five phases and the twelve audio files.
pub succeeded-build_timekeeper_timeline :
    (audio_files : ℕ → Option String) (start_at : ℕ) (phases : List TimekeeperPhase)
    → succeeded (build_timekeeper_timeline audio_files start_at phases)
      ≡ (length phases == 5 && all (λ n. not (is_none (audio_files n))) one_to_twelve)
succeeded-build_timekeeper_timeline audio_files start_at phases =
    let files = all (λ n. not (is_none (audio_files n))) one_to_twelve in
    elim (Bool-cases (length phases == 5)) [
      | inr other ↦
          ap succeeded (build_other audio_files start_at phases other)
          ∙ sym (ap (λ b. b && files) other)
      | inl is_five ↦
          let five : length phases ≡ 5 = ground arith in
          ap succeeded (build_five audio_files start_at phases five)
          ∙ succeeded-create_events audio_files (calls_of start_at phases)
          ∙ all-calls_of audio_files start_at phases five
          ∙ sym (ap (λ b. b && files) is_five)
    ]

cc_ok : {xs ys : List TimelineEvent} → ok xs ≡ ok ys → xs ≡ ys
cc_ok h = cc

of_created :
    (audio_files : ℕ → Option String) (calls : List EventCall) (events : List TimelineEvent)
    → create_events audio_files calls ≡ ok events
    → events ≡ map (event_of audio_files) calls
of_created audio_files calls events built =
    let created =
      all-CanCreate audio_files calls
        (sym (succeeded-create_events audio_files calls) ∙ ap succeeded built) in
    cc_ok (sym built ∙ create_events-event_of audio_files calls created)

five_of_built :
    (audio_files : ℕ → Option String) (start_at : ℕ) (phases : List TimekeeperPhase)
    (events : List TimelineEvent)
    → build_timekeeper_timeline audio_files start_at phases ≡ ok events
    → length phases ≡ 5
unfolding build_timekeeper_timeline
five_of_built audio_files start_at phases events built = ground arith

-- A timeline of five phases of a minute or more, for which the audio files are there, has the
-- events 1 to 12, each at the time of the one before it or later, and the last ends the session at
-- the start and all phases; the session starts a minute or more after the epoch.
pub build_timekeeper_timeline-IsTimeline :
    (audio_files : ℕ → Option String) (start_at : ℕ) (phases : List TimekeeperPhase)
    (events : List TimelineEvent)
    → minute_ms ≤ start_at
    → All (λ (p : TimekeeperPhase). 1 ≤ p.duration_minutes) phases
    → build_timekeeper_timeline audio_files start_at phases ≡ ok events
    → IsTimeline start_at phases events
build_timekeeper_timeline-IsTimeline audio_files start_at phases events e h built =
    let five = five_of_built audio_files start_at phases events built in
    let (p0, (p1, (p2, (p3, (p4, same))))) = five_of phases five in
    subst (IsTimeline start_at phases)
      (sym (
        of_created audio_files (calls_of start_at phases) events
          (sym (build_five audio_files start_at phases five) ∙ built)))
      (rw same (five_phases start_at p0 p1 p2 p3 p4 e (rw same at h) audio_files))

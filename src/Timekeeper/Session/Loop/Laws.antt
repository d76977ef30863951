-- ===== src/Timekeeper/Session/Loop/Laws.antt =====
-- What holds of every state that a session's loop and the commands reach.
use ido_bata_server_bot.Prelude.{
  ◌≡◌, refl, sym, ap, ◌∙◌, Bool, true, false, not, ◌&&◌, ◌||◌, ◌⊎◌, inl, inr, List, [], ◌∷◌, ◌++◌,
  arith, is_none, keep, keep-append, append_assoc, append-nil, if-intro,
}
use ido_bata_server_bot.Timekeeper.Timeline.{TimelineEvent}
use ido_bata_server_bot.Timekeeper.Session.{
  is_timekeeper_session_paused, pause_timekeeper_session, resume_timekeeper_session,
  request_timekeeper_skip, await_interruptible_delay,
}
use ido_bata_server_bot.Timekeeper.Session.Loop.{
  Loop, idle, before, waiting, due, System, initial_system, wake, Command, pause, resume, skip,
  run_command, start_session, begin_wait, fire_timer, is_ending_soon, handle_event, finish_session,
  fail_session, cancel_session, can_throw, Step, commanded, started, waited, timed, announced,
  finished, failed, cancelled, Reaches, here, more,
}

abbrev is_waiting : Loop → Bool
is_waiting (waiting events) = true
is_waiting _ = false

abbrev implies : Bool → Bool → Bool
implies a b = not a || b

-- A resolver belongs to a wait and comes without the flag; a pause and the flag are those of an
-- active session.
abbrev pub is_sound : System → Bool
is_sound s =
    let r = s.runtime in
    let active = not (is_none r.active_session) in
    implies r.active_skip_resolver (is_waiting s.loop)
    && (not (r.skip_flag && r.active_skip_resolver)
        && (implies r.active_paused active && implies r.skip_flag active))

run_command-is_sound :
    (c : Command) (s : System) → is_sound s ≡ true → is_sound (run_command c s) ≡ true
unfolding run_command pause_timekeeper_session resume_timekeeper_session request_timekeeper_skip
run_command-is_sound pause s h = ground arith
run_command-is_sound resume s h = ground arith
run_command-is_sound skip s h = ground arith

begin_wait-is_sound :
    (ahead : Bool) (events : List TimelineEvent) (s : System)
    → is_waiting s.loop ≡ false
    → is_sound s ≡ true
    → is_sound (begin_wait ahead events s) ≡ true
unfolding begin_wait await_interruptible_delay
begin_wait-is_sound ahead events s not_waiting h = ground arith

no_wait : (l : Loop) → can_throw l ≡ true → is_waiting l ≡ false
no_wait idle h = refl
no_wait (before events) h = refl
no_wait (waiting events) h = sym h
no_wait (due events) h = refl

Step-is_sound : (s t : System) → Step s t → is_sound s ≡ true → is_sound t ≡ true
unfolding start_session fire_timer handle_event finish_session fail_session cancel_session
Step-is_sound _ _ (commanded c s) h = run_command-is_sound c s h
Step-is_sound _ _ (started session timeline events s l) h = ground (arith, ap is_waiting l)
Step-is_sound _ _ (waited ahead event rest s l) h =
    begin_wait-is_sound ahead (event ∷ rest) s (ap is_waiting l) h
Step-is_sound _ _ (timed events s l) h = ground arith
Step-is_sound _ _ (announced event rest s l) h = ground (arith, ap is_waiting l)
Step-is_sound _ _ (finished s l) h = refl
Step-is_sound _ _ (failed s l) h = ground (arith, no_wait s.loop l)
Step-is_sound _ _ (cancelled s) h = refl

-- Whatever steps the loop and the commands take: the resolver is set only during a wait, never
-- together with the flag of a skip, and a session is active where a pause or the flag is set.
pub Reaches-is_sound : (s t : System) → Reaches s t → is_sound s ≡ true → is_sound t ≡ true
Reaches-is_sound _ _ (here s) h = h
Reaches-is_sound _ _ (more s t u path step) h = Step-is_sound t u step (Reaches-is_sound s t path h)

-- The events that the loop has before it.
abbrev remaining : Loop → List TimelineEvent
remaining idle = []
remaining (before events) = events
remaining (waiting events) = events
remaining (due events) = events

-- An event that a pause does not suppress.
abbrev pub is_kept : TimelineEvent → Bool
is_kept e = not (is_ending_soon e.kind)

abbrev Accounts : System → Type 0
Accounts s =
    (s.handled ++ remaining s.loop ≡ s.planned)
    × (keep is_kept s.announced ≡ keep is_kept s.handled)

-- While a session runs, no planned event is lost.
abbrev pub IsAccounted : System → Type 0
IsAccounted s = (s.loop ≡ idle) ⊎ Accounts s

remaining-wake : (l : Loop) → remaining (wake l) ≡ remaining l
remaining-wake idle = refl
remaining-wake (before events) = refl
remaining-wake (waiting events) = refl
remaining-wake (due events) = refl

run_command-IsAccounted : (c : Command) (s : System) → IsAccounted s → IsAccounted (run_command c s)
unfolding run_command
run_command-IsAccounted pause s h = h
run_command-IsAccounted resume s h = h
run_command-IsAccounted skip s (inl idle_loop) = inl (
    if-intro (λ (l : Loop). l ≡ idle) (request_timekeeper_skip s.runtime).resolved
      (λ _. ap wake idle_loop) (λ _. idle_loop))
run_command-IsAccounted skip s (inr (all_there, none_lost)) = inr (
  if-intro (λ (l : Loop). s.handled ++ remaining l ≡ s.planned)
      (request_timekeeper_skip s.runtime).resolved
      (λ _. ap (λ es. s.handled ++ es) (remaining-wake s.loop) ∙ all_there) (λ _. all_there),
  none_lost,
)

handle_event-IsAccounted :
    (event : TimelineEvent) (rest : List TimelineEvent) (s : System)
    → s.loop ≡ due (event ∷ rest)
    → IsAccounted s
    → IsAccounted (handle_event event rest s)
unfolding handle_event
handle_event-IsAccounted event rest s l (inl idle_loop) = cc
handle_event-IsAccounted event rest s l (inr (all_there, none_lost)) = inr (
  append_assoc s.handled (event ∷ []) rest ∙ (rw l at all_there),
  if-intro (λ (es : List TimelineEvent). keep is_kept es ≡ keep is_kept (s.handled ++ event ∷ []))
      (is_timekeeper_session_paused s.runtime && is_ending_soon event.kind)
      (λ h. ground (
        arith,
        none_lost,
        append-nil (keep is_kept s.handled),
        keep-append is_kept s.handled (event ∷ []),
      ))
      (λ _.
        keep-append is_kept s.announced (event ∷ [])
        ∙ ap (λ es. es ++ keep is_kept (event ∷ [])) none_lost
        ∙ sym (keep-append is_kept s.handled (event ∷ []))),
)

begin_wait-IsAccounted :
    (ahead : Bool) (events : List TimelineEvent) (s : System)
    → s.loop ≡ before events
    → IsAccounted s
    → IsAccounted (begin_wait ahead events s)
unfolding begin_wait
begin_wait-IsAccounted ahead events s l (inl idle_loop) = cc
begin_wait-IsAccounted ahead events s l (inr (all_there, none_lost)) =
    let same : s.handled ++ events ≡ s.planned = rw l at all_there in
    if-intro IsAccounted ahead
      (λ _. inr (
        if-intro (λ (l : Loop). s.handled ++ remaining l ≡ s.planned)
            (await_interruptible_delay s.runtime).0 (λ _. same) (λ _. same),
        none_lost,
      ))
      (λ _. inr (same, none_lost))

Step-IsAccounted : (s t : System) → Step s t → IsAccounted s → IsAccounted t
unfolding start_session begin_wait fire_timer finish_session fail_session cancel_session
Step-IsAccounted _ _ (commanded c s) h = run_command-IsAccounted c s h
Step-IsAccounted _ _ (started session timeline events s l) h = inr (refl, refl)
Step-IsAccounted _ _ (waited ahead event rest s l) h =
    begin_wait-IsAccounted ahead (event ∷ rest) s l h
Step-IsAccounted _ _ (timed events s l) h = elim h [
  | inl idle_loop ↦ inl (ap wake idle_loop)
  | inr (all_there, none_lost) ↦
      inr (ap (λ es. s.handled ++ es) (remaining-wake s.loop) ∙ all_there, none_lost)
]
Step-IsAccounted _ _ (announced event rest s l) h = handle_event-IsAccounted event rest s l h
Step-IsAccounted _ _ (finished s l) h = inl refl
Step-IsAccounted _ _ (failed s l) h = inl refl
Step-IsAccounted _ _ (cancelled s) h = h

Reaches-IsAccounted : (s t : System) → Reaches s t → IsAccounted s → IsAccounted t
Reaches-IsAccounted _ _ (here s) h = h
Reaches-IsAccounted _ _ (more s t u path step) h =
    Step-IsAccounted t u step (Reaches-IsAccounted s t path h)

IsAccounted-end :
    (s : System)
    → s.loop ≡ before []
    → IsAccounted s
    → (s.handled ≡ s.planned) × (keep is_kept s.announced ≡ keep is_kept s.planned)
IsAccounted-end s l (inl idle_loop) = cc
IsAccounted-end s l (inr (all_there, none_lost)) =
    let same = sym (append-nil s.handled) ∙ (rw l at all_there) in
    (same, none_lost ∙ ap (keep is_kept) same)

-- A session that comes to its end has dealt with every planned event, in order, whatever was
-- paused, skipped or cancelled meanwhile, and has announced all of them but warnings of an end.
pub Reaches-announced :
    (s : System)
    → Reaches initial_system s
    → s.loop ≡ before []
    → (s.handled ≡ s.planned) × (keep is_kept s.announced ≡ keep is_kept s.planned)
Reaches-announced s path l =
    IsAccounted-end s l (Reaches-IsAccounted initial_system s path (inl refl))

-- ===== src/Announcements/Service/Laws.antt =====
-- In which order announcements are made.
use ido_bata_server_bot.Prelude.{◌≡◌, ℕ, ◌+◌, ◌<◌, ◌≤◌, true, List, [], ◌∷◌, ◌++◌}
use ido_bata_server_bot.Announcements.Schedule.Laws.{is_timed}
use ido_bata_server_bot.Announcements.Service.{
  AnnouncementsService, Armed, not_armed, idle, rearm, fire_after, on_timer,
}

-- The instants of the announcements that a run of the timer makes; `readings` are the clock's at its
-- callbacks.
unfoldable pub fired : Armed → List ℕ
fired not_armed = []
fired idle = []
fired (rearm _) = []
fired (fire_after _ next) = next.fire_at ∷ []

unfoldable pub run_timers : List ℕ → AnnouncementsService → Armed → List ℕ
run_timers [] s armed = []
run_timers (later ∷ readings) s armed =
    let (after, next) = on_timer armed s later in fired armed ++ run_timers readings after next

abbrev pub wait_of : Armed → ℕ
wait_of not_armed = 0
wait_of idle = 60000
wait_of (rearm wait) = wait
wait_of (fire_after wait _) = wait

-- No callback comes before its timer, armed at the reading `now`, has run out.
abbrev pub IsPunctual : ℕ → List ℕ → AnnouncementsService → Armed → Type 0
IsPunctual now [] s armed = Unit
IsPunctual now (later ∷ readings) s armed =
    (now + wait_of armed ≤ later)
    × IsPunctual later readings (on_timer armed s later).0 (on_timer armed s later).1

abbrev pub IsIncreasing : ℕ → List ℕ → Type 0
IsIncreasing bound [] = Unit
IsIncreasing bound (at ∷ instants) = (bound < at) × IsIncreasing at instants

-- What is armed at `now` is due later, and its wait goes up to that time.
abbrev IsArmed : ℕ → Armed → Type 0
IsArmed now not_armed = Unit
IsArmed now idle = Unit
IsArmed now (rearm _) = Unit
IsArmed now (fire_after wait next) =
    (now < next.fire_at) × ((next.fire_at ≤ now + wait) × (is_timed next.entry ≡ true))

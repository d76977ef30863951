-- ===== src/Announcements/Schedule/Laws.antt =====
-- When the next announcement is due.
use ido_bata_server_bot.Prelude.{
  ◌≡◌, refl, ℕ, ◌+◌, ◌*◌, ◌<◌, ◌≤◌, Bool, true, ◌&&◌, String, none, some, List, [], ◌∷◌, ltb, all,
  arith, inl, inr, Option-cases,
}
use ido_bata_server_bot.Birthday.Date.{match_date}
use ido_bata_server_bot.Announcements.Schedule.{
  ScheduledAnnouncementEntry, ScheduledFire, day_ms, jst_wall_clock_to_utc,
  get_next_one_shot_fire_time, get_next_weekly_fire_time, get_next_fire_time, collect_fires,
  insert_fire, sort_fires, pick_next_fires,
}

-- A weekly announcement comes within a week, at its time on its day of the week.
pub get_next_weekly_fire_time_lem :
    (entry : ScheduledAnnouncementEntry) (weekday now at : ℕ)
    → weekday < 7
    → entry.hour < 24
    → entry.minute < 60
    → get_next_weekly_fire_time entry weekday now ≡ some at
    → (now < at) × (at ≤ now + 7 * day_ms)
unfolding get_next_weekly_fire_time jst_wall_clock_to_utc
get_next_weekly_fire_time_lem entry weekday now at w h m e = ground arith

one_shot_future :
    (entry : ScheduledAnnouncementEntry) (date : String) (now at : ℕ)
    → get_next_one_shot_fire_time entry date now ≡ some at
    → now < at
unfolding get_next_one_shot_fire_time
one_shot_future entry date now at e = elim (Option-cases (match_date date)) [
  | inl n ↦ ground (arith, n, e)
  | inr (r, m) ↦ ground (arith, m, e)
]

-- The fires that lie in the future.
abbrev pub is_future : ℕ → ScheduledFire → Bool
is_future now f = ltb now f.fire_at

all-insert_fire :
    (p : ScheduledFire → Bool) (f : ScheduledFire) (fires : List ScheduledFire)
    → p f ≡ true
    → all p fires ≡ true
    → all p (insert_fire f fires) ≡ true
all-insert_fire p f [] h k = ground (arith, h)
all-insert_fire p f (g ∷ fires) h k = ground (arith, h, k, all-insert_fire p f fires)

pub all-sort_fires :
    (p : ScheduledFire → Bool) (fires : List ScheduledFire)
    → all p fires ≡ true
    → all p (sort_fires fires) ≡ true
all-sort_fires p [] h = refl
all-sort_fires p (f ∷ fires) h =
    ground (arith, h, all-sort_fires p fires, all-insert_fire p f (sort_fires fires))

-- What the file's schema asks of the time of an entry.
abbrev pub is_timed : ScheduledAnnouncementEntry → Bool
is_timed entry =
    ltb entry.hour 24
    && ltb entry.minute 60
    && elim entry.weekday [ none ↦ true | some w ↦ ltb w 7 ]

get_next_fire_time_future :
    (entry : ScheduledAnnouncementEntry) (now at : ℕ)
    → is_timed entry ≡ true
    → get_next_fire_time entry now ≡ some at
    → now < at
unfolding get_next_fire_time
get_next_fire_time_future entry now at t e = elim (Option-cases entry.one_shot_date) [
  | inr (date, d) ↦ ground (arith, d, e, one_shot_future entry date now at)
  | inl d ↦ elim (Option-cases entry.weekday) [
    | inl w ↦ ground (arith, d, w, e)
    | inr (weekday, w) ↦
        ground (arith, d, w, e, t, get_next_weekly_fire_time_lem entry weekday now at)
  ]
]

pub collect_fires_future :
    (entries : List ScheduledAnnouncementEntry) (now : ℕ)
    → all is_timed entries ≡ true
    → all (is_future now) (collect_fires entries now) ≡ true
unfolding collect_fires
collect_fires_future [] now h = refl
collect_fires_future (entry ∷ entries) now h = elim (Option-cases (get_next_fire_time entry now)) [
  | inl n ↦ ground (arith, n, h, collect_fires_future entries now)
  | inr (at, e) ↦
      ground (arith, e, h, collect_fires_future entries now, get_next_fire_time_future entry now at)
]

-- Whatever is picked lies behind the instant of the reading: an announcement that is due at that
-- instant or was before is passed over.
pub pick_next_fires_future :
    (entries : List ScheduledAnnouncementEntry) (now : ℕ)
    → all is_timed entries ≡ true
    → all (is_future now) (pick_next_fires entries now) ≡ true
unfolding pick_next_fires
pick_next_fires_future entries now h =
    all-sort_fires (is_future now) (collect_fires entries now) (collect_fires_future entries now h)

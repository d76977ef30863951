-- ===== src/Announcements/Schedule.antt =====
-- src/features/scheduled-announcements/schedule.ts. An instant is a number of milliseconds since 1970,
-- a day its number since then; what lies before 1970 is taken for 1970, which is in the past
-- all the same. The pattern of a date is that of birthdays. `day_of` is `Date.UTC` of the language
-- for a year, a month and a day.
pub mod Laws
use ido_bata_server_bot.Prelude.{
  ℕ, ◌+◌, ◌-◌, ◌*◌, ◌/◌, ◌%◌, Bool, ◌&&◌, String, Option, none, some, List, [], ◌∷◌, if◌then◌else◌,
  ◌==◌, ltb, leb,
}
use ido_bata_server_bot.Birthday.Date.{match_date}

-- A field that is missing or, for the date, empty is `none`.
pub record ScheduledAnnouncementEntry : Type 0 where
  pub id : String
  pub channel_id : String
  pub message : String
  pub weekday : Option ℕ
  pub hour : ℕ
  pub minute : ℕ
  pub one_shot_date : Option String
  pub enabled : Bool

pub record ScheduledFire : Type 0 where
  pub entry : ScheduledAnnouncementEntry
  pub fire_at : ℕ

abbrev pub day_ms : ℕ
day_ms = 86400000

abbrev pub jst_offset_ms : ℕ
jst_offset_ms = 9 * 60 * 60000

abbrev pub time_of_day : ℕ → ℕ → ℕ
time_of_day hour minute = (hour * 60 + minute) * 60000

-- Years are counted from March; a month or a day behind the last goes on to the next.
unfoldable pub day_of : ℕ → ℕ → ℕ → ℕ
day_of year month day =
    let full_year = if ltb year 100 then 1900 + year else year in
    let months = full_year * 12 + month - 3 in
    let y = months / 12 in
    365 * y + y / 4 - y / 100 + y / 400 + (153 * (months % 12) + 2) / 5 + day - 719469

-- `jstWallClockToUtc`
unfoldable pub jst_wall_clock_to_utc : ℕ → ℕ → ℕ → ℕ
jst_wall_clock_to_utc day hour minute = day * day_ms + time_of_day hour minute - jst_offset_ms

unfoldable pub get_next_one_shot_fire_time : ScheduledAnnouncementEntry → String → ℕ → Option ℕ
get_next_one_shot_fire_time entry date now = elim (match_date date) [
  | none ↦ none
  | some (year, month, day) ↦
      let candidate = jst_wall_clock_to_utc (day_of year month day) entry.hour entry.minute in
      if leb candidate now then none else some candidate
]

unfoldable pub get_next_weekly_fire_time : ScheduledAnnouncementEntry → ℕ → ℕ → Option ℕ
get_next_weekly_fire_time entry weekday now =
    let today = (now + jst_offset_ms) / day_ms in
    let days_ahead = (weekday + 7 - (today + 4) % 7) % 7 in
    let today_candidate = jst_wall_clock_to_utc today entry.hour entry.minute in
    let target = today + (if days_ahead == 0 && leb today_candidate now then 7 else days_ahead) in
    some (target * day_ms + time_of_day entry.hour entry.minute - jst_offset_ms)

unfoldable pub get_next_fire_time : ScheduledAnnouncementEntry → ℕ → Option ℕ
get_next_fire_time entry now =
    if entry.enabled
    then elim entry.one_shot_date [
      | some date ↦ get_next_one_shot_fire_time entry date now
      | none ↦ elim entry.weekday [
        | none ↦ none
        | some weekday ↦ get_next_weekly_fire_time entry weekday now
      ]
    ]
    else none

-- `fires`, before the sort
unfoldable pub collect_fires : List ScheduledAnnouncementEntry → ℕ → List ScheduledFire
collect_fires [] now = []
collect_fires (entry ∷ entries) now =
    let rest = collect_fires entries now in
    elim (get_next_fire_time entry now) [
      | none ↦ rest
      | some at ↦ (record { entry = entry; fire_at = at }) ∷ rest
    ]

-- The sort keeps the order of equal times.
abbrev pub insert_fire : ScheduledFire → List ScheduledFire → List ScheduledFire
insert_fire f [] = f ∷ []
insert_fire f (g ∷ fires) =
    let rest = insert_fire f fires in if ltb g.fire_at f.fire_at then g ∷ rest else f ∷ g ∷ fires

abbrev pub sort_fires : List ScheduledFire → List ScheduledFire
sort_fires [] = []
sort_fires (f ∷ fires) = insert_fire f (sort_fires fires)

-- `pickNextFires` without a limit; one of 1 is read as the first.
unfoldable pub pick_next_fires : List ScheduledAnnouncementEntry → ℕ → List ScheduledFire
pick_next_fires entries now = sort_fires (collect_fires entries now)

unfoldable pub get_next_weekly_fire_after : ℕ → ℕ
get_next_weekly_fire_after previous = previous + 7 * day_ms

-- ===== src/Reminder/Scheduler.antt =====
-- src/features/reminder/scheduler.ts: which reminders are due, and which is next.
use ido_bata_server_bot.Prelude.{ℕ, Option, none, some, List, [], ◌∷◌, if◌then◌else◌, ltb, leb}
use ido_bata_server_bot.Reminder.Store.{PersistedReminder}

pub record ReminderFire : Type 0 where
  pub reminder : PersistedReminder
  pub at : ℕ

abbrev later_than : ℕ → Option ℕ → Option ℕ
later_than now none = none
later_than now (some at) = if leb at now then none else some at

unfoldable pub get_next_fire_time : PersistedReminder → ℕ → Option ℕ
get_next_fire_time r now = later_than now r.fire_at

-- `fires.push({ reminder, fireAt })` unless the time is invalid or later than `now`
abbrev push_due : PersistedReminder → ℕ → Option ℕ → List ReminderFire → List ReminderFire
push_due r now none fires = fires
push_due r now (some at) fires =
    if ltb now at then fires else record { reminder = r; at = at } ∷ fires

-- The loop, its pushes in order.
unfoldable pub due_fires : List PersistedReminder → ℕ → List ReminderFire
due_fires [] now = []
due_fires (r ∷ rs) now = push_due r now r.fire_at (due_fires rs now)

-- `sort` is stable: an element goes before the first one that is not earlier, since those that come
-- after it in the list stand there already.
unfoldable pub insert_fire : ReminderFire → List ReminderFire → List ReminderFire
insert_fire f [] = f ∷ []
insert_fire f (g ∷ fires) =
    let rest = insert_fire f fires in if leb f.at g.at then f ∷ g ∷ fires else g ∷ rest

unfoldable pub sort_fires : List ReminderFire → List ReminderFire
unfolding insert_fire
sort_fires [] = []
sort_fires (f ∷ fires) = insert_fire f (sort_fires fires)

unfoldable pub pick_overdue_reminders : List PersistedReminder → ℕ → List ReminderFire
unfolding due_fires sort_fires
pick_overdue_reminders reminders now = sort_fires (due_fires reminders now)

-- `!best || fireAt < best.fireAt`
abbrev earlier : Option ReminderFire → ReminderFire → Option ReminderFire
earlier none f = some f
earlier (some best) f = if ltb f.at best.at then some f else some best

abbrev pub better : PersistedReminder → Option ℕ → Option ReminderFire → Option ReminderFire
better r none best = best
better r (some at) best = earlier best (record { reminder = r; at = at })

unfoldable pub next_from : Option ReminderFire → List PersistedReminder → ℕ → Option ReminderFire
unfolding get_next_fire_time
next_from best [] now = best
next_from best (r ∷ rs) now = next_from (better r (get_next_fire_time r now) best) rs now

unfoldable pub pick_next_fire : List PersistedReminder → ℕ → Option ReminderFire
unfolding next_from
pick_next_fire reminders now = next_from none reminders now

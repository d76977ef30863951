-- ===== src/Announcements/Service.antt =====
-- src/features/scheduled-announcements/service.ts. What a channel answers to an attempt is planned by
-- the environment; the entries are written to their file after a one-shot announcement, and a
-- failed write is logged, so that `written` is what was handed to the writer.
pub mod Laws
use ido_bata_server_bot.Prelude.{
  ℕ, zero, suc, ◌-◌, ◌*◌, Bool, true, false, String, Option, none, some, List, [], ◌∷◌, ◌++◌, map,
  if◌then◌else◌, str_eq, ltb, min, any, find, next_outcome, is_none,
}
use ido_bata_server_bot.Announcements.Schedule.{
  ScheduledAnnouncementEntry, ScheduledFire, pick_next_fires,
}

-- An attempt finds no channel, its message is refused, or it is sent.
pub data Attempt : Type 0 where
  no_channel send_refused accepted : Attempt

pub data SendResult : Type 0 where
  sent failed : SendResult

pub record AnnouncementsService : Type 0 where
  pub entries : List ScheduledAnnouncementEntry
  pub written : List (List ScheduledAnnouncementEntry)
  pub messages : List (String × String)
  pub attempts : List Attempt
  pub stopped : Bool

abbrev pub max_retry_attempts : ℕ
max_retry_attempts = 2

abbrev pub max_set_timeout_delay_ms : ℕ
max_set_timeout_delay_ms = 24 * 60 * 60 * 1000

-- `sendWithRetry`, with the attempts that are left
unfoldable pub send_with_retry :
    ℕ → ScheduledAnnouncementEntry → AnnouncementsService → SendResult × AnnouncementsService
send_with_retry zero entry s = (failed, s)
send_with_retry (suc left) entry s =
    let (attempt, plan) = next_outcome accepted s.attempts in
    let next : AnnouncementsService = record s { attempts = plan } in
    let rest = send_with_retry left entry next in
    elim attempt [
      | accepted ↦
          (sent, record next { messages = s.messages ++ (entry.channel_id, entry.message) ∷ [] })
      | send_refused ↦ rest
      | no_channel ↦ rest
    ]

abbrev pub is_entry : String → ScheduledAnnouncementEntry → Bool
is_entry id entry = str_eq entry.id id

-- The entry that is shown as finished in place of the one of its id, or behind the others.
unfoldable pub replace_entry :
    ScheduledAnnouncementEntry → List ScheduledAnnouncementEntry → List ScheduledAnnouncementEntry
replace_entry updated entries =
    if any (is_entry updated.id) entries
    then map (λ e. if is_entry updated.id e then updated else e) entries
    else entries ++ updated ∷ []

unfoldable pub persist : AnnouncementsService → AnnouncementsService
persist s = record s { written = s.written ++ s.entries ∷ [] }

-- The second half of `fire`: both results end a one-shot announcement.
unfoldable pub after_send : ScheduledAnnouncementEntry → AnnouncementsService → AnnouncementsService
after_send target s =
    let entry : ScheduledAnnouncementEntry = elim (find (is_entry target.id) s.entries) [
      | none ↦ target
      | some e ↦ e
    ] in
    if is_none entry.one_shot_date
    then s
    else persist (record s { entries = replace_entry (record entry { enabled = false }) s.entries })

unfoldable pub fire : ScheduledFire → AnnouncementsService → AnnouncementsService
fire target s = after_send target.entry (send_with_retry max_retry_attempts target.entry s).1

-- What `scheduleNext` arms: nothing once stopped, the check of an idle service, a wait that only
-- comes back to it, or a wait and the fire behind it.
pub data Armed : Type 0 where
  not_armed idle : Armed
  rearm : ℕ → Armed
  fire_after : ℕ → ScheduledFire → Armed

unfoldable pub arm_first : List ScheduledFire → ℕ → Armed
arm_first [] now = idle
arm_first (next ∷ _) now =
    let delay = next.fire_at - now in
    let safe_delay = min delay max_set_timeout_delay_ms in
    if ltb safe_delay delay then rearm safe_delay else fire_after safe_delay next

unfoldable pub schedule_next : AnnouncementsService → ℕ → Armed
schedule_next s now = if s.stopped then not_armed else arm_first (pick_next_fires s.entries now) now

-- The timer's callback at `later`: what the service is then, and what it arms.
unfoldable pub on_timer : Armed → AnnouncementsService → ℕ → AnnouncementsService × Armed
on_timer not_armed s later = (s, not_armed)
on_timer idle s later = (s, schedule_next s later)
on_timer (rearm _) s later = (s, schedule_next s later)
on_timer (fire_after _ next) s later = let after = fire next s in (after, schedule_next after later)

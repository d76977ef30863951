-- ===== src/Birthday/Handler.antt =====
-- src/features/birthday-role/handler.ts: registrations. The consent gate answers for each user at the
-- call; the time of a registration is given.
use ido_bata_server_bot.Prelude.{
  Bool, true, false, not, ◌&&◌, String, Option, none, some, if◌then◌else◌, str_eq, is_none, get,
  Outcome, ok, threw,
}
use ido_bata_server_bot.Storage.AtomicJson.{Result, value, error, Disk}
use ido_bata_server_bot.Birthday.Storage.{
  BirthdayEntry, BirthdayStore, load_birthdays, save_birthdays, set_birthday, remove_birthday,
}
use ido_bata_server_bot.Birthday.Date.{parse_birthday_date, canonical}

pub record BirthdayRoleConfig : Type 0 where
  pub guild_id : String
  pub role_id : String
  pub announcement_channel_id : String

unfoldable pub is_birthday_role_configured : BirthdayRoleConfig → Bool
is_birthday_role_configured config =
    not (str_eq config.role_id "") && not (str_eq config.guild_id "")

-- `fetchAnnouncementChannel` and the channel: not given, failing, no channel, or a channel
-- that accepts a message or not
pub data ChannelAnswer : Type 0 where
  no_fetcher fetch_failed no_channel : ChannelAnswer
  channel : Bool → ChannelAnswer

-- `config.dataFile` is the registry; `consent` is the gate, if there is one.
pub record HandlerDependencies : Type 0 where
  pub config : BirthdayRoleConfig
  pub consent : Option (String → Bool)
  pub announcements : ChannelAnswer
  pub is_date : String → Bool

pub data SetReason : Type 0 where
  invalid_date storage_failed consent_denied : SetReason

pub data SetResult : Type 0 where
  registered : BirthdayEntry → SetResult
  declined : SetReason → SetResult

abbrev pub allows : HandlerDependencies → String → Bool
allows deps user = elim deps.consent [ none ↦ true | some gate ↦ gate user ]

abbrev saved_as : BirthdayEntry → Result Bool → SetResult
saved_as entry (value _) = registered entry
saved_as entry (error _) = declined storage_failed

-- The load, the change and the save of a registration.
unfoldable pub register :
    HandlerDependencies → BirthdayEntry → Disk BirthdayStore → SetResult × Disk BirthdayStore
register deps entry d =
    let (loaded, next) = load_birthdays deps.is_date d in
    elim loaded [
      | threw _ ↦ (declined storage_failed, next)
      | ok store ↦
          let changed = set_birthday store entry.user_id entry.date entry.updated_at in
          let (saved, last) = save_birthdays deps.is_date changed next in
          (saved_as entry saved, last)
    ]

-- `setBirthday`: a handler without a role is the one of `createNoopHandler`.
unfoldable pub set_birthday_for :
    HandlerDependencies
    → String
    → String
    → String
    → Disk BirthdayStore
    → SetResult × Disk BirthdayStore
set_birthday_for deps user date_input now d =
    if is_birthday_role_configured deps.config
    then elim (parse_birthday_date date_input) [
      | none ↦ (declined invalid_date, d)
      | some parsed ↦
          if allows deps user
          then register deps (record { user_id = user; date = canonical parsed; updated_at = now })
              d
          else (declined consent_denied, d)
    ]
    else (declined invalid_date, d)

abbrev was_saved : Result Bool → Bool
was_saved (value _) = true
was_saved (error _) = false

-- `removeBirthday`; a load that throws leaves the handler.
unfoldable pub remove_birthday_for :
    HandlerDependencies → String → Disk BirthdayStore → Outcome Bool × Disk BirthdayStore
remove_birthday_for deps user d =
    if is_birthday_role_configured deps.config
    then (let (loaded, next) = load_birthdays deps.is_date d in
        elim loaded [
          | threw e ↦ (threw e, next)
          | ok store ↦
              if is_none (get user store)
              then (ok false, next)
              else (let (saved, last) =
                    save_birthdays deps.is_date (remove_birthday store user) next in
                  (ok (was_saved saved), last))
        ])
    else (ok false, d)

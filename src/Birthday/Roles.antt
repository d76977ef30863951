-- ===== src/Birthday/Roles.antt =====
-- src/features/birthday-role/handler.ts, schedule.ts and service.ts: the ticks at midnight, which take
-- and grant the role of the day. A member is fetched by the user's id; one that cannot be fetched is
-- none.
pub mod Laws
use ido_bata_server_bot.Prelude.{
  Bool, true, false, not, ◌&&◌, ◌||◌, String, Option, none, some, List, [], ◌∷◌, ◌++◌, map,
  if◌then◌else◌, ◌==◌, str_eq, keep, any, length, get, put, Outcome, ok, threw,
}
use ido_bata_server_bot.Storage.AtomicJson.{Disk}
use ido_bata_server_bot.Birthday.Storage.{
  BirthdayEntry, BirthdayStore, load_birthdays, list_birthdays,
}
use ido_bata_server_bot.Birthday.Date.{JstDate, parse_birthday_date}
use ido_bata_server_bot.Birthday.Handler.{
  ChannelAnswer, channel, HandlerDependencies, is_birthday_role_configured, allows,
}

-- Members by user, with their roles; `obeys` tells whether Discord accepts a change of its roles.
pub record MemberLike : Type 0 where
  pub roles : List String
  pub obeys : Bool

-- What the ticks work on; `messages` are the announcements, as the users they name.
pub record World : Type 0 where
  pub registry : Disk BirthdayStore
  pub members : List (String × MemberLike)
  pub messages : List (List String)

pub record AssignTickResult : Type 0 where
  pub attempted : List String
  pub granted : List String
  pub skipped_already_had_role : List String
  pub failed : List String
  pub announced_to : Option String

pub record RemoveTickResult : Type 0 where
  pub attempted : List String
  pub removed : List String
  pub skipped_no_role : List String
  pub failed : List String

-- schedule.ts
unfoldable pub is_on_date : JstDate → BirthdayEntry → Bool
is_on_date target entry = elim (parse_birthday_date entry.date) [
  | none ↦ false
  | some parsed ↦ parsed.month == target.month && parsed.day == target.day
]

unfoldable pub select_birthdays_on_date : List BirthdayEntry → JstDate → List String
select_birthdays_on_date birthdays target =
    map (λ e. e.user_id) (keep (is_on_date target) birthdays)

-- `.map(…).filter(entry !== undefined)`
abbrev pub entries_of : BirthdayStore → List String → List BirthdayEntry
entries_of store [] = []
entries_of store (user ∷ users) =
    let rest = entries_of store users in
    elim (get user store) [ none ↦ rest | some entry ↦ entry ∷ rest ]

unfoldable pub birthdays_of : BirthdayStore → JstDate → List BirthdayEntry
birthdays_of store target =
    entries_of store (select_birthdays_on_date (list_birthdays store) target)

abbrev pub has_role : String → MemberLike → Bool
has_role role member = any (λ r. str_eq r role) member.roles

-- `member.roles.add` and `member.roles.remove`, which a member that does not obey refuses
abbrev pub with_role : String → MemberLike → MemberLike
with_role role member = record member { roles = member.roles ++ role ∷ [] }

abbrev pub without_role : String → MemberLike → MemberLike
without_role role member = record member { roles = keep (λ r. not (str_eq r role)) member.roles }

-- `runAssignTick`, one turn of its loop
unfoldable pub assign_one :
    String
    → AssignTickResult × List (String × MemberLike)
    → String
    → AssignTickResult × List (String × MemberLike)
assign_one role (result, members) user = elim (get user members) [
  | none ↦ (result, members)
  | some member ↦
      if has_role role member
      then (
        record result { skipped_already_had_role = result.skipped_already_had_role ++ user ∷ [] },
        members,
      )
      else if member.obeys
      then (
        record result { granted = result.granted ++ user ∷ [] },
        put user (with_role role member) members,
      )
      else (record result { failed = result.failed ++ user ∷ [] }, members)
]

unfoldable pub assign_all :
    String
    → AssignTickResult × List (String × MemberLike)
    → List String
    → AssignTickResult × List (String × MemberLike)
assign_all role s [] = s
assign_all role s (user ∷ users) = assign_all role (assign_one role s user) users

-- `consented`, as users
unfoldable pub consented_users : HandlerDependencies → List BirthdayEntry → List String
consented_users deps todays = map (λ e. e.user_id) (keep (λ e. allows deps e.user_id) todays)

abbrev new_assignment : List String → AssignTickResult
new_assignment users = record {
  attempted = users;
  granted = [];
  skipped_already_had_role = [];
  failed = [];
  announced_to = none;
}

-- The announcement of the users who were granted the role.
unfoldable pub announce :
    HandlerDependencies
    → AssignTickResult
    → List (List String)
    → AssignTickResult × List (List String)
announce deps result messages =
    if length result.granted == 0 || str_eq deps.config.announcement_channel_id ""
    then (result, messages)
    else elim deps.announcements [
      | channel true ↦ (
        record result { announced_to = some deps.config.announcement_channel_id },
        messages ++ result.granted ∷ [],
      )
      | _ ↦ (result, messages)
    ]

unfoldable pub run_assign_tick :
    HandlerDependencies → JstDate → World → Outcome AssignTickResult × World
run_assign_tick deps target w =
    if is_birthday_role_configured deps.config
    then (let (loaded, next) = load_birthdays deps.is_date w.registry in
        elim loaded [
          | threw e ↦ (threw e, record w { registry = next })
          | ok store ↦
              let users = consented_users deps (birthdays_of store target) in
              let (result, members) =
                assign_all deps.config.role_id (new_assignment users, w.members) users in
              let (final, messages) = announce deps result w.messages in
              (ok final, record { registry = next; members = members; messages = messages })
        ])
    else (ok (new_assignment []), w)

-- `runRemoveTick`, one turn of its loop
unfoldable pub remove_one :
    String
    → RemoveTickResult × List (String × MemberLike)
    → String
    → RemoveTickResult × List (String × MemberLike)
remove_one role (result, members) user = elim (get user members) [
  | none ↦ (result, members)
  | some member ↦
      if has_role role member
      then if member.obeys
        then (
          record result { removed = result.removed ++ user ∷ [] },
          put user (without_role role member) members,
        )
        else (record result { failed = result.failed ++ user ∷ [] }, members)
      else (record result { skipped_no_role = result.skipped_no_role ++ user ∷ [] }, members)
]

unfoldable pub remove_all :
    String
    → RemoveTickResult × List (String × MemberLike)
    → List String
    → RemoveTickResult × List (String × MemberLike)
remove_all role s [] = s
remove_all role s (user ∷ users) = remove_all role (remove_one role s user) users

abbrev new_removal : List String → RemoveTickResult
new_removal users = record { attempted = users; removed = []; skipped_no_role = []; failed = [] }

unfoldable pub run_remove_tick :
    HandlerDependencies → JstDate → World → Outcome RemoveTickResult × World
run_remove_tick deps target w =
    if is_birthday_role_configured deps.config
    then (let (loaded, next) = load_birthdays deps.is_date w.registry in
        elim loaded [
          | threw e ↦ (threw e, record w { registry = next })
          | ok store ↦
              let users = map (λ e. e.user_id) (birthdays_of store target) in
              let (result, members) =
                remove_all deps.config.role_id (new_removal users, w.members) users in
              (ok result, record w { registry = next; members = members })
        ])
    else (ok (new_removal []), w)

-- `runMidnightTick`, which logs what a tick throws
unfoldable pub run_midnight_tick : HandlerDependencies → JstDate → JstDate → World → World
run_midnight_tick deps yesterday today w =
    (run_assign_tick deps today (run_remove_tick deps yesterday w).1).1

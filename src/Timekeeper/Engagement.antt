-- ===== src/Timekeeper/Engagement.antt =====
-- src/features/timekeeper/engagement.ts: who checked in to a session, and the history of
-- attendance. A `Set` is a list without repetitions; a date is its text, and `sort` is the sort of
-- texts. A write of a file meets what the environment has planned.
pub mod SessionLog
pub mod CheckIns
pub mod History
pub mod Deletion
use ido_bata_server_bot.Prelude.{
  ℕ, ◌-◌, ◌*◌, Bool, true, false, not, ◌&&◌, ◌||◌, String, Option, none, some, List, [], ◌∷◌, ◌++◌,
  map, suc, if◌then◌else◌, ◌==◌, str_eq, any, keep, count, length, get, put, Outcome, Done, ok,
  threw, refused,
}
use ido_bata_server_bot.Consent.Types.{ConsentEvent, granted, revoked, cleared}
use ido_bata_server_bot.Storage.AtomicJson.{JsonFile, missing, garbled, foreign, stored}
use ido_bata_server_bot.Storage.PlainFile.{PlainWrite, write_file}

-- `PersistedAttendance`, and the map of a session
abbrev pub Attendance : Type 0
Attendance = List (String × List String)

pub record Session : Type 0 where
  pub attendance_dates_by_user_id : Attendance
  pub check_ins_by_user_id : List (String × List ℕ)
  pub id : String

-- The variables of the module: `revokedUsers` and `currentAuthorization`, which answers for each
-- user at the call.
pub record Gate : Type 0 where
  pub revoked_users : List String
  pub authorization : Option (String → Bool)

abbrev pub or_empty {ℓ} : {A : Type ℓ} → Option (List A) → List A
or_empty none = []
or_empty (some xs) = xs

-- `Set.add`
abbrev pub add_text : String → List String → List String
add_text s xs = if any (λ x. str_eq x s) xs then xs else xs ++ s ∷ []

abbrev pub add_number : ℕ → List ℕ → List ℕ
add_number n xs = if any (λ x. x == n) xs then xs else xs ++ n ∷ []

-- `JSON.parse` throws on text that is no JSON; `of_foreign` is what `Object.entries` and `Set` make
-- of JSON of another shape.
unfoldable pub load_attendance_history :
    Outcome Attendance → JsonFile Attendance → Outcome Attendance
load_attendance_history of_foreign missing = ok []
load_attendance_history of_foreign garbled = threw refused
load_attendance_history of_foreign foreign = of_foreign
load_attendance_history of_foreign (stored history) = ok history

abbrev session_of : String → Outcome Attendance → Outcome Session
session_of id (ok history) =
    ok (record { attendance_dates_by_user_id = history; check_ins_by_user_id = []; id = id })
session_of id (threw e) = threw e

unfoldable pub create_session_engagement :
    Outcome Attendance → String → JsonFile Attendance → Outcome Session
unfolding load_attendance_history
create_session_engagement of_foreign id file =
    session_of id (load_attendance_history of_foreign file)

unfoldable pub record_check_in : String → ℕ → Session → Bool × Session
record_check_in user order s =
    let existing = or_empty (get user s.check_ins_by_user_id) in
    let orders = add_number order existing in
    (
      not (length orders == length existing),
      record s { check_ins_by_user_id = put user orders s.check_ins_by_user_id },
    )

unfoldable pub get_session_check_in_count : ℕ → Session → ℕ
get_session_check_in_count order s = count (λ e. any (λ x. x == order) e.1) s.check_ins_by_user_id

abbrev pub is_revoked : String → Gate → Bool
is_revoked user gate = any (λ u. str_eq u user) gate.revoked_users

abbrev pub is_authorized : String → Gate → Bool
is_authorized user gate = elim gate.authorization [ none ↦ false | some authorize ↦ authorize user ]

-- The dates of a user with one more.
abbrev pub add_date : String → String → Attendance → Attendance
add_date user date attendance = put user (add_text date (or_empty (get user attendance))) attendance

-- The guards of both functions that add a date.
unfoldable pub add_if_permitted : Gate → String → String → Attendance → Attendance
add_if_permitted gate user date attendance =
    if is_revoked user gate
    then attendance
    else if is_authorized user gate
    then add_date user date attendance
    else attendance

unfoldable pub record_attendance : Gate → String → String → Session → Session
unfolding add_if_permitted
record_attendance gate user date s = record s {
  attendance_dates_by_user_id = add_if_permitted gate user date s.attendance_dates_by_user_id;
}

-- The loop of `persistSessionAttendance` over the users who checked in.
unfoldable pub add_session_dates : Gate → String → List String → Attendance → Attendance
unfolding add_if_permitted
add_session_dates gate date [] attendance = attendance
add_session_dates gate date (user ∷ users) attendance =
    add_session_dates gate date users (add_if_permitted gate user date attendance)

-- `serialized`; a repeated key would keep its place, and a `Map` has none.
abbrev pub serialize : (List String → List String) → Attendance → Attendance
serialize sort attendance = map (λ e. (e.0, sort e.1)) attendance

-- The answer, the session and the file after `persistSessionAttendance`.
pub record Persisted : Type 0 where
  pub answer : Done
  pub session : Session
  pub history : JsonFile Attendance

module _ (sort : List String → List String) where
  unfoldable pub persist_session_attendance :
      Gate → PlainWrite → String → Session → JsonFile Attendance → Persisted
  unfolding add_session_dates
  persist_session_attendance gate write date s file = elim gate.authorization [
    | none ↦ record { answer = ok tt; session = s; history = file }
    | some _ ↦
        let attendance =
          add_session_dates gate date (map (λ e. e.0) s.check_ins_by_user_id)
            s.attendance_dates_by_user_id in
        let (answer, history) = write_file write (serialize sort attendance) file in
        record {
          answer = answer;
          session = record s { attendance_dates_by_user_id = attendance };
          history = history;
        }
  ]

-- The comparison of neighbours from the latest date back; `streak_day_ms` is a day.
abbrev streak_day_ms : ℕ
streak_day_ms = 24 * (60 * (60 * 1000))

unfoldable pub streak_back : ℕ → List ℕ → ℕ
streak_back current [] = 1
streak_back current (previous ∷ earlier) =
    let rest = streak_back previous earlier in
    if current - previous == streak_day_ms then suc rest else 1

-- `times` are those of the dates, sorted, the latest first.
unfoldable pub count_streak_days : List ℕ → ℕ
unfolding streak_back
count_streak_days [] = 0
count_streak_days (latest ∷ earlier) = streak_back latest earlier

-- The listener of `attachPersistenceAuthorization`.
unfoldable pub on_consent_event : ConsentEvent → Gate → Gate
on_consent_event (revoked subject scope at) gate =
    if is_revoked subject gate
    then gate
    else record gate { revoked_users = gate.revoked_users ++ subject ∷ [] }
on_consent_event (granted subject scope at source) gate = record gate {
  revoked_users = keep (λ u. not (str_eq u subject)) gate.revoked_users;
}
on_consent_event (cleared subject at) gate = record gate {
  revoked_users = keep (λ u. not (str_eq u subject)) gate.revoked_users;
}

unfoldable pub attach_persistence_authorization : (String → Bool) → Gate → Gate
attach_persistence_authorization authorize gate = record gate { authorization = some authorize }

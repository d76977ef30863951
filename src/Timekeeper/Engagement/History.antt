-- ===== src/Timekeeper/Engagement/History.antt =====
-- What is recorded of a user's attendance, and what a session writes at its end.
use mathlib.Core.Option
use ido_bata_server_bot.Prelude.{
  ◌≡◌, refl, ap, ◌∙◌, Bool, true, false, not, ◌&&◌, ◌||◌, String, Option, some, List, [], ◌∷◌, map,
  arith, if◌then◌else◌, str_eq, eq_iff, str_eq_refl, any, any-append, get, get-put,
}
use ido_bata_server_bot.Storage.AtomicJson.{JsonFile, stored}
use ido_bata_server_bot.Storage.PlainFile.{written}
use ido_bata_server_bot.Timekeeper.Engagement.{
  Attendance, Session, Gate, or_empty, add_text, is_revoked, is_authorized, add_if_permitted,
  record_attendance, add_session_dates, serialize, persist_session_attendance,
}

-- A user whose attendance may be recorded.
abbrev pub is_permitted : Gate → String → Bool
is_permitted gate user = not (is_revoked user gate) && is_authorized user gate

-- The dates of a user after an attendance that may be recorded or not.
abbrev pub with_date : Bool → String → Option (List String) → Option (List String)
with_date permitted date dates = if permitted then some (add_text date (or_empty dates)) else dates

get-add_if_permitted :
    (gate : Gate) (user other date : String) (attendance : Attendance)
    → get other (add_if_permitted gate user date attendance)
      ≡ with_date (str_eq user other && is_permitted gate other) date (get other attendance)
unfolding add_if_permitted
get-add_if_permitted gate user other date attendance = ground (
  arith,
  eq_iff user other,
  get-put user other (add_text date (or_empty (get user attendance))) attendance,
)

-- An attendance is recorded for the user it is about, if the user is authorized and not revoked,
-- and for nobody else.
pub get-record_attendance :
    (gate : Gate) (user other date : String) (s : Session)
    → get other (record_attendance gate user date s).attendance_dates_by_user_id
      ≡ with_date
          (str_eq user other && is_permitted gate other)
          date
          (get other s.attendance_dates_by_user_id)
unfolding record_attendance
get-record_attendance gate user other date s =
    get-add_if_permitted gate user other date s.attendance_dates_by_user_id

add_text_twice : (s : String) (xs : List String) → add_text s (add_text s xs) ≡ add_text s xs
add_text_twice s xs = ground (arith, any-append (λ x. str_eq x s) xs (s ∷ []), str_eq_refl s)

with_date_twice :
    (a b : Bool) (date : String) (dates : Option (List String))
    → with_date a date (with_date b date dates) ≡ with_date (b || a) date dates
with_date_twice false false date dates = refl
with_date_twice false true date dates = refl
with_date_twice true false date dates = refl
with_date_twice true true date dates = ap some (add_text_twice date (or_empty dates))

or_of_and : (a b c : Bool) → ((a && c) || (b && c)) ≡ ((a || b) && c)
or_of_and a b c = ground arith

get-add_session_dates :
    (gate : Gate) (date other : String) (users : List String) (attendance : Attendance)
    → get other (add_session_dates gate date users attendance)
      ≡ with_date
          (any (λ u. str_eq u other) users && is_permitted gate other)
          date
          (get other attendance)
unfolding add_session_dates
get-add_session_dates gate date other [] attendance = refl
get-add_session_dates gate date other (user ∷ users) attendance =
    let p = is_permitted gate other in
    let a = str_eq user other in
    let b = any (λ u. str_eq u other) users in
    get-add_session_dates gate date other users (add_if_permitted gate user date attendance)
    ∙ ap (with_date (b && p) date) (get-add_if_permitted gate user other date attendance)
    ∙ with_date_twice (b && p) (a && p) date (get other attendance)
    ∙ ap (λ c. with_date c date (get other attendance)) (or_of_and a b p)

get-serialize :
    (sort : List String → List String) (user : String) (attendance : Attendance)
    → get user (serialize sort attendance) ≡ Option.map sort (get user attendance)
get-serialize sort user [] = refl
get-serialize sort user ((k, dates) ∷ es) = ground (arith, get-serialize sort user es)

-- The user checked in to the session.
abbrev pub has_check_in : String → Session → Bool
has_check_in user s = any (λ u. str_eq u user) (map (λ e. e.0) s.check_ins_by_user_id)

module _ (sort : List String → List String) where
  -- A session that writes its attendance writes for each user, whatever the file holds by then, the
  -- dates of the session, sorted, with the date of the session if the user checked in, is
  -- authorized and is not revoked.
  pub persist_session_attendance-get :
      (gate : Gate) (authorize : String → Bool) (date user : String) (s : Session)
      (file : JsonFile Attendance)
      → gate.authorization ≡ some authorize
      → (history : Attendance) × (((persist_session_attendance sort gate written date s
              file).history
            ≡ stored history)
          × (get user history
              ≡ Option.map sort (
                  with_date
                    (has_check_in user s && is_permitted gate user)
                    date
                    (get user s.attendance_dates_by_user_id))))
  unfolding persist_session_attendance
  persist_session_attendance-get gate authorize date user s file h =
      let users = map (λ e. e.0) s.check_ins_by_user_id in
      let attendance = add_session_dates gate date users s.attendance_dates_by_user_id in
      (
        serialize sort attendance,
        (
          rw h refl,
          get-serialize sort user attendance
              ∙ ap (Option.map sort)
                  (get-add_session_dates gate date user users s.attendance_dates_by_user_id),
        ),
      )

-- ===== src/Birthday/Examples.antt =====
-- The registration of a birthday, and the midnight of a leap day.
use ido_bata_server_bot.Prelude.{
  ◌≡◌, refl, Bool, true, not, ◌&&◌, ◌||◌, String, some, none, [], ◌∷◌, str_eq, arith,
}
use ido_bata_server_bot.Storage.AtomicJson.{
  Disk, stored, read_json_file, read_existing, parse_content,
}
use ido_bata_server_bot.Birthday.Storage.{
  BirthdayStore, is_valid_store, load_birthdays, after_load, set_birthday,
}
use ido_bata_server_bot.Birthday.Date.{
  JstDate, parse_birthday_date, match_date, check_date, utc_date, days_in_month, is_leap_year,
  digit_of, read_digits, read_dash, canonical, previous_jst_date,
}
use ido_bata_server_bot.Birthday.Date.Laws.{IsDay}
use ido_bata_server_bot.Birthday.Date.RoundTrip.{parse_birthday_date-canonical}
use ido_bata_server_bot.Birthday.Handler.{
  HandlerDependencies, channel, is_birthday_role_configured, allows,
}
use ido_bata_server_bot.Birthday.Roles.{MemberLike, World, has_role, run_midnight_tick}
use ido_bata_server_bot.Birthday.Roles.Laws.{has_birthday}
use ido_bata_server_bot.Birthday.Roles.Laws.Midnight.{holds, run_midnight_tick-holds}

abbrev leap_day : JstDate
leap_day = record { year = 2000; month = 2; day = 29 }

abbrev is_date : String → Bool
is_date _ = true

abbrev store : BirthdayStore
store = ("ann", record { user_id = "ann"; date = "2000-02-29"; updated_at = "t1" }) ∷ []

set_run : set_birthday [] "ann" "2000-02-29" "t1" ≡ store
unfolding set_birthday
set_run = refl

parse_run : parse_birthday_date "2000-02-29" ≡ some leap_day
unfolding parse_birthday_date match_date check_date utc_date days_in_month is_leap_year digit_of
    read_digits read_dash
parse_run = refl

no_leap_day : parse_birthday_date "1900-02-29" ≡ none
unfolding parse_birthday_date match_date check_date utc_date days_in_month is_leap_year digit_of
    read_digits read_dash
no_leap_day = refl

leap_day-IsDay : IsDay leap_day
unfolding days_in_month is_leap_year
leap_day-IsDay = record {
  year = omega arith;
  month = (omega arith, omega arith);
  day = (omega arith, omega arith);
}

parse_birthday_date-canonical_example : parse_birthday_date (canonical leap_day) ≡ some leap_day
parse_birthday_date-canonical_example =
    parse_birthday_date-canonical leap_day leap_day-IsDay (omega arith)

abbrev filed : Disk BirthdayStore
filed = record { file = stored store; temps = 0; reads = []; writes = [] }

abbrev deps : HandlerDependencies
deps = record {
  config = record { guild_id = "g"; role_id = "r"; announcement_channel_id = "c" };
  consent = some (λ user. str_eq user "ann");
  announcements = channel true;
  is_date = is_date;
}

abbrev ann : MemberLike
ann = record { roles = "other" ∷ []; obeys = true }

abbrev world : World
world = record { registry = filed; members = ("ann", ann) ∷ []; messages = [] }

run_midnight_tick-holds_example :
    holds deps store "ann"
      (run_midnight_tick deps (previous_jst_date leap_day) leap_day world).members
    ≡ ((allows deps "ann" && has_birthday store leap_day "ann")
        || (has_role "r" ann && not (has_birthday store (previous_jst_date leap_day) "ann")))
unfolding is_birthday_role_configured load_birthdays after_load read_json_file read_existing
    parse_content is_valid_store
run_midnight_tick-holds_example =
    run_midnight_tick-holds deps store (previous_jst_date leap_day) leap_day world "ann" ann refl
      refl refl (refl, tt) refl refl

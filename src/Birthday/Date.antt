-- ===== src/Birthday/Date.antt =====
-- src/features/birthday-role/date.ts. A text has been trimmed; a day of the calendar is a `JstDate`,
-- an instant a number of milliseconds since 1970. `days_in_month` and `utc_date` are `Date.UTC` of
-- the language, as far as these functions call it.
pub mod Laws
pub mod RoundTrip
use Prim.Native.Char.{Char, char, code}
use Prim.Native.String.{[] as empty, ◌∷◌ as cons_char}
use ido_bata_server_bot.Prelude.{
  ℕ, zero, suc, ◌+◌, ◌-◌, ◌*◌, ◌/◌, ◌%◌, Bool, true, false, ◌&&◌, ◌||◌, String, Option, none, some,
  if◌then◌else◌, ◌==◌, ltb, leb,
}

pub record JstDate : Type 0 where
  pub year : ℕ
  pub month : ℕ
  pub day : ℕ

unfoldable pub is_leap_year : ℕ → Bool
is_leap_year year =
    if year % 400 == 0 then true else if year % 100 == 0 then false else year % 4 == 0

-- The days of a month from 1 to 12.
unfoldable pub days_in_month : ℕ → ℕ → ℕ
days_in_month year month =
    if month == 2
    then (if is_leap_year year then 29 else 28)
    else if month == 4 || month == 6 || month == 9 || month == 11
    then 30
    else 31

-- `Date.UTC` takes a year below 100 for one of the twentieth century, and a day behind the end of
-- a month for one of the next.
unfoldable pub utc_date : ℕ → ℕ → ℕ → JstDate
utc_date year month day =
    let full_year = if ltb year 100 then 1900 + year else year in
    let last = days_in_month full_year month in
    if leb day last
    then record { year = full_year; month = month; day = day }
    else if month == 12
    then record { year = suc full_year; month = 1; day = day - last }
    else record { year = full_year; month = suc month; day = day - last }

-- `\d`
unfoldable pub digit_of : Char → Option ℕ
digit_of c = if leb 48 (code c) && leb (code c) 57 then some (code c - 48) else none

-- `\d` a number of times: its value in decimal, and the text behind it
unfoldable pub read_digits : ℕ → ℕ → String → Option (ℕ × String)
read_digits zero value text = some (value, text)
read_digits (suc n) value empty = none
read_digits (suc n) value (cons_char c text) = elim (digit_of c) [
  | none ↦ none
  | some d ↦ read_digits n (value * 10 + d) text
]

unfoldable pub read_dash : String → Option String
read_dash empty = none
read_dash (cons_char c text) = if code c == 45 then some text else none

abbrev at_end : ℕ × String → Option ℕ
at_end (value, empty) = some value
at_end (value, cons_char c text) = none

-- A part of the pattern that does not match ends the match.
infixl 20 ◌>>=◌
abbrev pub ◌>>=◌ : {A B : Type 0} → Option A → (A → Option B) → Option B
none >>= f = none
some a >>= f = f a

-- The pattern of a date: its three numbers.
unfoldable pub match_date : String → Option (ℕ × ℕ × ℕ)
match_date text = do
  (year, text1) ← read_digits 4 0 text
  text2 ← read_dash text1
  (month, text3) ← read_digits 2 0 text2
  text4 ← read_dash text3
  day ← elim (read_digits 2 0 text4) [ none ↦ none | some r ↦ at_end r ]
  some (year, month, day)

unfoldable pub check_date : ℕ × ℕ × ℕ → Option JstDate
check_date (year, month, day) =
    let probe = utc_date year month day in
    if ltb month 1 || ltb 12 month || ltb day 1 || ltb 31 day
    then none
    else if probe.year == year && probe.month == month && probe.day == day
    then some (record { year = year; month = month; day = day })
    else none

unfoldable pub parse_birthday_date : String → Option JstDate
parse_birthday_date text = elim (match_date text) [ none ↦ none | some r ↦ check_date r ]

-- The day before a day of the calendar.
unfoldable pub previous_jst_date : JstDate → JstDate
previous_jst_date today =
    if ltb 1 today.day
    then record { year = today.year; month = today.month; day = today.day - 1 }
    else if ltb 1 today.month
    then record {
      year = today.year;
      month = today.month - 1;
      day = days_in_month today.year (today.month - 1);
    }
    else record { year = today.year - 1; month = 12; day = 31 }

abbrev pub day_ms : ℕ
day_ms = 86400000

abbrev pub jst_offset_ms : ℕ
jst_offset_ms = 32400000

-- `toJstDate`, with a day as its number since 1970
unfoldable pub to_jst_day : ℕ → ℕ
to_jst_day instant = (instant + jst_offset_ms) / day_ms

-- `nextJstMidnightUtc`
unfoldable pub next_jst_midnight_utc : ℕ → ℕ
next_jst_midnight_utc day = day * day_ms - jst_offset_ms

unfoldable pub get_next_jst_midnight_utc : ℕ → ℕ
get_next_jst_midnight_utc now =
    let today_midnight = next_jst_midnight_utc (to_jst_day now) in
    let tomorrow_jst = (to_jst_day now + 1) * day_ms + jst_offset_ms in
    if ltb now today_midnight then today_midnight else next_jst_midnight_utc (tomorrow_jst / day_ms)

abbrev pub digit_char : ℕ → Char
digit_char n =
    if n == 0
    then char 48 tt
    else if n == 1
    then char 49 tt
    else if n == 2
    then char 50 tt
    else if n == 3
    then char 51 tt
    else if n == 4
    then char 52 tt
    else if n == 5
    then char 53 tt
    else if n == 6
    then char 54 tt
    else if n == 7
    then char 55 tt
    else if n == 8
    then char 56 tt
    else char 57 tt

abbrev pub dash : Char
dash = char 45 tt

-- `pad` in src/features/birthday-role/handler.ts for a number of at most that many digits, written in
-- front of a text
unfoldable pub pad : ℕ → ℕ → String → String
pad zero value text = text
pad (suc width) value text = pad width (value / 10) (cons_char (digit_char (value % 10)) text)

-- `canonical` there
unfoldable pub canonical : JstDate → String
canonical d = pad 4 d.year (cons_char dash (pad 2 d.month (cons_char dash (pad 2 d.day empty))))

-- ===== src/Reminder/Duration.antt =====
-- src/features/reminder/duration.ts. A text is the list of its characters, of which only digits and
-- units are told apart; it has been trimmed and lowered. The numbers are whole and exact.
pub mod Digits
pub mod RoundTrip
use ido_bata_server_bot.Prelude.{
  ℕ, zero, suc, ◌+◌, ◌-◌, ◌*◌, ◌/◌, ◌%◌, Bool, true, false, not, ◌||◌, Option, none, some, List, [],
  ◌∷◌, ◌++◌, if◌then◌else◌, ◌==◌, ltb, length, is_none,
}

pub data TimeUnit : Type 0 where
  seconds minutes hours days : TimeUnit

abbrev pub unit_to_ms : TimeUnit → ℕ
unit_to_ms seconds = 1000
unit_to_ms minutes = 60000
unit_to_ms hours = 3600000
unit_to_ms days = 86400000

abbrev pub min_duration_ms : ℕ
min_duration_ms = 1000

pub data Character : Type 0 where
  digit : ℕ → Character
  unit_of : TimeUnit → Character
  other : Character

-- A part of a duration, such as `30m`.
abbrev pub Token : Type 0
Token = ℕ × TimeUnit

pub data DurationError : Type 0 where
  required malformed not_positive no_unit unsupported too_short : DurationError

-- `normalized` is the list of its parts.
pub data ParseDurationResult : Type 0 where
  parsed : ℕ → List Token → ParseDurationResult
  rejected : DurationError → ParseDurationResult

-- The rest of a match of `(\d+)([smhd])` whose digits so far have the given value.
unfoldable pub token_from : ℕ → List Character → Option (Token × List Character)
token_from value [] = none
token_from value (digit d ∷ text) = token_from (value * 10 + d) text
token_from value (unit_of u ∷ text) = some ((value, u), text)
token_from value (other ∷ text) = none

-- A match at the start of the text.
unfoldable pub next_token : List Character → Option (Token × List Character)
unfolding token_from
next_token (digit d ∷ text) = token_from 0 (digit d ∷ text)
next_token text = none

-- A match anywhere.
unfoldable pub has_token : List Character → Bool
unfolding next_token
has_token [] = false
has_token (c ∷ text) = not (is_none (next_token (c ∷ text))) || has_token text

-- No match follows the last one directly; `text` is what is left.
unfoldable pub finish : ℕ → List Token → List Character → ParseDurationResult
unfolding has_token
finish total parts text =
    if has_token text
    then rejected malformed
    else if total == 0
    then rejected no_unit
    else if not (length text == 0)
    then rejected unsupported
    else if ltb total min_duration_ms
    then rejected too_short
    else parsed total parts

-- The loop over the matches, on fuel.
unfoldable pub parse_tokens : ℕ → ℕ → List Token → List Character → ParseDurationResult
unfolding next_token finish
parse_tokens zero total parts text = finish total parts text
parse_tokens (suc fuel) total parts text = elim (next_token text) [
  | none ↦ finish total parts text
  | some ((value, u), rest) ↦
      if value == 0
      then rejected not_positive
      else parse_tokens fuel (total + value * unit_to_ms u) (parts ++ (value, u) ∷ []) rest
]

unfoldable pub parse_duration : List Character → ParseDurationResult
unfolding parse_tokens
parse_duration [] = rejected required
parse_duration text = parse_tokens (length text) 0 [] text

-- The decimal digits of a number, on fuel.
unfoldable pub digits : ℕ → ℕ → List Character
digits zero n = []
digits (suc fuel) n =
    let front = digits fuel (n / 10) in
    if ltb n 10 then digit n ∷ [] else front ++ digit (n % 10) ∷ []

abbrev pub show : ℕ → List Character
show n = digits (suc n) n

unfoldable pub write_token : Token → List Character
unfolding digits
write_token (value, u) = show value ++ unit_of u ∷ []

unfoldable pub write_tokens : List Token → List Character
unfolding write_token
write_tokens [] = []
write_tokens (t ∷ ts) = write_token t ++ write_tokens ts

-- The parts from one unit on: what is left goes to the smaller units.
unfoldable pub split_duration : List TimeUnit → ℕ → List Token
split_duration [] remaining = []
split_duration (u ∷ us) remaining =
    let count = remaining / unit_to_ms u in
    let rest = split_duration us (remaining - count * unit_to_ms u) in
    if count == 0 then rest else (count, u) ∷ rest

abbrev pub all_units : List TimeUnit
all_units = days ∷ hours ∷ minutes ∷ seconds ∷ []

-- `Math.round(durationMs / 1000)`, for a duration without a whole second
abbrev rounded_seconds : ℕ → ℕ
rounded_seconds duration_ms = (duration_ms + 500) / 1000

unfoldable pub write_parts : ℕ → List Token → List Character
unfolding write_tokens
write_parts duration_ms [] =
    if duration_ms == 0
    then write_token (0, seconds)
    else write_token (rounded_seconds duration_ms, seconds)
write_parts duration_ms (t ∷ ts) = write_tokens (t ∷ ts)

unfoldable pub format_duration : ℕ → List Character
unfolding split_duration write_parts
format_duration duration_ms =
    write_parts duration_ms (split_duration all_units (duration_ms / 1000 * 1000))

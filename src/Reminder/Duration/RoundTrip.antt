-- ===== src/Reminder/Duration/RoundTrip.antt =====
-- A duration that was formatted is parsed as the duration it was.
use ido_bata_server_bot.Prelude.{
  ℕ, zero, suc, ◌+◌, ◌-◌, ◌*◌, ◌/◌, ◌≤◌, ◌≡◌, refl, sym, ap, ◌∙◌, false, some, List, [], ◌∷◌, ◌++◌,
  if◌then◌else◌, ◌==◌, length, length-append, append_assoc, append-nil, arith, if-intro, All,
}
use ido_bata_server_bot.Reminder.Duration.{
  TimeUnit, seconds, minutes, hours, days, unit_to_ms, Character, unit_of, Token, parsed,
  next_token, has_token, finish, parse_tokens, parse_duration, show, write_token, write_tokens,
  write_parts, split_duration, all_units, format_duration,
}
use ido_bata_server_bot.Reminder.Duration.Digits.{next_token-write_token, show_nonempty}

-- The length of a duration in parts.
abbrev pub total_ms : List Token → ℕ
total_ms [] = 0
total_ms (t ∷ ts) = t.0 * unit_to_ms t.1 + total_ms ts

abbrev IsPositive : Token → Type 0
IsPositive t = (t.0 == 0) ≡ false

finish_end :
    (total : ℕ) (parts : List Token) → finish total parts [] ≡ finish (total + 0) (parts ++ []) []
finish_end total parts =
    ap (λ t. finish t parts []) (omega arith)
    ∙ ap (λ p. finish (total + 0) p []) (sym (append-nil parts))

parse_tokens-step :
    (fuel total : ℕ) (parts : List Token) (t : Token) (text rest : List Character)
    → next_token text ≡ some (t, rest)
    → (t.0 == 0) ≡ false
    → parse_tokens (suc fuel) total parts text
      ≡ parse_tokens fuel (total + t.0 * unit_to_ms t.1) (parts ++ t ∷ []) rest
unfolding parse_tokens
parse_tokens-step fuel total parts t text rest found positive = ground arith

parse_tokens-write_tokens :
    (fuel total : ℕ) (parts ts : List Token)
    → length ts ≤ fuel
    → All IsPositive ts
    → parse_tokens fuel total parts (write_tokens ts)
      ≡ finish (total + total_ms ts) (parts ++ ts) []
unfolding write_tokens parse_tokens next_token
parse_tokens-write_tokens zero total parts [] l h = finish_end total parts
parse_tokens-write_tokens (suc fuel) total parts [] l h = finish_end total parts
parse_tokens-write_tokens zero total parts (t ∷ ts) l h = absurd (omega arith)
parse_tokens-write_tokens (suc fuel) total parts (t ∷ ts) l h =
    parse_tokens-step fuel total parts t (write_token t ++ write_tokens ts) (write_tokens ts)
      (next_token-write_token t (write_tokens ts)) h.0
    ∙ parse_tokens-write_tokens fuel (total + t.0 * unit_to_ms t.1) (parts ++ t ∷ []) ts
        (omega arith) h.1
    ∙ ap (λ n. finish n ((parts ++ t ∷ []) ++ ts) [])
        {x = total + t.0 * unit_to_ms t.1 + total_ms ts} {y = total + total_ms (t ∷ ts)}
        (omega arith)
    ∙ ap (λ p. finish (total + total_ms (t ∷ ts)) p []) (append_assoc parts (t ∷ []) ts)

length-write_tokens : (ts : List Token) → length ts ≤ length (write_tokens ts)
unfolding write_tokens write_token
length-write_tokens [] = omega arith
length-write_tokens ((n, u) ∷ ts) = omega (
  arith,
  length-write_tokens ts,
  show_nonempty n,
  length-append (show n ++ unit_of u ∷ []) (write_tokens ts),
  length-append (show n) (unit_of u ∷ []),
)

split_duration-IsPositive : (us : List TimeUnit) (n : ℕ) → All IsPositive (split_duration us n)
unfolding split_duration
split_duration-IsPositive [] n = tt
split_duration-IsPositive (u ∷ us) n =
    let rest = split_duration-IsPositive us (n - n / unit_to_ms u * unit_to_ms u) in
    if-intro (All IsPositive) (n / unit_to_ms u == 0) (λ _. rest) (λ h. (h, rest))

total_ms-cons_if :
    (count : ℕ) (u : TimeUnit) (rest : List Token)
    → total_ms (if count == 0 then rest else (count, u) ∷ rest)
      ≡ count * unit_to_ms u + total_ms rest
total_ms-cons_if count u rest =
    if-intro (λ (ts : List Token). total_ms ts ≡ count * unit_to_ms u + total_ms rest) (count == 0)
      (λ h. let zero_count : count ≡ 0 = ground arith in rw zero_count (omega arith)) (λ _. refl)

total_ms-split_duration :
    (u : TimeUnit) (us : List TimeUnit) (n : ℕ)
    → total_ms (split_duration (u ∷ us) n)
      ≡ n / unit_to_ms u * unit_to_ms u
        + total_ms (split_duration us (n - n / unit_to_ms u * unit_to_ms u))
unfolding split_duration
total_ms-split_duration u us n =
    total_ms-cons_if (n / unit_to_ms u) u (split_duration us (n - n / unit_to_ms u * unit_to_ms u))

whole_seconds :
    (s : ℕ)
    → let n0 = s * 1000 in
      let n1 = n0 - n0 / 86400000 * 86400000 in
      let n2 = n1 - n1 / 3600000 * 3600000 in
      let n3 = n2 - n2 / 60000 * 60000 in
      n0 / 86400000 * 86400000
        + (n1 / 3600000 * 3600000 + (n2 / 60000 * 60000 + (n3 / 1000 * 1000 + 0)))
      ≡ s * 1000
whole_seconds s = omega arith

-- The four units leave nothing of whole seconds.
total_ms-all_units : (s : ℕ) → total_ms (split_duration all_units (s * 1000)) ≡ s * 1000
unfolding split_duration
total_ms-all_units s =
    let n0 = s * 1000 in
    let n1 = n0 - n0 / 86400000 * 86400000 in
    let n2 = n1 - n1 / 3600000 * 3600000 in
    let n3 = n2 - n2 / 60000 * 60000 in
    total_ms-split_duration days (hours ∷ minutes ∷ seconds ∷ []) n0
    ∙ ap (λ t. n0 / 86400000 * 86400000 + t)
        (total_ms-split_duration hours (minutes ∷ seconds ∷ []) n1
          ∙ ap (λ t. n1 / 3600000 * 3600000 + t)
              (total_ms-split_duration minutes (seconds ∷ []) n2
                ∙ ap (λ t. n2 / 60000 * 60000 + t) (total_ms-split_duration seconds [] n3)))
    ∙ whole_seconds s

write_parts-some : (n : ℕ) (ts : List Token) → 1 ≤ length ts → write_parts n ts ≡ write_tokens ts
unfolding write_parts
write_parts-some n [] h = absurd (omega arith)
write_parts-some n (t ∷ ts) h = refl

parse_duration-some :
    (text : List Character)
    → 1 ≤ length text
    → parse_duration text ≡ parse_tokens (length text) 0 [] text
unfolding parse_duration
parse_duration-some [] h = absurd (omega arith)
parse_duration-some (c ∷ text) h = refl

length-total_ms : (ts : List Token) → 1 ≤ total_ms ts → 1 ≤ length ts
length-total_ms [] h = h
length-total_ms (t ∷ ts) h = omega arith

finish-parsed :
    (total : ℕ) (parts : List Token) → 1000 ≤ total → finish total parts [] ≡ parsed total parts
unfolding finish has_token
finish-parsed total parts h = ground arith

-- What is written of some parts is parsed as them, if they make up a second or more and none is of
-- nothing.
pub parse_duration-write_tokens :
    (ts : List Token)
    → All IsPositive ts
    → 1000 ≤ total_ms ts
    → parse_duration (write_tokens ts) ≡ parsed (total_ms ts) ts
parse_duration-write_tokens ts h l =
    let some_text : 1 ≤ length (write_tokens ts) =
      omega (arith, length-total_ms ts (omega arith), length-write_tokens ts) in
    parse_duration-some (write_tokens ts) some_text
    ∙ parse_tokens-write_tokens (length (write_tokens ts)) 0 [] ts (length-write_tokens ts) h
    ∙ ap (λ t. finish t ts []) {x = 0 + total_ms ts} {y = total_ms ts} (omega arith)
    ∙ finish-parsed (total_ms ts) ts l

-- A duration of a second or more that was formatted is parsed as its whole seconds, with the parts
-- that were written.
pub parse_duration-format_duration :
    (n : ℕ)
    → 1000 ≤ n
    → parse_duration (format_duration n)
      ≡ parsed (n / 1000 * 1000) (split_duration all_units (n / 1000 * 1000))
unfolding format_duration
parse_duration-format_duration n h =
    let ts = split_duration all_units (n / 1000 * 1000) in
    let total = total_ms-all_units (n / 1000) in
    let large : 1000 ≤ total_ms ts = omega (arith, total) in
    ap parse_duration (write_parts-some n ts (length-total_ms ts (omega arith)))
    ∙ parse_duration-write_tokens ts (split_duration-IsPositive all_units (n / 1000 * 1000)) large
    ∙ ap (λ t. parsed t ts) total

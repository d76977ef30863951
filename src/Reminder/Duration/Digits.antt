-- ===== src/Reminder/Duration/Digits.antt =====
-- A number that was written in decimal digits is read as the number it was.
use ido_bata_server_bot.Prelude.{
  ℕ, zero, suc, ◌+◌, ◌*◌, ◌/◌, ◌%◌, ◌≤◌, ◌<◌, ◌≡◌, refl, ap, ◌∙◌, false, some, List, [], ◌∷◌, ◌++◌,
  ltb, length, length-append, append_assoc, arith, if-intro, All, All-append,
}
use ido_bata_server_bot.Reminder.Duration.{
  TimeUnit, Character, digit, unit_of, other, Token, token_from, next_token, digits, show,
  write_token,
}

-- The value of digits behind those of `value`.
abbrev value_of : ℕ → List Character → ℕ
value_of value [] = value
value_of value (digit d ∷ text) = value_of (value * 10 + d) text
value_of value (unit_of _ ∷ text) = value_of value text
value_of value (other ∷ text) = value_of value text

abbrev IsDigit : Character → Type 0
IsDigit (digit _) = Unit
IsDigit (unit_of _) = ⊥
IsDigit other = ⊥

token_from-digits :
    (value : ℕ) (ds : List Character) (u : TimeUnit) (rest : List Character)
    → All IsDigit ds
    → token_from value (ds ++ unit_of u ∷ rest) ≡ some ((value_of value ds, u), rest)
unfolding token_from
token_from-digits value [] u rest h = refl
token_from-digits value (digit d ∷ ds) u rest h = token_from-digits (value * 10 + d) ds u rest h.1
token_from-digits value (unit_of _ ∷ ds) u rest h = absurd h.0
token_from-digits value (other ∷ ds) u rest h = absurd h.0

value_of-append :
    (value d : ℕ) (ds : List Character)
    → value_of value (ds ++ digit d ∷ []) ≡ value_of value ds * 10 + d
value_of-append value d [] = refl
value_of-append value d (digit e ∷ ds) = value_of-append (value * 10 + e) d ds
value_of-append value d (unit_of _ ∷ ds) = value_of-append value d ds
value_of-append value d (other ∷ ds) = value_of-append value d ds

front_small : (fuel n : ℕ) → n < suc fuel → ltb n 10 ≡ false → n / 10 < fuel
front_small fuel n h big = ground arith

value_of-digits : (fuel n : ℕ) → n < fuel → value_of 0 (digits fuel n) ≡ n
unfolding digits
value_of-digits zero n h = absurd (omega arith)
value_of-digits (suc fuel) n h =
    if-intro (λ (ds : List Character). value_of 0 ds ≡ n) (ltb n 10) (λ _. omega arith)
      (λ big.
        value_of-append 0 (n % 10) (digits fuel (n / 10))
        ∙ omega (arith, value_of-digits fuel (n / 10) (front_small fuel n h big)))

All-digits : (fuel n : ℕ) → All IsDigit (digits fuel n)
unfolding digits
All-digits zero n = tt
All-digits (suc fuel) n =
    if-intro (All IsDigit) (ltb n 10) (λ _. (tt, tt))
      (λ _.
        All-append IsDigit (digits fuel (n / 10)) (digit (n % 10) ∷ []) (All-digits fuel (n / 10))
          (tt, tt))

pub show_nonempty : (n : ℕ) → 1 ≤ length (show n)
unfolding digits
show_nonempty n =
    if-intro (λ (ds : List Character). 1 ≤ length ds) (ltb n 10) (λ _. omega arith)
      (λ _. omega (arith, length-append (digits n (n / 10)) (digit (n % 10) ∷ [])))

next_token-digits :
    (ds : List Character) (u : TimeUnit) (rest : List Character)
    → 1 ≤ length ds
    → All IsDigit ds
    → next_token (ds ++ unit_of u ∷ rest) ≡ some ((value_of 0 ds, u), rest)
unfolding next_token
next_token-digits [] u rest l h = absurd (omega arith)
next_token-digits (digit d ∷ ds) u rest l h = token_from-digits 0 (digit d ∷ ds) u rest h
next_token-digits (unit_of _ ∷ ds) u rest l h = absurd h.0
next_token-digits (other ∷ ds) u rest l h = absurd h.0

pub next_token-write_token :
    (t : Token) (rest : List Character) → next_token (write_token t ++ rest) ≡ some (t, rest)
unfolding write_token
next_token-write_token (n, u) rest =
    ap next_token (append_assoc (show n) (unit_of u ∷ []) rest)
    ∙ next_token-digits (show n) u rest (show_nonempty n) (All-digits (suc n) n)
    ∙ ap (λ v. some ((v, u), rest)) (value_of-digits (suc n) n (omega arith))

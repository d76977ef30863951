-- ===== src/Birthday/Date/RoundTrip.antt =====
-- The text that the registration stores is read as the day it was written from.
use Prim.Native.String.{[] as empty, ◌∷◌ as cons_char}
use ido_bata_server_bot.Prelude.{
  ◌≡◌, refl, ap, ◌∙◌, ℕ, zero, suc, ◌+◌, ◌*◌, ◌/◌, ◌%◌, ◌<◌, Option, some, none, String, arith,
}
use ido_bata_server_bot.Birthday.Date.{
  JstDate, read_digits, read_dash, digit_of, digit_char, dash, pad, canonical, match_date,
  parse_birthday_date, check_date,
}
use ido_bata_server_bot.Birthday.Date.Laws.{IsDay, days_in_month_range, check_date-some}

digit_of-digit_char : (d : ℕ) → d < 10 → digit_of (digit_char d) ≡ some d
unfolding digit_of
digit_of-digit_char zero h = refl
digit_of-digit_char (suc zero) h = refl
digit_of-digit_char (suc (suc zero)) h = refl
digit_of-digit_char (suc (suc (suc zero))) h = refl
digit_of-digit_char (suc (suc (suc (suc zero)))) h = refl
digit_of-digit_char (suc (suc (suc (suc (suc zero))))) h = refl
digit_of-digit_char (suc (suc (suc (suc (suc (suc zero)))))) h = refl
digit_of-digit_char (suc (suc (suc (suc (suc (suc (suc zero))))))) h = refl
digit_of-digit_char (suc (suc (suc (suc (suc (suc (suc (suc zero)))))))) h = refl
digit_of-digit_char (suc (suc (suc (suc (suc (suc (suc (suc (suc zero))))))))) h = refl
digit_of-digit_char (suc (suc (suc (suc (suc (suc (suc (suc (suc (suc d)))))))))) h =
    absurd (omega arith)

read_digits-digit_char :
    (n value d : ℕ) (text : String)
    → d < 10
    → read_digits (suc n) value (cons_char (digit_char d) text)
      ≡ read_digits n (value * 10 + d) text
unfolding read_digits
read_digits-digit_char n value d text h =
    ap (λ (o : Option ℕ). elim o [ none ↦ none | some x ↦ read_digits n (value * 10 + x) text ])
      (digit_of-digit_char d h)

read_end : (value v : ℕ) (t : String) → value ≡ v → read_digits 0 value t ≡ some (v, t)
unfolding read_digits
read_end value v t h = ap (λ (x : ℕ). some (x, t)) h

two_digits : (v : ℕ) (t : String) → v < 100 → read_digits 2 0 (pad 2 v t) ≡ some (v, t)
unfolding pad
two_digits v t h =
    read_digits-digit_char 1 0 (v / 10 % 10) _ (omega arith)
    ∙ read_digits-digit_char 0 _ (v % 10) t (omega arith)
    ∙ read_end _ v t (omega arith)

four_digits : (v : ℕ) (t : String) → v < 10000 → read_digits 4 0 (pad 4 v t) ≡ some (v, t)
unfolding pad
four_digits v t h =
    read_digits-digit_char 3 0 (v / 10 / 10 / 10 % 10) _ (omega arith)
    ∙ read_digits-digit_char 2 _ (v / 10 / 10 % 10) _ (omega arith)
    ∙ read_digits-digit_char 1 _ (v / 10 % 10) _ (omega arith)
    ∙ read_digits-digit_char 0 _ (v % 10) t (omega arith)
    ∙ read_end _ v t (omega arith)

below : (d : JstDate) → IsDay d → (d.month < 100) × (d.day < 100)
below d h = (omega (arith, h.month), omega (arith, h.day, days_in_month_range d.year d.month))

match_date-canonical :
    (y m x : ℕ) (t1 t2 t3 : String)
    → read_digits 4 0 t1 ≡ some (y, cons_char dash t2)
    → read_digits 2 0 t2 ≡ some (m, cons_char dash t3)
    → read_digits 2 0 t3 ≡ some (x, empty)
    → match_date t1 ≡ some (y, m, x)
unfolding match_date read_dash
match_date-canonical y m x t1 t2 t3 h k l = rw (match_date, h, k, l) refl

-- The text of a day of a year from 100 to 9999 is read as that day.
pub parse_birthday_date-canonical :
    (d : JstDate) → IsDay d → d.year < 10000 → parse_birthday_date (canonical d) ≡ some d
unfolding parse_birthday_date canonical
parse_birthday_date-canonical d h k =
    ap (λ (o : Option (ℕ × ℕ × ℕ)). elim o [ none ↦ none | some r ↦ check_date r ])
      (match_date-canonical d.year d.month d.day _ _ _ (four_digits d.year _ k)
        (two_digits d.month _ (below d h).0) (two_digits d.day empty (below d h).1))
    ∙ check_date-some d h

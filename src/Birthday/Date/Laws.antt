-- ===== src/Birthday/Date/Laws.antt =====
-- Midnights and days of the calendar.
use ido_bata_server_bot.Prelude.{
  ◌≡◌, refl, ℕ, suc, ◌+◌, ◌-◌, ◌%◌, ◌<◌, ◌≤◌, some, true, false, arith, if-intro, ltb, ◌==◌, ◌&&◌,
  ◌||◌, ◌∙◌, ltb→lt,
}
use ido_bata_server_bot.Birthday.Date.{
  JstDate, days_in_month, utc_date, check_date, previous_jst_date, day_ms, jst_offset_ms,
  to_jst_day, next_jst_midnight_utc, get_next_jst_midnight_utc,
}

-- The next midnight of Japan lies behind the present, by a day at most.
pub get_next_jst_midnight_utc_lem :
    (now : ℕ)
    → (now < get_next_jst_midnight_utc now)
      × (get_next_jst_midnight_utc now ≤ now + day_ms)
      × ((get_next_jst_midnight_utc now + jst_offset_ms) % day_ms ≡ 0)
unfolding get_next_jst_midnight_utc to_jst_day next_jst_midnight_utc
get_next_jst_midnight_utc_lem now = ground arith

-- What the check of the calendar lets through.
pub record IsDay (d : JstDate) : Type 0 where
  pub year : 100 ≤ d.year
  pub month : (1 ≤ d.month) × (d.month ≤ 12)
  pub day : (1 ≤ d.day) × (d.day ≤ days_in_month d.year d.month)

utc_date_inside :
    (y m x : ℕ)
    → 100 ≤ y
    → x ≤ days_in_month y m
    → utc_date y m x ≡ record { year = y; month = m; day = x }
unfolding utc_date
utc_date_inside y m x h k = ground arith

december : (y : ℕ) → days_in_month y 12 ≡ 31
unfolding days_in_month
december y = refl

pub days_in_month_range : (y m : ℕ) → (28 ≤ days_in_month y m) × (days_in_month y m ≤ 31)
unfolding days_in_month
days_in_month_range y m = ground arith

utc_date_outside :
    (y m : ℕ)
    → 100 ≤ y
    → m < 12
    → utc_date y m (suc (days_in_month y m)) ≡ record { year = y; month = suc m; day = 1 }
unfolding utc_date
utc_date_outside y m h k = ground arith

in_range :
    (d : JstDate)
    → IsDay d
    → (ltb d.month 1 || ltb 12 d.month || ltb d.day 1 || ltb 31 d.day) ≡ false
in_range d h = ground (arith, h.month, h.day, days_in_month_range d.year d.month)

same_fields : (d : JstDate) → (d.year == d.year && d.month == d.month && d.day == d.day) ≡ true
same_fields d = ground arith

pub check_date-some : (d : JstDate) → IsDay d → check_date (d.year, d.month, d.day) ≡ some d
unfolding check_date
check_date-some d h =
    rw (utc_date_inside d.year d.month d.day h.year h.day.1)
      (rw (in_range d h) (rw (same_fields d) refl))

same_day : (d e : JstDate) → d.year ≡ e.year → d.month ≡ e.month → d.day ≡ e.day → d ≡ e
same_day d e h k l = cc

january : (y : ℕ) → 100 ≤ y → utc_date y 12 32 ≡ record { year = suc y; month = 1; day = 1 }
unfolding utc_date
january y h = ground (arith, december y)

-- The day behind the day before is the day, back to the year 101.
pub utc_date-previous_jst_date :
    (d : JstDate)
    → IsDay d
    → 100 < d.year
    → (let p = previous_jst_date d in utc_date p.year p.month (suc p.day)) ≡ d
unfolding previous_jst_date
utc_date-previous_jst_date d h k =
    if-intro (λ (p : JstDate). utc_date p.year p.month (suc p.day) ≡ d) (ltb 1 d.day)
      (λ a.
        utc_date_inside d.year d.month (suc (d.day - 1)) h.year
          (omega (arith, h.day, ltb→lt 1 d.day a))
        ∙ same_day _ d refl refl (omega (arith, h.day)))
      (λ b.
        if-intro (λ (p : JstDate). utc_date p.year p.month (suc p.day) ≡ d) (ltb 1 d.month)
          (λ c.
            utc_date_outside d.year (d.month - 1) h.year (omega (arith, h.month))
            ∙ same_day _ d refl (omega (arith, h.month, ltb→lt 1 d.month c))
                (ground (arith, h.day)))
          (λ c.
            january (d.year - 1) (omega arith)
            ∙ same_day _ d (omega arith) (ground (arith, h.month)) (ground (arith, h.day))))

-- ===== src/Tables/Time/Calendar.antt =====
-- The civil calendar of package time: `date` counts the seconds of the days before.
use amcache.Base.{
  ℕ, zero, suc, ◌+◌, ◌-◌, ◌*◌, ◌≤◌, ◌≡◌, refl, ltb, if◌then◌else◌, arith, inl, inr, Bool-cases, ap,
}
use native.Mathlib.Numerals.{unary_clauses}
use amcache.Tables.Time.{Fields, is_leap, days_in, days_before_year, days_before_month, date}
use amcache.Tables.Time.Printed.{IsTime}

-- The day after, by the lengths of the months.
abbrev pub next_day : Fields → Fields
next_day f =
    if ltb f.days (days_in f.months f.years)
    then record f { days = suc f.days }
    else if ltb f.months 12
    then record f { days = 1; months = suc f.months }
    else record f { days = 1; months = 1; years = suc f.years }

days_before_year-suc :
    (y : ℕ) → days_before_year (suc y) ≡ days_before_year y + 365 + (if is_leap y then 1 else 0)
unfolding days_before_year is_leap
days_before_year-suc y = ground arith

days_before_month-zero : (y : ℕ) → days_before_month 0 y ≡ 0
unfolding days_before_month
days_before_month-zero y = refl

days_before_month-all : (y : ℕ) → days_before_month 12 y ≡ 365 + (if is_leap y then 1 else 0)
unfolding days_before_month days_in
days_before_month-all y = ground arith

days_before_month-next :
    (m y : ℕ) → 1 ≤ m → days_before_month m y ≡ days_before_month (m - 1) y + days_in m y
unfolding days_before_month
days_before_month-next zero y h = absurd (omega (arith, h))
days_before_month-next (suc m) y h = simp unary_clauses refl

days_in-some : (m y : ℕ) → 1 ≤ days_in m y
unfolding days_in
days_in-some m y = ground arith

-- The days from the start of the year 0 on.
abbrev pub day_number : ℕ → ℕ → ℕ → ℕ
day_number y m d = days_before_year y + days_before_month (m - 1) y + (d - 1)

pub date-seconds :
    (f : Fields)
    → (date f).seconds
      ≡ day_number f.years f.months f.days * 86400 + f.hours * 3600 + f.minutes * 60 + f.secs
unfolding date
date-seconds f = refl

day_number-month : (y m : ℕ) → 1 ≤ m → day_number y (suc m) 1 ≡ day_number y m (days_in m y) + 1
day_number-month y m h =
    let back : suc m - 1 ≡ m = omega arith in
    omega
      (arith, ap (λ k. days_before_month k y) back, days_before_month-next m y h, days_in-some m y)

day_number-year : (y : ℕ) → day_number (suc y) 1 1 ≡ day_number y 12 (days_in 12 y) + 1
day_number-year y =
    let none_before : days_before_month 0 (suc y) ≡ 0 = days_before_month-zero (suc y) in
    omega (
      arith,
      none_before,
      days_before_month-next 12 y (omega arith),
      days_in-some 12 y,
      days_before_month-all y,
      days_before_year-suc y,
    )

-- The number of the day after is one more.
pub day_number-next_day :
    (f : Fields)
    → IsTime f
    → day_number (next_day f).years (next_day f).months (next_day f).days
      ≡ day_number f.years f.months f.days + 1
day_number-next_day f t = elim (Bool-cases (ltb f.days (days_in f.months f.years))) [
  | inl e ↦ rw e (omega (arith, t.day_some))
  | inr e ↦
      let last : f.days ≡ days_in f.months f.years = ground (arith, t.day_small, e) in
      elim (Bool-cases (ltb f.months 12)) [
        | inl k ↦ rw (e, k, last) (day_number-month f.years f.months t.month_some)
        | inr k ↦
            let december : f.months ≡ 12 = ground (arith, t.month_small, k) in
            rw (e, k, last, december) (day_number-year f.years)
      ]
]

pub next_day-clock :
    (f : Fields)
    → ((next_day f).hours ≡ f.hours)
      × ((next_day f).minutes ≡ f.minutes)
      × ((next_day f).secs ≡ f.secs)
next_day-clock f = ground arith

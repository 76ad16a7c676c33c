-- ===== src/Tables/Time/Printed.antt =====
-- Dates as they are written in the layouts of the date ladder.
use amcache.Base.{
  ℕ, ◌+◌, ◌/◌, ◌%◌, ◌≤◌, ◌<◌, Bool, true, ◌||◌, List, [], ◌∷◌, ◌++◌, if◌then◌else◌, leb,
}
use amcache.Base.Text.{Text}
use amcache.Tables.Time.{
  Chunk, month, day, year, hour, minute, second, blank, mark, Fields, days_in,
}

abbrev pub digit : ℕ → ℕ
digit n = b'0' + n

-- One digit or two, as a number below 100 is written with a leading zero or without.
abbrev pub written : Bool → ℕ → Text
written padded n = if padded || leb 10 n then digit (n / 10) ∷ digit (n % 10) ∷ [] else digit n ∷ []

-- One element of a layout, as text.
abbrev pub print_chunk : Bool → Chunk → Fields → Text
print_chunk padded month f = written padded f.months
print_chunk padded day f = written padded f.days
print_chunk padded year f =
    digit (f.years / 1000)
    ∷ digit (f.years / 100 % 10)
    ∷ digit (f.years / 10 % 10)
    ∷ digit (f.years % 10)
    ∷ []
print_chunk padded hour f = written padded f.hours
print_chunk padded minute f = written true f.minutes
print_chunk padded second f = written true f.secs
print_chunk padded blank f = b' ' ∷ []
print_chunk padded (mark m) f = m ∷ []

abbrev pub print_chunks : Bool → List Chunk → Fields → Text
print_chunks padded [] f = []
print_chunks padded (chunk ∷ layout) f = print_chunk padded chunk f ++ print_chunks padded layout f

-- What a layout has of the fields; the rest stays as it is.
abbrev pub take_chunk : Chunk → Fields → Fields → Fields
take_chunk month f g = record g { months = f.months }
take_chunk day f g = record g { days = f.days }
take_chunk year f g = record g { years = f.years }
take_chunk hour f g = record g { hours = f.hours }
take_chunk minute f g = record g { minutes = f.minutes }
take_chunk second f g = record g { secs = f.secs; nanos = 0 }
take_chunk blank f g = g
take_chunk (mark m) f g = g

abbrev pub take_chunks : List Chunk → Fields → Fields → Fields
take_chunks [] f g = g
take_chunks (chunk ∷ layout) f g = take_chunks layout f (take_chunk chunk f g)

-- The fields are in their ranges.
pub record IsTime (f : Fields) : Type 0 where
  pub year_small : f.years < 10000
  pub month_some : 1 ≤ f.months
  pub month_small : f.months ≤ 12
  pub day_some : 1 ≤ f.days
  pub day_small : f.days ≤ days_in f.months f.years
  pub hour_small : f.hours < 24
  pub minute_small : f.minutes < 60
  pub second_small : f.secs < 60

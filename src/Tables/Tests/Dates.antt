-- ===== src/Tables/Tests/Dates.antt =====
-- Dates at work: one written in a layout of the ladder, and the ends of a year and of February.
use amcache.Base.{ℕ, ◌+◌, ◌≡◌, refl, true, false, List, [], ◌∷◌, inl, inr, arith, some}
use amcache.Base.Text.{codes}
use amcache.Tables.Time.{
  Fields, Chunk, blank_fields, month, day, year, mark, date, days_in, decode_time, unix_epoch,
  plausible,
}
use amcache.Tables.Time.Printed.{IsTime, print_chunks, take_chunks}
use amcache.Tables.Time.Ladder.{answer, decode_time-print_chunks}
use amcache.Tables.Time.Calendar.{next_day}
use amcache.Tables.Decode.{format_int}
use amcache.Tables.Time.Days.{read_back, decode_time-next_day}
use amcache.Tables.Tests.{setting}

abbrev at_noon : Fields
at_noon = record {
  years = 2024;
  months = 2;
  days = 28;
  hours = 12;
  minutes = 5;
  secs = 9;
  nanos = 0;
}

at_noon-IsTime : IsTime at_noon
unfolding days_in
at_noon-IsTime = record {
  year_small = omega arith;
  month_some = omega arith;
  month_small = omega arith;
  day_some = omega arith;
  day_small = omega arith;
  hour_small = omega arith;
  minute_small = omega arith;
  second_small = omega arith;
}

abbrev with_dashes : List Chunk
with_dashes = month ∷ mark b'-' ∷ day ∷ mark b'-' ∷ year ∷ []

dashed_text : print_chunks false with_dashes at_noon ≡ codes "2-28-2024"
dashed_text = refl

dashed_answer : decode_time setting.horizon (codes "2-28-2024") ≡ some (codes "1709078400")
unfolding decode_time
dashed_answer = refl

decode_time-print_chunks_example :
    decode_time setting.horizon (print_chunks false with_dashes at_noon)
    ≡ answer setting.horizon (date (take_chunks with_dashes at_noon blank_fields))
decode_time-print_chunks_example =
    decode_time-print_chunks setting.horizon false with_dashes at_noon at_noon-IsTime
      (inr (inr (inl refl)))

next-IsTime : IsTime (next_day at_noon)
unfolding days_in
next-IsTime = record {
  year_small = omega arith;
  month_some = omega arith;
  month_small = omega arith;
  day_some = omega arith;
  day_small = omega arith;
  hour_small = omega arith;
  minute_small = omega arith;
  second_small = omega arith;
}

now_plausible : plausible setting.horizon (read_back at_noon with_dashes) ≡ true
unfolding plausible date
now_plausible = refl

next_plausible : plausible setting.horizon (read_back (next_day at_noon) with_dashes) ≡ true
unfolding plausible date days_in
next_plausible = refl

decode_time-next_day_example :
    (n : ℕ) × (decode_time setting.horizon (print_chunks false with_dashes at_noon)
      ≡ some (format_int n))
    × (decode_time setting.horizon (print_chunks false with_dashes (next_day at_noon))
        ≡ some (format_int (n + 86400)))
decode_time-next_day_example =
    decode_time-next_day setting.horizon false with_dashes at_noon at_noon-IsTime next-IsTime
      (inr (inr (inl refl))) now_plausible next_plausible

leap_day : (next_day at_noon ≡ record at_noon { days = 29 })
unfolding days_in
leap_day = refl

epoch : (date (record blank_fields { years = 1970 })).seconds ≡ unix_epoch
unfolding date
epoch = refl

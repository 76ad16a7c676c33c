-- ===== src/Tables/Time/Days.antt =====
-- The date ladder over the civil calendar: texts of consecutive days are a day apart.
use amcache.Base.{ℕ, ◌+◌, ◌-◌, ◌≡◌, refl, Bool, true, some, List, In, inl, inr, arith, ap, sym, ◌∙◌}
use mathlib.Core.Path.{subst}
use amcache.Tables.Decode.{format_int}
use amcache.Tables.Time.{
  Instant, Chunk, Fields, blank_fields, time_layouts, date, plausible, unix_epoch, decode_time,
}
use amcache.Tables.Time.Laws.{plausible-range}
use amcache.Tables.Time.Printed.{IsTime, print_chunks, take_chunks}
use amcache.Tables.Time.Ladder.{decode_time-print_chunks, slashed_clock, date_with, iso_date}
use amcache.Tables.Time.Calendar.{next_day, day_number-next_day, date-seconds, next_day-clock}

-- What a layout reads of the fields.
abbrev pub read_back : Fields → List Chunk → Instant
read_back f layout = date (take_chunks layout f blank_fields)

module _ (f : Fields) (t : IsTime f) where
  abbrev DayLater : List Chunk → Type 0
  DayLater layout = (read_back (next_day f) layout).seconds ≡ (read_back f layout).seconds + 86400

  slashed_clock-DayLater : DayLater slashed_clock
  slashed_clock-DayLater =
      let (h, m, s) = next_day-clock f in
      omega (
        arith,
        date-seconds (take_chunks slashed_clock (next_day f) blank_fields),
        date-seconds (take_chunks slashed_clock f blank_fields),
        day_number-next_day f t,
        h,
        m,
        s,
      )

  date_with-DayLater : (n : ℕ) → DayLater (date_with n)
  date_with-DayLater n = omega (
    arith,
    date-seconds (take_chunks (date_with n) (next_day f) blank_fields),
    date-seconds (take_chunks (date_with n) f blank_fields),
    day_number-next_day f t,
  )

  iso_date-DayLater : DayLater iso_date
  iso_date-DayLater = omega (
    arith,
    date-seconds (take_chunks iso_date (next_day f) blank_fields),
    date-seconds (take_chunks iso_date f blank_fields),
    day_number-next_day f t,
  )

  read_back-DayLater : (layout : List Chunk) → In layout time_layouts → DayLater layout
  read_back-DayLater layout (inl e) = subst DayLater (sym e) slashed_clock-DayLater
  read_back-DayLater layout (inr (inl e)) = subst DayLater (sym e) (date_with-DayLater b'/')
  read_back-DayLater layout (inr (inr (inl e))) = subst DayLater (sym e) (date_with-DayLater b'-')
  read_back-DayLater layout (inr (inr (inr (inl e)))) = subst DayLater (sym e) iso_date-DayLater
  read_back-DayLater layout (inr (inr (inr (inr e)))) = elim e [ ]

-- Written in the same layout, two consecutive days whose instants are plausible decode to numbers of
-- seconds that are 86400 apart, over the ends of months and years and the 29th of February.
pub decode_time-next_day :
    (horizon : Instant) (padded : Bool) (layout : List Chunk) (f : Fields)
    → IsTime f
    → IsTime (next_day f)
    → In layout time_layouts
    → plausible horizon (read_back f layout) ≡ true
    → plausible horizon (read_back (next_day f) layout) ≡ true
    → (n : ℕ) × (decode_time horizon (print_chunks padded layout f) ≡ some (format_int n))
      × (decode_time horizon (print_chunks padded layout (next_day f))
          ≡ some (format_int (n + 86400)))
decode_time-next_day horizon padded layout f t t' known p p' =
    let today = read_back f layout in
    let later = read_back-DayLater f t layout known in
    let (late, _) = plausible-range horizon today p in
    let apart : (read_back (next_day f) layout).seconds - unix_epoch
        ≡ today.seconds - unix_epoch + 86400 =
      omega (arith, later, late) in
    (
      today.seconds - unix_epoch,
      decode_time-print_chunks horizon padded layout f t known ∙ rw p refl,
      decode_time-print_chunks horizon padded layout (next_day f) t' known
          ∙ rw p' (ap (λ n. some (format_int n)) apart),
    )

-- ===== src/Tables/Time/Ladder.antt =====
-- The date ladder reads back a date that is written in one of its four layouts.
use amcache.Base.{
  ℕ, ◌-◌, ◌≡◌, refl, Bool, true, Option, none, some, List, [], ◌∷◌, ◌++◌, In, inl, inr,
  if◌then◌else◌, sym, ◌∙◌,
}
use mathlib.Core.Path.{subst}
use amcache.Base.Text.{Text}
use amcache.Tables.Decode.{format_int}
use amcache.Tables.Time.{
  Instant, Chunk, month, day, year, hour, minute, second, blank, mark, time_layouts, Fields,
  blank_fields, get_num, skip_blank, parse_chunk, parse_chunks, date, parse_in_utc, unix_epoch,
  plausible, decode_ladder, decode_time,
}
use amcache.Tables.Time.Printed.{written, print_chunks, take_chunks, IsTime}
use amcache.Tables.Time.Reading.{
  no_digit_ahead, joins, separated, parse_in_utc-print, ended-misfits, mark-misfits, year-misfits,
}

-- The ladder's answer for an instant: its seconds since 1970, unless it is implausible.
abbrev pub answer : Instant → Instant → Option Text
answer horizon t = if plausible horizon t then some (format_int (t.seconds - unix_epoch)) else none

abbrev after_month : ℕ → List Chunk
after_month m = day ∷ mark m ∷ year ∷ []

abbrev pub date_with : ℕ → List Chunk
date_with m = month ∷ mark m ∷ after_month m

abbrev clock_time : List Chunk
clock_time = blank ∷ hour ∷ mark b':' ∷ minute ∷ mark b':' ∷ second ∷ []

abbrev after_year : List Chunk
after_year = mark b'-' ∷ month ∷ mark b'-' ∷ day ∷ []

abbrev pub iso_date : List Chunk
iso_date = year ∷ after_year

module _ (horizon : Instant) (layout : List Chunk) (layouts : List (List Chunk)) (s : Text) where
  decode_ladder-misfit :
      parse_in_utc layout s ≡ none
      → decode_ladder horizon (layout ∷ layouts) s ≡ decode_ladder horizon layouts s
  unfolding decode_ladder
  decode_ladder-misfit e = rw (e, decode_ladder) refl

  decode_ladder-fit :
      (t : Instant)
      → parse_in_utc layout s ≡ some t
      → decode_ladder horizon (layout ∷ layouts) s ≡ answer horizon t
  unfolding decode_ladder
  decode_ladder-fit t e = rw (e, decode_ladder) refl

abbrev pub slashed_clock : List Chunk
slashed_clock = date_with b'/' ++ clock_time

abbrev from_iso : List (List Chunk)
from_iso = iso_date ∷ []

abbrev from_dashes : List (List Chunk)
from_dashes = date_with b'-' ∷ from_iso

abbrev from_slashes : List (List Chunk)
from_slashes = date_with b'/' ∷ from_dashes

module _ (horizon : Instant) (padded : Bool) (f : Fields) (t : IsTime f) where
  abbrev read_back : List Chunk → Instant
  read_back layout = date (take_chunks layout f blank_fields)

  abbrev Answers : List Chunk → Type 0
  Answers layout =
      decode_ladder horizon time_layouts (print_chunks padded layout f)
      ≡ answer horizon (read_back layout)

  fits :
      (layout : List Chunk) (layouts : List (List Chunk))
      → separated layout ≡ true
      → (take_chunks layout f blank_fields).days ≡ f.days
      → (take_chunks layout f blank_fields).months ≡ f.months
      → (take_chunks layout f blank_fields).years ≡ f.years
      → decode_ladder horizon (layout ∷ layouts) (print_chunks padded layout f)
        ≡ answer horizon (read_back layout)
  fits layout layouts h d m y =
      decode_ladder-fit horizon layout layouts (print_chunks padded layout f) (read_back layout)
        (parse_in_utc-print padded f t layout h d m y)

  skips :
      (layout written : List Chunk) (layouts : List (List Chunk))
      → parse_in_utc layout (print_chunks padded written f) ≡ none
      → decode_ladder horizon (layout ∷ layouts) (print_chunks padded written f)
        ≡ decode_ladder horizon layouts (print_chunks padded written f)
  skips layout written layouts =
      decode_ladder-misfit horizon layout layouts (print_chunks padded written f)

  slashed_clock-Answers : Answers slashed_clock
  unfolding separated joins no_digit_ahead
  slashed_clock-Answers = fits slashed_clock from_slashes refl refl refl refl

  slashed-Answers : Answers (date_with b'/')
  unfolding separated joins no_digit_ahead parse_chunks parse_chunk get_num skip_blank
  slashed-Answers =
      skips slashed_clock (date_with b'/') from_slashes
        (ended-misfits padded f t (date_with b'/') clock_time refl refl)
      ∙ fits (date_with b'/') from_dashes refl refl refl refl

  dashed-Answers : Answers (date_with b'-')
  unfolding separated joins no_digit_ahead
  dashed-Answers =
      skips slashed_clock (date_with b'-') from_slashes (
        mark-misfits padded f t b'/' b'-' (after_month b'/' ++ clock_time) (after_month b'-') refl
          refl)
      ∙ skips (date_with b'/') (date_with b'-') from_dashes
          (mark-misfits padded f t b'/' b'-' (after_month b'/') (after_month b'-') refl refl)
      ∙ fits (date_with b'-') from_iso refl refl refl refl

  iso_date-Answers : Answers iso_date
  unfolding separated joins no_digit_ahead
  iso_date-Answers =
      skips slashed_clock iso_date from_slashes
        (year-misfits padded f t b'/' (after_month b'/' ++ clock_time) after_year refl)
      ∙ skips (date_with b'/') iso_date from_dashes
          (year-misfits padded f t b'/' (after_month b'/') after_year refl)
      ∙ skips (date_with b'-') iso_date from_iso
          (year-misfits padded f t b'-' (after_month b'-') after_year refl)
      ∙ fits iso_date [] refl refl refl refl

-- A date that is written in one of the four layouts, with leading zeros or without, is read as the
-- fields that the layout has, whatever layouts stand before it on the ladder: `decodeTime` gives its
-- seconds since 1970 where that instant is plausible, and nothing where it is not.
pub decode_time-print_chunks :
    (horizon : Instant) (padded : Bool) (layout : List Chunk) (f : Fields)
    → IsTime f
    → In layout time_layouts
    → decode_time horizon (print_chunks padded layout f)
      ≡ answer horizon (date (take_chunks layout f blank_fields))
unfolding decode_time
decode_time-print_chunks horizon padded layout f t (inl e) =
    subst (Answers horizon padded f t) (sym e) (slashed_clock-Answers horizon padded f t)
decode_time-print_chunks horizon padded layout f t (inr (inl e)) =
    subst (Answers horizon padded f t) (sym e) (slashed-Answers horizon padded f t)
decode_time-print_chunks horizon padded layout f t (inr (inr (inl e))) =
    subst (Answers horizon padded f t) (sym e) (dashed-Answers horizon padded f t)
decode_time-print_chunks horizon padded layout f t (inr (inr (inr (inl e)))) =
    subst (Answers horizon padded f t) (sym e) (iso_date-Answers horizon padded f t)
decode_time-print_chunks horizon padded layout f t (inr (inr (inr (inr e)))) = elim e [ ]

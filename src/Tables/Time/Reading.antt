-- ===== src/Tables/Time/Reading.antt =====
-- `ParseInLocation` at a layout of the ladder: what is written in it is read back, and what is written
-- in another one is refused.
use amcache.Base.{
  ℕ, ◌+◌, ◌*◌, ◌/◌, ◌%◌, ◌≡◌, refl, Bool, true, false, ◌&&◌, not, none, some, List, [], ◌∷◌, ◌++◌,
  inl, inr, ◌==◌, arith, ap, sym, ◌∙◌, Bool-cases, and_left, and_right,
}
use mathlib.Core.List.{append-nil}
use amcache.Base.Text.{Text}
use amcache.Tables.Decode.{is_digit}
use amcache.Tables.Time.{
  Chunk, month, day, year, hour, minute, second, blank, mark, Fields, blank_fields, skip_blank,
  skip_spaces, parse_chunk, parse_chunks, date, parse_in_utc,
}
use amcache.Tables.Time.Printed.{
  written, print_chunk, print_chunks, take_chunk, take_chunks, IsTime,
}
use amcache.Tables.Time.Digits.{
  IsEnd, get_num-written, get_num-padded, get_num-two, skip_mark-digit, out_of_year,
  get_year-printed, days_in-small,
}

unfoldable pub no_digit_ahead : List Chunk → Bool
no_digit_ahead [] = true
no_digit_ahead (mark m ∷ layout) = not (is_digit m)
no_digit_ahead (blank ∷ layout) = true
no_digit_ahead _ = false

-- What may stand behind an element, so that it can be told where it ends.
unfoldable pub joins : Chunk → List Chunk → Bool
joins month layout = no_digit_ahead layout
joins day layout = no_digit_ahead layout
joins hour layout = no_digit_ahead layout
joins blank (hour ∷ layout) = true
joins blank _ = false
joins second [] = true
joins second _ = false
joins _ layout = true

unfoldable pub separated : List Chunk → Bool
separated [] = true
separated (chunk ∷ layout) = joins chunk layout && separated layout

module _ (padded : Bool) (f : Fields) (t : IsTime f) where
  ends-print_chunks :
      (layout : List Chunk) → no_digit_ahead layout ≡ true → IsEnd (print_chunks padded layout f)
  unfolding no_digit_ahead
  ends-print_chunks [] h = tt
  ends-print_chunks (mark m ∷ layout) h = ground arith
  ends-print_chunks (blank ∷ layout) h = refl
  ends-print_chunks _ h = cc

  parse_chunk-blank :
      (g : Fields) (s : Text)
      → parse_chunk blank g (b' ' ∷ (written padded f.hours ++ s))
        ≡ some (g, written padded f.hours ++ s)
  unfolding parse_chunk skip_blank skip_spaces
  parse_chunk-blank g s = ground (arith, t.hour_small)

  parse_chunk-print :
      (chunk : Chunk) (layout : List Chunk) (g : Fields)
      → joins chunk layout ≡ true
      → parse_chunk chunk g (print_chunk padded chunk f ++ print_chunks padded layout f)
        ≡ some (take_chunk chunk f g, print_chunks padded layout f)
  unfolding parse_chunk joins
  parse_chunk-print month layout g h =
      rw
        (get_num-written padded f.months (print_chunks padded layout f)
          (omega (arith, t.month_small)) (ends-print_chunks layout h))
        (ground (arith, t.month_some, t.month_small))
  parse_chunk-print day layout g h =
      rw
        (get_num-written padded f.days (print_chunks padded layout f)
          (omega (arith, t.day_small, days_in-small f.months f.years)) (ends-print_chunks layout h))
        refl
  parse_chunk-print year layout g h =
      rw (get_year-printed padded f (print_chunks padded layout f) t.year_small) refl
  parse_chunk-print hour layout g h =
      rw
        (get_num-written padded f.hours (print_chunks padded layout f) (omega (arith, t.hour_small))
          (ends-print_chunks layout h))
        (ground (arith, t.hour_small))
  parse_chunk-print minute layout g h =
      rw (get_num-padded f.minutes (print_chunks padded layout f) (omega (arith, t.minute_small)))
        (ground (arith, t.minute_small))
  parse_chunk-print second [] g h =
      rw (get_num-padded f.secs [] (omega (arith, t.second_small))) (ground (arith, t.second_small))
  parse_chunk-print second (c ∷ layout) g h = cc
  parse_chunk-print blank (hour ∷ layout) g h = parse_chunk-blank g (print_chunks padded layout f)
  parse_chunk-print blank _ g h = cc
  parse_chunk-print (mark m) layout g h = ground arith

  parse_chunks-print :
      (layout others : List Chunk) (g : Fields)
      → separated layout ≡ true
      → parse_chunks (layout ++ others) g (print_chunks padded layout f)
        ≡ parse_chunks others (take_chunks layout f g) []
  unfolding parse_chunks separated
  parse_chunks-print [] others g h = refl
  parse_chunks-print (chunk ∷ layout) others g h =
      rw (parse_chunk-print chunk layout g (and_left _ _ h)) (
        parse_chunks-print layout others (take_chunk chunk f g)
          (and_right (joins chunk layout) _ h))

  parse_chunks-print_all :
      (layout : List Chunk) (g : Fields)
      → separated layout ≡ true
      → parse_chunks layout g (print_chunks padded layout f) ≡ some (take_chunks layout f g)
  unfolding parse_chunks
  parse_chunks-print_all layout g h =
      ap (λ (l : List Chunk). parse_chunks l g (print_chunks padded layout f))
        (sym (append-nil layout))
      ∙ parse_chunks-print layout [] g h

  pub parse_in_utc-print :
      (layout : List Chunk)
      → separated layout ≡ true
      → (take_chunks layout f blank_fields).days ≡ f.days
      → (take_chunks layout f blank_fields).months ≡ f.months
      → (take_chunks layout f blank_fields).years ≡ f.years
      → parse_in_utc layout (print_chunks padded layout f)
        ≡ some (date (take_chunks layout f blank_fields))
  unfolding parse_in_utc
  parse_in_utc-print layout h d m y =
      rw (parse_chunks-print_all layout blank_fields h, d, m, y)
        (ground (arith, t.day_some, t.day_small))

  -- A layout that goes on does not fit a text that ends.
  pub ended-misfits :
      (layout others : List Chunk)
      → separated layout ≡ true
      → parse_chunks others (take_chunks layout f blank_fields) [] ≡ none
      → parse_in_utc (layout ++ others) (print_chunks padded layout f) ≡ none
  unfolding parse_in_utc
  ended-misfits layout others h e = rw (parse_chunks-print layout others blank_fields h ∙ e) refl

  -- Nor does another mark behind the month.
  pub mark-misfits :
      (m n : ℕ) (layout others : List Chunk)
      → (n == m) ≡ false
      → is_digit n ≡ false
      → parse_in_utc (month ∷ mark m ∷ layout) (print_chunks padded (month ∷ mark n ∷ others) f)
        ≡ none
  unfolding parse_in_utc parse_chunks joins no_digit_ahead
  mark-misfits m n layout others h e =
      rw (parse_chunk-print month (mark n ∷ others) blank_fields (ground (arith, e)))
        (ground (arith, h))

  -- Nor does a year where a month is expected.
  pub year-misfits :
      (m : ℕ) (layout others : List Chunk)
      → is_digit m ≡ false
      → parse_in_utc (month ∷ mark m ∷ layout) (print_chunks padded (year ∷ others) f) ≡ none
  unfolding parse_in_utc parse_chunks parse_chunk
  year-misfits m layout others h =
      rw
        (get_num-two (f.years / 1000) (f.years / 100 % 10) _ (omega (arith, t.year_small))
          (omega arith))
        (elim (Bool-cases (out_of_year (f.years / 1000 * 10 + f.years / 100 % 10))) [
          | inl e ↦ rw e refl
          | inr e ↦ rw (e, skip_mark-digit m (f.years / 10 % 10) _ h (omega arith)) refl
        ])

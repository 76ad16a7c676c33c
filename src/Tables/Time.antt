-- ===== src/Tables/Time.antt =====
-- `decodeTime` of tables/decode.go with what it uses of package time: `ParseInLocation` in UTC at the
-- four layouts, and the civil calendar. An instant counts seconds from the start of the year 0.
pub mod Laws
pub mod Printed
pub mod Digits
pub mod Reading
pub mod Ladder
pub mod Calendar
pub mod Days
use amcache.Base.{
  ℕ, zero, suc, ◌+◌, ◌-◌, ◌*◌, ◌/◌, ◌%◌, Bool, true, false, ◌&&◌, ◌||◌, not, Option, none, some,
  List, [], ◌∷◌, if◌then◌else◌, ltb, ◌==◌,
}
use amcache.Base.Text.{Text}
use amcache.Tables.Decode.{is_digit, format_int}

pub record Instant : Type 0 where
  pub seconds : ℕ
  pub nanos : ℕ

-- `t.Before(u)`.
abbrev pub before : Instant → Instant → Bool
before t u = ltb t.seconds u.seconds || (t.seconds == u.seconds && ltb t.nanos u.nanos)

-- The elements of the layouts: 1, 2, 2006, 15, 04, 05, a space, and any other character.
pub data Chunk : Type 0 where
  month day year hour minute second blank : Chunk
  mark : ℕ → Chunk

-- `timeLayouts`, in the order they are tried.
abbrev pub time_layouts : List (List Chunk)
time_layouts =
    (month
      ∷ mark b'/'
      ∷ day
      ∷ mark b'/'
      ∷ year
      ∷ blank
      ∷ hour
      ∷ mark b':'
      ∷ minute
      ∷ mark b':'
      ∷ second
      ∷ [])
    ∷ (month ∷ mark b'/' ∷ day ∷ mark b'/' ∷ year ∷ [])
    ∷ (month ∷ mark b'-' ∷ day ∷ mark b'-' ∷ year ∷ [])
    ∷ (year ∷ mark b'-' ∷ month ∷ mark b'-' ∷ day ∷ [])
    ∷ []

-- What has been read.
pub record Fields : Type 0 where
  pub years : ℕ
  pub months : ℕ
  pub days : ℕ
  pub hours : ℕ
  pub minutes : ℕ
  pub secs : ℕ
  pub nanos : ℕ

abbrev pub blank_fields : Fields
blank_fields = record {
  years = 0;
  months = 1;
  days = 1;
  hours = 0;
  minutes = 0;
  secs = 0;
  nanos = 0;
}

infixl 5 ◌>>=◌
abbrev ◌>>=◌ : {A B : Type 0} → Option A → (A → Option B) → Option B
none >>= f = none
some a >>= f = f a

abbrev pub value : ℕ → ℕ
value c = c - b'0'

-- `getnum`: one or two digits, exactly two where `fixed`.
unfoldable pub get_num : Bool → Text → Option (ℕ × Text)
get_num fixed [] = none
get_num fixed (c ∷ []) = if not (is_digit c) || fixed then none else some (value c, [])
get_num fixed (c ∷ d ∷ s) =
    if not (is_digit c)
    then none
    else if is_digit d
    then some (value c * 10 + value d, s)
    else if fixed
    then none
    else some (value c, d ∷ s)

-- Four digits.
unfoldable pub get_year : Text → Option (ℕ × Text)
get_year (a ∷ b ∷ c ∷ d ∷ s) =
    if is_digit a && is_digit b && is_digit c && is_digit d
    then some (value a * 1000 + value b * 100 + value c * 10 + value d, s)
    else none
get_year _ = none

unfoldable pub skip_spaces : Text → Text
skip_spaces [] = []
skip_spaces (c ∷ s) = let rest = skip_spaces s in if c == b' ' then rest else c ∷ s

-- `skip` at a space of the layout: none in a value that is used up, one or more else.
unfoldable pub skip_blank : Text → Option Text
unfolding skip_spaces
skip_blank [] = some []
skip_blank (c ∷ s) = if c == b' ' then some (skip_spaces s) else none

unfoldable pub skip_mark : ℕ → Text → Option Text
skip_mark m [] = none
skip_mark m (c ∷ s) = if c == m then some s else none

-- The digits at the front, and what follows them.
unfoldable pub digit_run : Text → Text × Text
digit_run [] = ([], [])
digit_run (c ∷ s) =
    let (run, rest) = digit_run s in if is_digit c then (c ∷ run, rest) else ([], c ∷ s)

-- `parseNanoseconds`: the first nine digits of a fraction, as billionths.
unfoldable pub nanoseconds : ℕ → ℕ → Text → ℕ
nanoseconds zero acc run = acc
nanoseconds (suc n) acc [] = nanoseconds n (acc * 10) []
nanoseconds (suc n) acc (c ∷ run) = nanoseconds n (acc * 10 + value c) run

-- A fraction of a second in the value that the layout does not have.
unfoldable pub fraction : Text → ℕ × Text
unfolding digit_run nanoseconds
fraction (p ∷ c ∷ s) =
    if (p == b'.' || p == b',') && is_digit c
    then (let (run, rest) = digit_run (c ∷ s) in (nanoseconds 9 0 run, rest))
    else (0, p ∷ c ∷ s)
fraction s = (0, s)

-- One element of the layout.
unfoldable pub parse_chunk : Chunk → Fields → Text → Option (Fields × Text)
unfolding get_num get_year skip_blank skip_mark fraction
parse_chunk month f s = do
  (n, rest) ← get_num false s
  if n == 0 || ltb 12 n then none else some (record f { months = n }, rest)
parse_chunk day f s = do (n, rest) ← get_num false s; some (record f { days = n }, rest)
parse_chunk year f s = do (n, rest) ← get_year s; some (record f { years = n }, rest)
parse_chunk hour f s = do
  (n, rest) ← get_num false s
  if ltb n 24 then some (record f { hours = n }, rest) else none
parse_chunk minute f s = do
  (n, rest) ← get_num true s
  if ltb n 60 then some (record f { minutes = n }, rest) else none
parse_chunk second f s = do
  (n, rest) ← get_num true s
  if ltb n 60
      then some (record f { secs = n; nanos = (fraction rest).0 }, (fraction rest).1)
      else none
parse_chunk blank f s = do rest ← skip_blank s; some (f, rest)
parse_chunk (mark m) f s = do rest ← skip_mark m s; some (f, rest)

-- The whole layout; text left over is an error.
unfoldable pub parse_chunks : List Chunk → Fields → Text → Option Fields
unfolding parse_chunk
parse_chunks [] f [] = some f
parse_chunks [] f (c ∷ s) = none
parse_chunks (chunk ∷ layout) f s = do
  (f', rest) ← parse_chunk chunk f s
  parse_chunks layout f' rest

unfoldable pub is_leap : ℕ → Bool
is_leap y = y % 4 == 0 && (not (y % 100 == 0) || y % 400 == 0)

-- `daysIn`.
unfoldable pub days_in : ℕ → ℕ → ℕ
unfolding is_leap
days_in m y =
    if m == 2
    then (if is_leap y then 29 else 28)
    else if m == 4 || m == 6 || m == 9 || m == 11
    then 30
    else 31

-- The days of the years before `y`, from the year 0 on.
unfoldable pub days_before_year : ℕ → ℕ
days_before_year y = 365 * y + (y + 3) / 4 + (y + 399) / 400 - (y + 99) / 100

-- The days of the first `m` months of the year `y`.
unfoldable pub days_before_month : ℕ → ℕ → ℕ
unfolding days_in
days_before_month zero y = 0
days_before_month (suc m) y = days_before_month m y + days_in (suc m) y

-- `time.Date` in UTC.
unfoldable pub date : Fields → Instant
unfolding days_before_year days_before_month
date f = record {
  seconds =
      (days_before_year f.years + days_before_month (f.months - 1) f.years + (f.days - 1)) * 86400
      + f.hours * 3600
      + f.minutes * 60
      + f.secs;
  nanos = f.nanos;
}

-- `time.ParseInLocation(layout, s, time.UTC)`.
unfoldable pub parse_in_utc : List Chunk → Text → Option Instant
unfolding parse_chunks date days_in
parse_in_utc layout s = do
  f ← parse_chunks layout blank_fields s
  if f.days == 0 || ltb (days_in f.months f.years) f.days then none else some (date f)

-- 1970-01-01 and 1980-01-01.
abbrev pub unix_epoch : ℕ
unix_epoch = 62167219200

abbrev pub epoch_floor : Instant
epoch_floor = record { seconds = unix_epoch + 315532800; nanos = 0 }

-- `plausible`, where `horizon` is the clock's time a year ahead.
unfoldable pub plausible : Instant → Instant → Bool
plausible horizon t = not (before t epoch_floor) && before t horizon

-- The ladder of `decodeTime`: the first layout that fits decides.
unfoldable pub decode_ladder : Instant → List (List Chunk) → Text → Option Text
unfolding parse_in_utc plausible format_int
decode_ladder horizon [] s = none
decode_ladder horizon (layout ∷ layouts) s = elim (parse_in_utc layout s) [
  | none ↦ decode_ladder horizon layouts s
  | some t ↦ (if plausible horizon t then some (format_int (t.seconds - unix_epoch)) else none)
]

-- `decodeTime`.
unfoldable pub decode_time : Instant → Text → Option Text
unfolding decode_ladder
decode_time horizon s = decode_ladder horizon time_layouts s

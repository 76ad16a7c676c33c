-- ===== src/Tables/Time/Digits.antt =====
-- The number readers of package time read back the digits that are written.
use amcache.Base.{
  ℕ, ◌+◌, ◌*◌, ◌<◌, ◌≡◌, Bool, true, false, ◌||◌, none, some, [], ◌∷◌, ◌++◌, ltb, ◌==◌, arith,
}
use amcache.Base.Text.{Text}
use amcache.Tables.Decode.{is_digit}
use amcache.Tables.Time.{year, Fields, get_num, get_year, skip_mark, days_in}
use amcache.Tables.Time.Printed.{digit, written, print_chunk}

-- No digit comes next.
abbrev pub IsEnd : Text → Type 0
IsEnd [] = Unit
IsEnd (c ∷ s) = is_digit c ≡ false

is_digit-digit : (n : ℕ) → n < 10 → is_digit (digit n) ≡ true
is_digit-digit n h = ground arith

pub get_num-written :
    (padded : Bool) (n : ℕ) (s : Text)
    → n < 100
    → IsEnd s
    → get_num false (written padded n ++ s) ≡ some (n, s)
unfolding get_num
get_num-written padded n [] h e = ground arith
get_num-written padded n (c ∷ s) h e = ground arith

pub get_num-padded : (n : ℕ) (s : Text) → n < 100 → get_num true (written true n ++ s) ≡ some (n, s)
unfolding get_num
get_num-padded n s h = ground arith

pub get_num-two :
    (a b : ℕ) (s : Text)
    → a < 10
    → b < 10
    → get_num false (digit a ∷ digit b ∷ s) ≡ some (a * 10 + b, s)
unfolding get_num
get_num-two a b s h k = ground arith

pub skip_mark-digit :
    (m a : ℕ) (s : Text) → is_digit m ≡ false → a < 10 → skip_mark m (digit a ∷ s) ≡ none
unfolding skip_mark
skip_mark-digit m a s h k = ground arith

-- No month has that number.
abbrev pub out_of_year : ℕ → Bool
out_of_year n = n == 0 || ltb 12 n

pub get_year-printed :
    (padded : Bool) (f : Fields) (s : Text)
    → f.years < 10000
    → get_year (print_chunk padded year f ++ s) ≡ some (f.years, s)
unfolding get_year
get_year-printed padded f s h = ground arith

pub days_in-small : (m y : ℕ) → days_in m y < 100
unfolding days_in
days_in-small m y = ground arith

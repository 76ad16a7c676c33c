-- ===== src/Tables/Decode/Numbers.antt =====
-- Decimal numbers: which texts `decodeInt` accepts, and that a printed number is read back.
use native.Mathlib.Nat.{pow-suc}
use amcache.Base.{
  ℕ, zero, suc, ◌+◌, ◌-◌, ◌*◌, ◌/◌, ◌%◌, ◌^◌, ◌≤◌, ◌<◌, ◌≡◌, ◌≢◌, refl, Bool, true, false, ◌&&◌,
  none, some, [], ◌∷◌, if◌then◌else◌, ltb, leb, arith, Bool-cases, inl, inr, ◌∙◌,
}
use amcache.Base.Text.{Text}
use amcache.Tables.Decode.{
  is_digit, digits_before, format_int, parse_digits, parse_uint, decode_int,
}

abbrev pub all_digits : Text → Bool
all_digits [] = true
all_digits (c ∷ s) = is_digit c && all_digits s

-- The number that the digits write behind `n`, of any size.
abbrev pub decimal : ℕ → Text → ℕ
decimal n [] = n
decimal n (c ∷ s) = decimal (n * 10 + (c - b'0')) s

le-decimal : (n : ℕ) (s : Text) → n ≤ decimal n s
le-decimal n [] = omega arith
le-decimal n (c ∷ s) = omega (arith, le-decimal (n * 10 + (c - b'0')) s)

-- The early overflow test of the loop refuses just the numbers that end over the limit.
parse_digits_exact :
    (n : ℕ) (s : Text)
    → n ≤ 2 ^ 64 - 1
    → parse_digits n s
      ≡ (if all_digits s && leb (decimal n s) (2 ^ 64 - 1) then some (decimal n s) else none)
unfolding parse_digits
parse_digits_exact n [] h = ground arith
parse_digits_exact n (c ∷ s) h = elim (Bool-cases (ltb (2 ^ 64 - 1) (n * 10 + (c - b'0')))) [
  | inl e ↦ ground (arith, le-decimal (n * 10 + (c - b'0')) s)
  | inr e ↦ ground (arith, parse_digits_exact (n * 10 + (c - b'0')) s (ground arith))
]

-- A text of digits that writes a number below 2 ^ 64.
abbrev pub is_word : Text → Bool
is_word [] = false
is_word (c ∷ s) = all_digits (c ∷ s) && leb (decimal 0 (c ∷ s)) (2 ^ 64 - 1)

-- `decodeInt` accepts exactly the non-empty texts of digits whose number is below 2 ^ 64, and returns
-- them unchanged.
pub decode_int_exact : (s : Text) → decode_int s ≡ (if is_word s then some s else none)
unfolding decode_int parse_uint
decode_int_exact [] = refl
decode_int_exact (c ∷ s) = ground (arith, parse_digits_exact 0 (c ∷ s) (omega arith))

parse_digits-digits_before :
    (fuel n : ℕ) (rest : Text)
    → n < 10 ^ fuel
    → n ≤ 2 ^ 64 - 1
    → parse_digits 0 (digits_before fuel n rest) ≡ parse_digits n rest
unfolding digits_before
parse_digits-digits_before zero n rest h k = ground arith
parse_digits-digits_before (suc fuel) n rest h k = elim (Bool-cases (ltb n 10)) [
  | inl e ↦ rw e (unfold parse_digits in ground arith)
  | inr e ↦ rw e (
      parse_digits-digits_before fuel (n / 10) ((b'0' + n % 10) ∷ rest)
        (omega (arith, pow-suc 10 fuel)) (omega arith)
      ∙ unfold parse_digits in ground arith)
]

digits_before-ne-nil : (fuel n : ℕ) (rest : Text) → rest ≢ [] → digits_before fuel n rest ≢ []
unfolding digits_before
digits_before-ne-nil zero n rest h = h
digits_before-ne-nil (suc fuel) n rest h =
    ground (arith, digits_before-ne-nil fuel (n / 10) ((b'0' + n % 10) ∷ rest))

format_int-ne-nil : (n : ℕ) → format_int n ≢ []
unfolding format_int
format_int-ne-nil n = ground (arith, digits_before-ne-nil 19 (n / 10) ((b'0' + n % 10) ∷ []))

parse_uint-parse_digits : (s : Text) → s ≢ [] → parse_uint s ≡ parse_digits 0 s
unfolding parse_uint
parse_uint-parse_digits [] h = absurd (h refl)
parse_uint-parse_digits (c ∷ s) h = refl

-- Every 64-bit number that is printed is read back as itself.
pub parse_uint-format_int : (n : ℕ) → n < 2 ^ 64 → parse_uint (format_int n) ≡ some n
parse_uint-format_int n h =
    parse_uint-parse_digits (format_int n) (format_int-ne-nil n)
    ∙ unfold format_int in
      parse_digits-digits_before 20 n [] (omega arith) (omega arith) ∙ unfold parse_digits in refl

-- ===== src/Tables/Decode/Laws.antt =====
-- The decoders: what they accept, and that decoding a decoded value changes nothing.
use amcache.Base.{
  ℕ, suc, ◌+◌, ◌≡◌, refl, Bool, true, ◌&&◌, ◌||◌, some, [], ◌∷◌, leb, ◌==◌, length, drop, arith,
  ◌⊎◌, inl, inr, Bool-cases, sym, ap, ◌∙◌,
}
use amcache.Base.Text.{Text, codes, byte_len, utf8_width, lower_rune, to_lower, text_eq→eq}
use amcache.Tables.Decode.{
  is_digit, decode_bool, is_hex, all_hex, hex_decodes, has_zeros, decode_sha1,
}

-- A digit or a letter from a to f.
abbrev pub is_lower_hex : ℕ → Bool
is_lower_hex c = is_digit c || (leb b'a' c && leb c b'f')

abbrev pub all_lower_hex : Text → Bool
all_lower_hex [] = true
all_lower_hex (c ∷ s) = is_lower_hex c && all_lower_hex s

lower_rune-hex : (fold : ℕ → ℕ) (c : ℕ) → is_hex c ≡ true → is_lower_hex (lower_rune fold c) ≡ true
unfolding lower_rune
lower_rune-hex fold c h = ground arith

to_lower-hex : (fold : ℕ → ℕ) (s : Text) → all_hex s ≡ true → all_lower_hex (to_lower fold s) ≡ true
unfolding to_lower all_hex
to_lower-hex fold [] h = refl
to_lower-hex fold (c ∷ s) h = ground (arith, lower_rune-hex fold c, to_lower-hex fold s)

lower_hex-fixed :
    (fold : ℕ → ℕ) (s : Text) → all_lower_hex s ≡ true → (to_lower fold s ≡ s) × (all_hex s ≡ true)
unfolding to_lower all_hex
lower_hex-fixed fold [] h = (refl, refl)
lower_hex-fixed fold (c ∷ s) h = ground (arith, lower_hex-fixed fold s)

-- Hex digits take one byte each.
byte_len-hex : (s : Text) → all_hex s ≡ true → byte_len s ≡ length s
unfolding byte_len all_hex
byte_len-hex [] h = refl
byte_len-hex (c ∷ s) h = ground (arith, byte_len-hex s)

length-to_lower : (fold : ℕ → ℕ) (s : Text) → length (to_lower fold s) ≡ length s
unfolding to_lower
length-to_lower fold [] = refl
length-to_lower fold (c ∷ s) = ap suc (length-to_lower fold s)

length-has_zeros : (s : Text) → has_zeros s ≡ true → byte_len s ≡ byte_len (drop 4 s) + 4
unfolding has_zeros byte_len utf8_width
length-has_zeros [] h = cc
length-has_zeros (a ∷ []) h = cc
length-has_zeros (a ∷ b ∷ []) h = cc
length-has_zeros (a ∷ b ∷ c ∷ []) h = cc
length-has_zeros (a ∷ b ∷ c ∷ d ∷ s) h = ground arith

again :
    (fold : ℕ → ℕ) (v : Text)
    → all_hex v ≡ true
    → byte_len v ≡ 40
    → length v ≡ 40
    → to_lower fold v ≡ v
    → decode_sha1 fold v ≡ some v
unfolding decode_sha1 hex_decodes
again fold v hex forty long fixed = ground arith

sha1_cases :
    (fold : ℕ → ℕ) (s v : Text)
    → decode_sha1 fold s ≡ some v
    → (x : Text) × (v ≡ to_lower fold x)
      × (all_hex x ≡ true)
      × (byte_len x ≡ 40)
      × ((s ≡ x) ⊎ ((has_zeros s ≡ true) × (drop 4 s ≡ x)))
unfolding decode_sha1 hex_decodes
sha1_cases fold s v h = elim (Bool-cases (byte_len s == 44 && has_zeros s)) [
  | inl e ↦ (
    drop 4 s,
    ground arith,
    ground arith,
    ground (arith, length-has_zeros s),
    inr (ground arith, refl),
  )
  | inr e ↦ (s, ground arith, ground arith, ground arith, inl refl)
]

-- A decoded SHA-1 is forty lowercase hex digits, those of the value itself or of the value behind
-- its 0000 prefix, and decoding it again gives it back.
pub decode_sha1_canonical :
    (fold : ℕ → ℕ) (s v : Text)
    → decode_sha1 fold s ≡ some v
    → (length v ≡ 40)
      × (all_lower_hex v ≡ true)
      × (decode_sha1 fold v ≡ some v)
      × ((v ≡ to_lower fold s) ⊎ ((has_zeros s ≡ true) × (v ≡ to_lower fold (drop 4 s))))
decode_sha1_canonical fold s v h =
    let (x, is, hex, forty, from) = sha1_cases fold s v h in
    let lower : all_lower_hex v ≡ true = rw is (to_lower-hex fold x hex) in
    let (fixed, v_hex) = lower_hex-fixed fold v lower in
    let long : length v ≡ 40 =
      ap length is ∙ length-to_lower fold x ∙ sym (byte_len-hex x hex) ∙ forty in
    (
      long,
      lower,
      again fold v v_hex (byte_len-hex v v_hex ∙ long) long fixed,
      elim from [
        | inl e ↦ inl (is ∙ ap (to_lower fold) (sym e))
        | inr (zeros, e) ↦ inr (zeros, is ∙ ap (to_lower fold) (sym e))
      ],
    )

-- `decodeBool` gives 1 or 0 only: 1 for a value that lowercases to 1 or true, 0 for one that
-- lowercases to 0 or false.
pub decode_bool_canonical :
    (fold : ℕ → ℕ) (s v : Text)
    → decode_bool fold s ≡ some v
    → ((v ≡ codes "1") × ((to_lower fold s ≡ codes "1") ⊎ (to_lower fold s ≡ codes "true")))
      ⊎ ((v ≡ codes "0") × ((to_lower fold s ≡ codes "0") ⊎ (to_lower fold s ≡ codes "false")))
unfolding decode_bool
decode_bool_canonical fold s v h = ground (
  arith,
  text_eq→eq (to_lower fold s) (codes "1"),
  text_eq→eq (to_lower fold s) (codes "true"),
  text_eq→eq (to_lower fold s) (codes "0"),
  text_eq→eq (to_lower fold s) (codes "false"),
)

-- ===== src/Tables/Time/Laws.antt =====
-- The date ladder gives plausible instants only.
use amcache.Base.{
  ℕ, ◌+◌, ◌-◌, ◌^◌, ◌≤◌, ◌<◌, ◌≡◌, ap, ◌∙◌, true, some, List, [], ◌∷◌, arith, Bool-cases,
  Option-cases, inl, inr, sym,
}
use mathlib.Core.Option.{some-injective}
use amcache.Base.Text.{Text}
use amcache.Tables.Decode.{format_int, parse_uint}
use amcache.Tables.Decode.Numbers.{parse_uint-format_int}
use amcache.Tables.Time.{
  Instant, Chunk, unix_epoch, plausible, parse_in_utc, decode_ladder, decode_time, time_layouts,
}

-- Some layout of the list reads the text as a plausible instant, which is printed.
abbrev Reads : Instant → List (List Chunk) → Text → Text → Type 0
Reads horizon layouts s v =
    (layout : List Chunk) × (t : Instant) × (parse_in_utc layout s ≡ some t)
    × (plausible horizon t ≡ true)
    × (v ≡ format_int (t.seconds - unix_epoch))

decode_ladder-Reads :
    (horizon : Instant) (layouts : List (List Chunk)) (s v : Text)
    → decode_ladder horizon layouts s ≡ some v
    → Reads horizon layouts s v
unfolding decode_ladder
decode_ladder-Reads horizon [] s v h = cc
decode_ladder-Reads horizon (layout ∷ layouts) s v h = elim (Option-cases (parse_in_utc layout s)) [
  | inl e ↦ decode_ladder-Reads horizon layouts s v (rw (e, decode_ladder) at h)
  | inr (t, e) ↦ elim (Bool-cases (plausible horizon t)) [
    | inl p ↦ (layout, t, e, p, sym (some-injective _ _ (rw (e, p, decode_ladder) at h)))
    | inr p ↦ absurd (ground (arith, rw (e, p, decode_ladder) at h))
  ]
]

pub plausible-range :
    (horizon t : Instant)
    → plausible horizon t ≡ true
    → (unix_epoch + 315532800 ≤ t.seconds) × (t.seconds ≤ horizon.seconds)
unfolding plausible
plausible-range horizon t h = (ground arith, ground arith)

-- What `decodeTime` gives is the print of a number of seconds in that range.
pub decode_time_printed :
    (horizon : Instant) (s v : Text)
    → decode_time horizon s ≡ some v
    → (n : ℕ) × (v ≡ format_int n) × (315532800 ≤ n) × (unix_epoch + n ≤ horizon.seconds)
unfolding decode_time
decode_time_printed horizon s v h =
    let (layout, t, e, p, printed) = decode_ladder-Reads horizon time_layouts s v h in
    let (late, early) = plausible-range horizon t p in
    (t.seconds - unix_epoch, printed, omega (arith, late), omega (arith, late, early))

-- What `decodeTime` gives is a number of seconds since 1970 that is not before 1980 and not after the
-- clock's time a year ahead, and it reads back as that number.
pub decode_time_plausible :
    (horizon : Instant) (s v : Text)
    → horizon.seconds < 2 ^ 64
    → decode_time horizon s ≡ some v
    → (n : ℕ) × (parse_uint v ≡ some n) × (315532800 ≤ n) × (unix_epoch + n ≤ horizon.seconds)
decode_time_plausible horizon s v below h =
    let (n, printed, late, early) = decode_time_printed horizon s v h in
    (n, ap parse_uint printed ∙ parse_uint-format_int n (omega (arith, early, below)), late, early)

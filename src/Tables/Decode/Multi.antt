-- ===== src/Tables/Decode/Multi.antt =====
-- `decodeMulti` is a normalisation: applied to its own result it changes nothing.
use amcache.Base.{
  ℕ, ◌≡◌, ◌≢◌, refl, Bool, true, false, ◌&&◌, not, List, [], ◌∷◌, ◌++◌, ◌==◌, arith, Bool-cases,
  inl, inr, ◌∙◌, ap, All,
}
use amcache.Base.Text.{Text, is_space, trim_left, before_trimmed, trim_right, trim_space}
use amcache.Tables.Decode.{add_char, split, join, keep_item, trim_items, decode_multi}

-- The text is empty or begins with no space.
abbrev starts_bare : Text → Bool
starts_bare [] = true
starts_bare (c ∷ s) = not (is_space c)

starts_bare-trim_left : (s : Text) → starts_bare (trim_left s) ≡ true
unfolding trim_left
starts_bare-trim_left [] = refl
starts_bare-trim_left (c ∷ s) = ground (arith, starts_bare-trim_left s)

trim_left_bare : (s : Text) → starts_bare s ≡ true → trim_left s ≡ s
unfolding trim_left
trim_left_bare [] h = refl
trim_left_bare (c ∷ s) h = ground arith

trim_right-before_trimmed :
    (c : ℕ) (t : Text) → trim_right t ≡ t → trim_right (before_trimmed c t) ≡ before_trimmed c t
unfolding trim_right before_trimmed
trim_right-before_trimmed c [] h = ground arith
trim_right-before_trimmed c (d ∷ t) h = rw (h, before_trimmed)

trim_right_twice : (s : Text) → trim_right (trim_right s) ≡ trim_right s
unfolding trim_right
trim_right_twice [] = refl
trim_right_twice (c ∷ s) = trim_right-before_trimmed c (trim_right s) (trim_right_twice s)

starts_bare-before_trimmed :
    (c : ℕ) (t : Text) → is_space c ≡ false → starts_bare (before_trimmed c t) ≡ true
unfolding before_trimmed
starts_bare-before_trimmed c [] h = ground arith
starts_bare-before_trimmed c (d ∷ t) h = ground arith

starts_bare-trim_right : (s : Text) → starts_bare s ≡ true → starts_bare (trim_right s) ≡ true
unfolding trim_right
starts_bare-trim_right [] h = refl
starts_bare-trim_right (c ∷ s) h = starts_bare-before_trimmed c (trim_right s) (ground arith)

trim_space_twice : (s : Text) → trim_space (trim_space s) ≡ trim_space s
unfolding trim_space
trim_space_twice s =
    ap trim_right (
      trim_left_bare (trim_right (trim_left s))
        (starts_bare-trim_right (trim_left s) (starts_bare-trim_left s)))
    ∙ trim_right_twice (trim_left s)

abbrev no_comma : Text → Bool
no_comma [] = true
no_comma (c ∷ s) = not (c == b',') && no_comma s

no_comma-trim_left : (s : Text) → no_comma s ≡ true → no_comma (trim_left s) ≡ true
unfolding trim_left
no_comma-trim_left [] h = refl
no_comma-trim_left (c ∷ s) h = ground (arith, no_comma-trim_left s)

no_comma-before_trimmed :
    (c : ℕ) (t : Text)
    → (c == b',') ≡ false
    → no_comma t ≡ true
    → no_comma (before_trimmed c t) ≡ true
unfolding before_trimmed
no_comma-before_trimmed c [] h k = ground arith
no_comma-before_trimmed c (d ∷ t) h k = ground arith

no_comma-trim_right : (s : Text) → no_comma s ≡ true → no_comma (trim_right s) ≡ true
unfolding trim_right
no_comma-trim_right [] h = refl
no_comma-trim_right (c ∷ s) h =
    no_comma-before_trimmed c (trim_right s) (ground arith) (no_comma-trim_right s (ground arith))

-- What the loop keeps: a text without commas, not empty, with no space at either end.
abbrev IsItem : Text → Type 0
IsItem x = (no_comma x ≡ true) × (trim_space x ≡ x) × (x ≢ [])

add_char-no_comma :
    (c : ℕ) (items : List Text)
    → All (λ x. no_comma x ≡ true) items
    → All (λ x. no_comma x ≡ true) (add_char c items)
unfolding add_char
add_char-no_comma c [] h = tt
add_char-no_comma c (item ∷ items) h = elim (Bool-cases (c == b',')) [
  | inl e ↦ rw e (refl, h)
  | inr e ↦ rw e (ground (arith, h.0), h.1)
]

split-no_comma : (s : Text) → All (λ x. no_comma x ≡ true) (split s)
unfolding split
split-no_comma [] = (refl, tt)
split-no_comma (c ∷ s) = add_char-no_comma c (split s) (split-no_comma s)

kept :
    (t : Text) (items : List Text)
    → no_comma t ≡ true
    → trim_space t ≡ t
    → All IsItem items
    → All IsItem (keep_item t items)
unfolding keep_item
kept [] items h k a = a
kept (c ∷ t) items h k a = ((h, k, λ e. ground arith), a)

trim_items-IsItem :
    (items : List Text) → All (λ x. no_comma x ≡ true) items → All IsItem (trim_items items)
unfolding trim_items
trim_items-IsItem [] h = tt
trim_items-IsItem (item ∷ items) h =
    kept (trim_space item) (trim_items items)
      (unfold trim_space in no_comma-trim_right (trim_left item) (no_comma-trim_left item h.0))
      (trim_space_twice item) (trim_items-IsItem items h.1)

again : (t : Text) (items : List Text) → t ≢ [] → keep_item t items ≡ t ∷ items
unfolding keep_item
again [] items h = absurd (h refl)
again (c ∷ t) items h = refl

trim_items_kept : (items : List Text) → All IsItem items → trim_items items ≡ items
unfolding trim_items
trim_items_kept [] h = refl
trim_items_kept (item ∷ items) h = rw (h.0.1, trim_items_kept items h.1) (again item items h.0.2)

split-item : (item : Text) → no_comma item ≡ true → split item ≡ item ∷ []
unfolding split add_char
split-item [] h = refl
split-item (c ∷ item) h = ground (arith, split-item item)

add_char-ne-nil : (c : ℕ) (items : List Text) → items ≢ [] → add_char c items ≢ []
unfolding add_char
add_char-ne-nil c [] h = h
add_char-ne-nil c (item ∷ items) h = ground arith

split-ne-nil : (s : Text) → split s ≢ []
unfolding split
split-ne-nil [] h = cc
split-ne-nil (c ∷ s) h = add_char-ne-nil c (split s) (split-ne-nil s) h

add_comma : (items : List Text) → items ≢ [] → add_char b',' items ≡ [] ∷ items
unfolding add_char
add_comma [] h = absurd (h refl)
add_comma (item ∷ items) h = refl

split-item_comma :
    (item rest : Text) → no_comma item ≡ true → split (item ++ (b',' ∷ rest)) ≡ item ∷ split rest
unfolding split add_char
split-item_comma [] rest h = add_comma (split rest) (split-ne-nil rest)
split-item_comma (c ∷ item) rest h = ground (arith, split-item_comma item rest)

split-join :
    (item : Text) (items : List Text)
    → All IsItem (item ∷ items)
    → split (join (item ∷ items)) ≡ item ∷ items
unfolding join
split-join item [] h = split-item item h.0.0
split-join item (next ∷ items) h =
    split-item_comma item (join (next ∷ items)) h.0.0
    ∙ ap (λ l. item ∷ l) (split-join next items h.1)

rejoin : (items : List Text) → All IsItem items → decode_multi (join items) ≡ join items
unfolding decode_multi
rejoin [] h = unfold join split trim_items keep_item trim_space trim_left trim_right in refl
rejoin (item ∷ items) h =
    ap (λ l. join (trim_items l)) (split-join item items h)
    ∙ ap join (trim_items_kept (item ∷ items) h)

-- Normalising a list twice is normalising it once.
pub decode_multi_twice : (s : Text) → decode_multi (decode_multi s) ≡ decode_multi s
unfolding decode_multi
decode_multi_twice s =
    rejoin (trim_items (split s)) (trim_items-IsItem (split s) (split-no_comma s))

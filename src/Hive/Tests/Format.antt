-- ===== src/Hive/Tests/Format.antt =====
-- A registry parser that reads the fields where the format puts them.
use amcache.Base.{
  ℕ, zero, suc, ◌+◌, ◌%◌, ◌^◌, ◌≤◌, ◌<◌, ◌≡◌, some, List, [], ◌∷◌, ◌==◌, length, get_or, take, drop,
  refl, arith, inl, map,
}
use mathlib.Core.Path.{subst}
use mathlib.Core.Option.{some-injective}
use amcache.Hive.Regf.{Bytes, Parser, DirtyPage, ReadsRegf, IsBytes, get_u32}
use amcache.Hive.Replay.Image.{ReadsPages}

unfoldable pub refs : ℕ → Bytes → ℕ → List DirtyPage
refs zero b off = []
refs (suc n) b off =
    record { page_offset = get_u32 b off; page_size = get_u32 b (off + 4); data_offset = off + 8 }
    ∷ refs n b (off + 8)

unfoldable pub byte_of : ℕ → ℕ
byte_of x = x % 256

-- One dirty page's bytes stand right behind its reference here.
abbrev pub regf : Parser
regf = record {
  new_registry = λ b. get_u32 b 0 == 0x66676572;
  sequence1 = λ b. get_u32 b 4;
  sequence2 = λ b. get_u32 b 8;
  file_type = λ b. get_u32 b 0x1c;
  signature = λ b off. get_u32 b off;
  log_entry_size = λ b off. get_u32 b (off + 4);
  flags = λ b off. get_u32 b (off + 8) % 2 ^ 32;
  sequence_number = λ b off. get_u32 b (off + 12) % 2 ^ 32;
  hive_bins_data_size = λ b off. get_u32 b (off + 16) % 2 ^ 32;
  dirty_pages_count = λ b off. get_u32 b (off + 20);
  get_dirty_pages = λ b off. refs (get_u32 b (off + 20)) b (off + 40);
  page_data = λ b page. some (map byte_of (take page.page_size (drop page.data_offset b)));
}

map-IsBytes : (xs : Bytes) → IsBytes (map byte_of xs)
unfolding byte_of
map-IsBytes [] = tt
map-IsBytes (x ∷ xs) = (omega arith, map-IsBytes xs)

same_word :
    (a b : Bytes) → ((i : ℕ) → i < 4 → get_or a i 0 ≡ get_or b i 0) → get_u32 a 0 ≡ get_u32 b 0
unfolding get_u32
same_word a b h =
    omega (arith, h 0 (omega arith), h 1 (omega arith), h 2 (omega arith), h 3 (omega arith))

pub regf-ReadsRegf : ReadsRegf regf
regf-ReadsRegf = record {
  sequence1_at = λ b. refl;
  sequence2_at = λ b. refl;
  accepts_by = λ a b h. rw (same_word a b (λ i k. h i (inl k)));
  sequence_number_u32 = λ b off. omega arith;
  hive_bins_data_size_u32 = λ b off. omega arith;
  flags_u32 = λ b off. omega arith;
  page_data-IsBytes = λ b page bytes e. subst IsBytes (some-injective _ _ e) (map-IsBytes _);
}

length-read_page : (n : ℕ) (b : Bytes) → length (map byte_of (take n b)) ≤ n
length-read_page zero b = omega arith
length-read_page (suc n) [] = omega arith
length-read_page (suc n) (x ∷ b) = omega (arith, length-read_page n b)

pub regf-ReadsPages : ReadsPages regf
regf-ReadsPages b page bytes e =
    subst (λ read. length read ≤ page.page_size) (some-injective _ _ e)
      (length-read_page page.page_size (drop page.data_offset b))

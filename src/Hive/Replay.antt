-- ===== src/Hive/Replay.antt =====
-- `Replay` of internal/hive/replay.go: the dirty pages of the applicable logs, applied in sequence
-- to a copy of the hive, and the base block rewritten over the result.
pub mod Loop
pub mod Entry
pub mod Header
pub mod Guarded
pub mod Outcome
pub mod Image
pub mod Steps
pub mod Trail
pub mod Complete
pub mod Recovery
use mathlib.Core.List.{List, [], ◌∷◌, ◌++◌}
use amcache.Base.{
  ℕ, zero, suc, ◌+◌, ◌-◌, ◌*◌, ◌%◌, ◌^◌, Bool, true, false, ◌||◌, ◌&&◌, Option, none, some,
  if◌then◌else◌, ltb, ◌==◌, length, replicate, copy_at, Result, ok, err, ◌>>=◌, not,
}
use amcache.Hive.Regf.{
  Bytes, DirtyPage, Parser, Error, hive_over_cap, log_over_cap, hive_too_short, too_many_logs,
  page_unreadable, page_over_cap, bins_beyond_data, base_block, out_of_fuel, max_hive_bytes,
  max_log_bytes, put_u32, checksum,
}

-- A log that may be applied, with its base block's primary sequence number.
pub record Applicable : Type 0 where
  pub buf : Bytes
  pub seq : ℕ

-- The variables of the replay loop.
pub record State : Type 0 where
  pub out : Bytes
  pub expected : ℕ
  pub applied : Bool
  pub seq : ℕ
  pub hbins : ℕ
  pub flags : ℕ

-- Whether some log is over the cap.
unfoldable pub any_over_cap : List Bytes → Bool
any_over_cap [] = false
any_over_cap (l ∷ logs) = ltb max_log_bytes (length l) || any_over_cap logs

-- `out = append(out, make([]byte, need-len(out))...)` where `need` is more than there is.
unfoldable pub grow : Bytes → ℕ → Bytes
grow out need = if ltb (length out) need then out ++ replicate (need - length out) 0 else out

-- One dirty page of a validated entry.
unfoldable pub apply_page : Parser → Bytes → Bytes → DirtyPage → Result Error Bytes
unfolding grow
apply_page p buf out page = elim (p.page_data buf page) [
  | none ↦ err page_unreadable
  | some bytes ↦
      let dst = 0x1000 + page.page_offset in
      let need = dst + page.page_size in
      if ltb max_hive_bytes need then err page_over_cap else ok (copy_at (grow out need) dst bytes)
]

unfoldable pub apply_pages : Parser → Bytes → Bytes → List DirtyPage → Result Error Bytes
unfolding apply_page
apply_pages p buf out [] = ok out
apply_pages p buf out (page ∷ pages) = do
  out' ← apply_page p buf out page
  apply_pages p buf out' pages

-- Some page of the entry does not validate.
unfoldable pub torn : List DirtyPage → ℕ → Bool
torn [] end = false
torn (page ∷ pages) end =
    (page.page_size == 0
      || not (page.page_size % 4096 == 0)
      || ltb end (page.data_offset + page.page_size))
    || torn pages end

-- The entry at `off` passes every test that precedes its application.
unfoldable pub admissible : Parser → Bytes → ℕ → ℕ → Bool
unfolding torn
admissible p buf off expected =
    let size = p.log_entry_size buf off in
    if not (p.signature buf off == 0x454C7648)
    then false
    else if ltb size 40 || not (size % 512 == 0) || ltb (length buf) (off + size)
    then false
    else if ltb size (40 + p.dirty_pages_count buf off * (8 + 4096))
    then false
    else if not (p.hive_bins_data_size buf off % 4096 == 0)
    then false
    else if not (p.sequence_number buf off == expected)
    then false
    else not (torn (p.get_dirty_pages buf off) (off + size))

-- The state after an applied entry: its header fields are taken over, and `expected++` wraps.
abbrev pub advance : Parser → Bytes → ℕ → Bytes → State → State
advance p buf off out s = record {
  out = out;
  expected = (s.expected + 1) % 2 ^ 32;
  applied = true;
  seq = p.sequence_number buf off;
  hbins = p.hive_bins_data_size buf off;
  flags = p.flags buf off;
}

-- The loop over one log's entries from offset `off`.
unfoldable pub replay_log : Parser → ℕ → Bytes → ℕ → State → Result Error State
unfolding admissible apply_pages
replay_log p zero buf off s = err out_of_fuel
replay_log p (suc fuel) buf off s = elim (ltb off (length buf) && admissible p buf off s.expected) [
  | false ↦ ok s
  | true ↦ elim (apply_pages p buf s.out (p.get_dirty_pages buf off)) [
    | err e ↦ err e
    | ok out ↦ replay_log p fuel buf (off + p.log_entry_size buf off) (advance p buf off out s)
  ]
]

-- Where a log's chain starts: at its own base, unless the chain is already past it.
abbrev pub enter : Bool → Applicable → State → State
enter first lg s = if first || ltb s.expected lg.seq then record s { expected = lg.seq } else s

-- The loop over the applicable logs.
unfoldable pub replay_logs : Parser → Bool → List Applicable → State → Result Error State
unfolding replay_log
replay_logs p first [] s = ok s
replay_logs p first (lg ∷ ready) s = do
  s' ← replay_log p (suc (length lg.buf)) lg.buf 0x200 (enter first lg s)
  replay_logs p false ready s'

-- The logs that hold something the hive does not, in their given order.
unfoldable pub applicable : Parser → ℕ → List Bytes → List Applicable
applicable p base_seq2 [] = []
applicable p base_seq2 (l ∷ logs) =
    let rest = applicable p base_seq2 logs in
    if length l == 0
    then rest
    else if not (p.new_registry l)
    then rest
    else if p.file_type l == 1 || p.file_type l == 2
    then rest
    else if ltb (p.sequence1 l) base_seq2
    then rest
    else record { buf = l; seq = p.sequence1 l } ∷ rest

-- `sort.Slice` by sequence number. Equal numbers keep their order here.
unfoldable pub insert_log : Applicable → List Applicable → List Applicable
insert_log lg [] = lg ∷ []
insert_log lg (x ∷ ready) =
    let rest = insert_log lg ready in if ltb x.seq lg.seq then x ∷ rest else lg ∷ x ∷ ready

unfoldable pub sort_logs : List Applicable → List Applicable
unfolding insert_log
sort_logs [] = []
sort_logs (lg ∷ ready) = insert_log lg (sort_logs ready)

-- The base block rewritten: the sequence pair, the hive bins data size, the flags, the checksum.
unfoldable pub rewrite_header : Bytes → ℕ → ℕ → ℕ → Bytes
unfolding put_u32 checksum
rewrite_header out seq hbins flags =
    let fields = put_u32 (put_u32 (put_u32 (put_u32 out 4 seq) 8 seq) 0x28 hbins) 0x90 flags in
    put_u32 fields 0x1fc (checksum fields)

-- After the loops.
unfoldable pub finish : State → Result Error Bytes
unfolding rewrite_header
finish s =
    if not s.applied
    then ok s.out
    else if ltb (length s.out) (s.hbins + 0x1000)
    then err bins_beyond_data
    else ok (rewrite_header s.out s.seq s.hbins s.flags)

abbrev pub start : Bytes → State
start hive = record { out = hive; expected = 0; applied = false; seq = 0; hbins = 0; flags = 0 }

unfoldable pub replay : Parser → Bytes → List Bytes → Result Error Bytes
unfolding any_over_cap replay_logs applicable sort_logs finish
replay p hive logs =
    if ltb max_hive_bytes (length hive)
    then err hive_over_cap
    else if any_over_cap logs
    then err log_over_cap
    else if ltb (length hive) 0x1000
    then err hive_too_short
    else if not (p.new_registry hive)
    then err base_block
    else let ready = applicable p (p.sequence2 hive) logs in
      if ltb 2 (length ready)
      then err too_many_logs
      else (replay_logs p true (sort_logs ready) (start hive) >>= finish)

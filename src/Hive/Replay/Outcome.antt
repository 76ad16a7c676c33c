-- ===== src/Hive/Replay/Outcome.antt =====
-- What `Replay` guarantees of its result: it terminates, respects the caps, and returns either the
-- hive it was given or one whose base block is clean.
use amcache.Base.{
  ℕ, ◌+◌, ◌%◌, ◌^◌, ◌≤◌, ◌<◌, true, false, ◌≡◌, ◌≢◌, refl, arith, inl, inr, ◌⊎◌, length, ok, err,
  List, >>=-eq-err, ap, ◌>>=◌,
}
use mathlib.Core.Path.{subst, sym, ◌∙◌}
use amcache.Hive.Regf.{Bytes, Parser, out_of_fuel, max_hive_bytes, dirty, checksum, get_u32}
use amcache.Hive.Regf.{ReadsRegf, IsBytes}
use amcache.Hive.Replay.Header.{
  length-rewrite_header, get_or-rewrite_header, sequence1-rewrite_header, sequence2-rewrite_header,
  hbins-rewrite_header, checksum-rewrite_header,
}
use amcache.Hive.Replay.{
  State, admissible, apply_pages, replay, start, finish, rewrite_header, advance,
}
use amcache.Hive.Replay.Entry.{
  Extends, Extends-refl, Extends-trans, apply_pages-IsBytes, apply_pages-Extends,
  admissible-IsAdmissible,
}
use amcache.Hive.Replay.Loop.{replay_logs-keeps, replay_logs-fuel}
use amcache.Hive.Replay.Guarded.{chain, IsGuarded, replay-IsGuarded, finish-cases}

finish-ne-out_of_fuel : (s : State) → finish s ≢ err out_of_fuel
unfolding finish
finish-ne-out_of_fuel s = ground arith

module _ (p : Parser) (hive : Bytes) (logs : List Bytes) where
  guards-ne-out_of_fuel :
      replay p hive logs ≡ err out_of_fuel → (chain p hive logs >>= finish) ≡ err out_of_fuel
  unfolding replay
  guards-ne-out_of_fuel e = ground arith

  -- `Replay` always ends by itself: the fuel of its loops never runs out, whatever the logs hold.
  pub replay_terminates : replay p hive logs ≢ err out_of_fuel
  replay_terminates h = elim (>>=-eq-err (chain p hive logs) finish (guards-ne-out_of_fuel h)) [
    | inl e ↦ replay_logs-fuel p true _ (start hive) e
    | inr (end, _, e) ↦ finish-ne-out_of_fuel end e
  ]

-- What holds of the replay's variables throughout.
pub record Recovers (hive : Bytes) (s : State) : Type 0 where
  pub extends : Extends hive s.out
  pub bytes : IsBytes s.out
  pub untouched : s.applied ≡ false → s.out ≡ hive
  pub seq_u32 : s.seq < 2 ^ 32
  pub hbins_u32 : s.hbins < 2 ^ 32
  pub hbins_aligned : s.hbins % 4096 ≡ 0

-- The base block is clean: the parser does not call it dirty, its checksum is valid, and its hive
-- bins are a whole number of pages that lie within the data.
pub record IsClean (p : Parser) (out : Bytes) : Type 0 where
  pub not_dirty : dirty p out ≡ ok false
  pub checksum_holds : get_u32 out 0x1fc ≡ checksum out
  pub checksum_not_zero : checksum out ≢ 0
  pub checksum_not_ones : checksum out ≢ 0xFFFFFFFF
  pub bins_inside : get_u32 out 0x28 + 0x1000 ≤ length out
  pub bins_aligned : get_u32 out 0x28 % 4096 ≡ 0

module _ (p : Parser) (laws : ReadsRegf p) where
  advance-Recovers :
      (hive buf : Bytes) (off : ℕ) (s : State) (out : Bytes)
      → admissible p buf off s.expected ≡ true
      → apply_pages p buf s.out (p.get_dirty_pages buf off) ≡ ok out
      → Recovers hive s
      → Recovers hive (advance p buf off out s)
  advance-Recovers hive buf off s out passed done r = record {
    extends = Extends-trans r.extends (apply_pages-Extends p buf s.out _ done);
    bytes = apply_pages-IsBytes p laws buf s.out _ r.bytes done;
    untouched = λ h. cc;
    seq_u32 = laws.sequence_number_u32 buf off;
    hbins_u32 = laws.hive_bins_data_size_u32 buf off;
    hbins_aligned = (admissible-IsAdmissible p buf off s.expected passed).aligned;
  }

  move-Recovers :
      (hive : Bytes) (s : State) (n : ℕ)
      → Recovers hive s
      → Recovers hive (record s { expected = n })
  move-Recovers hive s n r = record {
    extends = r.extends;
    bytes = r.bytes;
    untouched = r.untouched;
    seq_u32 = r.seq_u32;
    hbins_u32 = r.hbins_u32;
    hbins_aligned = r.hbins_aligned;
  }

  start-Recovers : (hive : Bytes) → IsBytes hive → Recovers hive (start hive)
  start-Recovers hive h = record {
    extends = Extends-refl hive;
    bytes = h;
    untouched = λ _. refl;
    seq_u32 = omega arith;
    hbins_u32 = omega arith;
    hbins_aligned = omega arith;
  }

  chain-Recovers :
      (hive : Bytes) (logs : List Bytes) {s : State}
      → IsBytes hive
      → chain p hive logs ≡ ok s
      → Recovers hive s
  chain-Recovers hive logs h e =
      replay_logs-keeps p (Recovers hive) (advance-Recovers hive) (move-Recovers hive) true _
        (start hive) (start-Recovers hive h) e

  rewritten-IsClean :
      (hive : Bytes) (s : State)
      → 0x1000 ≤ length hive
      → p.new_registry hive ≡ true
      → Recovers hive s
      → s.hbins + 0x1000 ≤ length s.out
      → IsClean p (rewrite_header s.out s.seq s.hbins s.flags)
  unfolding dirty
  rewritten-IsClean hive s whole accepted r inside =
      let out = rewrite_header s.out s.seq s.hbins s.flags in
      let long : 0x1000 ≤ length s.out = omega (arith, r.extends.grows) in
      let bins = hbins-rewrite_header s.out s.seq s.hbins s.flags long r.hbins_u32 in
      let (stored, not_zero, not_ones) =
        checksum-rewrite_header s.out s.seq s.hbins s.flags long r.bytes in
      let still : p.new_registry out ≡ true =
        laws.accepts_by out hive (λ i h.
          get_or-rewrite_header s.out s.seq s.hbins s.flags i (omega arith)
          ∙ r.extends.head i (omega arith))
        ∙ accepted in
      record {
        not_dirty = ground (
          arith,
          still,
          laws.sequence1_at out,
          laws.sequence2_at out,
          sequence1-rewrite_header s.out s.seq s.hbins s.flags long r.seq_u32,
          sequence2-rewrite_header s.out s.seq s.hbins s.flags long r.seq_u32,
        );
        checksum_holds = stored;
        checksum_not_zero = not_zero;
        checksum_not_ones = not_ones;
        bins_inside = omega (arith, bins, length-rewrite_header s.out s.seq s.hbins s.flags);
        bins_aligned = omega (arith, bins, r.hbins_aligned);
      }

  -- Over a registry parser that reads the format, where `Replay` of a hive of bytes succeeds, it
  -- returns the hive unchanged or a buffer whose base block is clean:
  -- equal sequence numbers, so that `Dirty` reports false, the right checksum, and page-aligned
  -- hive bins that lie within the data.
  pub replay-IsClean :
      (hive : Bytes) (logs : List Bytes) (out : Bytes)
      → IsBytes hive
      → replay p hive logs ≡ ok out
      → (out ≡ hive) ⊎ IsClean p out
  replay-IsClean hive logs out h e =
      let g : IsGuarded p hive logs out = replay-IsGuarded p hive logs e in
      let r : Recovers hive g.end = chain-Recovers hive logs h g.ran in
      elim (finish-cases g.end g.finished) [
        | inl (nothing, same) ↦ inl (same ∙ r.untouched nothing)
        | inr (_, inside, rewritten) ↦ inr (
            subst (IsClean p) (sym rewritten)
              (rewritten-IsClean hive g.end g.whole g.accepted r inside))
      ]

pub chain-Extends :
    (p : Parser) (hive : Bytes) (logs : List Bytes) {s : State}
    → chain p hive logs ≡ ok s
    → Extends hive s.out
chain-Extends p hive logs e =
    replay_logs-keeps p (λ s. Extends hive s.out)
      (λ buf off s out passed done r. Extends-trans r (apply_pages-Extends p buf s.out _ done))
      (λ s n r. r) true _ (start hive) (Extends-refl hive) e

-- A successful replay only ever grows the hive, and never past the cap on its size.
pub length-replay_bounds :
    (p : Parser) (hive : Bytes) (logs : List Bytes) (out : Bytes)
    → replay p hive logs ≡ ok out
    → (0x1000 ≤ length hive) × (length hive ≤ length out) × (length out ≤ max_hive_bytes)
length-replay_bounds p hive logs out e =
    let g : IsGuarded p hive logs out = replay-IsGuarded p hive logs e in
    let r : Extends hive g.end.out = chain-Extends p hive logs g.ran in
    let capped = r.capped g.capped in
    let same : length out ≡ length g.end.out = elim (finish-cases g.end g.finished) [
      | inl (_, same) ↦ ap length same
      | inr (_, _, rewritten) ↦
          ap length rewritten ∙ length-rewrite_header g.end.out g.end.seq g.end.hbins g.end.flags
    ] in
    omega (arith, g.whole, r.grows, capped, same)

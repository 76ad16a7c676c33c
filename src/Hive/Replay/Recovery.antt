-- ===== src/Hive/Replay/Recovery.antt =====
-- What a replayed hive holds: the hive's own bytes under the pages of the entries that were applied,
-- in the order of their numbers.
use amcache.Base.{
  ℕ, ◌^◌, ◌≤◌, ◌<◌, true, false, ◌≡◌, refl, ltb, length, ok, arith, List, [], ◌∷◌, In, All, inl,
  inr, Bool-cases, ◌⊎◌, sym, ◌∙◌, ap,
}
use mathlib.Core.Path.{subst}
use amcache.Hive.Regf.{Bytes, Parser}
use amcache.Hive.Replay.{
  State, Applicable, applicable, insert_log, sort_logs, start, replay, rewrite_header,
}
use amcache.Hive.Replay.Header.{get_or-rewrite_header}
use amcache.Hive.Replay.Image.{Image, content, ReadsPages}
use amcache.Hive.Replay.Complete.{collect_logs, replay_logs-Ran}
use amcache.Hive.Replay.Guarded.{IsGuarded, replay-IsGuarded, finish-cases}
use amcache.Hive.Regf.{ReadsRegf, get_u32}
use amcache.Hive.Replay.Trail.{
  Entry, number, overlay_entries, IsChain, IsGenuine, Latest, Trail, start-Ran,
}
use amcache.Hive.Replay.Outcome.{chain-Extends}
use amcache.Hive.Replay.Header.{
  sequence1-rewrite_header, sequence2-rewrite_header, hbins-rewrite_header,
}

insert_log-In :
    (l a : Applicable) (ready : List Applicable) → In l (insert_log a ready) → (l ≡ a) ⊎ In l ready
unfolding insert_log
insert_log-In l a [] i = i
insert_log-In l a (x ∷ ready) i = elim (Bool-cases (ltb x.seq a.seq)) [
  | inr e ↦ rw (e, insert_log) at i
  | inl e ↦ elim (behind (rw (e, insert_log) at i)) [
    | inl same ↦ inr (inl same)
    | inr later ↦ elim (insert_log-In l a ready later) [
      | inl same ↦ inl same
      | inr other ↦ inr (inr other)
    ]
  ]
]
  where
    behind : In l (x ∷ insert_log a ready) → (l ≡ x) ⊎ In l (insert_log a ready)
    behind j = j

sort_logs-In : (l : Applicable) (ready : List Applicable) → In l (sort_logs ready) → In l ready
unfolding sort_logs
sort_logs-In l [] i = i
sort_logs-In l (a ∷ ready) i = elim (insert_log-In l a (sort_logs ready) i) [
  | inl same ↦ inl same
  | inr later ↦ inr (sort_logs-In l ready later)
]

-- The buffer is one of the logs, and its base is not behind the hive.
abbrev IsFresh : Parser → ℕ → List Bytes → Bytes → Type 0
IsFresh p base logs buf = In buf logs × (base ≤ p.sequence1 buf)

applicable-cases :
    (p : Parser) (base : ℕ) (b : Bytes) (logs : List Bytes)
    → (applicable p base (b ∷ logs) ≡ applicable p base logs)
      ⊎ ((base ≤ p.sequence1 b)
          × (applicable p base (b ∷ logs)
              ≡ record { buf = b; seq = p.sequence1 b } ∷ applicable p base logs))
unfolding applicable
applicable-cases p base b logs = ground arith

first-IsFresh :
    (p : Parser) (base : ℕ) (b : Bytes) (logs : List Bytes) (l : Applicable)
    → base ≤ p.sequence1 b
    → l ≡ record { buf = b; seq = p.sequence1 b }
    → IsFresh p base (b ∷ logs) l.buf
first-IsFresh p base b logs l fresh same =
    let e : l.buf ≡ b = ap (λ (a : Applicable). a.buf) same in
    (inl e, subst (λ c. base ≤ p.sequence1 c) (sym e) fresh)

applicable-IsFresh :
    (p : Parser) (base : ℕ) (logs : List Bytes) (l : Applicable)
    → In l (applicable p base logs)
    → IsFresh p base logs l.buf
unfolding applicable
applicable-IsFresh p base [] l i = elim i [ ]
applicable-IsFresh p base (b ∷ logs) l i = elim (applicable-cases p base b logs) [
  | inl e ↦
      let (listed, fresh) = applicable-IsFresh p base logs l (subst (In l) e i) in
      (inr listed, fresh)
  | inr (fresh, e) ↦ elim (subst (In l) e i) [
    | inl same ↦ first-IsFresh p base b logs l fresh same
    | inr later ↦
        let (listed, ahead) = applicable-IsFresh p base logs l later in (inr listed, ahead)
  ]
]

-- The base block names the last entry applied: its number twice, and its size of the hive bins.
-- With no entry the hive is handed back.
abbrev pub Names : Parser → Bytes → List Entry → Bytes → Type 0
Names p hive [] out = out ≡ hive
Names p hive (e ∷ es) out =
    (get_u32 out 4 ≡ number p e)
    × (get_u32 out 8 ≡ number p e)
    × (get_u32 out 0x28 ≡ p.hive_bins_data_size e.buf e.off)

-- The logs that are not behind the hive, as the replay reads them.
abbrev pub fresh_logs : Parser → Bytes → List Bytes → List Applicable
fresh_logs p hive logs = sort_logs (applicable p (p.sequence2 hive) logs)

-- The entries that the replay comes to, the last first: in each log, in the order of the logs' bases,
-- those in sequence from the log's start to the first that does not pass.
abbrev pub entries_of : Parser → Bytes → List Bytes → List Entry
entries_of p hive logs = collect_logs p true (fresh_logs p hive logs) 0 []

-- What the replay stands for: these entries laid over the hive.
pub record IsRecovered (p : Parser) (hive : Bytes) (logs : List Bytes) (out : Bytes) : Type 0 where
  pub genuine : All (IsGenuine p (fresh_logs p hive logs)) (entries_of p hive logs)
  pub from_logs :
      All (λ (e : Entry). IsFresh p (p.sequence2 hive) logs e.buf) (entries_of p hive logs)
  pub ordered : IsChain p (entries_of p hive logs)
  pub image :
      (i : ℕ)
      → 0x200 ≤ i
      → content out i ≡ overlay_entries p (entries_of p hive logs) (content hive) i
  pub named : Names p hive (entries_of p hive logs) out

module _ (p : Parser) (laws : ReadsRegf p) (reads : ReadsPages p) where
  genuine-IsFresh :
      (hive : Bytes) (logs : List Bytes) (es : List Entry)
      → All (IsGenuine p (fresh_logs p hive logs)) es
      → All (λ (e : Entry). IsFresh p (p.sequence2 hive) logs e.buf) es
  genuine-IsFresh hive logs [] h = tt
  genuine-IsFresh hive logs (e ∷ es) ((l, i, same, _), h) = (
    subst (IsFresh p (p.sequence2 hive) logs) (sym same)
        (applicable-IsFresh p (p.sequence2 hive) logs l (sort_logs-In l _ i)),
    genuine-IsFresh hive logs es h,
  )

  Latest-untouched :
      (hive : Bytes) (es : List Entry) (s : State)
      → s.applied ≡ false
      → Latest p hive es s
      → Names p hive es s.out
  Latest-untouched hive [] s h l = l.1
  Latest-untouched hive (e ∷ es) s h l = cc

  Latest-rewritten :
      (hive : Bytes) (es : List Entry) (s : State)
      → s.applied ≡ true
      → 0x1000 ≤ length s.out
      → Latest p hive es s
      → Names p hive es (rewrite_header s.out s.seq s.hbins s.flags)
  Latest-rewritten hive [] s h long l = cc
  Latest-rewritten hive (e ∷ es) s h long (_, seq, bins, _, _) =
      let seq_u32 : s.seq < 2 ^ 32 =
        subst (λ n. n < 2 ^ 32) (sym seq) (laws.sequence_number_u32 e.buf e.off) in
      let bins_u32 : s.hbins < 2 ^ 32 =
        subst (λ n. n < 2 ^ 32) (sym bins) (laws.hive_bins_data_size_u32 e.buf e.off) in
      (
        sequence1-rewrite_header s.out s.seq s.hbins s.flags long seq_u32 ∙ seq,
        sequence2-rewrite_header s.out s.seq s.hbins s.flags long seq_u32 ∙ seq,
        hbins-rewrite_header s.out s.seq s.hbins s.flags long bins_u32 ∙ bins,
      )

  Trail-IsRecovered :
      (hive : Bytes) (logs : List Bytes) (s : State) (out : Bytes)
      → (t : Trail p (fresh_logs p hive logs) hive s) → t.entries ≡ entries_of p hive logs
      → ((i : ℕ) → 0x200 ≤ i → content out i ≡ content s.out i)
      → ((es : List Entry) → Latest p hive es s → Names p hive es out)
      → IsRecovered p hive logs out
  Trail-IsRecovered hive logs s out t all same names = record {
    genuine = subst (All (IsGenuine p (fresh_logs p hive logs))) all t.genuine;
    from_logs =
        subst (All (λ (e : Entry). IsFresh p (p.sequence2 hive) logs e.buf)) all
          (genuine-IsFresh hive logs t.entries t.genuine);
    ordered = subst (IsChain p) all t.ordered;
    image = λ i h.
        same i h
        ∙ ap (λ (img : Image). img i) t.image
        ∙ ap (λ es. overlay_entries p es (content hive) i) all;
    named = names (entries_of p hive logs) (subst (λ es. Latest p hive es s) all t.latest);
  }

  -- Over a registry parser that reads the format (`ReadsRegf`) and of a page no more than its size,
  -- where `Replay` succeeds, its result is the hive with certain entries of the given logs laid over
  -- it: in each log that applies, in the order of their bases, all entries in sequence from its start
  -- to the first that does not pass. From byte 0x200 on, every byte is the one that the last entry
  -- covering it carries, or the hive's own (0 behind its end). Each of these entries stands in a log
  -- whose base is not behind the hive's second sequence number and passes every test of `replayLog` at
  -- its own number, their numbers each reach at least the successor of the one before, and both
  -- sequence numbers and the hive bins' size of the result's base block are those of the last one.
  -- With no such entry the result is the hive itself.
  pub replay-IsRecovered :
      (hive : Bytes) (logs : List Bytes) (out : Bytes)
      → replay p hive logs ≡ ok out
      → IsRecovered p hive logs out
  replay-IsRecovered hive logs out e =
      let g : IsGuarded p hive logs out = replay-IsGuarded p hive logs e in
      let s : State = g.end in
      let (_, (t, all, _)) =
        replay_logs-Ran p reads (fresh_logs p hive logs) hive true (fresh_logs p hive logs) [] 0
          (start hive) s (λ lg i. i) (λ _. refl) (start-Ran p reads (fresh_logs p hive logs) hive)
          g.ran in
      elim (finish-cases s g.finished) [
        | inl (nothing, same) ↦
            Trail-IsRecovered hive logs s out t all (λ i h. ap (λ b. content b i) same)
              (λ es l. subst (Names p hive es) (sym same) (Latest-untouched hive es s nothing l))
        | inr (applied, _, rewritten) ↦
            let long : 0x1000 ≤ length s.out =
              omega (arith, g.whole, (chain-Extends p hive logs g.ran).grows) in
            Trail-IsRecovered hive logs s out t all
              (λ i h.
                ap (λ b. content b i) rewritten
                ∙ get_or-rewrite_header s.out s.seq s.hbins s.flags i (inr (inr h)))
              (λ es l.
                subst (Names p hive es) (sym rewritten) (Latest-rewritten hive es s applied long l))
      ]

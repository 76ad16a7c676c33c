-- ===== src/Hive/Replay/Trail.antt =====
-- The entries that the replay has applied so far, and what its variables hold after them.
use amcache.Base.{
  ok, ℕ, ◌+◌, ◌%◌, ◌^◌, ◌≤◌, ◌<◌, true, false, ◌≡◌, refl, arith, List, [], ◌∷◌, In, All, inl, inr,
  ◌⊎◌, sym, ◌∙◌, ap,
}
use mathlib.Core.Path.{subst}
use amcache.Hive.Regf.{Bytes, Parser}
use amcache.Hive.Replay.{apply_pages, advance, State, Applicable, admissible, start}
use amcache.Hive.Replay.Entry.{admissible-IsAdmissible}
use amcache.Hive.Replay.Image.{Image, content, overlay_pages, ReadsPages, content-apply_pages}
use amcache.Hive.Replay.Steps.{Step, enter_log, apply_entry}

-- An entry of a log.
pub record Entry : Type 0 where
  pub buf : Bytes
  pub off : ℕ

abbrev pub number : Parser → Entry → ℕ
number p e = p.sequence_number e.buf e.off

-- The image after the entries, the last applied first.
abbrev pub overlay_entries : Parser → List Entry → Image → Image
overlay_entries p [] img = img
overlay_entries p (e ∷ es) img =
    overlay_pages p e.buf (p.get_dirty_pages e.buf e.off) (overlay_entries p es img)

-- Each entry's number is the one after its predecessor's, or beyond it.
abbrev pub IsChain : Parser → List Entry → Type 0
IsChain p [] = Unit
IsChain p (e ∷ []) = Unit
IsChain p (e ∷ f ∷ es) = ((number p f + 1) % 2 ^ 32 ≤ number p e) × IsChain p (f ∷ es)

-- The entry stands in one of the logs and passes every test.
abbrev pub IsGenuine : Parser → List Applicable → Entry → Type 0
IsGenuine p logs e =
    (lg : Applicable) × In lg logs
    × (e.buf ≡ lg.buf)
    × (admissible p e.buf e.off (number p e) ≡ true)

-- The variables after the entries.
abbrev pub Latest : Parser → Bytes → List Entry → State → Type 0
Latest p hive [] s = (s.applied ≡ false) × (s.out ≡ hive)
Latest p hive (e ∷ es) s =
    (s.applied ≡ true)
    × (s.seq ≡ number p e)
    × (s.hbins ≡ p.hive_bins_data_size e.buf e.off)
    × (s.flags ≡ p.flags e.buf e.off)
    × ((number p e + 1) % 2 ^ 32 ≤ s.expected)

-- What is known of the variables once some entries have been applied.
pub record Trail (p : Parser) (logs : List Applicable) (hive : Bytes) (s : State) : Type 0 where
  pub entries : List Entry
  pub image : content s.out ≡ overlay_entries p entries (content hive)
  pub ordered : IsChain p entries
  pub latest : Latest p hive entries s
  pub genuine : All (IsGenuine p logs) entries

module _ (p : Parser) (reads : ReadsPages p) (logs : List Applicable) (hive : Bytes) where
  entered-Latest :
      (es : List Entry) (s : State) (n : ℕ)
      → (s.applied ≡ false) ⊎ (s.expected < n)
      → Latest p hive es s
      → Latest p hive es (record s { expected = n })
  entered-Latest [] s n h l = l
  entered-Latest (e ∷ es) s n (inl fresh) l = cc
  entered-Latest (e ∷ es) s n (inr ahead) l = (l.0, l.1, l.2, l.3, omega arith)

  applied-IsChain :
      (e : Entry) (es : List Entry) (s : State)
      → number p e ≡ s.expected
      → Latest p hive es s
      → IsChain p es
      → IsChain p (e ∷ es)
  applied-IsChain e [] s at l c = tt
  applied-IsChain e (f ∷ es) s at l c = (omega arith, c)

  Step-Trail : {s t : State} → Step p logs s t → Trail p logs hive s → Trail p logs hive t
  Step-Trail {s} (enter_log lg h) r = record {
    entries = r.entries;
    image = r.image;
    ordered = r.ordered;
    latest = entered-Latest r.entries s lg.seq h r.latest;
    genuine = r.genuine;
  }
  Step-Trail {s} (apply_entry lg off out i passed done) r =
      let e : Entry = record { buf = lg.buf; off = off } in
      let at : number p e ≡ s.expected =
        (admissible-IsAdmissible p lg.buf off s.expected passed).in_sequence in
      record {
        entries = e ∷ r.entries;
        image =
            content-apply_pages p reads lg.buf (p.get_dirty_pages lg.buf off) s.out out done
            ∙ ap (overlay_pages p lg.buf (p.get_dirty_pages lg.buf off)) r.image;
        ordered = applied-IsChain e r.entries s at r.latest r.ordered;
        latest = (refl, refl, refl, refl, omega (arith, ap (λ n. (n + 1) % 2 ^ 32) at));
        genuine = (
          (lg, i, refl, subst (λ n. admissible p lg.buf off n ≡ true) (sym at) passed),
          r.genuine,
        );
      }

  start-Trail : Trail p logs hive (start hive)
  start-Trail = record {
    entries = [];
    image = refl;
    ordered = tt;
    latest = (refl, refl);
    genuine = tt;
  }

  -- The entries applied so far are these, and this is the next number.
  abbrev pub Ran : List Entry → ℕ → State → Type 0
  Ran es n s = (r : Trail p logs hive s) × (r.entries ≡ es) × (s.expected ≡ n)

  pub start-Ran : Ran [] 0 (start hive)
  unfolding start-Trail
  start-Ran = (start-Trail, refl, refl)

  pub enter_log-Ran :
      (lg : Applicable) (es : List Entry) (n : ℕ) (s : State)
      → (s.applied ≡ false) ⊎ (s.expected < lg.seq)
      → Ran es n s
      → Ran es lg.seq (record s { expected = lg.seq })
  unfolding Step-Trail
  enter_log-Ran lg es n s h (r, same, _) = (Step-Trail (enter_log lg h) r, same, refl)

  pub apply_entry-Ran :
      (lg : Applicable) (off : ℕ) (es : List Entry) (n : ℕ) (s : State) (out : Bytes)
      → In lg logs
      → admissible p lg.buf off n ≡ true
      → apply_pages p lg.buf s.out (p.get_dirty_pages lg.buf off) ≡ ok out
      → Ran es n s
      → Ran
          (record { buf = lg.buf; off = off } ∷ es)
          ((n + 1) % 2 ^ 32)
          (advance p lg.buf off out s)
  unfolding Step-Trail
  apply_entry-Ran lg off es n s out i passed done (r, same, at) = (
    Step-Trail
        (apply_entry lg off out i (subst (λ m. admissible p lg.buf off m ≡ true) (sym at) passed)
          done)
        r,
    ap (◌∷◌ (record { buf = lg.buf; off = off })) same,
    ap (λ m. (m + 1) % 2 ^ 32) at,
  )

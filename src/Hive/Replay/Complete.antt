-- ===== src/Hive/Replay/Complete.antt =====
-- The replay applies every entry that it comes to, from the start of each log to the first that does not
-- pass: which entries these are does not depend on what they do to the hive.
use amcache.Base.{
  ℕ, zero, suc, ◌+◌, ◌%◌, ◌^◌, Bool, true, false, ◌&&◌, ◌||◌, ◌≡◌, refl, if◌then◌else◌, ltb, length,
  ok, arith, List, [], ◌∷◌, In, inl, inr, Bool-cases, Result-cases, ok_injective, ok-ne-err,
  >>=-eq-ok, and_right, sym, ap, ◌∙◌,
}
use mathlib.Core.Path.{subst}
use amcache.Hive.Regf.{Bytes, Parser}
use amcache.Hive.Replay.{
  State, Applicable, apply_pages, admissible, replay_log, replay_logs, advance, enter,
}
use amcache.Hive.Replay.Image.{ReadsPages}
use amcache.Hive.Replay.Trail.{Entry, Ran, enter_log-Ran, apply_entry-Ran}

-- The entries of one log from an offset on that carry the numbers from `n` on and pass every test, in
-- front of those found before, and the number after the last. The fuel is that of the replay.
unfoldable pub collect_log : Parser → ℕ → Bytes → ℕ → ℕ → List Entry → List Entry × ℕ
collect_log p zero buf off n es = (es, n)
collect_log p (suc fuel) buf off n es =
    let found = record { buf = buf; off = off } ∷ es in
    let rest = collect_log p fuel buf (off + p.log_entry_size buf off) ((n + 1) % 2 ^ 32) found in
    if ltb off (length buf) && admissible p buf off n then rest else (es, n)

-- Where the chain goes on in a log.
abbrev pub next_number : Bool → Applicable → ℕ → ℕ
next_number first lg n = if first || ltb n lg.seq then lg.seq else n

-- The entries of the logs, one log after the other.
unfoldable pub collect_logs : Parser → Bool → List Applicable → ℕ → List Entry → List Entry
collect_logs p first [] n es = es
collect_logs p first (lg ∷ ready) n es =
    let got = collect_log p (suc (length lg.buf)) lg.buf 0x200 (next_number first lg n) es in
    collect_logs p false ready got.1 got.0

module _ (p : Parser) (fuel : ℕ) (buf : Bytes) (off n : ℕ) (es : List Entry) where
  collect_log-stop :
      (ltb off (length buf) && admissible p buf off n) ≡ false
      → collect_log p (suc fuel) buf off n es ≡ (es, n)
  unfolding collect_log
  collect_log-stop h = rw (h, collect_log) refl

  collect_log-go :
      (ltb off (length buf) && admissible p buf off n) ≡ true
      → collect_log p (suc fuel) buf off n es
        ≡ collect_log p fuel buf
            (off + p.log_entry_size buf off)
            ((n + 1) % 2 ^ 32)
            (record { buf = buf; off = off } ∷ es)
  unfolding collect_log
  collect_log-go h = rw (h, collect_log) refl

module _ (p : Parser) (reads : ReadsPages p) (logs : List Applicable) (hive : Bytes) where
  abbrev Here : List Entry × ℕ → State → Type 0
  Here got s = Ran p reads logs hive got.0 got.1 s

  replay_log-Ran :
      (lg : Applicable) (fuel off : ℕ) (es : List Entry) (n : ℕ) (s s' : State)
      → In lg logs
      → Ran p reads logs hive es n s
      → replay_log p fuel lg.buf off s ≡ ok s'
      → Here (collect_log p fuel lg.buf off n es) s'
  unfolding replay_log
  replay_log-Ran lg zero off es n s s' i r e = cc
  replay_log-Ran lg (suc fuel) off es n s s' i r e =
      let at : s.expected ≡ n = r.2 in
      elim (Bool-cases (ltb off (length lg.buf) && admissible p lg.buf off n)) [
        | inr stop ↦
            let same : s ≡ s' = ok_injective (rw (at, stop, replay_log) at e) in
            subst (λ got. Here got s') (sym (collect_log-stop p fuel lg.buf off n es stop))
              (subst (Ran p reads logs hive es n) same r)
        | inl go ↦ elim (Result-cases (apply_pages p lg.buf s.out (p.get_dirty_pages lg.buf off))) [
          | inr (bad, failed) ↦ absurd (ok-ne-err _ _ (sym (rw (at, go, failed, replay_log) at e)))
          | inl (out, done) ↦
              subst (λ got. Here got s') (sym (collect_log-go p fuel lg.buf off n es go))
                (replay_log-Ran lg fuel (off + p.log_entry_size lg.buf off)
                  (record { buf = lg.buf; off = off } ∷ es) ((n + 1) % 2 ^ 32)
                  (advance p lg.buf off out s) s' i
                  (apply_entry-Ran p reads logs hive lg off es n s out i (and_right _ _ go) done r)
                  (rw (at, go, done, replay_log) at e))
        ]
      ]

  enter-Ran :
      (first : Bool) (lg : Applicable) (es : List Entry) (n : ℕ) (s : State)
      → (first ≡ true → s.applied ≡ false)
      → Ran p reads logs hive es n s
      → Ran p reads logs hive es (next_number first lg n) (enter first lg s)
  enter-Ran true lg es n s h r = enter_log-Ran p reads logs hive lg es n s (inl (h refl)) r
  enter-Ran false lg es n s h r =
      let at : s.expected ≡ n = r.2 in
      elim (Bool-cases (ltb n lg.seq)) [
        | inl ahead ↦
            rw (ap (λ k. ltb k lg.seq) at ∙ ahead, ahead)
              (enter_log-Ran p reads logs hive lg es n s (inr (ground (arith, at, ahead))) r)
        | inr behind ↦ rw (ap (λ k. ltb k lg.seq) at ∙ behind, behind) r
      ]

  -- What the loops end in has applied exactly these entries.
  pub replay_logs-Ran :
      (first : Bool) (ready : List Applicable) (es : List Entry) (n : ℕ) (s s' : State)
      → ((lg : Applicable) → In lg ready → In lg logs)
      → (first ≡ true → s.applied ≡ false)
      → Ran p reads logs hive es n s
      → replay_logs p first ready s ≡ ok s'
      → (m : ℕ) × Ran p reads logs hive (collect_logs p first ready n es) m s'
  unfolding replay_logs collect_logs
  replay_logs-Ran first [] es n s s' among fresh r e =
      (n, subst (Ran p reads logs hive es n) (ok_injective e) r)
  replay_logs-Ran first (lg ∷ ready) es n s s' among fresh r e =
      let (s1, ran, rest) = >>=-eq-ok _ (replay_logs p false ready) e in
      let got = collect_log p (suc (length lg.buf)) lg.buf 0x200 (next_number first lg n) es in
      replay_logs-Ran false ready got.0 got.1 s1 s' (λ l i. among l (inr i)) (λ h. cc)
        (replay_log-Ran lg (suc (length lg.buf)) 0x200 es (next_number first lg n)
          (enter first lg s) s1 (among lg (inl refl)) (enter-Ran first lg es n s fresh r) ran)
        rest
